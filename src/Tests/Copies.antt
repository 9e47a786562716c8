-- ===== src/Tests/Copies.antt =====
-- Ten bytes through the link between components 16 and 32, and the restart of component 32 at its
-- end of it.
use z_ipc.Base.{ℕ, true, false, [], ◌∷◌, ◌≡◌, refl, arith, List}
use z_ipc.Status.{ok, is_ok, component_id_valid, Status}
use z_ipc.Handle.{
  handle_slot_id, handle_generation, component_lifecycle_state, component_lifecycle_epoch,
  component_lifecycle_make, claim_token_make,
}
use z_ipc.State.{World, buffer_invalid}
use z_ipc.Platform.{protect_slot, tick}
use z_ipc.Component.{
  registered_epoch, component_epoch_current, Restart, component_restart_begin, restart_zero,
  component_epoch_recovering,
}
use z_ipc.Buffer.{buffer_owned, buffer_valid}
use z_ipc.Buffer.Window.Laws.{IsView}
use z_ipc.Protocol.Transfer.{
  sent_slot, commit_transfer, transfer_claimed, transfer_claim, buffer_prepare_transfer_internal,
}
use z_ipc.Trace.{trace_slot}
use z_ipc.Ring.{ring_push, already_queued}
use z_ipc.Linux.{Endpoint}
use z_ipc.Linux.Calls.{linux_transport, transport_send, send_as}
use z_ipc.Linux.Queue.{IsPolling, queue_of}
use z_ipc.Link.{Link, epoch_stale}
use z_ipc.Link.Send.{link_send, settle_send}
use z_ipc.Link.Receive.Delivery.{link_recv_lem, Receiving, deliver}
use z_ipc.Link.Receive.{link_recv}
use z_ipc.Link.Copy.{send_filled, recv_copy}
use z_ipc.Link.Copy.RoundTrip.{recv_copy-send_filled, Received, filled}
use z_ipc.Link.Reconcile.{RecoveryRing, link_reconcile}
use z_ipc.Link.Reconcile.Whole.{Reconciled, link_reconcile_lem, IsReconcilable}
use z_ipc.Tests.{platform, world_owned, world_sent, buffer_view}
use z_ipc.Tests.Links.{
  link_sender, link_receiver, endpoint, os_quiet, queue_is, IsPolling-endpoint, IsAnchored-view,
  IsRing-empty, world_after, receiver_current,
}

abbrev bytes : List ℕ
bytes = 9 ∷ 8 ∷ 7 ∷ 6 ∷ 5 ∷ 4 ∷ 3 ∷ 2 ∷ 1 ∷ 0 ∷ []

abbrev world_filled : World
world_filled = filled world_owned buffer_view bytes

abbrev copied : Status × Endpoint × World
copied =
    send_filled (linux_transport os_quiet 8) platform link_sender bytes buffer_view endpoint
      world_owned

copy_runs :
    send_filled
      (linux_transport os_quiet 8)
      platform
      link_sender
      bytes
      buffer_view
      endpoint
      world_owned
    ≡ (ok, copied.1, copied.2)
unfolding send_filled link_send settle_send transport_send send_as ring_push already_queued
    buffer_owned buffer_valid component_epoch_current buffer_prepare_transfer_internal
    transfer_claim transfer_claimed commit_transfer sent_slot component_id_valid registered_epoch
    component_lifecycle_state component_lifecycle_epoch protect_slot handle_slot_id
    handle_generation claim_token_make
copy_runs = refl

view_filled : IsView world_filled buffer_view
unfolding buffer_owned buffer_valid registered_epoch component_id_valid component_lifecycle_state
    component_lifecycle_epoch handle_generation
view_filled = record {
  is_mine = refl;
  small = omega arith;
  fits = omega arith;
  same_length = refl;
  same_start = refl;
}

receiver_current_copied : epoch_stale copied.2 link_receiver ≡ false
unfolding send_filled link_send settle_send transport_send send_as ring_push already_queued
    buffer_owned buffer_valid component_epoch_current buffer_prepare_transfer_internal
    transfer_claim transfer_claimed commit_transfer sent_slot component_id_valid registered_epoch
    component_lifecycle_state component_lifecycle_epoch protect_slot handle_slot_id
    handle_generation claim_token_make trace_slot
receiver_current_copied = refl

copied_opens : is_ok (protect_slot platform (tick copied.2) 0 true).0 ≡ true
unfolding send_filled link_send settle_send transport_send send_as ring_push already_queued
    buffer_owned buffer_valid component_epoch_current buffer_prepare_transfer_internal
    transfer_claim transfer_claimed commit_transfer sent_slot component_id_valid registered_epoch
    component_lifecycle_state component_lifecycle_epoch protect_slot handle_slot_id
    handle_generation claim_token_make trace_slot
copied_opens = refl

recv_copy-send_filled_example :
    Received bytes
      (recv_copy (linux_transport os_quiet 8) platform link_receiver 2 16 copied.1 copied.2)
unfolding handle_slot_id
recv_copy-send_filled_example =
    recv_copy-send_filled (linux_transport os_quiet 8) IsPolling queue_of queue_is platform
      link_sender link_receiver buffer_view bytes endpoint world_owned copied.1 copied.2 2 16
      IsPolling-endpoint refl copy_runs view_filled IsAnchored-view (omega arith) refl (omega arith)
      (omega arith) (omega arith) refl refl receiver_current_copied refl copied_opens (omega arith)
      (omega arith)

link_recv_lem_example :
    Receiving
      (linux_transport os_quiet 8)
      IsPolling
      queue_of
      queue_is
      platform
      link_receiver
      (deliver platform link_receiver (queue_of endpoint) buffer_invalid world_after)
      (link_recv
        (linux_transport os_quiet 8)
        platform
        link_receiver
        1
        buffer_invalid
        endpoint
        world_after)
link_recv_lem_example =
    link_recv_lem (linux_transport os_quiet 8) IsPolling queue_of queue_is platform link_receiver 1
      buffer_invalid endpoint world_after IsPolling-endpoint (omega arith) receiver_current

abbrev restarted : Status × Restart × World
restarted = component_restart_begin platform world_sent 32 1 restart_zero

abbrev link_restarted : Link
link_restarted = record link_receiver { local_epoch = 2 }

abbrev ring_access : RecoveryRing Endpoint
ring_access = record { ring = λ t. t.ring; with_ring = λ t r. record t { ring = r } }

IsReconcilable-restarted : IsReconcilable link_restarted restarted.1 restarted.2
unfolding component_restart_begin component_epoch_recovering component_id_valid
    component_lifecycle_make component_lifecycle_epoch component_lifecycle_state
IsReconcilable-restarted = record {
  attached = refl;
  component = refl;
  epoch = refl;
  link_id = refl;
  next_epoch = refl;
  recovering = refl;
  ring_based = refl;
  role = refl;
  has_recovery_ring = refl;
}

link_reconcile_lem_example :
    Reconciled
      (linux_transport os_quiet 8)
      ring_access
      platform
      link_restarted
      restarted.1
      endpoint
      restarted.2
      (link_reconcile
        (linux_transport os_quiet 8)
        ring_access
        platform
        link_restarted
        1
        restarted.1
        0
        endpoint
        restarted.2)
link_reconcile_lem_example =
    link_reconcile_lem (linux_transport os_quiet 8) ring_access platform link_restarted restarted.1
      endpoint restarted.2 1 (λ u r. refl) IsRing-empty (omega arith) 0 IsReconcilable-restarted
