-- ===== src/Tests/Links.antt =====
-- A link from component 16 to component 32 over a polling ring on a platform whose other side does
-- nothing while a call waits.
use native.Mathlib.Nat.{dvd_of_mod-eq-zero}
use z_ipc.Base.{true, false, none, ◌≡◌, refl, arith, ◌^◌, ◌-◌}
use z_ipc.Status.{is_ok, ok, component_id_valid}
use z_ipc.Handle.{
  handle_slot_id, handle_generation, component_lifecycle_state, component_lifecycle_epoch,
  claim_token_make,
}
use z_ipc.State.{World, buffer_invalid}
use z_ipc.Platform.{tick, protect_slot}
use z_ipc.Component.{registered_epoch, component_epoch_current}
use z_ipc.Buffer.{buffer_owned, buffer_valid}
use z_ipc.Protocol.Transfer.{
  sent_slot, commit_transfer, transfer_claimed, transfer_claim, buffer_prepare_transfer_internal,
}
use z_ipc.Ring.{already_queued, Ring, ring_push}
use z_ipc.Ring.Laws.{IsRing}
use z_ipc.Transport.Queue.{IsQueue}
use z_ipc.Linux.{Os, Endpoint, whole, shm_ring_polling}
use z_ipc.Linux.Calls.{
  linux_transport, transport_send, send_as, transport_receive_begin, transport_receive,
}
use z_ipc.Linux.Polling.{transport_receive_ends, Ends, begin_status, receive_status}
use z_ipc.Linux.Queue.{polling-IsQueue, IsPolling, queue_of}
use z_ipc.Link.{epoch_stale, Link, producer, consumer}
use z_ipc.Link.Send.{link_send, settle_send}
use z_ipc.Link.Send.Laws.{IsAnchored}
use z_ipc.Tests.{platform, world_owned, buffer_view, message_none}
use z_ipc.Buffer.Window.Laws.{IsView}
use z_ipc.Link.Exchange.{link_recv-link_send, Arrived}
use z_ipc.Trace.{trace_slot}
use z_ipc.Link.Receive.{link_recv}

abbrev pub link_sender : Link
link_sender = record {
  local_component = 16;
  remote_component = 32;
  link_id = 5;
  local_epoch = 1;
  role = producer;
  ring_based = true;
  has_recovery_ring = true;
  hop_limit = 2 ^ 32 - 1;
  default_deadline_ns = 0;
  timeout_ticks = 0;
}

abbrev pub link_receiver : Link
link_receiver = record link_sender { local_component = 32; remote_component = 16; role = consumer }

abbrev pub os_quiet : Os
os_quiet = record {
  time_ns = λ call. call;
  write = λ call message. whole;
  read = λ call. none;
  signal = λ call. true;
  await = λ call. false;
  notify = λ call. ok;
  await_notice = λ call. ok;
  secure_call = λ call message. (ok, message);
  peer = λ call r. r;
  peer_mailbox = λ call message. message;
}

abbrev ring_empty : Ring
ring_empty = record {
  producer = 2 ^ 32 - 1;
  consumer = 2 ^ 32 - 1;
  depth = 4;
  entries = λ i. message_none;
}

abbrev pub endpoint : Endpoint
endpoint = record {
  kind = shm_ring_polling;
  address = 1;
  ring = ring_empty;
  timeout_ns = 3;
  mailbox = message_none;
  response = message_none;
  response_pending = false;
  calls = 0;
}

pub IsRing-empty : IsRing ring_empty
IsRing-empty = record {
  deep = omega arith;
  depth_word = omega arith;
  divides = dvd_of_mod-eq-zero 4 refl;
  producer_word = omega arith;
  consumer_word = omega arith;
  bounded = omega arith;
}

pub IsPolling-endpoint : IsPolling endpoint
IsPolling-endpoint = record { kind = refl; ring = IsRing-empty }

transport_receive_ends_example :
    Ends begin_status (transport_receive_begin os_quiet 3 message_none endpoint)
    × Ends receive_status (transport_receive os_quiet 3 message_none endpoint)
transport_receive_ends_example =
    transport_receive_ends os_quiet 2 3 message_none endpoint refl (ground arith) (omega arith)
      (omega arith)

polling-IsQueue_example : IsQueue (linux_transport os_quiet 1) IsPolling queue_of
polling-IsQueue_example = polling-IsQueue os_quiet (λ n r. refl) 0

pub IsAnchored-view : IsAnchored buffer_view
unfolding handle_slot_id
IsAnchored-view = record { control = refl; index = refl }

abbrev pub queue_is : IsQueue (linux_transport os_quiet 8) IsPolling queue_of
queue_is = polling-IsQueue os_quiet (λ n r. refl) 7

abbrev pub endpoint_sent : Endpoint
endpoint_sent =
    (link_send (linux_transport os_quiet 8) platform link_sender buffer_view endpoint world_owned).2

abbrev pub world_after : World
world_after =
    (link_send (linux_transport os_quiet 8) platform link_sender buffer_view endpoint world_owned).3

send_runs :
    link_send (linux_transport os_quiet 8) platform link_sender buffer_view endpoint world_owned
    ≡ (ok, buffer_invalid, endpoint_sent, world_after)
unfolding link_send settle_send transport_send send_as ring_push buffer_owned buffer_valid
    component_epoch_current buffer_prepare_transfer_internal transfer_claim transfer_claimed
    commit_transfer sent_slot component_id_valid registered_epoch component_lifecycle_state
    component_lifecycle_epoch protect_slot handle_slot_id handle_generation claim_token_make
    already_queued
send_runs = refl

view : IsView world_owned buffer_view
unfolding buffer_owned buffer_valid registered_epoch component_id_valid component_lifecycle_state
    component_lifecycle_epoch handle_generation
view = record {
  is_mine = refl;
  small = omega arith;
  fits = omega arith;
  same_length = refl;
  same_start = refl;
}

pub receiver_current : epoch_stale world_after link_receiver ≡ false
unfolding link_send settle_send transport_send send_as ring_push already_queued buffer_owned
    buffer_valid component_epoch_current buffer_prepare_transfer_internal transfer_claim
    transfer_claimed commit_transfer sent_slot component_id_valid registered_epoch
    component_lifecycle_state component_lifecycle_epoch protect_slot handle_slot_id
    handle_generation claim_token_make trace_slot
receiver_current = refl

world_after_opens : is_ok (protect_slot platform (tick world_after) 0 true).0 ≡ true
unfolding link_send settle_send transport_send send_as ring_push already_queued buffer_owned
    buffer_valid component_epoch_current buffer_prepare_transfer_internal transfer_claim
    transfer_claimed commit_transfer sent_slot component_id_valid registered_epoch
    component_lifecycle_state component_lifecycle_epoch protect_slot handle_slot_id
    handle_generation claim_token_make trace_slot
world_after_opens = refl

link_recv-link_send_example :
    Arrived
      (linux_transport os_quiet 8)
      IsPolling
      queue_of
      queue_is
      platform
      link_sender
      link_receiver
      buffer_view
      endpoint
      world_owned
      (link_recv
        (linux_transport os_quiet 8)
        platform
        link_receiver
        2
        buffer_invalid
        endpoint_sent
        world_after)
unfolding handle_slot_id
link_recv-link_send_example =
    link_recv-link_send (linux_transport os_quiet 8) IsPolling queue_of queue_is platform
      link_sender link_receiver buffer_view endpoint world_owned buffer_invalid buffer_invalid
      endpoint_sent world_after 2 IsPolling-endpoint refl send_runs view IsAnchored-view
      (omega arith) (omega arith) (omega arith) (omega arith) refl refl receiver_current refl
      world_after_opens (omega arith)
