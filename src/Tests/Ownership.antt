-- ===== src/Tests/Ownership.antt =====
-- The laws across operations on the small pool.
use z_ipc.State.{Buffer, buffer_invalid, Message, World}
use z_ipc.Protocol.Transfer.{
  sent_slot, commit_transfer, transfer_claimed, transfer_claim, buffer_prepare_transfer_internal,
}
use z_ipc.Status.{ok, component_id_valid, is_ok}
use z_ipc.Handle.{
  claim_token_make, component_lifecycle_epoch, component_lifecycle_state, handle_generation,
  handle_slot_id,
}
use z_ipc.Protocol.Ownership.{
  buffer_prepare_transfer_hands_over, buffer_claim_once, pool_buffer_release_final,
  buffer_claim-prepare_transfer, NoMessage, NoHolder,
}
use z_ipc.Protocol.Release.{release_claimed, release_claim, pool_buffer_release}
use z_ipc.Protocol.Claim.{received_slot, commit_claim, claim_claimed, claim_slot, buffer_claim}
use z_ipc.Buffer.{make_view, buffer_valid, buffer_owned}
use z_ipc.Tests.{
  world_sent, buffer_view, world_owned, message_sent, message_none, handle_owned, platform,
}
use z_ipc.Base.{false, arith, ◌≢◌, ap, refl, ℕ, true, ◌≡◌}
use z_ipc.Component.{registered_epoch}
use z_ipc.Platform.{tick, protect_slot}
use z_ipc.Trace.{trace_slot}

abbrev sent_world : World
sent_world =
    (buffer_prepare_transfer_internal platform handle_owned 16 32 5 message_none world_owned).2

transfer_runs :
    buffer_prepare_transfer_internal platform handle_owned 16 32 5 message_none world_owned
    ≡ (ok, message_sent, sent_world)
unfolding buffer_prepare_transfer_internal transfer_claim transfer_claimed commit_transfer sent_slot
    component_id_valid registered_epoch component_lifecycle_state component_lifecycle_epoch
    protect_slot handle_slot_id handle_generation claim_token_make
transfer_runs = refl

transfer_is_ok :
    is_ok
      (buffer_prepare_transfer_internal platform handle_owned 16 32 5 message_none world_owned).0
    ≡ true
transfer_is_ok = ap (λ r. is_ok r.0) transfer_runs

sent_world_opens : is_ok (protect_slot platform (tick sent_world) 0 true).0 ≡ true
unfolding buffer_prepare_transfer_internal transfer_claim transfer_claimed commit_transfer sent_slot
    component_id_valid registered_epoch component_lifecycle_state component_lifecycle_epoch
    protect_slot handle_slot_id handle_generation claim_token_make trace_slot
sent_world_opens = refl

slot_zero : handle_slot_id handle_owned ≡ 0
unfolding handle_slot_id
slot_zero = refl

-- The transfer's world, some platform calls later.
abbrev later_world : World
later_world = record sent_world { calls = 99 }

buffer_prepare_transfer_hands_over_example :
    NoHolder platform later_world (handle_slot_id handle_owned)
    × ((other : Message) (receiver : ℕ) (buffer : Buffer)
        → handle_slot_id other.handle ≡ handle_slot_id handle_owned
        → receiver ≢ 32
        → is_ok (buffer_claim platform other receiver buffer later_world).0 ≡ false)
buffer_prepare_transfer_hands_over_example =
    buffer_prepare_transfer_hands_over platform handle_owned 16 32 5 message_none world_owned
      later_world transfer_is_ok refl

buffer_claim-prepare_transfer_example :
    is_ok (buffer_claim platform message_sent 32 buffer_invalid sent_world).0 ≡ true
unfolding handle_slot_id
buffer_claim-prepare_transfer_example =
    buffer_claim-prepare_transfer platform handle_owned 16 32 5 world_owned sent_world message_sent
      message_none buffer_invalid transfer_runs (omega arith) (omega arith) refl sent_world_opens

release_is_ok : is_ok (pool_buffer_release platform handle_owned 16 world_owned).0 ≡ true
unfolding pool_buffer_release release_claim release_claimed component_id_valid registered_epoch
    component_lifecycle_state component_lifecycle_epoch protect_slot handle_slot_id
    handle_generation claim_token_make
release_is_ok = refl

pool_buffer_release_final_example :
    NoHolder platform
      (pool_buffer_release platform handle_owned 16 world_owned).1
      (handle_slot_id handle_owned)
    × NoMessage platform
        (pool_buffer_release platform handle_owned 16 world_owned).1
        (handle_slot_id handle_owned)
pool_buffer_release_final_example =
    pool_buffer_release_final platform handle_owned 16 world_owned release_is_ok

claim_is_ok : is_ok (buffer_claim platform message_sent 32 buffer_invalid world_sent).0 ≡ true
unfolding buffer_claim claim_slot claim_claimed commit_claim received_slot make_view
    component_id_valid registered_epoch component_lifecycle_state component_lifecycle_epoch
    protect_slot handle_slot_id handle_generation claim_token_make
claim_is_ok = refl

buffer_claim_once_example :
    (buffer_owned
        (buffer_claim platform message_sent 32 buffer_invalid world_sent).2
        (buffer_claim platform message_sent 32 buffer_invalid world_sent).1
      ≡ true)
    × NoMessage platform
        (buffer_claim platform message_sent 32 buffer_invalid world_sent).2
        (handle_slot_id message_sent.handle)
buffer_claim_once_example =
    buffer_claim_once platform message_sent 32 buffer_invalid world_sent (omega arith) claim_is_ok

view_is_owned : buffer_owned world_owned buffer_view ≡ true
unfolding buffer_owned buffer_valid registered_epoch component_id_valid component_lifecycle_state
    component_lifecycle_epoch handle_generation
view_is_owned = refl
