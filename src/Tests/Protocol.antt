-- ===== src/Tests/Protocol.antt =====
-- The laws of the single operations on the small pool.
use z_ipc.Protocol.Allocate.{
  fresh_slot, publish_allocation, view_allocation, open_allocation, name_allocation, try_slot,
  allocate_scan, buffer_allocate_internal, Request,
}
use z_ipc.Protocol.Allocate.Laws.{buffer_allocate_total, Allocation, IsRequest, IsSized}
use z_ipc.Status.{ok, no_buffer, is_ok, Status, component_id_valid}
use z_ipc.Identity.Laws.{IsQuiet}
use z_ipc.State.{buffer_invalid, World, Buffer}
use z_ipc.Base.{none, ◌↔◌, refl, some, ◌≡◌, inl, arith, true, ℕ}
use z_ipc.Protocol.Transfer.Laws.{buffer_prepare_transfer_lem, Transfer}
use z_ipc.Protocol.Claim.Laws.{Claim}
use z_ipc.Protocol.Release.Laws.{
  pool_buffer_release_iff, CanRelease, pool_buffer_release_lem, Release,
}
use z_ipc.Tests.{
  world_owned, world_sent, message_none, message_sent, handle_owned, platform, world_free,
}
use z_ipc.Protocol.Allocate.Scan.{takeable}
use z_ipc.Protocol.Transfer.{buffer_prepare_transfer_internal}
use z_ipc.Protocol.Claim.{buffer_claim}
use z_ipc.Protocol.Release.{pool_buffer_release}
use z_ipc.Handle.{
  claim_token_make, buffer_id_make, handle_make, component_lifecycle_epoch,
  component_lifecycle_state, handle_generation, handle_slot_id,
}
use z_ipc.Protocol.Ownership.Stale.{buffer_allocate_stales, IsStale}
use z_ipc.Protocol.Claim.Conditions.{buffer_claim_iff, CanClaim}
use z_ipc.Buffer.{make_view}
use z_ipc.Identity.{random_session, rotated, generate_round, generate_rounds, generate_buffer_id}
use z_ipc.Component.{registered_epoch}
use z_ipc.Platform.{protect_slot}
use z_ipc.Trace.{trace_slot}
use z_ipc.Protocol.Transfer.Conditions.{buffer_prepare_transfer_iff, CanSend}

abbrev request : Request
request = record {
  allocator = 16;
  parent_id = 0;
  offset = 8;
  length = 4;
  owner_epoch = 0;
  hop_limit = 0;
  deadline_duration_ns = 500;
  enable_payload = true;
}

sized : IsSized world_free
sized = record { some_slots = omega arith; few_slots = omega arith; small_slots = omega arith }

acceptable : IsRequest world_free request
unfolding component_id_valid
acceptable = record { allocator_valid = refl; parent_valid = inl refl; region_fits = omega arith }

quiet : IsQuiet world_free 16
quiet = record { still = refl; alone = refl; in_range = omega arith }

buffer_allocate_total_example :
    (r : Status × Buffer × World) × (buffer_allocate_internal platform request buffer_invalid
        world_free
      ≡ some r)
    × Allocation request buffer_invalid world_free r
buffer_allocate_total_example =
    buffer_allocate_total platform request buffer_invalid world_free sized acceptable quiet

-- What the allocation returns.
abbrev allocated : Status × Buffer × World
unfolding buffer_allocate_internal allocate_scan try_slot name_allocation open_allocation
    view_allocation publish_allocation
allocated = elim (buffer_allocate_internal platform request buffer_invalid world_free) [
  | some r ↦ r
  | none ↦ (no_buffer, buffer_invalid, world_free)
]

abbrev allocated_view : Buffer
allocated_view = allocated.1

abbrev allocated_world : World
allocated_world = allocated.2

allocation_runs :
    buffer_allocate_internal platform request buffer_invalid world_free
    ≡ some (ok, allocated_view, allocated_world)
unfolding buffer_allocate_internal allocate_scan try_slot name_allocation open_allocation
    view_allocation publish_allocation fresh_slot make_view generate_buffer_id generate_rounds
    generate_round rotated random_session registered_epoch component_lifecycle_state
    component_lifecycle_epoch component_id_valid protect_slot trace_slot handle_make buffer_id_make
    claim_token_make
allocation_runs = refl

buffer_allocate_stales_example :
    (slot_id : ℕ) × (takeable (world_free.pool.controls slot_id) ≡ true)
    × ((allocated_world.pool.controls slot_id).owner_id ≡ 16)
    × ((handle : ℕ)
        → handle_slot_id handle ≡ slot_id
        → handle_generation handle ≡ (world_free.pool.controls slot_id).generation
        → IsStale platform allocated_world handle)
buffer_allocate_stales_example =
    buffer_allocate_stales platform request buffer_invalid world_free sized acceptable quiet
      allocated_view allocated_world allocation_runs

buffer_prepare_transfer_lem_example :
    Transfer platform handle_owned 16 32 5 message_none world_owned
      (buffer_prepare_transfer_internal platform handle_owned 16 32 5 message_none world_owned)
buffer_prepare_transfer_lem_example =
    buffer_prepare_transfer_lem platform handle_owned 16 32 5 message_none world_owned

buffer_prepare_transfer_iff_example :
    (is_ok
        (buffer_prepare_transfer_internal platform handle_owned 16 32 5 message_none world_owned).0
      ≡ true)
    ↔ CanSend platform handle_owned 16 32 5 world_owned
buffer_prepare_transfer_iff_example =
    buffer_prepare_transfer_iff platform handle_owned 16 32 5 message_none world_owned

buffer_claim_iff_example :
    (is_ok (buffer_claim platform message_sent 32 buffer_invalid world_sent).0 ≡ true)
    ↔ CanClaim platform message_sent 32 world_sent
buffer_claim_iff_example =
    buffer_claim_iff platform message_sent 32 buffer_invalid world_sent (omega arith)

pool_buffer_release_lem_example :
    Release platform handle_owned 16 world_owned
      (pool_buffer_release platform handle_owned 16 world_owned)
pool_buffer_release_lem_example = pool_buffer_release_lem platform handle_owned 16 world_owned

pool_buffer_release_iff_example :
    (is_ok (pool_buffer_release platform handle_owned 16 world_owned).0 ≡ true)
    ↔ CanRelease platform handle_owned 16 world_owned
pool_buffer_release_iff_example = pool_buffer_release_iff platform handle_owned 16 world_owned
