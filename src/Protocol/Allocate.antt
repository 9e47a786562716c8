-- ===== src/Protocol/Allocate.antt =====
-- `buffer_allocate_internal` and `zipc_buffer_allocate` of src/core/zipc.c.
pub mod Slots
pub mod Scan
pub mod Laws
use z_ipc.State.{
  trace_zero, region_zero, clear_claim_token, cas_state, visited_zero, cas_token, put_slot,
  buffer_invalid, Slot, Region, Buffer, World,
}
use z_ipc.Base.{
  ltb, zero, ◌&&◌, ◌+◌, leb, suc, not, ◌||◌, none, ◌%◌, true, false, ◌==◌, some, Option,
  if◌then◌else◌, Bool, ℕ,
}
use z_ipc.Status.{
  invalid_argument, deadline_none, is_free, component_id_valid, claiming, ok, free, owned,
  no_buffer, is_ok, hop_limit_unlimited, allocated, error, invalid_component_id, Status,
}
use z_ipc.Platform.{tick, now_ns, protect_slot, Platform}
use z_ipc.Protocol.Common.{
  with_header, free_claiming_slot, give_back, count_allocation_failure, next_generation,
}
use z_ipc.Trace.{trace_slot}
use z_ipc.Buffer.{make_view}
use z_ipc.Handle.{buffer_id_valid, allocate, handle_make, claim_token_make}
use z_ipc.VisitedSet.{visited_set_add}
use z_ipc.Component.{registered_epoch}
use z_ipc.Word.{sub32, u64, sub64, u32}
use z_ipc.Identity.{generate_buffer_id}

-- The arguments of `buffer_allocate_internal` but the pool and the buffer.
pub record Request : Type 0 where
  pub allocator : ℕ
  pub parent_id : ℕ
  pub offset : ℕ
  pub length : ℕ
  pub owner_epoch : ℕ
  pub hop_limit : ℕ
  pub deadline_duration_ns : ℕ
  pub enable_payload : Bool

-- The slot as it is written under the claim, at the time `now`, before it is named.
unfoldable pub fresh_slot : Request → ℕ → ℕ → Slot → Slot
fresh_slot q epoch now s = record s {
  generation = next_generation s.generation;
  owner_id = q.allocator;
  next_owner_id = invalid_component_id;
  owner_epoch = epoch;
  hop_count = 1;
  hop_limit = if q.hop_limit == 0 then hop_limit_unlimited else q.hop_limit;
  visited = visited_set_add visited_zero q.allocator;
  identity = record { id = 0; parent_id = q.parent_id };
  region = record { offset = q.offset; length = q.length };
  transfer_sequence = 0;
  payload_type = 0;
  flags = 0;
  error_flags = 0;
  acquired_ns = now;
  deadline_ns =
      if (q.deadline_duration_ns == 0) || leb (sub64 deadline_none now) q.deadline_duration_ns
      then deadline_none
      else u64 (now + q.deadline_duration_ns);
  trace_count = 0;
  recovery_count = 0;
  claim_previous_sequence = 0;
  claim_previous_region = region_zero;
  claim_previous_owner = invalid_component_id;
  claim_previous_owner_epoch = 0;
  transfer_link_id = 0;
  transfer_source_id = invalid_component_id;
  transfer_source_epoch = 0;
  transfer_hop_count = 0;
  transfer_acquired_ns = 0;
  transfer_visited = visited_zero;
  trace = trace_zero;
}

-- What became of one slot of the scan: not taken, a return of the whole call, or a call that waits
-- in the identity generator for ever.
pub data Attempt : Type 0 where
  skipped : World → Attempt
  returned : Status → Buffer → World → Attempt
  stuck : Attempt

-- The error paths behind the claim: the error is traced, the slot freed and the failure counted.
unfoldable pub abandon : Platform → Request → ℕ → Slot → Status → World → Attempt
abandon p q slot_id s status w =
    let (traced, w1) = trace_slot p w slot_id s q.allocator error in
    returned status buffer_invalid
      (count_allocation_failure (put_slot w1 slot_id (free_claiming_slot traced)))

-- The same, with the payload pages closed again between the trace and the release.
unfoldable pub abandon_closing : Platform → Request → ℕ → Slot → Status → World → Attempt
abandon_closing p q slot_id s status w =
    let (traced, w1) = trace_slot p w slot_id s q.allocator error in
    let (closing, w2) = protect_slot p w1 slot_id false in
    returned status buffer_invalid
      (count_allocation_failure (put_slot w2 slot_id (free_claiming_slot traced)))

-- The slot is published and the scan hint moved.
unfoldable pub publish_allocation : Platform → Request → ℕ → ℕ → Slot → Buffer → World → Attempt
publish_allocation p q claim slot_id s view w =
    let (traced, w1) = trace_slot p w slot_id s q.allocator allocated in
    let w2 = put_slot w1 slot_id (give_back owned claim traced) in
    returned ok view (
      with_header w2 (record (w2.pool.header) {
        allocation_cursor = u32 (slot_id + 1) % w2.pool.header.slot_count;
        allocation_count = u64 (w2.pool.header.allocation_count + 1);
      }))

-- From `make_view` on.
unfoldable pub view_allocation : Platform → Request → ℕ → ℕ → Slot → Buffer → World → Attempt
view_allocation p q claim slot_id s buffer w =
    let (status, view) = make_view w slot_id s (handle_make slot_id s.generation) buffer in
    if is_ok status
    then publish_allocation p q claim slot_id s view w
    else if q.enable_payload
    then abandon_closing p q slot_id s status w
    else abandon p q slot_id s status w

-- From the protection of the payload pages on.
unfoldable pub open_allocation : Platform → Request → ℕ → ℕ → Slot → Buffer → World → Attempt
open_allocation p q claim slot_id s buffer w =
    if q.enable_payload
    then (let (status, w1) = protect_slot p w slot_id true in
        if is_ok status
        then view_allocation p q claim slot_id s buffer w1
        else abandon_closing p q slot_id s status w1)
    else view_allocation p q claim slot_id s buffer w

-- From the identity on.
unfoldable pub name_allocation :
    Platform → Request → ℕ → ℕ → Slot → Buffer → Option (Status × ℕ × World) → Attempt
name_allocation p q claim slot_id s buffer none = stuck
name_allocation p q claim slot_id s buffer (some (status, id, w)) =
    let named = record s { identity = record { id = id; parent_id = q.parent_id } } in
    if is_ok status
    then open_allocation p q claim slot_id named buffer w
    else abandon p q slot_id s status w

-- The body of the scan at one slot: the token is claimed, then the state.
unfoldable pub try_slot : Platform → Request → ℕ → ℕ → Buffer → World → Attempt
try_slot p q epoch slot_id buffer w =
    let claim = claim_token_make allocate q.allocator epoch in
    let s = w.pool.controls slot_id in
    let (token_won, s1) = cas_token 0 claim s in
    let (state_won, s2) = cas_state free claiming s1 in
    if not (is_free s.state)
    then skipped w
    else if not token_won
    then skipped w
    else if not state_won
    then skipped (put_slot w slot_id (clear_claim_token s1 claim))
    else name_allocation p q claim slot_id (fresh_slot q epoch (now_ns p w) s2) buffer
        (generate_buffer_id p q.allocator (tick w))

-- `n` slots left of the scan that began at `start` and has seen `seen` slots. `none` is a call that
-- does not return.
unfoldable pub allocate_scan :
    ℕ → Platform → Request → ℕ → ℕ → ℕ → Buffer → World → Option (Status × Buffer × World)
allocate_scan zero p q epoch start seen buffer w =
    some (no_buffer, buffer, count_allocation_failure w)
allocate_scan (suc n) p q epoch start seen buffer w =
    elim (try_slot p q epoch (u32 (start + seen) % w.pool.header.slot_count) buffer w) [
      | skipped w' ↦ allocate_scan n p q epoch start (seen + 1) buffer w'
      | returned status view w' ↦ some (status, view, w')
      | stuck ↦ none
    ]

unfoldable pub buffer_allocate_internal :
    Platform → Request → Buffer → World → Option (Status × Buffer × World)
buffer_allocate_internal p q buffer w =
    if not (component_id_valid q.allocator)
      || (not (q.parent_id == 0) && not (buffer_id_valid q.parent_id))
      || ltb w.pool.header.slot_capacity q.offset
      || ltb (sub32 w.pool.header.slot_capacity q.offset) q.length
    then some (invalid_argument, buffer, w)
    else allocate_scan w.pool.header.slot_count p q epoch start 0 buffer w
  where
    epoch : ℕ
    epoch = if q.owner_epoch == 0 then registered_epoch w.pool q.allocator else q.owner_epoch

    start : ℕ
    start = w.pool.header.allocation_cursor % w.pool.header.slot_count

-- `zipc_buffer_allocate`
unfoldable pub buffer_allocate :
    Platform → ℕ → ℕ → Buffer → World → Option (Status × Buffer × World)
buffer_allocate p allocator parent_id buffer w =
    buffer_allocate_internal p
      (record {
        allocator = allocator;
        parent_id = parent_id;
        offset = 0;
        length = 0;
        owner_epoch = 0;
        hop_limit = hop_limit_unlimited;
        deadline_duration_ns = 0;
        enable_payload = true;
      })
      buffer w
