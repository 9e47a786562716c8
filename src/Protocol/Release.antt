-- ===== src/Protocol/Release.antt =====
-- `zipc_pool_buffer_release` of src/core/zipc.c.
pub mod Laws
use z_ipc.State.{clear_claim_token, put_slot, cas_state, cas_token, region_zero, Slot, World}
use z_ipc.Base.{leb, ◌||◌, ◌==◌, not, if◌then◌else◌, false, ℕ}
use z_ipc.Platform.{protect_slot, Platform}
use z_ipc.Protocol.Common.{count_release, give_back}
use z_ipc.Status.{
  invalid_state, is_owned, stale_handle, ok, is_ok, invalid_argument, component_id_valid, not_owner,
  claiming, owned, released, invalid_component_id, free, Status,
}
use z_ipc.Handle.{handle_generation, release, claim_token_make, handle_slot_id}
use z_ipc.Component.{registered_epoch}
use z_ipc.Trace.{trace_slot}

unfoldable pub freed_slot : ℕ → Slot → Slot
freed_slot claim s = give_back free claim (record s {
  owner_id = invalid_component_id;
  next_owner_id = invalid_component_id;
  region = region_zero;
})

-- The part that runs in CLAIMING, on the claimed slot.
unfoldable pub release_claimed : Platform → ℕ → ℕ → ℕ → ℕ → Slot → World → Status × World
release_claimed p slot_id current_owner owner_epoch claim s w =
    let (protect_status, w1) = protect_slot p w slot_id false in
    let (traced, w2) = trace_slot p w1 slot_id s current_owner released in
    if not (s.owner_id == current_owner) || not (s.owner_epoch == owner_epoch)
    then (not_owner, put_slot w slot_id (give_back owned claim s))
    else if not (is_ok protect_status)
    then (protect_status, put_slot w1 slot_id (give_back owned claim s))
    else (ok, count_release (put_slot w2 slot_id (freed_slot claim traced)))

-- The claim of the slot `s`: what it holds is noted for recovery, then the token and the state are
-- exchanged.
unfoldable pub release_claim : Platform → ℕ → ℕ → ℕ → Slot → World → Status × World
release_claim p slot_id current_owner owner_epoch s w =
    let claim = claim_token_make release current_owner owner_epoch in
    let noted = record s {
      claim_previous_region = s.region;
      claim_previous_owner = s.owner_id;
      claim_previous_owner_epoch = s.owner_epoch;
    } in
    let (token_won, s1) = cas_token 0 claim noted in
    let (state_won, s2) = cas_state owned claiming s1 in
    if not token_won
    then (invalid_state, put_slot w slot_id noted)
    else if not state_won
    then (invalid_state, put_slot w slot_id (clear_claim_token s1 claim))
    else release_claimed p slot_id current_owner owner_epoch claim s2 w

unfoldable pub pool_buffer_release : Platform → ℕ → ℕ → World → Status × World
pool_buffer_release p handle current_owner w =
    let slot_id = handle_slot_id handle in
    let s = w.pool.controls slot_id in
    let owner_epoch = registered_epoch w.pool current_owner in
    if not (component_id_valid current_owner)
    then (invalid_argument, w)
    else if leb w.pool.header.slot_count slot_id
    then (Status.invalid_handle, w)
    else if not (s.generation == handle_generation handle)
    then (stale_handle, w)
    else if not (is_owned s.state)
    then (invalid_state, w)
    else if not (s.owner_id == current_owner) || not (s.owner_epoch == owner_epoch)
    then (not_owner, w)
    else release_claim p slot_id current_owner owner_epoch s w
