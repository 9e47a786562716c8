-- ===== src/Recovery/Restarts.antt =====
-- `zipc_component_restart_next` of src/core/zipc.c: the scan of a restart. A slot that the dead
-- epoch was claiming is settled, and the slots that it owned are handed to the new epoch one by one.
pub mod Visits
pub mod Laws
pub mod Whole
use z_ipc.State.{
  clear_claim_token, put_slot, buffer_invalid, cas_state, Buffer, cas_token, Slot, World,
}
use z_ipc.Component.{component_epoch_recovering, Restart}
use z_ipc.Base.{
  zero, ◌-◌, suc, ◌||◌, false, update, ◌&&◌, not, true, ◌+◌, ◌==◌, if◌then◌else◌, Bool, ℕ,
}
use z_ipc.Platform.{tick, protect_slot, now_ns, Platform}
use z_ipc.Status.{
  is_owned, is_claiming, invalid_component_id, recovered, invalid_argument, ok, is_in_transfer,
  is_ok, is_free, fault, claiming, owned, no_buffer, in_transfer, Status,
}
use z_ipc.Protocol.Common.{free_claiming_slot, next_generation, with_header}
use z_ipc.Handle.{
  release, allocate, rollback, receive, send, claim_token_epoch, handle_make, claim_code,
  claim_token_kind, claim_token_component,
}
use z_ipc.Word.{u32, u64}
use z_ipc.Buffer.{make_view}
use z_ipc.Trace.{trace_slot}

-- What became of one slot of the scan: the scan goes on, the call returns an error at this slot, or
-- it returns a buffer.
pub data Visit : Type 0 where
  passed : World → Visit
  stopped : Status → World → Visit
  yielded : Buffer → World → Visit

-- The token is one of the dead epoch.
abbrev pub dead_claim : Restart → ℕ → Bool
dead_claim r token =
    (claim_token_component token == r.component) && (claim_token_epoch token == r.dead_epoch)

-- A receive that is undone: the slot is in transfer again from its source.
unfoldable pub undo_receive : Restart → Slot → Slot
undo_receive r s = record s {
  owner_id = s.transfer_source_id;
  next_owner_id = r.component;
  owner_epoch = s.transfer_source_epoch;
  hop_count = s.transfer_hop_count;
  acquired_ns = s.transfer_acquired_ns;
  visited = s.transfer_visited;
  claim_token = 0;
  state = in_transfer;
}

-- A send, a rollback or a release that is undone: the slot is owned as before it.
unfoldable pub undo_claim : ℕ → Slot → Slot
undo_claim token s =
    let sequenced =
      if (claim_token_kind token == claim_code send)
        || (claim_token_kind token == claim_code rollback)
      then record s { transfer_sequence = s.claim_previous_sequence }
      else s in
    let returned =
      if claim_token_kind token == claim_code release
      then record sequenced {
        owner_id = sequenced.claim_previous_owner;
        owner_epoch = sequenced.claim_previous_owner_epoch;
        region = sequenced.claim_previous_region;
      }
      else sequenced in
    record returned { next_owner_id = invalid_component_id; claim_token = 0; state = owned }

-- The slot, in ERROR, as it is handed to the new epoch.
unfoldable pub inherited_slot : Restart → ℕ → Slot → Slot
inherited_slot r now s = record s {
  generation = next_generation s.generation;
  owner_epoch = r.epoch;
  acquired_ns = now;
  recovery_count = u32 (s.recovery_count + 1);
}

abbrev pub count_recovered : World → ℕ → World
count_recovered w component =
    let c = w.pool.header.components component in
    with_header w (record (w.pool.header) {
      recovery_count = u64 (w.pool.header.recovery_count + 1);
      components =
          update w.pool.header.components component
            (record c { recovered_slots = u64 (c.recovered_slots + 1) });
    })

-- From the view on: the epoch and the generation are put back if the region does not fit.
unfoldable pub inherit_slot : Platform → Restart → ℕ → Slot → World → Visit
inherit_slot p r slot_id s w =
    let t = inherited_slot r (now_ns p w) s in
    let (status, view) = make_view w slot_id t (handle_make slot_id t.generation) buffer_invalid in
    let (traced, w1) = trace_slot p (tick w) slot_id t r.component recovered in
    if is_ok status
    then yielded view
        (count_recovered (put_slot w1 slot_id (record traced { state = owned })) r.component)
    else stopped status (
        put_slot (tick w) slot_id
          (record t { owner_epoch = r.dead_epoch; generation = s.generation; state = owned }))

-- A slot in OWNED, whose token was read as `token`.
unfoldable pub visit_owned : Platform → Restart → ℕ → ℕ → Slot → World → Visit
visit_owned p r slot_id token s w =
    let (cleared, s0) = cas_token token 0 s in
    let s1 = if dead_claim r token then s0 else s in
    let (state_won, s2) = cas_state owned fault s1 in
    let (status, w1) = protect_slot p w slot_id true in
    if not state_won
    then passed (put_slot w slot_id s1)
    else if not (s2.owner_id == r.component) || not (s2.owner_epoch == r.dead_epoch)
    then passed (put_slot w slot_id (record s2 { state = owned }))
    else if not (is_ok status)
    then stopped status (put_slot w1 slot_id (record s2 { state = owned }))
    else inherit_slot p r slot_id s2 w1

-- A slot in CLAIMING under a token of the dead epoch, now in ERROR.
unfoldable pub settle_claim : Platform → Restart → ℕ → Slot → World → Visit
settle_claim p r slot_id s w =
    let kind = claim_token_kind s.claim_token in
    let (status, w1) = protect_slot p w slot_id false in
    if (kind == claim_code receive) || (kind == claim_code allocate)
    then (if not (is_ok status)
        then stopped status (put_slot w1 slot_id (record s { state = claiming }))
        else if kind == claim_code receive
        then passed (put_slot w1 slot_id (undo_receive r s))
        else passed (put_slot w1 slot_id (free_claiming_slot s)))
    else visit_owned p r slot_id s.claim_token (undo_claim s.claim_token s) w

unfoldable pub visit_slot : Platform → Restart → ℕ → World → Visit
visit_slot p r slot_id w =
    let s = w.pool.controls slot_id in
    let token = s.claim_token in
    let (cleared, s0) = cas_token token 0 s in
    let (state_won, s1) = cas_state claiming fault s in
    if is_free s.state && dead_claim r token
    then passed (put_slot w slot_id s0)
    else if is_in_transfer s.state
        && (claim_token_kind token == claim_code receive)
        && dead_claim r token
    then passed (put_slot w slot_id (clear_claim_token s token))
    else if is_claiming s.state
    then (if not (dead_claim r token)
        then passed w
        else if not state_won
        then passed w
        else settle_claim p r slot_id s1 w)
    else if not (is_owned s.state)
    then passed w
    else visit_owned p r slot_id token s w

-- With `n` slots left behind the cursor.
unfoldable pub restart_scan : ℕ → Platform → Restart → World → Status × Restart × Buffer × World
restart_scan zero p r w = (no_buffer, record r { scan_complete = true }, buffer_invalid, w)
restart_scan (suc n) p r w = elim (visit_slot p r r.cursor w) [
  | passed w' ↦ restart_scan n p (record r { cursor = u32 (r.cursor + 1) }) w'
  | stopped status w' ↦ (status, r, buffer_invalid, w')
  | yielded view w' ↦ (ok, record r { cursor = u32 (r.cursor + 1) }, view, w')
]

unfoldable pub component_restart_next :
    Platform → Restart → Buffer → World → Status × Restart × Buffer × World
component_restart_next p r buffer w =
    if not r.attached
      || not (component_epoch_recovering w.pool r.component r.epoch)
      || not (r.epoch == u32 (r.dead_epoch + 1))
    then (invalid_argument, r, buffer, w)
    else restart_scan (w.pool.header.slot_count - r.cursor) p r w
