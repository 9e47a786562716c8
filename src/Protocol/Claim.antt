-- ===== src/Protocol/Claim.antt =====
-- `zipc_buffer_claim` of src/core/zipc.c.
pub mod Laws
pub mod Conditions
use z_ipc.State.{
  clear_claim_token, cas_state, buffer_invalid, put_slot, cas_token, Slot, Message, World, Buffer,
}
use z_ipc.Platform.{tick, now_ns, protect_slot, Platform}
use z_ipc.Base.{leb, ◌||◌, ◌==◌, not, true, ◌+◌, false, if◌then◌else◌, Bool, ℕ}
use z_ipc.Status.{
  deadline, invalid_state, invalid_argument, sequence_mismatch, owned, component_id_valid,
  is_in_transfer, invalid_receiver, ok, claiming, is_ok, stale_handle, received, in_transfer,
  invalid_component_id, Status,
}
use z_ipc.Trace.{trace_slot, record_slot_error, record_protocol_error}
use z_ipc.Word.{u32}
use z_ipc.Handle.{
  send, receive, claim_code, handle_generation, claim_token_make, claim_token_kind, handle_slot_id,
}
use z_ipc.Component.{registered_epoch}
use z_ipc.Protocol.Common.{past_hop_limit, past_deadline, free_claiming_slot, give_back}
use z_ipc.VisitedSet.{visited_set_add}
use z_ipc.Buffer.{make_view}

-- The slot stays in TRANSFER, its token cleared, and the error is counted.
unfoldable pub refuse_claim :
    Platform → ℕ → ℕ → ℕ → Slot → Status → Buffer → World → Status × Buffer × World
refuse_claim p slot_id receiver claim s status buffer w = (
  status,
  buffer,
  record_protocol_error p (put_slot w slot_id (give_back in_transfer claim s)) receiver,
)

-- A claim that failed after the slot changed hands: the slot is freed and the buffer cleared. The
-- payload pages are closed again if they had been opened.
unfoldable pub drop_claim : Platform → ℕ → ℕ → Slot → Status → World → Status × Buffer × World
drop_claim p slot_id receiver s status w =
    let (traced, w1) = record_slot_error p w slot_id s receiver in
    (status, buffer_invalid, put_slot w1 slot_id (free_claiming_slot traced))

unfoldable pub drop_claim_closing :
    Platform → ℕ → ℕ → Slot → Status → World → Status × Buffer × World
drop_claim_closing p slot_id receiver s status w =
    let (traced, w1) = record_slot_error p w slot_id s receiver in
    let (closing, w2) = protect_slot p w1 slot_id false in
    (status, buffer_invalid, put_slot w2 slot_id (free_claiming_slot traced))

unfoldable pub received_slot : ℕ → ℕ → ℕ → Slot → Slot
received_slot receiver receiver_epoch now s = record s {
  owner_id = receiver;
  next_owner_id = invalid_component_id;
  owner_epoch = receiver_epoch;
  hop_count = u32 (s.transfer_hop_count + 1);
  visited = visited_set_add s.visited receiver;
  acquired_ns = now;
}

-- From the protection of the payload pages on.
unfoldable pub commit_claim :
    Platform → ℕ → ℕ → ℕ → ℕ → Slot → Buffer → World → Status × Buffer × World
commit_claim p handle slot_id receiver claim s buffer w =
    let (protect_status, w1) = protect_slot p w slot_id true in
    let (view_status, view) = make_view w1 slot_id s handle buffer in
    let (traced, w2) = trace_slot p w1 slot_id s receiver received in
    if not (is_ok protect_status)
    then drop_claim p slot_id receiver s protect_status w1
    else if not (is_ok view_status)
    then drop_claim_closing p slot_id receiver s view_status w1
    else (ok, view, put_slot w2 slot_id (give_back owned claim traced))

-- The part that runs in CLAIMING, on the claimed slot.
unfoldable pub claim_claimed :
    Platform → Message → ℕ → ℕ → ℕ → ℕ → Slot → Buffer → World → Status × Buffer × World
claim_claimed p message slot_id receiver receiver_epoch claim s buffer w =
    if not (s.generation == handle_generation message.handle)
    then refuse_claim p slot_id receiver claim s stale_handle buffer w
    else if not (s.owner_id == message.source_component) || not (s.next_owner_id == receiver)
    then refuse_claim p slot_id receiver claim s invalid_receiver buffer w
    else if not (s.transfer_sequence == message.transfer_sequence)
    then refuse_claim p slot_id receiver claim s sequence_mismatch buffer w
    else if past_deadline s (now_ns p w)
    then refuse_claim p slot_id receiver claim s deadline buffer (tick w)
    else if past_hop_limit s
    then refuse_claim p slot_id receiver claim s Status.hop_limit buffer (tick w)
    else commit_claim p message.handle slot_id receiver claim
        (received_slot receiver receiver_epoch (now_ns p w) s) buffer (tick w)

-- A token that a sender has not yet cleared is taken over.
abbrev win_claim : ℕ → Slot → Bool × Slot
win_claim claim s =
    let (won, s1) = cas_token 0 claim s in
    let (taken_over, s2) = cas_token s.claim_token claim s in
    if won
    then (true, s1)
    else if not (claim_token_kind s.claim_token == claim_code send) || not (is_in_transfer s.state)
    then (false, s)
    else (taken_over, s2)

-- The claim of the slot `s`.
unfoldable pub claim_slot :
    Platform → Message → ℕ → ℕ → ℕ → Slot → Buffer → World → Status × Buffer × World
claim_slot p message slot_id receiver receiver_epoch s buffer w =
    let claim = claim_token_make receive receiver receiver_epoch in
    let (token_won, s1) = win_claim claim s in
    let (state_won, s2) = cas_state in_transfer claiming s1 in
    if not token_won
    then (invalid_state, buffer, record_protocol_error p w receiver)
    else if not state_won
    then (
      invalid_state,
      buffer,
      record_protocol_error p (put_slot w slot_id (clear_claim_token s1 claim)) receiver,
    )
    else claim_claimed p message slot_id receiver receiver_epoch claim s2 buffer w

unfoldable pub buffer_claim : Platform → Message → ℕ → Buffer → World → Status × Buffer × World
buffer_claim p message receiver buffer w =
    let slot_id = handle_slot_id message.handle in
    let s = w.pool.controls slot_id in
    if not (component_id_valid receiver)
    then (invalid_argument, buffer, w)
    else if not (message.pool_id == w.pool.pool_id)
    then (Status.invalid_handle, buffer, record_protocol_error p w receiver)
    else if not (message.destination_component == receiver)
    then (invalid_receiver, buffer, record_protocol_error p w receiver)
    else if leb w.pool.header.slot_count slot_id
    then (Status.invalid_handle, buffer, record_protocol_error p w receiver)
    else if not (is_in_transfer s.state)
    then (invalid_state, buffer, record_protocol_error p w receiver)
    else claim_slot p message slot_id receiver (registered_epoch w.pool receiver) s buffer w
