-- ===== src/Protocol/Transfer.antt =====
-- `buffer_prepare_transfer_internal` and `zipc_buffer_prepare_transfer` of src/core/zipc.c.
pub mod Laws
pub mod Conditions
use z_ipc.State.{clear_claim_token, cas_state, cas_token, put_slot, Slot, Message, World}
use z_ipc.Platform.{now_ns, tick, protect_slot, Platform}
use z_ipc.Base.{leb, ◌||◌, ◌==◌, not, if◌then◌else◌, false, ◌+◌, ℕ}
use z_ipc.Status.{
  is_ok, invalid_state, deadline, is_owned, invalid_argument, not_owner, component_id_valid,
  stale_handle, claiming, in_transfer, owned, ok, sent, Status,
}
use z_ipc.Word.{u32}
use z_ipc.Trace.{record_protocol_error, trace_slot, record_slot_error}
use z_ipc.Handle.{handle_generation, send, claim_token_make, handle_slot_id}
use z_ipc.Component.{registered_epoch}
use z_ipc.Protocol.Common.{past_hop_limit, past_deadline, give_back}

-- The claimed slot is put back into OWNED with a status, its token cleared; the error is counted
-- and traced on the slot.
unfoldable pub refuse_transfer :
    Platform → ℕ → ℕ → ℕ → Slot → Status → Message → World → Status × Message × World
refuse_transfer p slot_id current_owner claim s status message w =
    let (traced, w1) = record_slot_error p w slot_id s current_owner in
    (status, message, put_slot w1 slot_id (give_back owned claim traced))

-- The slot as the transfer leaves it, but for its trace, state and token.
unfoldable pub sent_slot : ℕ → ℕ → ℕ → Slot → Slot
sent_slot current_owner next_owner link_id s = record s {
  next_owner_id = next_owner;
  transfer_link_id = link_id;
  transfer_source_id = current_owner;
  transfer_source_epoch = s.owner_epoch;
  transfer_hop_count = s.hop_count;
  transfer_acquired_ns = s.acquired_ns;
  transfer_visited = s.visited;
  transfer_sequence = u32 (s.transfer_sequence + 1);
}

abbrev message_for : World → ℕ → ℕ → ℕ → Slot → Message
message_for w handle current_owner next_owner s = record {
  handle = handle;
  pool_id = w.pool.pool_id;
  source_component = current_owner;
  destination_component = next_owner;
  transfer_sequence = s.transfer_sequence;
  flags = 0;
}

-- From the trace of the send to the end: the slot is published in TRANSFER.
unfoldable pub commit_transfer :
    Platform → ℕ → ℕ → ℕ → ℕ → ℕ → Slot → World → Status × Message × World
commit_transfer p handle slot_id current_owner next_owner claim s w =
    let (traced, w1) = trace_slot p w slot_id s current_owner sent in
    (
      ok,
      message_for w handle current_owner next_owner s,
      put_slot w1 slot_id (give_back in_transfer claim traced),
    )

-- The part that runs in CLAIMING, on the claimed slot.
unfoldable pub transfer_claimed :
    Platform → ℕ → ℕ → ℕ → ℕ → ℕ → ℕ → ℕ → Slot → Message → World → Status × Message × World
transfer_claimed p handle slot_id current_owner next_owner owner_epoch link_id claim s message w =
    let (protect_status, w2) = protect_slot p (tick w) slot_id false in
    if not (s.generation == handle_generation handle)
    then (
      stale_handle,
      message,
      record_protocol_error p (put_slot w slot_id (give_back owned claim s)) current_owner,
    )
    else if not (s.owner_id == current_owner) || not (s.owner_epoch == owner_epoch)
    then (
      not_owner,
      message,
      record_protocol_error p (put_slot w slot_id (give_back owned claim s)) current_owner,
    )
    else if past_deadline s (now_ns p w)
    then refuse_transfer p slot_id current_owner claim s deadline message (tick w)
    else if past_hop_limit s
    then refuse_transfer p slot_id current_owner claim s Status.hop_limit message (tick w)
    else if not (is_ok protect_status)
    then refuse_transfer p slot_id current_owner claim s protect_status message w2
    else commit_transfer p handle slot_id current_owner next_owner claim
        (sent_slot current_owner next_owner link_id s) w2

-- The claim of the slot `s`: the sequence is noted for recovery, then the token and the state are
-- exchanged.
unfoldable pub transfer_claim :
    Platform → ℕ → ℕ → ℕ → ℕ → ℕ → ℕ → Slot → Message → World → Status × Message × World
transfer_claim p handle slot_id current_owner next_owner owner_epoch link_id s message w =
    let claim = claim_token_make send current_owner owner_epoch in
    let noted = record s { claim_previous_sequence = s.transfer_sequence } in
    let (token_won, s1) = cas_token 0 claim noted in
    let (state_won, s2) = cas_state owned claiming s1 in
    if not token_won
    then (invalid_state, message, put_slot w slot_id noted)
    else if not state_won
    then (
      invalid_state,
      message,
      record_protocol_error p (put_slot w slot_id (clear_claim_token s1 claim)) current_owner,
    )
    else transfer_claimed p handle slot_id current_owner next_owner owner_epoch link_id claim s2
        message w

unfoldable pub buffer_prepare_transfer_internal :
    Platform → ℕ → ℕ → ℕ → ℕ → Message → World → Status × Message × World
buffer_prepare_transfer_internal p handle current_owner next_owner link_id message w =
    let slot_id = handle_slot_id handle in
    let s = w.pool.controls slot_id in
    let owner_epoch = registered_epoch w.pool current_owner in
    if not (component_id_valid current_owner) || not (component_id_valid next_owner)
    then (invalid_argument, message, w)
    else if leb w.pool.header.slot_count slot_id
    then (Status.invalid_handle, message, record_protocol_error p w current_owner)
    else if not (is_owned s.state)
    then (invalid_state, message, record_protocol_error p w current_owner)
    else if not (s.generation == handle_generation handle)
    then (stale_handle, message, record_protocol_error p w current_owner)
    else if not (s.owner_id == current_owner) || not (s.owner_epoch == owner_epoch)
    then (not_owner, message, record_protocol_error p w current_owner)
    else transfer_claim p handle slot_id current_owner next_owner owner_epoch link_id s message w

-- `zipc_buffer_prepare_transfer`
unfoldable pub buffer_prepare_transfer :
    Platform → ℕ → ℕ → ℕ → Message → World → Status × Message × World
buffer_prepare_transfer p handle current_owner next_owner message w =
    buffer_prepare_transfer_internal p handle current_owner next_owner 0 message w
