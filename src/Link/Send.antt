-- ===== src/Link/Send.antt =====
-- `zipc_send` and `rollback_transfer` of src/core/zipc.c.
pub mod Rollback
pub mod Laws
use z_ipc.Base.{refl, ◌≡◌, ℕ, true, false, ◌||◌, ◌==◌, not, if◌then◌else◌, Bool}
use z_ipc.Word.{sub32}
use z_ipc.Status.{
  Status, ok, is_ok, transport_published, recovery_required, invalid_buffer, component_stale,
  not_owner, invalid_component_id, claiming, in_transfer, owned, is_in_transfer, error,
}
use z_ipc.Handle.{claim_token_make, rollback, handle_generation}
use z_ipc.State.{
  World, Buffer, Message, Slot, buffer_invalid, cas_state, cas_token, put_slot, clear_claim_token,
}
use z_ipc.Platform.{Platform, protect_slot}
use z_ipc.Trace.{trace_external_event}
use z_ipc.Buffer.{buffer_owned, has_control, index_of, control_of}
use z_ipc.Protocol.Common.{give_back}
use z_ipc.Protocol.Transfer.{buffer_prepare_transfer_internal}
use z_ipc.Transport.{Transport, message_zero}
use z_ipc.Link.{Link, epoch_stale}

-- The slot as it was before the transfer, but for its state and token.
unfoldable pub undone_slot : Link → Message → Slot → Slot
undone_slot link message s = record s {
  next_owner_id = invalid_component_id;
  transfer_sequence = sub32 message.transfer_sequence 1;
  owner_id = link.local_component;
}

-- The part of a rollback that runs in CLAIMING, on the claimed slot. Where the pages do not open,
-- the slot is left in CLAIMING for a recovery.
unfoldable pub rollback_claimed :
    Platform → Link → Buffer → Message → ℕ → Slot → World → Status × World
rollback_claimed p link buffer message claim s w =
    let slot_id = index_of buffer.control in
    let undone = undone_slot link message s in
    let (status, w1) = protect_slot p w buffer.slot_id true in
    if not (s.generation == handle_generation message.handle)
      || not (s.owner_id == link.local_component)
      || not (s.next_owner_id == link.remote_component)
      || not (s.transfer_sequence == message.transfer_sequence)
    then (recovery_required, put_slot w slot_id (give_back in_transfer claim s))
    else if not (is_ok status)
    then (status, put_slot w1 slot_id undone)
    else (ok, put_slot w1 slot_id (give_back owned claim undone))

unfoldable pub rollback_transfer : Platform → Link → Buffer → Message → World → Status × World
rollback_transfer p link buffer message w =
    let slot_id = index_of buffer.control in
    let s = control_of w buffer in
    let claim = claim_token_make rollback link.local_component link.local_epoch in
    let noted = record s { claim_previous_sequence = sub32 message.transfer_sequence 1 } in
    let (token_won, s1) = cas_token 0 claim noted in
    let (state_won, s2) = cas_state in_transfer claiming s1 in
    if not (has_control buffer.control)
    then (recovery_required, w)
    else if not (is_in_transfer s.state)
    then (recovery_required, w)
    else if not token_won
    then (recovery_required, put_slot w slot_id noted)
    else if not state_won
    then (recovery_required, put_slot w slot_id (clear_claim_token s1 claim))
    else rollback_claimed p link buffer message claim s2 w

-- `status == ZIPC_ERR_TRANSPORT_PUBLISHED`
abbrev pub is_published : Status → Bool
is_published transport_published = true
is_published _ = false

pub is_published_only : (s : Status) → is_published s ≡ true → s ≡ transport_published
is_published_only transport_published h = refl
is_published_only _ h = cc

-- The error is traced, and the caller loses the buffer.
unfoldable pub lose_buffer :
    {T : Type 0} → Platform → Link → Message → Status → T → World → Status × Buffer × T × World
lose_buffer p link message status t w = (
  status,
  buffer_invalid,
  t,
  trace_external_event p w message.handle message.transfer_sequence link.local_component error,
)

-- What follows the transport's answer.
unfoldable pub settle_send :
    {T : Type 0}
    → Platform
    → Link
    → Buffer
    → Message
    → Status
    → T
    → World
    → Status × Buffer × T × World
settle_send p link buffer message status t w =
    let (rollback_status, w1) = rollback_transfer p link buffer message w in
    if is_published status
    then lose_buffer p link message status t w
    else if not (is_ok status)
    then (if not (is_ok rollback_status)
        then lose_buffer p link message rollback_status t w1
        else (status, buffer, t, w1))
    else (ok, buffer_invalid, t, w)

-- `BI(buffer)->pool` is the pool of the world, and so of the link, where it is set.
unfoldable pub link_send :
    {T : Type 0} → Transport T → Platform → Link → Buffer → T → World → Status × Buffer × T × World
link_send tr p link buffer t w =
    let (status, message, w1) =
      buffer_prepare_transfer_internal p buffer.handle link.local_component link.remote_component
        link.link_id message_zero w in
    let (sent_status, t1) = tr.send message t in
    if not (buffer_owned w buffer)
    then (invalid_buffer, buffer, t, w)
    else if epoch_stale w link || not (buffer.owner_epoch == link.local_epoch)
    then (component_stale, buffer, t, w)
    else if not buffer.attached || not (buffer.owner == link.local_component)
    then (not_owner, buffer, t, w)
    else if not (is_ok status)
    then (status, buffer, t, w1)
    else settle_send p link buffer message sent_status t1 w1

-- The timeout is ignored.
unfoldable pub link_send_timeout :
    {T : Type 0}
    → Transport T
    → Platform
    → Link
    → Buffer
    → ℕ
    → T
    → World
    → Status × Buffer × T × World
link_send_timeout tr p link buffer timeout_ticks t w = link_send tr p link buffer t w
