-- ===== src/Link/Receive.antt =====
-- `zipc_recv` of src/core/zipc.c.
pub mod Delivery
use z_ipc.Base.{ℕ, zero, suc, Bool, true, false, Option, none, some, ◌==◌, not, if◌then◌else◌}
use z_ipc.Status.{
  Status, ok, is_ok, invalid_receiver, recovery_required, component_stale, invalid_state,
  stale_handle, sequence_mismatch,
}
use z_ipc.State.{World, Buffer, Message, buffer_invalid}
use z_ipc.Platform.{Platform}
use z_ipc.Trace.{record_protocol_error}
use z_ipc.Protocol.Claim.{buffer_claim}
use z_ipc.Transport.{Transport, Token, message_zero}
use z_ipc.Link.{Link, epoch_stale}

-- How one round of the loop ends: the transport does not answer, the call returns, or the loop goes
-- on.
pub data Round (T : Type 0) : Type 0 where
  waiting : Round T
  returned : Status → Buffer → T → World → Round T
  skipped : Buffer → T → World → Round T

-- The statuses of a claim after which the message is passed over.
abbrev pub is_passed_over : Status → Bool
is_passed_over invalid_state = true
is_passed_over stale_handle = true
is_passed_over sequence_mismatch = true
is_passed_over _ = false

-- A round from the message that the transport has given on.
unfoldable pub receive_message :
    {T : Type 0} → Transport T → Platform → Link → Message → Token → Buffer → T → World → Round T
receive_message tr p link message token buffer t w =
    let (status, claimed, w1) = buffer_claim p message link.local_component buffer w in
    let (commit_status, committed, t1) = tr.receive_commit token t in
    if not (message.source_component == link.remote_component)
    then returned invalid_receiver buffer t1 (record_protocol_error p w link.local_component)
    else if is_ok status
    then (if is_ok commit_status
        then returned ok (record claimed { owner = link.local_component }) t1 w1
        else returned recovery_required buffer_invalid t1 w1)
    else if is_passed_over status
    then skipped buffer_invalid t1 w1
    else returned status claimed t1 w1

-- A round from the transport's answer on.
unfoldable pub receive_begun :
    {T : Type 0}
    → Transport T
    → Platform
    → Link
    → Buffer
    → World
    → Option (Status × Message × Token × T)
    → Round T
receive_begun tr p link buffer w none = waiting
receive_begun tr p link buffer w (some (status, message, token, t)) =
    if not (is_ok status)
    then returned status buffer t w
    else receive_message tr p link message token buffer t w

unfoldable pub receive_round :
    {T : Type 0} → Transport T → Platform → Link → Buffer → T → World → Round T
receive_round tr p link buffer t w =
    receive_begun tr p link buffer w (tr.receive_begin message_zero t)

-- At most `fuel` rounds; none if they are not enough or the transport does not answer.
unfoldable pub receive_loop :
    {T : Type 0}
    → Transport T
    → Platform
    → Link
    → ℕ
    → Buffer
    → T
    → World
    → Option (Status × Buffer × T × World)
receive_loop tr p link zero buffer t w = none
receive_loop tr p link (suc fuel) buffer t w = elim (receive_round tr p link buffer t w) [
  | waiting ↦ none
  | returned status buffer1 t1 w1 ↦ some (status, buffer1, t1, w1)
  | skipped buffer1 t1 w1 ↦ receive_loop tr p link fuel buffer1 t1 w1
]

unfoldable pub link_recv :
    {T : Type 0}
    → Transport T
    → Platform
    → Link
    → ℕ
    → Buffer
    → T
    → World
    → Option (Status × Buffer × T × World)
link_recv tr p link fuel buffer t w =
    if epoch_stale w link
    then some (component_stale, buffer, t, w)
    else receive_loop tr p link fuel buffer_invalid t w
