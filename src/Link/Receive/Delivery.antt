-- ===== src/Link/Receive/Delivery.antt =====
-- `zipc_recv` over any transport that is a queue: it does what a walk along the queued messages
-- does.
use z_ipc.Base.{◌∙◌, sym, ap, ℕ, zero, suc, false, Option, none, some, List, [], ◌∷◌, length}
use z_ipc.Base.{◌≡◌, ◌<◌, ◌==◌, not, if◌then◌else◌, refl, arith}
use z_ipc.Status.{Status, ok, is_ok, invalid_receiver}
use z_ipc.State.{World, Buffer, Message, buffer_invalid}
use z_ipc.Platform.{Platform}
use z_ipc.Trace.{record_protocol_error}
use z_ipc.Protocol.Claim.{buffer_claim}
use z_ipc.Transport.{Transport, Token, message_zero}
use z_ipc.Transport.Queue.{IsQueue, Offers, Empty, waits, fails}
use z_ipc.Link.{epoch_stale, Link}
use z_ipc.Link.Receive.{
  link_recv, receive_begun, Round, waiting, returned, skipped, is_passed_over, receive_message,
  receive_round, receive_loop,
}
use mathlib.Core.Path.{subst}

-- What one message leads to: the call returns, or the message is passed over.
pub data Step : Type 0 where
  taken : Status → Buffer → World → Step
  passed : World → Step

unfoldable pub deliver_one : Platform → Link → Message → Buffer → World → Step
deliver_one p link message buffer w =
    let (status, claimed, w1) = buffer_claim p message link.local_component buffer w in
    if not (message.source_component == link.remote_component)
    then taken invalid_receiver buffer (record_protocol_error p w link.local_component)
    else if is_ok status
    then taken ok (record claimed { owner = link.local_component }) w1
    else if is_passed_over status
    then passed w1
    else taken status claimed w1

-- What the messages of a queue lead to: nothing is left, or the call returns with the rest.
pub data Delivery : Type 0 where
  nothing_left : Buffer → World → Delivery
  delivered : Status → Buffer → List Message → World → Delivery

abbrev pub deliver : Platform → Link → List Message → Buffer → World → Delivery
deliver p link [] buffer w = nothing_left buffer w
deliver p link (message ∷ rest) buffer w = elim (deliver_one p link message buffer w) [
  | taken status buffer1 w1 ↦ delivered status buffer1 rest w1
  | passed w1 ↦ deliver p link rest buffer_invalid w1
]

module _ {T : Type 0} (tr : Transport T) (IsSound : T → Type 0) (queue : T → List Message)
    (q : IsQueue tr IsSound queue) (p : Platform) (link : Link) where
  -- The call does what the delivery says; where nothing is left, the transport decides.
  pub data Receiving : Delivery → Option (Status × Buffer × T × World) → Type 0 where
    waits_for_more :
        {buffer : Buffer} {w : World} (t : T)
        → queue t ≡ []
        → tr.receive_begin message_zero t ≡ none
        → Receiving (nothing_left buffer w) none
    gives_up :
        {buffer : Buffer} {w : World} {status : Status} {t1 : T} (t : T) (other : Message)
        (token : Token)
        → queue t ≡ []
        → tr.receive_begin message_zero t ≡ some (status, other, token, t1)
        → is_ok status ≡ false
        → IsSound t1
        → queue t1 ≡ []
        → Receiving (nothing_left buffer w) (some (status, buffer, t1, w))
    gives :
        {status : Status} {buffer : Buffer} {rest : List Message} {w : World} {t1 : T}
        → IsSound t1
        → queue t1 ≡ rest
        → Receiving (delivered status buffer rest w) (some (status, buffer, t1, w))

  -- The end of a round on an offered message.
  abbrev round_of : T → Step → Round T
  round_of t (taken status buffer w) = returned status buffer t w
  round_of t (passed w) = skipped buffer_invalid t w

  receive_message_lem :
      (message : Message) (token : Token) (buffer : Buffer) (t : T) (w : World)
      → (tr.receive_commit token t).0 ≡ ok
      → receive_message tr p link message token buffer t w
        ≡ round_of (tr.receive_commit token t).2 (deliver_one p link message buffer w)
  unfolding receive_message deliver_one
  receive_message_lem message token buffer t w commits = ground (arith, commits)

  receive_round_lem :
      (message : Message) (rest : List Message) (buffer : Buffer) (t : T) (w : World)
      → (o : Offers tr IsSound queue t message_zero message rest)
      → receive_round tr p link buffer t w
        ≡ round_of (tr.receive_commit o.token o.state).2 (deliver_one p link message buffer w)
  unfolding receive_round receive_begun
  receive_round_lem message rest buffer t w o =
      ap (receive_begun tr p link buffer w) o.begins
      ∙ receive_message_lem message o.token buffer o.state w o.commits

  -- The loop from the end of a round on.
  abbrev continue_with : ℕ → Round T → Option (Status × Buffer × T × World)
  continue_with fuel waiting = none
  continue_with fuel (returned status buffer t w) = some (status, buffer, t, w)
  continue_with fuel (skipped buffer t w) = receive_loop tr p link fuel buffer t w

  receive_loop_round :
      (fuel : ℕ) (buffer : Buffer) (t : T) (w : World)
      → receive_loop tr p link (suc fuel) buffer t w
        ≡ continue_with fuel (receive_round tr p link buffer t w)
  unfolding receive_loop
  receive_loop_round fuel buffer t w = refl

  abbrev pub next : List Message → Step → Delivery
  next rest (taken status buffer w) = delivered status buffer rest w
  next rest (passed w) = deliver p link rest buffer_invalid w

  receive_next :
      (fuel : ℕ) (rest : List Message) (t : T) (step : Step)
      → IsSound t
      → queue t ≡ rest
      → ((w : World)
          → Receiving
              (deliver p link rest buffer_invalid w)
              (receive_loop tr p link fuel buffer_invalid t w))
      → Receiving (next rest step) (continue_with fuel (round_of t step))
  receive_next fuel rest t (taken status buffer w) s e later = gives s e
  receive_next fuel rest t (passed w) s e later = later w

  receive_last :
      (fuel : ℕ) (buffer : Buffer) (t : T) (w : World)
      → queue t ≡ []
      → Empty tr IsSound queue t message_zero
      → Receiving (nothing_left buffer w) (continue_with fuel (receive_round tr p link buffer t w))
  unfolding receive_round receive_begun
  receive_last fuel buffer t w e (waits none_comes) =
      subst
        (λ x.
          Receiving (nothing_left buffer w)
            (continue_with fuel (receive_begun tr p link buffer w x)))
        (sym none_comes) (waits_for_more t e none_comes)
  receive_last fuel buffer t w e (fails status other token t1 begins bad s1 e1) =
      let over : receive_begun tr p link buffer w (some (status, other, token, t1))
          ≡ returned status buffer t1 w =
        ground (arith, bad) in
      subst (λ x. Receiving (nothing_left buffer w) (continue_with fuel x))
        (sym (ap (receive_begun tr p link buffer w) begins ∙ over))
        (gives_up t other token e begins bad s1 e1)

  receive_loop_lem :
      (fuel : ℕ) (messages : List Message) (buffer : Buffer) (t : T) (w : World)
      → IsSound t
      → queue t ≡ messages
      → length messages < fuel
      → Receiving (deliver p link messages buffer w) (receive_loop tr p link fuel buffer t w)
  receive_loop_lem zero messages buffer t w s e enough = absurd (omega arith)
  receive_loop_lem (suc fuel) [] buffer t w s e enough =
      subst (Receiving (nothing_left buffer w)) (sym (receive_loop_round fuel buffer t w))
        (receive_last fuel buffer t w e (q.wait t message_zero s e))
  receive_loop_lem (suc fuel) (message ∷ rest) buffer t w s e enough =
      let o = q.offer t message_zero message rest s e in
      let t1 = (tr.receive_commit o.token o.state).2 in
      subst (Receiving (deliver p link (message ∷ rest) buffer w))
        (sym (
          receive_loop_round fuel buffer t w
          ∙ ap (continue_with fuel) (receive_round_lem message rest buffer t w o)))
        (receive_next fuel rest t1 (deliver_one p link message buffer w) o.sound o.remains
          λ w1. receive_loop_lem fuel rest buffer_invalid t1 w1 o.sound o.remains (omega arith))

  -- A receive over a transport that is a queue, by an endpoint whose epoch is not stale and with
  -- more fuel than there are queued messages, does what a walk along the queue does: it takes
  -- messages off and claims them until one is claimed or its claim fails in a way that is not passed
  -- over, returns the status and the buffer of that one, and leaves the rest queued. If none is
  -- left, it waits, or ends with the transport's error, as the transport does on an empty queue.
  pub link_recv_lem :
      (fuel : ℕ) (buffer : Buffer) (t : T) (w : World)
      → IsSound t
      → length (queue t) < fuel
      → epoch_stale w link ≡ false
      → Receiving (deliver p link (queue t) buffer_invalid w) (link_recv tr p link fuel buffer t w)
  unfolding link_recv
  link_recv_lem fuel buffer t w s enough current =
      rw current (receive_loop_lem fuel (queue t) buffer_invalid t w s refl enough)
