-- ===== src/Link/Exchange.antt =====
-- A send and the receive of it at the other end of the link, over any transport that is a queue.
use z_ipc.Base.{ℕ, true, false, Option, some, List, [], ◌∷◌, ◌++◌, length, ◌*◌, ◌+◌, ◌≤◌}
use z_ipc.Base.{◌≡◌, ◌<◌, ◌^◌, refl, arith, sym, ap, ◌∙◌}
use z_ipc.Status.{is_ok_only, Status, ok, is_ok}
use z_ipc.Handle.{handle_slot_id}
use z_ipc.State.{World, Buffer, Message, buffer_invalid}
use z_ipc.Platform.{Platform, tick, now_ns, protect_slot}
use z_ipc.Buffer.{make_view, buffer_owned}
use z_ipc.Buffer.Window.{read_bytes}
use z_ipc.Buffer.Window.Laws.{IsView, contents}
use z_ipc.Protocol.Common.{past_deadline}
use z_ipc.Protocol.Frame.{Frame, layout_of}
use z_ipc.Protocol.Transfer.Laws.{Sent}
use z_ipc.Protocol.Transfer.Conditions.{buffer_prepare_transfer_iff, CanSend}
use z_ipc.Protocol.Claim.{buffer_claim}
use z_ipc.Protocol.Claim.Laws.{buffer_claim_lem}
use z_ipc.Protocol.Claim.Conditions.{buffer_claim_iff}
use z_ipc.Protocol.Ownership.{delivery, buffer_claim_once}
use z_ipc.Transport.{Transport, message_zero}
use z_ipc.Transport.Queue.{IsQueue, Queued, no_room, already_there, appended}
use z_ipc.Link.{Link, epoch_stale}
use z_ipc.Link.Send.{link_send}
use z_ipc.Link.Send.Laws.{
  IsAnchored, Sending, link_send_lem, refused, given_back, interrupted, published, sent,
}
use z_ipc.Link.Receive.{link_recv}
use z_ipc.Link.Receive.Delivery.{
  next, delivered, deliver, deliver_one, taken, Receiving, gives, link_recv_lem,
}
use mathlib.Core.Path.{subst}
use z_ipc.Ring.Window.{contains}

-- What a send that succeeded has done.
module _ {T : Type 0} (tr : Transport T) (p : Platform) (link : Link) (b : Buffer) (t : T)
    (w : World) where
  abbrev slot_id : ℕ
  slot_id = handle_slot_id b.handle

  record Dispatched (t1 : T) (w1 : World) : Type 0 where
    message : Message
    accepted : tr.send message t ≡ (ok, t1)
    frame : Frame w slot_id w1
    transferred :
        Sent w.pool.pool_id b.handle link.local_component link.remote_component link.link_id
          (w.pool.controls slot_id)
          (w1.pool.controls slot_id)
          message

  dispatched :
      (r : Status × Buffer × T × World)
      → Sending tr p link b t w r
      → is_ok r.0 ≡ true
      → Dispatched r.2 r.3
  dispatched r (refused bad unable f e) good = absurd cc
  dispatched r (given_back m run bad kept f e c) good = absurd cc
  dispatched r (interrupted m run bad kept closed why f e c) good = absurd cc
  dispatched r (published m run f s) good = absurd cc
  dispatched r (sent m run f s) good = record {
    message = m;
    accepted = run;
    frame = f;
    transferred = s;
  }

  able :
      is_ok (link_send tr p link b t w).0 ≡ true
      → CanSend p b.handle link.local_component link.remote_component link.link_id w
  unfolding link_send
  able good =
      (buffer_prepare_transfer_iff p b.handle link.local_component link.remote_component
          link.link_id message_zero w).0
        (ground (arith, good))

module _ {T : Type 0} (tr : Transport T) (IsSound : T → Type 0) (queue : T → List Message) where
  -- The message of a send into an empty queue is the queue.
  Queued-alone :
      (t t1 : T) (message : Message) (x : Status × T)
      → Queued tr IsSound queue t message x
      → x ≡ (ok, t1)
      → queue t ≡ []
      → IsSound t1 × (queue t1 ≡ message ∷ [])
  Queued-alone t t1 message x (no_room bad s e) run none_held = absurd cc
  Queued-alone t t1 message x (already_there again s e) run none_held =
      let never : contains message [] ≡ true = sym (ap (contains message) none_held) ∙ again in
      absurd cc
  Queued-alone t t1 message x (appended {t1 = t2} fresh s e) run none_held =
      let same : t2 ≡ t1 = ap (λ y. y.1) run in
      (subst IsSound same s, sym (ap queue same) ∙ e ∙ ap (λ xs. xs ++ (message ∷ [])) none_held)

  module _ (q : IsQueue tr IsSound queue) (p : Platform) (sender receiver : Link) (b : Buffer)
      (t : T) (w : World) where
    -- The receive returned an owned buffer with the bytes of `b`, and took the message off.
    pub record Arrived (x : Option (Status × Buffer × T × World)) : Type 0 where
      pub buffer : Buffer
      pub state : T
      pub world : World
      pub returns : x ≡ some (ok, buffer, state, world)
      pub is_mine : buffer_owned world buffer ≡ true
      pub owner : buffer.owner ≡ receiver.local_component
      pub shown : contents world buffer ≡ contents w b
      pub emptied : queue state ≡ []

    abbrev slot : ℕ
    slot = handle_slot_id b.handle

    -- The buffer that the claim gives.
    pub record Claimed (message : Message) (w1 : World) (buffer : Buffer) (w2 : World)
        : Type 0 where
      pub run : buffer_claim p message receiver.local_component buffer_invalid w1 ≡ (ok, buffer, w2)
      pub is_mine : buffer_owned w2 buffer ≡ true
      pub owner : buffer.owner ≡ receiver.local_component
      pub shown : contents w2 buffer ≡ contents w b

    deliver-Claimed :
        (message : Message) (w1 : World) (buffer : Buffer) (w2 : World)
        → message.source_component ≡ receiver.remote_component
        → Claimed message w1 buffer w2
        → deliver p receiver (message ∷ []) buffer_invalid w1 ≡ delivered ok buffer [] w2
    unfolding deliver_one
    deliver-Claimed message w1 buffer w2 source c =
        let mine : record buffer { owner = receiver.local_component } ≡ buffer =
          ap (λ o. record buffer { owner = o }) (sym c.owner) in
        let one : deliver_one p receiver message buffer_invalid w1 ≡ taken ok buffer w2 =
          ground (arith, source, c.run, mine) in
        ap (next tr IsSound queue q p receiver []) one

    arrives :
        (buffer : Buffer) (w2 : World) (x : Option (Status × Buffer × T × World))
        → Receiving tr IsSound queue q p receiver (delivered ok buffer [] w2) x
        → buffer_owned w2 buffer ≡ true
        → buffer.owner ≡ receiver.local_component
        → contents w2 buffer ≡ contents w b
        → Arrived x
    arrives buffer w2 x (gives {t1 = t2} s e) mine owner shown = record {
      buffer = buffer;
      state = t2;
      world = w2;
      returns = refl;
      is_mine = mine;
      owner = owner;
      shown = shown;
      emptied = e;
    }

    -- The bytes of the claimed slot are those of `b`.
    same_bytes :
        (w2 : World) (c : Buffer) (slot_id handle : ℕ)
        → IsView w b
        → b.control ≡ some slot
        → b.slot_base ≡ slot * w.pool.header.slot_stride
        → layout_of w2 ≡ layout_of w
        → slot_id ≡ slot
        → (w2.pool.controls slot_id).region ≡ (w.pool.controls slot).region
        → make_view w2 slot_id (w2.pool.controls slot_id) handle buffer_invalid ≡ (ok, c)
        → contents w2 c ≡ contents w b
    unfolding make_view
    same_bytes w2 c slot_id handle v at base layout same region view =
        let start : c.payload_start ≡ b.payload_start =
          ground (arith, view, v.same_start, base, layout, same, region, at) in
        let count : c.length ≡ b.length = ground (arith, view, v.same_length, same, region, at) in
        let payload : w2.pool.payload ≡ w.pool.payload = ap (λ l. l.payload) layout in
        ap (λ f. read_bytes f c.payload_start c.length) payload
        ∙ ap (λ n. read_bytes w.pool.payload n c.length) start
        ∙ ap (read_bytes w.pool.payload b.payload_start) count

    claims :
        (w1 : World) (message : Message)
        → IsView w b
        → b.slot_base ≡ slot * w.pool.header.slot_stride
        → IsAnchored b
        → w.pool.header.slot_capacity < 2 ^ 32
        → layout_of w1 ≡ layout_of w
        → Sent w.pool.pool_id b.handle sender.local_component sender.remote_component sender.link_id
            (w.pool.controls slot)
            (w1.pool.controls slot)
            message
        → is_ok (buffer_claim p message receiver.local_component buffer_invalid w1).0 ≡ true
        → (buffer : Buffer) × (w2 : World) × Claimed message w1 buffer w2
    unfolding make_view
    claims w1 message v base a small layout dispatched_as good =
        let r = buffer_claim p message receiver.local_component buffer_invalid w1 in
        let l = buffer_claim_lem p message receiver.local_component buffer_invalid w1 in
        let (received, view) = l.succeeded good in
        let status : r.0 ≡ ok = is_ok_only r.0 good in
        let slots : handle_slot_id message.handle ≡ slot =
          ap (λ m. handle_slot_id m.handle) dispatched_as.described in
        let moved : (w1.pool.controls (handle_slot_id message.handle)).region
            ≡ (w1.pool.controls slot).region =
          ap (λ i. (w1.pool.controls i).region) slots in
        let kept : (r.2.pool.controls (handle_slot_id message.handle)).region
            ≡ (w.pool.controls slot).region =
          ap (λ c. c.region) received.core ∙ moved ∙ ap (λ c. c.region) dispatched_as.core in
        (
          r.1,
          r.2,
          record {
            run = ap (λ x. (x, r.1, r.2)) status;
            is_mine =
                (buffer_claim_once p message receiver.local_component buffer_invalid w1
                  (ground (arith, small, layout)) good).0;
            owner = ground (arith, view, received.core);
            shown =
                same_bytes r.2 r.1 (handle_slot_id message.handle) message.handle v a.control base
                  (l.frame.same_layout ∙ layout) slots kept view;
          },
        )

    -- The receive, after a send that is known by what it has done.
    receives :
        (c : Buffer) (t1 : T) (w1 : World) (fuel : ℕ) (message : Message)
        → IsSound t1
        → queue t1 ≡ message ∷ []
        → epoch_stale w1 receiver ≡ false
        → 1 < fuel
        → message.source_component ≡ receiver.remote_component
        → (buffer : Buffer) × (w2 : World) × Claimed message w1 buffer w2
        → Arrived (link_recv tr p receiver fuel c t1 w1)
    receives c t1 w1 fuel message s1 e1 current enough source (buffer, w2, k) =
        let few : length (queue t1) < fuel = subst (λ xs. length xs < fuel) (sym e1) enough in
        let only =
          ap (λ xs. deliver p receiver xs buffer_invalid w1) e1
          ∙ deliver-Claimed message w1 buffer w2 source k in
        arrives buffer w2 (link_recv tr p receiver fuel c t1 w1)
          (subst
            (λ x. Receiving tr IsSound queue q p receiver x (link_recv tr p receiver fuel c t1 w1))
            only (link_recv_lem tr IsSound queue q p receiver fuel c t1 w1 s1 few current))
          k.is_mine k.owner k.shown

    -- After a send that succeeded, over an empty queue, of a view with a 32-bit sequence in a pool
    -- of a 32-bit slot capacity, the receive at the other end of the link, with fuel for two
    -- messages, returns an owned buffer with the same bytes and empties the queue, if the
    -- receiver's epoch is current, the deadline has not passed, the pages open and the region lies
    -- in the slot.
    pub link_recv-link_send :
        (b1 c : Buffer) (t1 : T) (w1 : World) (fuel : ℕ)
        → IsSound t
        → queue t ≡ []
        → link_send tr p sender b t w ≡ (ok, b1, t1, w1)
        → IsView w b
        → IsAnchored b
        → b.slot_base ≡ slot * w.pool.header.slot_stride
        → (w.pool.controls slot).transfer_sequence < 2 ^ 32
        → w.pool.header.slot_capacity < 2 ^ 32
        → (w.pool.controls slot).region.offset + (w.pool.controls slot).region.length
          ≤ w.pool.header.slot_capacity
        → receiver.local_component ≡ sender.remote_component
        → receiver.remote_component ≡ sender.local_component
        → epoch_stale w1 receiver ≡ false
        → past_deadline (w.pool.controls slot) (now_ns p w1) ≡ false
        → is_ok (protect_slot p (tick w1) slot true).0 ≡ true
        → 1 < fuel
        → Arrived (link_recv tr p receiver fuel c t1 w1)
    link_recv-link_send b1 c t1 w1 fuel s none_held run v a base word small fits to from current
          in_time opens enough =
        let good : is_ok (link_send tr p sender b t w).0 ≡ true = ap (λ x. is_ok x.0) run in
        let d : Dispatched tr p sender b t w t1 w1 =
          subst (λ (x : Status × Buffer × T × World). Dispatched tr p sender b t w x.2 x.3) run
            (dispatched tr p sender b t w (link_send tr p sender b t w)
              (link_send_lem tr p sender b t w a word) good) in
        let (s1, e1) =
          Queued-alone t t1 d.message (tr.send d.message t) (q.push t d.message s) d.accepted
            none_held in
        let can =
          delivery p b.handle sender.local_component sender.remote_component sender.link_id w w1
            d.message d.transferred (able tr p sender b t w good) d.frame.same_layout fits in_time
            opens in
        let small1 : w1.pool.header.slot_capacity < 2 ^ 32 =
          subst (λ n. n < 2 ^ 32) (sym (ap (λ l. l.slot_capacity) d.frame.same_layout)) small in
        let claimed : is_ok (buffer_claim p d.message receiver.local_component buffer_invalid w1).0
            ≡ true =
          subst (λ n. is_ok (buffer_claim p d.message n buffer_invalid w1).0 ≡ true) (sym to)
            ((buffer_claim_iff p d.message sender.remote_component buffer_invalid w1 small1).1
              can) in
        receives c t1 w1 fuel d.message s1 e1 current enough
          (ap (λ m. m.source_component) d.transferred.described ∙ sym from)
          (claims w1 d.message v base a small d.frame.same_layout d.transferred claimed)
