-- ===== src/Link/Reconcile/Drain.antt =====
-- The consumer's end of a reconciliation drops the messages at the front of the ring that no slot
-- waits for any more.
use z_ipc.Base.{
  Bool-cases, ltb, ℕ, zero, suc, true, false, Option, some, List, [], ◌∷◌, length, ◌<◌, ◌≡◌, ◌%◌,
  ◌+◌, arith, ap, sym, ◌∙◌, if◌then◌else◌, inl, inr, ◌==◌,
}
use z_ipc.Word.{u32}
use z_ipc.Status.{Status, no_buffer, ok}
use z_ipc.State.{World, Message}
use z_ipc.Ring.{Ring, ring_pop}
use z_ipc.Ring.Laws.{IsRing, queue, ring_pop_lem}
use z_ipc.Transport.{message_zero}
use z_ipc.Link.Reconcile.{drain_ring, is_live}
use mathlib.Core.Path.{subst}

-- The messages from the first live one on.
abbrev pub from_first_live : World → List Message → List Message
from_first_live w [] = []
from_first_live w (message ∷ rest) =
    let later = from_first_live w rest in if is_live w message then message ∷ rest else later

module _ (w : World) where
  -- The ring after a drain.
  pub record Drained (messages : List Message) (x : Option Ring) : Type 0 where
    pub ring : Ring
    pub returns : x ≡ some ring
    pub sound : IsRing ring
    pub remains : queue ring ≡ from_first_live w messages

  -- What a pop says of the positions.
  no_more :
      (r : Ring)
      → ring_pop r message_zero ≡ (no_buffer, message_zero, r)
      → (r.consumer == r.producer) ≡ true
  unfolding ring_pop
  no_more r e = ground (arith, e)

  some_more :
      (r r' : Ring) (first : Message)
      → ring_pop r message_zero ≡ (ok, first, r')
      → (r.consumer == r.producer) ≡ false
  unfolding ring_pop
  some_more r r' first e = ground (arith, e)

  popped :
      (r r' : Ring) (first : Message)
      → ring_pop r message_zero ≡ (ok, first, r')
      → (r.entries (r.consumer % r.depth) ≡ first)
        × (record r { consumer = u32 (r.consumer + 1) } ≡ r')
  unfolding ring_pop
  popped r r' first e =
      let deep : ltb r.depth 2 ≡ false = ground (arith, e) in
      let more = some_more r r' first e in
      let run : ring_pop r message_zero
          ≡ (ok, r.entries (r.consumer % r.depth), record r { consumer = u32 (r.consumer + 1) }) =
        ground (arith, deep, more) in
      (
        ap (λ (x : Status × Message × Ring). x.1) (sym run ∙ e),
        ap (λ (x : Status × Message × Ring). x.2) (sym run ∙ e),
      )

  -- One step of the drain, by what becomes of the rest.
  drain_next :
      (fuel : ℕ) (r r' : Ring) (first : Message) (rest : List Message)
      → IsRing r
      → queue r ≡ first ∷ rest
      → ring_pop r message_zero ≡ (ok, first, r')
      → Drained rest (drain_ring w fuel r')
      → Drained (first ∷ rest) (drain_ring w (suc fuel) r)
  unfolding drain_ring
  drain_next fuel r r' first rest z e run later =
      let (entry, moved) = popped r r' first run in
      let more = some_more r r' first run in
      elim (Bool-cases (is_live w first)) [
        | inl live ↦
            let here : is_live w (r.entries (r.consumer % r.depth)) ≡ true =
              ap (is_live w) entry ∙ live in
            record {
              ring = r;
              returns = ground (arith, more, here);
              sound = z;
              remains = e ∙ ground (arith, live);
            }
        | inr stale ↦
            let here : is_live w (r.entries (r.consumer % r.depth)) ≡ false =
              ap (is_live w) entry ∙ stale in
            let skip : drain_ring w (suc fuel) r ≡ drain_ring w fuel r' =
              ground (arith, more, here) ∙ ap (drain_ring w fuel) moved in
            record {
              ring = later.ring;
              returns = skip ∙ later.returns;
              sound = later.sound;
              remains = later.remains ∙ ground (arith, stale);
            }
      ]

  -- A drain of a ring within its bounds, whose depth divides 2^32, ends if its fuel is more than
  -- the number of its messages, and leaves the messages from the first live one on.
  pub drain_ring_lem :
      (fuel : ℕ) (messages : List Message) (r : Ring)
      → IsRing r
      → queue r ≡ messages
      → length messages < fuel
      → Drained messages (drain_ring w fuel r)
  unfolding drain_ring
  drain_ring_lem zero messages r z e enough = absurd (omega arith)
  drain_ring_lem (suc fuel) messages r z e enough = elim (ring_pop_lem r z message_zero) [
    | inl (empty, run) ↦
        let at_end = no_more r run in
        subst (λ xs. Drained xs (drain_ring w (suc fuel) r)) (sym empty ∙ e)
          (record { ring = r; returns = ground (arith, at_end); sound = z; remains = empty })
    | inr (first, rest, r', held, run, z', e') ↦
        let split : first ∷ rest ≡ messages = sym held ∙ e in
        let one_more : suc (length rest) ≡ length messages = ap length split in
        let shorter : length rest < fuel = omega (arith, one_more, enough) in
        subst (λ xs. Drained xs (drain_ring w (suc fuel) r)) split
          (drain_next fuel r r' first rest z held run (drain_ring_lem fuel rest r' z' e' shorter))
  ]
