-- ===== src/Ring/Steps.antt =====
-- Theorems on a pop of a ring whose queue is known.
use z_ipc.Base.{inr, inl, ◌≡◌, List, [], ◌∷◌}
use z_ipc.Ring.Laws.{ring_pop_lem, IsRing, queue}
use z_ipc.Ring.{ring_pop, Ring}
use z_ipc.State.{Message}
use z_ipc.Status.{ok, no_buffer}

-- What the ring does with an empty and with a non-empty queue.
pub pop_empty :
    (r : Ring) (message : Message)
    → IsRing r
    → queue r ≡ []
    → ring_pop r message ≡ (no_buffer, message, r)
pop_empty r message z e = elim (ring_pop_lem r z message) [
  | inl (_, run) ↦ run
  | inr (first, rest, r', held, _, _, _) ↦ absurd cc
]

pub pop_next :
    (r : Ring) (message first : Message) (rest : List Message)
    → IsRing r
    → queue r ≡ first ∷ rest
    → (r' : Ring) × (ring_pop r message ≡ (ok, first, r')) × IsRing r' × (queue r' ≡ rest)
pop_next r message first rest z e = elim (ring_pop_lem r z message) [
  | inl (none_held, _) ↦ absurd cc
  | inr (first', rest', r', held, run, z', e') ↦ (r', cc, z', cc)
]
