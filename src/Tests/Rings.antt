-- ===== src/Tests/Rings.antt =====
-- A ring of four messages that holds one, with positions about to wrap.
use Prim.Native.Nat.{◌∣◌}
use native.Mathlib.Nat.{dvd_of_mod-eq-zero}
use z_ipc.Ring.{ring_commit, ring_push, ring_pop, ring_peek, Ring}
use z_ipc.Base.{◌∷◌, List, ◌⊎◌, refl, [], ◌≡◌, arith, ◌-◌, ◌^◌}
use z_ipc.Ring.Laws.{ring_pop_lem, ring_commit-peek, ring_push_lem, queue, Pushed, IsRing}
use z_ipc.Tests.{message_sent, message_none}
use z_ipc.Status.{recovery_required, no_buffer, ok}
use z_ipc.State.{Message}

abbrev pub ring_one : Ring
ring_one = record { producer = 0; consumer = 2 ^ 32 - 1; depth = 4; entries = λ i. message_sent }

four_divides : 4 ∣ 2 ^ 32
four_divides = dvd_of_mod-eq-zero 4 refl

pub IsRing-one : IsRing ring_one
IsRing-one = record {
  deep = omega arith;
  depth_word = omega arith;
  divides = four_divides;
  producer_word = omega arith;
  consumer_word = omega arith;
  bounded = omega arith;
}

ring_push_lem_example : Pushed ring_one message_none (ring_push ring_one message_none)
ring_push_lem_example = ring_push_lem ring_one IsRing-one message_none

ring_pop_lem_example :
    ((queue ring_one ≡ []) × (ring_pop ring_one message_none ≡ (no_buffer, message_none, ring_one)))
    ⊎ ((first : Message) × (rest : List Message) × (r' : Ring) × (queue ring_one ≡ first ∷ rest)
        × (ring_pop ring_one message_none ≡ (ok, first, r'))
        × IsRing r'
        × (queue r' ≡ rest))
ring_pop_lem_example = ring_pop_lem ring_one IsRing-one message_none

peek_runs : ring_peek ring_one message_none 0 ≡ (ok, message_sent, 2 ^ 32 - 1)
unfolding ring_peek
peek_runs = refl

ring_commit-peek_example :
    (ring_pop ring_one message_none ≡ (ok, message_sent, (ring_commit ring_one (2 ^ 32 - 1)).1))
    × ((ring_commit ring_one (2 ^ 32 - 1)).0 ≡ ok)
    × (ring_commit (ring_commit ring_one (2 ^ 32 - 1)).1 (2 ^ 32 - 1)
        ≡ (recovery_required, (ring_commit ring_one (2 ^ 32 - 1)).1))
ring_commit-peek_example =
    ring_commit-peek ring_one IsRing-one message_none message_sent 0 (2 ^ 32 - 1) peek_runs
