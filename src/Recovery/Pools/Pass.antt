-- ===== src/Recovery/Pools/Pass.antt =====
-- A pass over the slots of a pool, for the loops of the recoveries.
use z_ipc.State.{region_zero, World, Pool, Slot}
use z_ipc.Base.{
  sym, ap, refl, ◌∙◌, inr, suc, arith, ◌≤◌, inl, update, false, ◌⊎◌, true, ◌+◌, ◌<◌, ℕ, Bool, ◌≡◌,
}
use z_ipc.Status.{ok, is_ok, Status, invalid_component_id, free}
use native.Mathlib.Decide.{ℕ_discrete}
use mathlib.Core.Path.{subst}

-- A slot given back to the pool.
pub record Reclaimed (s s' : Slot) : Type 0 where
  pub state : s'.state ≡ free
  pub owner_id : s'.owner_id ≡ invalid_component_id
  pub next_owner_id : s'.next_owner_id ≡ invalid_component_id
  pub region : s'.region ≡ region_zero
  pub generation : s'.generation ≡ s.generation

-- The pass over the slots from `from` on, before `to`: those that are hit are reclaimed, if the pass
-- ended well, and those that are not, and those out of its range, are as before.
pub record Pass (hit : Slot → Bool) (from to : ℕ) (status : Status) (w w' : World) : Type 0 where
  pub outside : (j : ℕ) → (j < from) ⊎ (to ≤ j) → w'.pool.controls j ≡ w.pool.controls j
  pub kept : (j : ℕ) → hit (w.pool.controls j) ≡ false → w'.pool.controls j ≡ w.pool.controls j
  pub reclaimed :
      is_ok status ≡ true
      → (j : ℕ) → from ≤ j
      → j < to
      → hit (w.pool.controls j) ≡ true
      → Reclaimed (w.pool.controls j) (w'.pool.controls j)
  pub slot_count : w'.pool.header.slot_count ≡ w.pool.header.slot_count

pub Pass-none : (hit : Slot → Bool) (i : ℕ) (w : World) → Pass hit i (i + 0) ok w w
Pass-none hit i w = record {
  outside = λ j out. refl;
  kept = λ j miss. refl;
  reclaimed = λ good j low high. absurd (omega arith);
  slot_count = refl;
}

-- A pass that ends at its first slot.
pub Pass-stop :
    (hit : Slot → Bool) (i n : ℕ) (status : Status) (w w' : World)
    → is_ok status ≡ false
    → Pass hit i (i + 1) status w w'
    → Pass hit i (i + suc n) status w w'
Pass-stop hit i n status w w' bad one = record {
  outside = λ j out. one.outside j (elim out [ inl low ↦ inl low | inr high ↦ inr (omega arith) ]);
  kept = one.kept;
  reclaimed = λ good. absurd (ground arith);
  slot_count = one.slot_count;
}

-- A slot, and then the rest.
pub Pass-append :
    (hit : Slot → Bool) (i n : ℕ) (status : Status) (w w1 w' : World)
    → Pass hit i (i + 1) ok w w1
    → Pass hit (i + 1) (i + 1 + n) status w1 w'
    → Pass hit i (i + suc n) status w w'
Pass-append hit i n status w w1 w' one rest = record {
  outside = λ j out. elim out [
    | inl low ↦ rest.outside j (inl (omega arith)) ∙ one.outside j (inl low)
    | inr high ↦ rest.outside j (inr (omega arith)) ∙ one.outside j (inr (omega arith))
  ];
  kept = λ j miss.
      rest.kept j (subst (λ s. hit s ≡ false) (sym (one.kept j miss)) miss) ∙ one.kept j miss;
  reclaimed = λ good j low high struck. elim (ℕ_discrete i j) [
    | yes e ↦
        let first : Reclaimed (w.pool.controls j) (w1.pool.controls j) =
          one.reclaimed refl j low (omega arith) struck in
        subst (Reclaimed (w.pool.controls j)) (sym (rest.outside j (inl (omega arith)))) first
    | no ne ↦
        let same : w1.pool.controls j ≡ w.pool.controls j = one.outside j (inr (omega arith)) in
        subst (λ s. Reclaimed s (w'.pool.controls j)) same
          (rest.reclaimed good j (omega arith) (omega arith)
            (subst (λ s. hit s ≡ true) (sym same) struck))
  ];
  slot_count = rest.slot_count ∙ one.slot_count;
}

module _ (hit : Slot → Bool) (i : ℕ) (status : Status) (w w' : World) where
  pub Pass-same :
      (is_ok status ≡ false) ⊎ (hit (w.pool.controls i) ≡ false)
      → w'.pool ≡ w.pool
      → Pass hit i (i + 1) status w w'
  Pass-same why same = record {
    outside = λ j out. ground (arith, same);
    kept = λ j miss. ground (arith, same);
    reclaimed = λ good j low high struck.
        let here : i ≡ j = omega arith in absurd (ground (arith, why, here));
    slot_count = ground (arith, same);
  }

  pub Pass-one :
      (s' : Slot)
      → hit (w.pool.controls i) ≡ true
      → w'.pool.controls ≡ update w.pool.controls i s'
      → w'.pool.header.slot_count ≡ w.pool.header.slot_count
      → Reclaimed (w.pool.controls i) s'
      → Pass hit i (i + 1) status w w'
  Pass-one s' struck_here put count freed = record {
    outside = λ j out. rw put (ground (arith, out));
    kept = λ j miss. elim (ℕ_discrete i j) [
      | yes e ↦ absurd (ground (arith, e, struck_here, miss))
      | no ne ↦ rw put (ground (arith, ne))
    ];
    reclaimed = λ good j low high struck.
        let here : i ≡ j = omega arith in
        subst (λ j. Reclaimed (w.pool.controls j) (w'.pool.controls j)) here
          (subst (Reclaimed (w.pool.controls i)) (sym (ground (arith, put))) freed);
    slot_count = count;
  }

-- A pass over the whole pool, begun after the clock was read or not.
pub Pass-whole :
    (hit : Slot → Bool) (n : ℕ) (status : Status) (w w1 w' : World)
    → w1.pool ≡ w.pool
    → Pass hit 0 (0 + n) status w1 w'
    → Pass hit 0 n status w w'
Pass-whole hit n status w w1 w' same s = record {
  outside = λ j out.
      s.outside j (elim out [ inl low ↦ inl low | inr high ↦ inr (omega arith) ])
      ∙ ap (λ (pool : Pool). pool.controls j) same;
  kept =
      λ j miss. s.kept j (ground (arith, same, miss)) ∙ ap (λ (pool : Pool). pool.controls j) same;
  reclaimed = λ good j low high struck.
      subst (λ (pool : Pool). Reclaimed (pool.controls j) (w'.pool.controls j)) same
        (s.reclaimed good j low (omega arith)
          (subst (λ (pool : Pool). hit (pool.controls j) ≡ true) (sym same) struck));
  slot_count = s.slot_count ∙ ap (λ (pool : Pool). pool.header.slot_count) same;
}
