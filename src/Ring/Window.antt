-- ===== src/Ring/Window.antt =====
-- The entries between the two positions of a ring, read as if the positions did not wrap.
use z_ipc.Base.{
  ◌-◌, ◌∙◌, refl, ◌≤◌, arith, ◌||◌, zero, ◌≢◌, ◌++◌, ap, false, ◌∷◌, update, ◌%◌, ◌≡◌, Bool, [],
  ◌+◌, ◌<◌, suc, length, List, ℕ,
}
use z_ipc.State.{Message}
use z_ipc.Ring.{same_message}
use native.Mathlib.Nat.{mod-eq-sub-mod, mod-eq_of_lt, mod-add-mod, mod-lt, add-zero}
use native.Mathlib.Decide.{dec_lt}
use mathlib.Core.Path.{ap₂, subst}

-- `n` entries from `position` on.
abbrev pub held : (ℕ → Message) → ℕ → ℕ → ℕ → List Message
held entries depth position zero = []
held entries depth position (suc n) =
    entries (position % depth) ∷ held entries depth (position + 1) n

-- The list has a message with the same fields.
abbrev pub contains : Message → List Message → Bool
contains message [] = false
contains message (x ∷ xs) = same_message x message || contains message xs

pub length-held :
    (entries : ℕ → Message) (depth position n : ℕ) → length (held entries depth position n) ≡ n
length-held entries depth position zero = refl
length-held entries depth position (suc n) = ap suc (length-held entries depth (position + 1) n)

-- One more entry behind.
pub held-suc :
    (entries : ℕ → Message) (depth position n : ℕ)
    → held entries depth position (suc n)
      ≡ held entries depth position n ++ (entries ((position + n) % depth) ∷ [])
held-suc entries depth position zero = rw add-zero
held-suc entries depth position (suc n) =
    let moved : position + 1 + n ≡ position + suc n = omega arith in
    ap (λ xs. entries (position % depth) ∷ xs)
      (held-suc entries depth (position + 1) n
        ∙ ap (λ k. held entries depth (position + 1) n ++ (entries (k % depth) ∷ [])) moved)

-- Two positions less than a depth apart have different entries.
pub index_ne : (depth a k : ℕ) → 0 < k → k < depth → a % depth ≢ (a + k) % depth
index_ne depth a k pos low same =
    let inside : a % depth < depth = mod-lt a (omega arith) in
    let sum : (a % depth + k) % depth ≡ (a + k) % depth = mod-add-mod a depth k in
    elim (dec_lt (a % depth + k) depth) [
      | yes short ↦
          let plain : (a % depth + k) % depth ≡ a % depth + k = mod-eq_of_lt short in omega arith
      | no long ↦
          let less : (a % depth + k) % depth ≡ (a % depth + k - depth) % depth =
            mod-eq-sub-mod (omega arith) in
          let plain : (a % depth + k - depth) % depth ≡ a % depth + k - depth =
            mod-eq_of_lt (omega arith) in
          omega arith
    ]

-- A write to an entry behind the window, less than a depth from its start, does not change it.
pub held-update :
    (entries : ℕ → Message) (depth position n target : ℕ) (message : Message)
    → position + n ≤ target
    → target < position + depth
    → held (update entries (target % depth) message) depth position n
      ≡ held entries depth position n
held-update entries depth position zero target message behind near = refl
held-update entries depth position (suc n) target message behind near =
    let there : position + (target - position) ≡ target = omega arith in
    let apart : position % depth ≢ target % depth =
      subst (λ k. position % depth ≢ k % depth) there
        (index_ne depth position (target - position) (omega arith) (omega arith)) in
    ap₂ ◌∷◌ (ground (arith, apart))
      (held-update entries depth (position + 1) n target message (omega arith) (omega arith))
