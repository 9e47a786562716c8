-- ===== src/Buffer/Window/Bytes.antt =====
-- Reading payload bytes after writing them.
use z_ipc.Base.{
  ◌-◌, take, drop, refl, ◌∙◌, zero, ap, update_self, arith, suc, inl, inr, ◌≤◌, ◌≡◌, ◌⊎◌, ◌+◌,
  length, ◌<◌, ℕ, List, [], ◌∷◌, ◌++◌,
}
use z_ipc.Buffer.Window.{write_bytes, read_bytes}
use native.Mathlib.Nat.{add-zero, zero-add}
use mathlib.Core.Path.{ap₂}

-- `i` is no index of `n` bytes from `start` on.
abbrev pub Outside : ℕ → ℕ → ℕ → Type 0
Outside start n i = (i < start) ⊎ (start + n ≤ i)

pub write_bytes-Outside :
    (m : ℕ → ℕ) (start i : ℕ) (xs : List ℕ)
    → Outside start (length xs) i
    → write_bytes m start xs i ≡ m i
write_bytes-Outside m start i [] h = refl
write_bytes-Outside m start i (x ∷ xs) (inl h) =
    ground (arith, write_bytes-Outside m (start + 1) i xs (inl (omega arith)))
write_bytes-Outside m start i (x ∷ xs) (inr h) =
    ground (arith, write_bytes-Outside m (start + 1) i xs (inr (omega arith)))

-- A window that the write does not touch.
abbrev pub Apart : ℕ → ℕ → ℕ → ℕ → Type 0
Apart start n from count = (from + count ≤ start) ⊎ (start + n ≤ from)

pub read-write-Apart :
    (m : ℕ → ℕ) (start from count : ℕ) (xs : List ℕ)
    → Apart start (length xs) from count
    → read_bytes (write_bytes m start xs) from count ≡ read_bytes m from count
read-write-Apart m start from zero xs h = refl
read-write-Apart m start from (suc count) xs (inl h) =
    ap₂ ◌∷◌ (write_bytes-Outside m start from xs (inl (omega arith)))
      (read-write-Apart m start (from + 1) count xs (inl (omega arith)))
read-write-Apart m start from (suc count) xs (inr h) =
    ap₂ ◌∷◌ (write_bytes-Outside m start from xs (inr (omega arith)))
      (read-write-Apart m start (from + 1) count xs (inr (omega arith)))

pub length-read_bytes : (m : ℕ → ℕ) (start n : ℕ) → length (read_bytes m start n) ≡ n
length-read_bytes m start zero = refl
length-read_bytes m start (suc n) = ap suc (length-read_bytes m (start + 1) n)

pub read-write_self :
    (m : ℕ → ℕ) (start : ℕ) (xs : List ℕ)
    → read_bytes (write_bytes m start xs) start (length xs) ≡ xs
read-write_self m start [] = refl
read-write_self m start (x ∷ xs) =
    ap₂ ◌∷◌ (update_self (write_bytes m (start + 1) xs) start x)
      (rest ∙ read-write_self m (start + 1) xs)
  where
    rest :
        read_bytes (write_bytes m start (x ∷ xs)) (start + 1) (length xs)
        ≡ read_bytes (write_bytes m (start + 1) xs) (start + 1) (length xs)
    rest =
        read-write-Apart (write_bytes m (start + 1) xs) start (start + 1) (length xs) (x ∷ [])
          (inr (omega arith))

pub read_bytes-add :
    (m : ℕ → ℕ) (start a b : ℕ)
    → read_bytes m start (a + b) ≡ read_bytes m start a ++ read_bytes m (start + a) b
read_bytes-add m start zero b = rw (zero-add, add-zero)
read_bytes-add m start (suc a) b =
    ap (read_bytes m start) moved
    ∙ ap (λ r. m start ∷ r) (read_bytes-add m (start + 1) a b)
    ∙ ap (λ k. m start ∷ read_bytes m (start + 1) a ++ read_bytes m k b) shifted
  where
    moved : suc a + b ≡ suc (a + b)
    moved = omega arith

    shifted : start + 1 + a ≡ start + suc a
    shifted = omega arith

pub drop-read_bytes :
    (m : ℕ → ℕ) (start n k : ℕ)
    → n ≤ k
    → drop n (read_bytes m start k) ≡ read_bytes m (start + n) (k - n)
drop-read_bytes m start zero k h = ap₂ (read_bytes m) (omega arith) (omega arith)
drop-read_bytes m start (suc n) zero h = absurd (omega arith)
drop-read_bytes m start (suc n) (suc k) h =
    drop-read_bytes m (start + 1) n k (omega arith) ∙ ap₂ (read_bytes m) (omega arith) (omega arith)

pub take-read_bytes :
    (m : ℕ → ℕ) (start n k : ℕ) → n ≤ k → take n (read_bytes m start k) ≡ read_bytes m start n
take-read_bytes m start zero k h = refl
take-read_bytes m start (suc n) zero h = absurd (omega arith)
take-read_bytes m start (suc n) (suc k) h =
    ap (λ r. m start ∷ r) (take-read_bytes m (start + 1) n k (omega arith))
