-- ===== src/VisitedSet/Bits.antt =====
-- One bit of a word: `w & (1 << k)` as a test, and `w | (1 << k)`, by recursion on `k`.
use z_ipc.Base.{ℕ, zero, suc, ◌+◌, ◌*◌, ◌/◌, ◌%◌, ◌^◌, ◌<◌, ◌≡◌, Bool, ◌||◌, arith}
use z_ipc.Base.{◌==◌}
use native.Mathlib.Nat.{pow-suc}

unfoldable pub test_bit : ℕ → ℕ → Bool
test_bit w zero = w % 2 == 1
test_bit w (suc k) = test_bit (w / 2) k

unfoldable pub set_bit : ℕ → ℕ → ℕ
set_bit w zero = w / 2 * 2 + 1
set_bit w (suc k) = set_bit (w / 2) k * 2 + w % 2

pub test_bit-set_bit : (w i j : ℕ) → test_bit (set_bit w i) j ≡ ((i == j) || test_bit w j)
unfolding test_bit set_bit
test_bit-set_bit w zero zero = ground arith
test_bit-set_bit w zero (suc j) = ground (arith, half_odd)
  where
    half_odd : (w / 2 * 2 + 1) / 2 ≡ w / 2
    half_odd = omega arith
test_bit-set_bit w (suc i) zero = ground arith
test_bit-set_bit w (suc i) (suc j) = ground (arith, test_bit-set_bit (w / 2) i j, halved)
  where
    halved : (set_bit (w / 2) i * 2 + w % 2) / 2 ≡ set_bit (w / 2) i
    halved = omega arith

-- A set bit below the width keeps the word in range.
pub set_bit-lt : (k i w : ℕ) → w < 2 ^ k → i < k → set_bit w i < 2 ^ k
unfolding set_bit
set_bit-lt zero i w h p = absurd (omega arith)
set_bit-lt (suc k) zero w h p = omega (arith, pow-suc 2 k)
set_bit-lt (suc k) (suc i) w h p =
    omega (arith, pow-suc 2 k, set_bit-lt k i (w / 2) (omega (arith, pow-suc 2 k)) (omega arith))
