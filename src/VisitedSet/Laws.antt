-- ===== src/VisitedSet/Laws.antt =====
-- Theorems on zipc_visited_set_test and visited_set_add.
use z_ipc.Base.{ℕ, ◌/◌, ◌%◌, ◌≡◌, refl, false, ◌&&◌, ◌||◌, ◌==◌, arith}
use z_ipc.Status.{component_id_valid}
use z_ipc.VisitedSet.{VisitedSet, visited_none, visited_set_test, visited_set_add}
use z_ipc.VisitedSet.Bits.{test_bit, test_bit-set_bit}

-- Adding a component to a visited set adds that component, if it is valid, and no other.
pub visited_set_test-add :
    (visited : VisitedSet) (added component : ℕ)
    → visited_set_test (visited_set_add visited added) component
      ≡ ((component_id_valid added && (added == component)) || visited_set_test visited component)
unfolding visited_set_test visited_set_add component_id_valid
visited_set_test-add visited added component =
    ground (arith, test_bit-set_bit (visited (added / 32)) (added % 32) (component % 32))

test_bit-zero : (k : ℕ) → test_bit 0 k ≡ false
unfolding test_bit
test_bit-zero ℕ.zero = refl
test_bit-zero (ℕ.suc k) = test_bit-zero k

pub visited_set_test-none : (component : ℕ) → visited_set_test visited_none component ≡ false
unfolding visited_set_test
visited_set_test-none component = ground (arith, test_bit-zero (component % 32))
