-- ===== src/VisitedSet.antt =====
-- `zipc_visited_set_t` of src/core/zipc.c: 256 bits in eight 32-bit words.
pub mod Bits
pub mod Laws
use z_ipc.Base.{ℕ, ◌/◌, ◌%◌, Bool, false, if◌then◌else◌, update}
use z_ipc.Status.{component_id_valid}
use Bits.{test_bit, set_bit}

-- `words[8]`, by index
abbrev pub VisitedSet : Type 0
VisitedSet = ℕ → ℕ

-- What `memset` leaves.
abbrev pub visited_none : VisitedSet
visited_none i = 0

unfoldable pub visited_set_test : VisitedSet → ℕ → Bool
visited_set_test visited component =
    if component_id_valid component
    then test_bit (visited (component / 32)) (component % 32)
    else false

unfoldable pub visited_set_add : VisitedSet → ℕ → VisitedSet
visited_set_add visited component =
    if component_id_valid component
    then update visited (component / 32) (set_bit (visited (component / 32)) (component % 32))
    else visited
