-- ===== src/Tests/Words.antt =====
-- The laws of the packed words at concrete values.
use z_ipc.Handle.{buffer_id_sequence, buffer_id_session, buffer_id_make, buffer_id_component}
use z_ipc.Status.{component_id_valid}
use z_ipc.VisitedSet.{visited_none, visited_set_add, visited_set_test}
use z_ipc.Base.{refl, ◌||◌, arith, ◌==◌, ◌&&◌, ◌≡◌}
use z_ipc.Handle.Laws.{buffer_id_round_trip}
use z_ipc.VisitedSet.Laws.{visited_set_test-add}

buffer_id_round_trip_example :
    (buffer_id_component (buffer_id_make 16 77 5) ≡ 16)
    × (buffer_id_session (buffer_id_make 16 77 5) ≡ 77)
    × (buffer_id_sequence (buffer_id_make 16 77 5) ≡ 5)
unfolding component_id_valid
buffer_id_round_trip_example = buffer_id_round_trip 16 77 5 refl (omega arith) (omega arith)

visited_set_test-add_example :
    visited_set_test (visited_set_add visited_none 70) 70
    ≡ ((component_id_valid 70 && (70 == 70)) || visited_set_test visited_none 70)
visited_set_test-add_example = visited_set_test-add visited_none 70 70
