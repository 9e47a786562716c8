-- ===== src/Tests/Identities.antt =====
-- The identity generator of component 16, from its first call on.
use z_ipc.Identity.Laws.{generate_buffer_id_total, Outcome, generate_buffer_id_distinct, IsQuiet}
use z_ipc.Status.{ok, Status, component_id_valid}
use z_ipc.Identity.{random_session, rotated, generate_round, generate_rounds, generate_buffer_id}
use z_ipc.Base.{none, refl, some, true, arith, ℕ, ◌≡◌, ◌≢◌}
use z_ipc.Tests.{platform, world_free}
use z_ipc.State.{World}

quiet : IsQuiet world_free 16
quiet = record { still = refl; alone = refl; in_range = omega arith }

valid : component_id_valid 16 ≡ true
unfolding component_id_valid
valid = refl

abbrev first : Status × ℕ × World
first = elim (generate_buffer_id platform 16 world_free) [ some r ↦ r | none ↦ (ok, 0, world_free) ]

abbrev second : Status × ℕ × World
second = elim (generate_buffer_id platform 16 first.2) [ some r ↦ r | none ↦ (ok, 0, world_free) ]

first_runs : generate_buffer_id platform 16 world_free ≡ some (ok, first.1, first.2)
unfolding generate_buffer_id generate_rounds generate_round rotated random_session
    component_id_valid
first_runs = refl

second_runs : generate_buffer_id platform 16 first.2 ≡ some (ok, second.1, second.2)
unfolding generate_buffer_id generate_rounds generate_round rotated random_session
    component_id_valid
second_runs = refl

generate_buffer_id_total_example :
    (r : Status × ℕ × World) × (generate_buffer_id platform 16 world_free ≡ some r)
    × Outcome 16 world_free r
generate_buffer_id_total_example = generate_buffer_id_total platform 16 valid world_free quiet

generate_buffer_id_distinct_example : first.1 ≢ second.1
generate_buffer_id_distinct_example =
    generate_buffer_id_distinct platform 16 valid world_free first.2 second.2 first.1 second.1 quiet
      first_runs second_runs
