-- ===== src/Tests/Windows.antt =====
-- The laws of the payload window on the owned slot of the small pool.
use z_ipc.Buffer.{buffer_valid, buffer_owned}
use z_ipc.Buffer.Window.{
  buffer_trim_front, buffer_prepend, buffer_trim_back, buffer_append, buffer_headroom,
  buffer_tailroom,
}
use z_ipc.Base.{refl, arith, drop, ◌++◌, ◌≡◌, take, ◌+◌, ◌-◌, [], ◌∷◌, ℕ, List}
use z_ipc.Buffer.Window.Laws.{IsView, buffer_window_lem, contents, Shows}
use z_ipc.Tests.{buffer_view, world_owned}
use z_ipc.Component.{registered_epoch}
use z_ipc.Status.{component_id_valid}
use z_ipc.Handle.{handle_generation, component_lifecycle_epoch, component_lifecycle_state}

view : IsView world_owned buffer_view
unfolding buffer_owned buffer_valid registered_epoch component_id_valid component_lifecycle_state
    component_lifecycle_epoch handle_generation
view = record {
  is_mine = refl;
  small = omega arith;
  fits = omega arith;
  same_length = refl;
  same_start = refl;
}

tailroom : buffer_tailroom world_owned buffer_view ≡ 34
unfolding buffer_tailroom buffer_owned buffer_valid registered_epoch component_id_valid
    component_lifecycle_state component_lifecycle_epoch handle_generation
tailroom = refl

headroom : buffer_headroom world_owned buffer_view ≡ 20
unfolding buffer_headroom buffer_owned buffer_valid registered_epoch component_id_valid
    component_lifecycle_state component_lifecycle_epoch handle_generation
headroom = refl

abbrev bytes : List ℕ
bytes = 1 ∷ 2 ∷ 3 ∷ []

buffer_window_lem_example :
    Shows world_owned buffer_view
      (buffer_headroom world_owned buffer_view)
      (contents world_owned buffer_view ++ bytes)
      (buffer_append world_owned buffer_view bytes)
    × Shows world_owned buffer_view
        (buffer_headroom world_owned buffer_view - 3)
        (bytes ++ contents world_owned buffer_view)
        (buffer_prepend world_owned buffer_view bytes)
    × Shows world_owned buffer_view
        (buffer_headroom world_owned buffer_view + 4)
        (drop 4 (contents world_owned buffer_view))
        (buffer_trim_front world_owned buffer_view 4)
    × Shows world_owned buffer_view
        (buffer_headroom world_owned buffer_view)
        (take 6 (contents world_owned buffer_view))
        (buffer_trim_back world_owned buffer_view 4)
buffer_window_lem_example =
    buffer_window_lem world_owned buffer_view view bytes bytes 4 (omega (arith, tailroom))
      (omega (arith, headroom)) (omega arith)
