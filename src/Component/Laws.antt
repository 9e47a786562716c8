-- ===== src/Component/Laws.antt =====
-- Theorems on what the lifecycle operations make of one another.
use z_ipc.Base.{◌==◌, if◌then◌else◌, false, ℕ, ◌+◌, ◌^◌, ◌<◌, ◌≡◌, true, arith}
use z_ipc.Status.{invalid_argument, ok, component_stale}
use z_ipc.Handle.{
  active, component_lifecycle_make, component_lifecycle_epoch, component_lifecycle_state,
}
use z_ipc.State.{World}
use z_ipc.Platform.{Platform}
use z_ipc.Component.{
  Restart, component_epoch_recovering, component_restart_finish, component_unregister,
  component_restart_begin, lifecycle_of, registered_epoch, component_epoch_current,
  component_register, component_heartbeat,
}

-- The lifecycle word is a 64-bit word.
abbrev pub IsWord : World → ℕ → Type 0
IsWord w component = lifecycle_of w.pool component < 2 ^ 64

-- A registration that succeeds, of a component whose lifecycle is a 64-bit word, returns the next
-- epoch, and makes exactly that epoch current: its heartbeats are accepted, a second registration
-- is refused, and no other epoch may heartbeat.
pub component_register_serves :
    (p : Platform) (w w' : World) (component epoch other : ℕ)
    → IsWord w component
    → component_register p w component ≡ (ok, epoch, w')
    → (epoch ≡ component_lifecycle_epoch (lifecycle_of w.pool component) + 1)
      × (registered_epoch w'.pool component ≡ epoch)
      × (component_epoch_current w'.pool component epoch ≡ true)
      × ((component_heartbeat p w' component epoch).0 ≡ ok)
      × ((component_register p w' component).0 ≡ component_stale)
      × ((component_heartbeat p w' component other).0 ≡ (
          if other == 0 then invalid_argument else if other == epoch then ok else component_stale))
unfolding component_register component_heartbeat registered_epoch component_epoch_current
    component_lifecycle_make component_lifecycle_epoch component_lifecycle_state
component_register_serves p w w' component epoch other small h =
    (ground arith, ground arith, ground arith, ground arith, ground arith, ground arith)

-- A restart that begins, of a component whose lifecycle is a 64-bit word, fences the epoch that it
-- replaces: the old epoch is no longer current and cannot heartbeat, unregister or begin another
-- restart, while the next epoch is recovering.
pub component_restart_begin_fences :
    (p : Platform) (w w' : World) (component dead_epoch : ℕ) (restart restart' : Restart)
    → IsWord w component
    → component_restart_begin p w component dead_epoch restart ≡ (ok, restart', w')
    → (component_epoch_current w'.pool component dead_epoch ≡ false)
      × ((component_heartbeat p w' component dead_epoch).0 ≡ component_stale)
      × ((component_unregister w' component dead_epoch).0 ≡ component_stale)
      × ((component_restart_begin p w' component dead_epoch restart).0 ≡ component_stale)
      × (component_epoch_recovering w'.pool component (dead_epoch + 1) ≡ true)
      × (restart'.epoch ≡ dead_epoch + 1)
      × (restart'.scan_complete ≡ false)
unfolding component_restart_begin component_heartbeat component_unregister component_epoch_current
    component_epoch_recovering component_lifecycle_make component_lifecycle_epoch
    component_lifecycle_state
component_restart_begin_fences p w w' component dead_epoch restart restart' small h = (
  ground arith,
  ground arith,
  ground arith,
  ground arith,
  ground arith,
  ground arith,
  ground arith,
)

-- Of a component whose lifecycle is a 64-bit word, a restart that began finishes once its scan is
-- complete: the new epoch is active, it may heartbeat, and the restart object is cleared. Before
-- that it is refused and changes nothing.
pub component_restart_finish_activates :
    (p : Platform) (w w' : World) (component dead_epoch : ℕ) (restart restart' : Restart)
    → IsWord w component
    → component_restart_begin p w component dead_epoch restart ≡ (ok, restart', w')
    → let (early, r1, w1) = component_restart_finish p w' restart' in
      let (status, r2, w2) =
        component_restart_finish p w' (record restart' { scan_complete = true }) in
      (early ≡ invalid_argument)
      × (w1 ≡ w')
      × (status ≡ ok)
      × (r2.attached ≡ false)
      × (lifecycle_of w2.pool component ≡ component_lifecycle_make (dead_epoch + 1) active)
      × ((component_heartbeat p w2 component (dead_epoch + 1)).0 ≡ ok)
unfolding component_restart_begin component_restart_finish component_heartbeat
    component_epoch_recovering component_lifecycle_make component_lifecycle_epoch
    component_lifecycle_state
component_restart_finish_activates p w w' component dead_epoch restart restart' small h =
    (ground arith, ground arith, ground arith, ground arith, ground arith, ground arith)
