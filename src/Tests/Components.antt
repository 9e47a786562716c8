-- ===== src/Tests/Components.antt =====
-- The lifecycle of component 48, which is registered, and of 16, which is restarted.
use z_ipc.Status.{component_stale, ok, component_id_valid, Status}
use z_ipc.Component.Laws.{component_restart_begin_fences, component_register_serves, IsWord}
use z_ipc.Component.{
  component_epoch_recovering, registered_epoch, component_heartbeat, lifecycle_of, restart_zero,
  component_unregister, Restart, component_epoch_current, component_restart_begin,
  component_register,
}
use z_ipc.Base.{refl, ◌+◌, true, arith, false, ℕ, ◌<◌, ◌≡◌}
use z_ipc.State.{World}
use z_ipc.Tests.{platform, world_free}
use z_ipc.Handle.{component_lifecycle_make, component_lifecycle_state, component_lifecycle_epoch}
use z_ipc.Component.Epochs.{unregister, none_made, one_more, component_register_fresh}

abbrev registered : Status × ℕ × World
registered = component_register platform world_free 48

abbrev left : Status × World
left = component_unregister registered.2 48 1

abbrev again : Status × ℕ × World
again = component_register platform left.1 48

abbrev restarted : Status × Restart × World
restarted = component_restart_begin platform world_free 16 1 restart_zero

word : IsWord world_free 48
word = omega arith

IsWord-active : IsWord world_free 16
IsWord-active = omega arith

register_runs : component_register platform world_free 48 ≡ (ok, 1, registered.2)
unfolding component_register component_id_valid component_lifecycle_epoch component_lifecycle_state
register_runs = refl

again_runs : component_register platform left.1 48 ≡ (ok, 2, again.2)
unfolding component_register component_unregister component_id_valid component_lifecycle_epoch
    component_lifecycle_state component_lifecycle_make
again_runs = refl

restart_runs :
    component_restart_begin platform world_free 16 1 restart_zero ≡ (ok, restarted.1, restarted.2)
unfolding component_restart_begin component_id_valid component_lifecycle_epoch
    component_lifecycle_state
restart_runs = refl

component_register_serves_example :
    (1 ≡ component_lifecycle_epoch (lifecycle_of world_free.pool 48) + 1)
    × (registered_epoch registered.2.pool 48 ≡ 1)
    × (component_epoch_current registered.2.pool 48 1 ≡ true)
    × ((component_heartbeat platform registered.2 48 1).0 ≡ ok)
    × ((component_register platform registered.2 48).0 ≡ component_stale)
    × ((component_heartbeat platform registered.2 48 2).0 ≡ component_stale)
component_register_serves_example =
    component_register_serves platform world_free registered.2 48 1 2 word register_runs

component_restart_begin_fences_example :
    (component_epoch_current restarted.2.pool 16 1 ≡ false)
    × ((component_heartbeat platform restarted.2 16 1).0 ≡ component_stale)
    × ((component_unregister restarted.2 16 1).0 ≡ component_stale)
    × ((component_restart_begin platform restarted.2 16 1 restart_zero).0 ≡ component_stale)
    × (component_epoch_recovering restarted.2.pool 16 2 ≡ true)
    × (restarted.1.epoch ≡ 2)
    × (restarted.1.scan_complete ≡ false)
component_restart_begin_fences_example =
    component_restart_begin_fences platform world_free restarted.2 16 1 restart_zero restarted.1
      IsWord-active restart_runs

component_register_fresh_example : 1 < 2
component_register_fresh_example =
    component_register_fresh platform world_free registered.2 left.1 again.2 48 1 2 word
      register_runs (one_more none_made (unregister 48 1)) again_runs
