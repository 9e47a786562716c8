-- ===== src/Tests/Recoveries.antt =====
-- The recoveries of the small pool: component 16 is restarted while it owns slot 0, component 48 is
-- gone and left slot 0 behind, and a claim of slot 0 was interrupted.
use z_ipc.Recovery.Restarts.Whole.{Running-begin}
use z_ipc.Status.{is_ok, is_claiming, claiming, component_stale, ok, component_id_valid, Status}
use z_ipc.Component.{
  component_epoch_recovering, component_restart_finish, component_epoch_current, restart_zero,
  Restart, component_restart_begin,
}
use z_ipc.Component.Laws.{IsWord}
use z_ipc.Recovery.Restarts.Whole.{none_made, one_more, component_restart_complete, Running}
use z_ipc.Recovery.Restarts.{
  inherited_slot, inherit_slot, visit_owned, visit_slot, restart_scan, component_restart_next,
}
use z_ipc.Recovery.Restarts.Laws.{component_restart_next_owned}
use z_ipc.Buffer.{make_view, buffer_owned}
use z_ipc.Base.{false, refl, ◌⊎◌, true, arith, ◌<◌, ◌≡◌, ℕ}
use z_ipc.State.{buffer_invalid, Buffer, World}
use z_ipc.Recovery.Pools.{pool_recover_owner, pool_recover_claiming, RecoveryResult}
use z_ipc.Handle.{
  handle_make, claim_token_epoch, claim_token_component, component_lifecycle_make,
  component_lifecycle_state, component_lifecycle_epoch,
}
use z_ipc.Tests.{slot_free, slot_owned, platform, world_with, world_owned}
use z_ipc.Recovery.Restarts.Visits.{cleared}
use z_ipc.Recovery.Pools.Laws.{pool_recover_owner_lem, orphaned, pool_recover_claiming_lem}
use z_ipc.Platform.{protect_slot}
use z_ipc.Trace.{trace_slot}
use z_ipc.Recovery.Pools.Pass.{Pass}

abbrev started : Status × Restart × World
started = component_restart_begin platform world_owned 16 1 restart_zero

start_runs :
    component_restart_begin platform world_owned 16 1 restart_zero ≡ (ok, started.1, started.2)
unfolding component_restart_begin component_id_valid component_lifecycle_epoch
    component_lifecycle_state
start_runs = refl

IsWord-component : IsWord world_owned 16
IsWord-component = omega arith

running : Running 16 1 2 started.1 started.2
running =
    Running-begin platform 16 1 restart_zero started.1 world_owned started.2 start_runs
      IsWord-component (omega arith)

abbrev once : Status × Restart × Buffer × World
once = component_restart_next platform started.1 buffer_invalid started.2

abbrev twice : Status × Restart × Buffer × World
twice = component_restart_next platform once.1 buffer_invalid once.3

once_is_ok : is_ok once.0 ≡ true
unfolding component_restart_next component_restart_begin restart_scan visit_slot visit_owned
    inherit_slot inherited_slot make_view protect_slot component_epoch_recovering component_id_valid
    component_lifecycle_make component_lifecycle_epoch component_lifecycle_state
    claim_token_component claim_token_epoch trace_slot handle_make
once_is_ok = refl

twice_complete : twice.1.scan_complete ≡ true
unfolding component_restart_next component_restart_begin restart_scan visit_slot visit_owned
    inherit_slot inherited_slot make_view protect_slot component_epoch_recovering component_id_valid
    component_lifecycle_make component_lifecycle_epoch component_lifecycle_state
    claim_token_component claim_token_epoch trace_slot handle_make
twice_complete = refl

component_restart_next_owned_example :
    (buffer_owned once.3 once.2 ≡ true)
    × (once.2.owner ≡ started.1.component)
    × (once.2.owner_epoch ≡ started.1.epoch)
component_restart_next_owned_example =
    component_restart_next_owned platform started.1 buffer_invalid started.2 running.restart
      running.attached running.recovering running.small running.swept once_is_ok

component_restart_complete_example :
    ((j : ℕ) → j < 2 → cleared started.1 (twice.3.pool.controls j) ≡ true)
    × ((component_restart_finish platform twice.3 twice.1).0 ≡ ok)
component_restart_complete_example =
    component_restart_complete platform 16 1 restart_zero started.1 twice.1 world_owned started.2
      twice.3 start_runs IsWord-component (omega arith)
      (one_more (one_more none_made buffer_invalid) buffer_invalid) twice_complete

abbrev world_left : World
world_left = world_with (record slot_owned { owner_id = 48; owner_epoch = 3 }) slot_free

abbrev result_none : RecoveryResult
result_none = record { recovered_owned = 0; recovered_transfer = 0; skipped_newer_epoch = 0 }

pool_recover_owner_lem_example :
    let r = pool_recover_owner platform 48 3 10 result_none world_left in
    ((component_epoch_current world_left.pool 48 3 ≡ true)
      × (r ≡ (component_stale, result_none, world_left)))
    ⊎ ((component_epoch_current world_left.pool 48 3 ≡ false)
        × Pass
            (orphaned platform
              (record { component = 48; dead_epoch = 3; minimum_age_ns = 10; now = 1000 }))
            0
            2
            r.0
            world_left
            r.2)
unfolding component_id_valid
pool_recover_owner_lem_example =
    pool_recover_owner_lem platform 48 3 10 result_none world_left (omega arith) refl (omega arith)

abbrev world_interrupted : World
world_interrupted = world_with (record slot_owned { state = claiming }) slot_free

pool_recover_claiming_lem_example :
    let r = pool_recover_claiming platform world_interrupted in
    Pass (λ s. is_claiming s.state) 0 2 r.0 world_interrupted r.2
pool_recover_claiming_lem_example = pool_recover_claiming_lem platform world_interrupted
