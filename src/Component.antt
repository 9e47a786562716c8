-- ===== src/Component.antt =====
-- Component lifecycles (src/core/zipc.c: registered_epoch to component_epoch_recovering, and
-- zipc_component_register to zipc_component_restart_finish). The compare-exchange loops read the
-- lifecycle that they replace, so that without interference one round decides them.
pub mod Laws
pub mod Epochs
use z_ipc.Base.{ℕ, ◌+◌, Bool, true, false, ◌&&◌, ◌||◌, not, ◌==◌, if◌then◌else◌, update}
use z_ipc.Word.{u32, u32_max}
use z_ipc.Status.{Status, ok, invalid_argument, component_stale, component_id_valid}
use z_ipc.Handle.{
  inactive, recovering, active, state_code, component_lifecycle_make, component_lifecycle_epoch,
  component_lifecycle_state,
}
use z_ipc.State.{Component, Pool, World}
use z_ipc.Platform.{Platform, tick, now_ns}

abbrev pub lifecycle_of : Pool → ℕ → ℕ
lifecycle_of pool component = (pool.header.components component).lifecycle

unfoldable pub registered_epoch : Pool → ℕ → ℕ
registered_epoch pool component =
    if component_id_valid component
    then (if component_lifecycle_state (lifecycle_of pool component) == state_code inactive
        then 0
        else component_lifecycle_epoch (lifecycle_of pool component))
    else 0

unfoldable pub component_epoch_current : Pool → ℕ → ℕ → Bool
component_epoch_current pool component epoch =
    component_id_valid component
    && not (epoch == 0)
    && (component_lifecycle_epoch (lifecycle_of pool component) == epoch)
    && not (component_lifecycle_state (lifecycle_of pool component) == state_code inactive)

unfoldable pub component_epoch_recovering : Pool → ℕ → ℕ → Bool
component_epoch_recovering pool component epoch =
    component_id_valid component
    && not (epoch == 0)
    && (lifecycle_of pool component == component_lifecycle_make epoch recovering)

abbrev pub put_component : World → ℕ → Component → World
put_component w component c = record w {
  pool = record (w.pool) {
    header = record (w.pool.header) { components = update w.pool.header.components component c };
  };
}

-- The lifecycle is exchanged, then the heartbeat is stored.
abbrev publish : Platform → World → ℕ → ℕ → World
publish p w component lifecycle =
    put_component (tick w) component (record (w.pool.header.components component) {
      lifecycle = lifecycle;
      last_heartbeat_ns = now_ns p w;
    })

unfoldable pub component_register : Platform → World → ℕ → Status × ℕ × World
component_register p w component =
    if not (component_id_valid component)
    then (invalid_argument, 0, w)
    else if (current_epoch == u32_max)
        || not (component_lifecycle_state (lifecycle_of w.pool component) == state_code inactive)
    then (component_stale, 0, w)
    else (
      ok,
      current_epoch + 1,
      publish p w component (component_lifecycle_make (current_epoch + 1) active),
    )
  where
    current_epoch : ℕ
    current_epoch = component_lifecycle_epoch (lifecycle_of w.pool component)

unfoldable pub component_heartbeat : Platform → World → ℕ → ℕ → Status × World
component_heartbeat p w component epoch =
    if not (component_id_valid component) || (epoch == 0)
    then (invalid_argument, w)
    else if (component_lifecycle_state lifecycle == state_code inactive)
        || not (component_lifecycle_epoch lifecycle == epoch)
    then (component_stale, w)
    else (ok, publish p w component lifecycle)
  where
    lifecycle : ℕ
    lifecycle = lifecycle_of w.pool component

unfoldable pub component_unregister : World → ℕ → ℕ → Status × World
component_unregister w component epoch =
    if not (component_id_valid component) || (epoch == 0)
    then (invalid_argument, w)
    else if not (component_lifecycle_epoch lifecycle == epoch)
        || (component_lifecycle_state lifecycle == state_code inactive)
    then (component_stale, w)
    else (
      ok,
      put_component w component (record (w.pool.header.components component) {
        lifecycle = component_lifecycle_make epoch inactive;
      }),
    )
  where
    lifecycle : ℕ
    lifecycle = lifecycle_of w.pool component

-- `zipc_component_snapshot_t`
pub record Snapshot : Type 0 where
  pub epoch : ℕ
  pub is_active : Bool
  pub state : ℕ
  pub last_heartbeat_ns : ℕ
  pub recovered_slots : ℕ

-- With the status of an invalid component no snapshot is written.
unfoldable pub component_snapshot : Pool → ℕ → Snapshot → Status × Snapshot
component_snapshot pool component snapshot =
    if not (component_id_valid component) then (invalid_argument, snapshot) else (
      ok,
      record {
        epoch = component_lifecycle_epoch (lifecycle_of pool component);
        is_active =
            not (component_lifecycle_state (lifecycle_of pool component) == state_code inactive);
        state = component_lifecycle_state (lifecycle_of pool component);
        last_heartbeat_ns = (pool.header.components component).last_heartbeat_ns;
        recovered_slots = (pool.header.components component).recovered_slots;
      },
    )

-- `zipc_restart_t`; `attached` says that `pool` is not NULL.
pub record Restart : Type 0 where
  pub attached : Bool
  pub component : ℕ
  pub dead_epoch : ℕ
  pub epoch : ℕ
  pub cursor : ℕ
  pub scan_complete : Bool

abbrev pub restart_zero : Restart
restart_zero = record {
  attached = false;
  component = 0;
  dead_epoch = 0;
  epoch = 0;
  cursor = 0;
  scan_complete = false;
}

unfoldable pub component_restart_begin :
    Platform → World → ℕ → ℕ → Restart → Status × Restart × World
component_restart_begin p w component dead_epoch restart =
    if not (component_id_valid component) || (dead_epoch == 0)
    then (invalid_argument, restart, w)
    else if dead_epoch == u32_max
    then (component_stale, restart, w)
    else if not (component_lifecycle_epoch lifecycle == dead_epoch)
        || (component_lifecycle_state lifecycle == state_code recovering)
    then (component_stale, restart, w)
    else (
      ok,
      record {
        attached = true;
        component = component;
        dead_epoch = dead_epoch;
        epoch = dead_epoch + 1;
        cursor = 0;
        scan_complete = false;
      },
      publish p w component (component_lifecycle_make (dead_epoch + 1) recovering),
    )
  where
    lifecycle : ℕ
    lifecycle = lifecycle_of w.pool component

-- The exchange expects what `component_epoch_recovering` has just seen.
unfoldable pub component_restart_finish : Platform → World → Restart → Status × Restart × World
component_restart_finish p w restart =
    if not restart.attached
      || not restart.scan_complete
      || not (restart.epoch == u32 (restart.dead_epoch + 1))
      || not (component_epoch_recovering w.pool restart.component restart.epoch)
    then (invalid_argument, restart, w)
    else if not
        (lifecycle_of w.pool restart.component == component_lifecycle_make restart.epoch recovering)
    then (component_stale, restart, w)
    else (
      ok,
      restart_zero,
      publish p w restart.component (component_lifecycle_make restart.epoch active),
    )
