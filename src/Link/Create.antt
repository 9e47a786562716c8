-- ===== src/Link/Create.antt =====
-- `zipc_link_create` of src/core/zipc.c. That the memory is there, and the state with which the
-- platform opens the transport, are given.
use z_ipc.Base.{ℕ, Bool, Option, none, some, ◌&&◌, ◌||◌, ◌==◌, not, if◌then◌else◌}
use z_ipc.Status.{
  Status, ok, is_ok, invalid_argument, component_stale, platform, component_id_valid,
  hop_limit_unlimited,
}
use z_ipc.State.{World}
use z_ipc.Component.{registered_epoch, component_epoch_current}
use z_ipc.Link.{Link, Role}

-- `zipc_link_config_t`; of the transport it says whether it is one of the two shared-memory rings
-- and whether it is given memory.
pub record LinkConfig : Type 0 where
  pub local_component : ℕ
  pub remote_component : ℕ
  pub link_id : ℕ
  pub local_epoch : ℕ
  pub role : Role
  pub hop_limit : ℕ
  pub default_deadline_ns : ℕ
  pub timeout_ticks : ℕ
  pub ring_based : Bool
  pub has_handle : Bool

abbrev link_of : World → LinkConfig → Link
link_of w config = record {
  local_component = config.local_component;
  remote_component = config.remote_component;
  link_id = config.link_id;
  local_epoch =
      if not (config.local_epoch == 0)
      then config.local_epoch
      else registered_epoch w.pool config.local_component;
  role = config.role;
  ring_based = config.ring_based;
  has_recovery_ring = config.ring_based && config.has_handle;
  hop_limit = if not (config.hop_limit == 0) then config.hop_limit else hop_limit_unlimited;
  default_deadline_ns = config.default_deadline_ns;
  timeout_ticks = config.timeout_ticks;
}

-- The link and the state of its transport are none where an error leaves `*link_out` as it was.
unfoldable pub link_create :
    {T : Type 0} → World → LinkConfig → Bool → Status × T → Status × Option (Link × T)
link_create w config allocates (opened, t) =
    if not (component_id_valid config.local_component)
      || not (component_id_valid config.remote_component)
    then (invalid_argument, none)
    else if not (config.local_epoch == 0)
        && not (component_epoch_current w.pool config.local_component config.local_epoch)
    then (component_stale, none)
    else if not allocates
    then (platform, none)
    else if not (is_ok opened)
    then (opened, none)
    else (ok, some (link_of w config, t))
