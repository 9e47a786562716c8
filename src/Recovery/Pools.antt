-- ===== src/Recovery/Pools.antt =====
-- `zipc_pool_recover_owner` and `zipc_pool_recover_claiming` of src/core/zipc.c.
pub mod Pass
pub mod Laws
use z_ipc.Base.{
  ltb, ◌&&◌, true, zero, ◌||◌, suc, not, false, Bool, ◌==◌, ◌+◌, ◌%◌, if◌then◌else◌, ℕ,
}
use z_ipc.State.{put_slot, trace_zero, region_zero, visited_zero, World, Slot}
use z_ipc.Platform.{tick, now_ns, protect_slot, Platform}
use z_ipc.Word.{sub64, u64, u32}
use z_ipc.Status.{
  TraceEvent, component_stale, invalid_handle_value, is_in_transfer, invalid_argument, is_owned,
  is_claiming, recovered, component_id_valid, is_ok, free, ok, Status, invalid_component_id,
}
use z_ipc.Component.{lifecycle_of}
use z_ipc.Trace.{trace_external_event, trace_slot}
use z_ipc.Handle.{component_lifecycle_epoch, inactive, state_code, component_lifecycle_state}
use z_ipc.Protocol.Common.{with_header}
use z_ipc.Recovery.Restarts.{count_recovered}

-- `zipc_recovery_result_t`
pub record RecoveryResult : Type 0 where
  pub recovered_owned : ℕ
  pub recovered_transfer : ℕ
  pub skipped_newer_epoch : ℕ

abbrev pub result_zero : RecoveryResult
result_zero = record { recovered_owned = 0; recovered_transfer = 0; skipped_newer_epoch = 0 }

-- What is asked for: the owner, its dead epoch, the least age, and the time of the call.
pub record Owner : Type 0 where
  pub component : ℕ
  pub dead_epoch : ℕ
  pub minimum_age_ns : ℕ
  pub now : ℕ

-- The bit 0 of the error flags is set.
abbrev with_error_bit : ℕ → ℕ
with_error_bit flags = if flags % 2 == 0 then flags + 1 else flags

unfoldable pub reclaimed_slot : Slot → Slot
reclaimed_slot s = record s {
  recovery_count = u32 (s.recovery_count + 1);
  error_flags = with_error_bit s.error_flags;
  owner_id = invalid_component_id;
  next_owner_id = invalid_component_id;
  region = region_zero;
  state = free;
}

-- One slot of the scan: a status that ends the call, the counts, and the world. The exchange of the
-- state to ERROR is undone on every path but the last.
unfoldable pub recover_owner_slot :
    Platform → Owner → ℕ → RecoveryResult → World → Status × RecoveryResult × World
recover_owner_slot p o slot_id local w =
    let s = w.pool.controls slot_id in
    let (status, w1) = protect_slot p w slot_id false in
    let (traced, w2) = trace_slot p w1 slot_id s o.component recovered in
    if not (is_owned s.state) && not (is_in_transfer s.state)
    then (ok, local, w)
    else if not (s.owner_id == o.component)
    then (ok, local, w)
    else if not (s.owner_epoch == o.dead_epoch)
    then (
      ok,
      (if ltb o.dead_epoch s.owner_epoch
          then record local { skipped_newer_epoch = u32 (local.skipped_newer_epoch + 1) }
          else local),
      w,
    )
    else if not (o.minimum_age_ns == 0)
        && (ltb o.now s.acquired_ns || ltb (sub64 o.now s.acquired_ns) o.minimum_age_ns)
    then (ok, local, w)
    else if not (is_ok status)
    then (status, local, w1)
    else (
      ok,
      (if is_owned s.state
          then record local { recovered_owned = u32 (local.recovered_owned + 1) }
          else record local { recovered_transfer = u32 (local.recovered_transfer + 1) }),
      count_recovered (put_slot w2 slot_id (reclaimed_slot traced)) o.component,
    )

-- The slots from `i` on, `n` of them.
unfoldable pub recover_owner_scan :
    ℕ → Platform → Owner → ℕ → RecoveryResult → World → Status × RecoveryResult × World
recover_owner_scan zero p o i local w = (ok, local, w)
recover_owner_scan (suc n) p o i local w =
    let (status, local', w') = recover_owner_slot p o i local w in
    let rest = recover_owner_scan n p o (i + 1) local' w' in
    if is_ok status then rest else (status, local', w')

-- `result` is what the caller's result holds.
unfoldable pub pool_recover_owner :
    Platform → ℕ → ℕ → ℕ → RecoveryResult → World → Status × RecoveryResult × World
pool_recover_owner p component dead_epoch minimum_age_ns result w =
    if not (component_id_valid component) || (dead_epoch == 0)
    then (invalid_argument, result, w)
    else if not (component_lifecycle_state lifecycle == state_code inactive)
        && (component_lifecycle_epoch lifecycle == dead_epoch)
    then (component_stale, result, w)
    else recover_owner_scan w.pool.header.slot_count p
        (record {
          component = component;
          dead_epoch = dead_epoch;
          minimum_age_ns = minimum_age_ns;
          now = now_ns p w;
        })
        0 result_zero (tick w)
  where
    lifecycle : ℕ
    lifecycle = lifecycle_of w.pool component

unfoldable pub emptied_slot : Slot → Slot
emptied_slot s = record s {
  owner_id = invalid_component_id;
  next_owner_id = invalid_component_id;
  owner_epoch = 0;
  hop_count = 0;
  hop_limit = 0;
  visited = visited_zero;
  identity = record { id = 0; parent_id = 0 };
  region = region_zero;
  transfer_sequence = 0;
  payload_type = 0;
  flags = 0;
  error_flags = 0;
  acquired_ns = 0;
  deadline_ns = 0;
  trace_count = 0;
  recovery_count = 0;
  claim_previous_sequence = 0;
  claim_previous_region = region_zero;
  claim_previous_owner = invalid_component_id;
  claim_previous_owner_epoch = 0;
  transfer_link_id = 0;
  transfer_source_id = invalid_component_id;
  transfer_source_epoch = 0;
  transfer_hop_count = 0;
  transfer_acquired_ns = 0;
  transfer_visited = visited_zero;
  trace = trace_zero;
  claim_token = 0;
  state = free;
}

-- One slot: a status that ends the call, whether it was recovered, and the world.
unfoldable pub recover_claiming_slot : Platform → ℕ → World → Status × Bool × World
recover_claiming_slot p slot_id w =
    let s = w.pool.controls slot_id in
    let (status, w1) = protect_slot p w slot_id false in
    let w2 = put_slot w1 slot_id (emptied_slot s) in
    if not (is_claiming s.state)
    then (ok, false, w)
    else if not (is_ok status)
    then (status, false, w1)
    else (
      ok,
      true,
      trace_external_event p
          (with_header w2
            (record (w2.pool.header) { recovery_count = u64 (w2.pool.header.recovery_count + 1) }))
          invalid_handle_value 0 invalid_component_id TraceEvent.recovered,
    )

unfoldable pub recover_claiming_scan : ℕ → Platform → ℕ → ℕ → World → Status × ℕ × World
recover_claiming_scan zero p i count w = (ok, count, w)
recover_claiming_scan (suc n) p i count w =
    let (status, more, w') = recover_claiming_slot p i w in
    let counted = if more then u32 (count + 1) else count in
    let rest = recover_claiming_scan n p (i + 1) counted w' in
    if is_ok status then rest else (status, counted, w')

unfoldable pub pool_recover_claiming : Platform → World → Status × ℕ × World
pool_recover_claiming p w = recover_claiming_scan w.pool.header.slot_count p 0 0 w
