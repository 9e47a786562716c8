-- ===== src/Pool/Format.antt =====
-- `zipc_pool_format` and `apply_guard_pages` of src/core/zipc.c.
use z_ipc.Base.{
  ◌^◌, ℕ, zero, suc, Bool, false, Option, none, some, ltb, ◌==◌, ◌&&◌, ◌||◌, not, ◌+◌, ◌-◌, ◌*◌,
  ◌%◌,
}
use z_ipc.Base.{if◌then◌else◌}
use z_ipc.Word.{u32_max, u64, u64_max}
use z_ipc.Status.{
  Status, ok, is_ok, invalid_argument, unsupported_memory, free, invalid_component_id,
}
use z_ipc.Handle.{component_lifecycle_make, inactive}
use z_ipc.State.{Header, Slot, Component, Identity, region_zero, visited_zero, trace_zero}
use z_ipc.Platform.{Platform}
use z_ipc.Pool.{
  PoolConfig, Abi, payload_memory_of, guard_pages, align_up_checked, memory_address_aligned,
  pool_ranges_valid,
}
use z_ipc.Pool.Config.{normalize_config}
use z_ipc.Pool.Size.{pool_required_control_size, pool_required_payload_size}

abbrev pub pool_magic : ℕ
pool_magic = 1514754115

abbrev pub pool_abi_version : ℕ
pool_abi_version = 3

-- The control memory from the offset of the pool on: the header, with the layout words that only
-- format and attach read, and the slot controls.
pub record ControlMemory : Type 0 where
  pub magic : ℕ
  pub abi_version : ℕ
  pub header_size : ℕ
  pub controls_offset : ℕ
  pub payload_alignment : ℕ
  pub header : Header
  pub controls : ℕ → Slot

-- The page behind each slot, from slot `i` on, `n` of them.
unfoldable pub guard_slots : Platform → PoolConfig → ℕ → ℕ → ℕ → ℕ → Status × ℕ
guard_slots p c stride zero i calls = (ok, calls)
guard_slots p c stride (suc n) i calls =
    let offset = u64 (c.payload_offset + u64 (i * stride) + c.slot_capacity) in
    let status = p.protect calls offset (payload_memory_of c).page_size false in
    let rest = guard_slots p c stride n (suc i) (suc calls) in
    if is_ok status then rest else (status, suc calls)

unfoldable pub apply_guard_pages : Platform → PoolConfig → ℕ → ℕ → Status × ℕ
apply_guard_pages p c stride calls =
    if not (guard_pages c.flags)
    then (ok, calls)
    else if (payload_memory_of c).page_size == 0
    then (unsupported_memory, calls)
    else guard_slots p c stride c.slot_count 0 calls

abbrev pub identity_zero : Identity
identity_zero = record { id = 0; parent_id = 0 }

-- A slot of zero bytes, with the fields that are set after them.
abbrev pub slot_formatted : Slot
slot_formatted = record {
  state = free;
  generation = 0;
  owner_id = invalid_component_id;
  next_owner_id = invalid_component_id;
  owner_epoch = 0;
  hop_count = 0;
  hop_limit = 0;
  visited = visited_zero;
  identity = identity_zero;
  region = region_zero;
  transfer_sequence = 0;
  payload_type = 0;
  flags = 0;
  error_flags = 0;
  acquired_ns = 0;
  deadline_ns = 0;
  trace_count = 0;
  recovery_count = 0;
  claim_token = 0;
  claim_previous_sequence = 0;
  claim_previous_region = region_zero;
  claim_previous_owner = 0;
  claim_previous_owner_epoch = 0;
  transfer_link_id = 0;
  transfer_source_id = 0;
  transfer_source_epoch = 0;
  transfer_hop_count = 0;
  transfer_acquired_ns = 0;
  transfer_visited = visited_zero;
  trace = trace_zero;
}

abbrev pub component_formatted : Component
component_formatted = record {
  lifecycle = component_lifecycle_make 0 inactive;
  last_heartbeat_ns = 0;
  recovered_slots = 0;
}

-- The memory where it is cleared and the first words are set; the slots are still all zero.
unfoldable pub cleared_memory : Abi → PoolConfig → ℕ → ControlMemory
cleared_memory abi c stride = record {
  magic = pool_magic;
  abi_version = pool_abi_version;
  header_size = abi.header_size % 2 ^ 16;
  controls_offset = 0;
  payload_alignment = 0;
  header = record {
    slot_count = c.slot_count;
    slot_capacity = c.slot_capacity;
    slot_stride = stride;
    allocation_cursor = 0;
    allocation_count = 0;
    release_count = 0;
    allocation_failure_count = 0;
    protocol_error_count = 0;
    recovery_count = 0;
    components = λ i. record { lifecycle = 0; last_heartbeat_ns = 0; recovered_slots = 0 };
  };
  controls = λ i. record slot_formatted { owner_id = 0; next_owner_id = 0 };
}

unfoldable pub formatted_memory : Abi → PoolConfig → ℕ → ℕ → ControlMemory
unfolding cleared_memory
formatted_memory abi c stride controls_offset =
    let cleared = cleared_memory abi c stride in
    record cleared {
      controls_offset = controls_offset;
      payload_alignment = c.payload_alignment;
      header = record (cleared.header) { components = λ i. component_formatted };
      controls = λ i. slot_formatted;
    }

-- The slot controls lie behind the header, where they are aligned.
unfoldable pub controls_usable : Abi → PoolConfig → ℕ → Bool
controls_usable abi c controls_offset =
    not (ltb u32_max controls_offset)
    && not (ltb (u64_max - controls_offset) c.control_offset)
    && memory_address_aligned c.control_memory (c.control_offset + controls_offset)
        abi.control_align

abbrev pub format_at : Abi → PoolConfig → ℕ → ℕ → Option ℕ → Status × ControlMemory × ℕ
format_at abi c stride calls none = (invalid_argument, cleared_memory abi c stride, calls)
format_at abi c stride calls (some controls_offset) =
    if not (controls_usable abi c controls_offset)
    then (invalid_argument, cleared_memory abi c stride, calls)
    else (ok, formatted_memory abi c stride controls_offset, calls)

-- The memory is not touched before the guard pages are in place.
unfoldable pub pool_format :
    Abi → Platform → PoolConfig → ControlMemory → ℕ → Status × ControlMemory × ℕ
pool_format abi p c memory calls =
    let (status, stride) = normalize_config abi c in
    let control_required = pool_required_control_size abi c.slot_count in
    let payload_required =
      pool_required_payload_size c.slot_count c.slot_capacity stride c.payload_alignment in
    let (guard_status, calls1) = apply_guard_pages p c stride calls in
    if not (is_ok status)
    then (status, memory, calls)
    else if (control_required == 0)
        || (payload_required == 0)
        || not (pool_ranges_valid c control_required payload_required)
    then (invalid_argument, memory, calls)
    else if not (is_ok guard_status)
    then (guard_status, memory, calls1)
    else format_at abi c stride calls1 (align_up_checked abi.header_size abi.control_align)
