-- ===== src/Pool/Attach.antt =====
-- `zipc_pool_attach` of src/core/zipc.c.
use z_ipc.Base.{
  ℕ, zero, suc, Bool, false, Option, none, some, ltb, ◌==◌, ◌&&◌, ◌||◌, not, ◌+◌, ◌-◌, ◌*◌, ◌%◌,
  ◌/◌,
}
use z_ipc.Base.{if◌then◌else◌}
use z_ipc.Word.{u32_max, u64}
use z_ipc.Status.{Status, ok, is_ok, invalid_pool}
use z_ipc.State.{Pool}
use z_ipc.Platform.{Platform}
use z_ipc.Pool.{PoolConfig, Abi, strict_ownership, align_up_checked, pool_ranges_valid}
use z_ipc.Pool.Config.{normalize_config}
use z_ipc.Pool.Size.{pool_required_control_size, pool_required_payload_size}
use z_ipc.Pool.Format.{
  ControlMemory, pool_magic, pool_abi_version, apply_guard_pages, controls_usable,
}

-- The header is of this pool.
unfoldable pub header_matches : Abi → PoolConfig → ℕ → ControlMemory → Bool
header_matches abi c stride memory =
    (memory.magic == pool_magic)
    && (memory.abi_version == pool_abi_version)
    && (memory.header_size == abi.header_size)
    && (memory.header.slot_count == c.slot_count)
    && (memory.header.slot_capacity == c.slot_capacity)
    && (memory.header.slot_stride == stride)
    && (memory.payload_alignment == c.payload_alignment)

-- The slot controls are where a format puts them.
abbrev pub controls_match : Abi → PoolConfig → ControlMemory → Option ℕ → Bool
controls_match abi c memory none = false
controls_match abi c memory (some expected) =
    not (ltb u32_max expected)
    && (memory.controls_offset == expected)
    && (memory.controls_offset % abi.control_align == 0)
    && controls_usable abi c memory.controls_offset

-- The sizes of the header fit the memory.
unfoldable pub sizes_match : Abi → PoolConfig → ControlMemory → Bool
sizes_match abi c memory =
    let control_required = pool_required_control_size abi memory.header.slot_count in
    let payload_required =
      pool_required_payload_size memory.header.slot_count memory.header.slot_capacity
        memory.header.slot_stride memory.payload_alignment in
    not (control_required == 0)
    && not (payload_required == 0)
    && not (ltb control_required memory.controls_offset)
    && not (
        ltb ((control_required - memory.controls_offset) / abi.control_size)
          memory.header.slot_count)
    && pool_ranges_valid c control_required payload_required

-- The pages of the slots from `i` on, `n` of them, are closed.
unfoldable pub close_slots : Platform → PoolConfig → ControlMemory → ℕ → ℕ → ℕ → Status × ℕ
close_slots p c memory zero i calls = (ok, calls)
close_slots p c memory (suc n) i calls =
    let offset = u64 (c.payload_offset + u64 (i * memory.header.slot_stride)) in
    let status = p.protect calls offset memory.header.slot_capacity false in
    let rest = close_slots p c memory n (suc i) (suc calls) in
    if is_ok status then rest else (status, suc calls)

abbrev pub pool_of : PoolConfig → ControlMemory → (ℕ → ℕ) → Pool
pool_of c memory payload = record {
  header = memory.header;
  controls = memory.controls;
  payload = payload;
  payload_offset = c.payload_offset;
  strict = strict_ownership c.flags;
  pool_id = c.pool_id;
}

-- From the guard pages on. A pool that was written is returned with an error too.
unfoldable pub attach_checked :
    Platform → PoolConfig → ℕ → ControlMemory → (ℕ → ℕ) → ℕ → Status × Option Pool × ℕ
attach_checked p c stride memory payload calls =
    let (guard_status, calls1) = apply_guard_pages p c stride calls in
    let (close_status, calls2) = close_slots p c memory memory.header.slot_count 0 calls1 in
    if not (is_ok guard_status)
    then (guard_status, none, calls1)
    else if not (strict_ownership c.flags)
    then (ok, some (pool_of c memory payload), calls1)
    else (close_status, some (pool_of c memory payload), calls2)

-- `payload` is the payload memory from `payload_offset` on. The pool is none where it was not
-- written, or cleared.
unfoldable pub pool_attach :
    Abi → Platform → PoolConfig → ControlMemory → (ℕ → ℕ) → ℕ → Status × Option Pool × ℕ
pool_attach abi p c memory payload calls =
    let (status, stride) = normalize_config abi c in
    if not (is_ok status)
    then (status, none, calls)
    else if ltb c.control_memory.size c.control_offset
        || ltb (c.control_memory.size - c.control_offset) abi.header_size
    then (invalid_pool, none, calls)
    else if not (header_matches abi c stride memory)
    then (invalid_pool, none, calls)
    else if not (controls_match abi c memory (align_up_checked abi.header_size abi.control_align))
    then (invalid_pool, none, calls)
    else if not (sizes_match abi c memory)
    then (invalid_pool, none, calls)
    else attach_checked p c stride memory payload calls
