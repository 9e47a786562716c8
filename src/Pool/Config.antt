-- ===== src/Pool/Config.antt =====
-- `normalize_config` of src/core/zipc.c.
use z_ipc.Base.{ℕ, Bool, Option, none, some, ltb, leb, ◌==◌, ◌&&◌, ◌||◌, not, ◌+◌, ◌-◌, ◌%◌, ◌/◌}
use z_ipc.Base.{if◌then◌else◌}
use z_ipc.Word.{u32, u32_max}
use z_ipc.Status.{Status, ok, invalid_argument, unsupported_memory}
use z_ipc.Pool.{
  PoolConfig, Abi, payload_memory_of, guard_pages, strict_ownership, is_power_of_two,
  align_up_checked, memory_address_aligned,
}

-- ZIPC_MEM_CAP_PAGE_PROTECT; and all of CPU_READ, CPU_WRITE, ATOMIC32 and ATOMIC64, the low four.
abbrev page_protect : ℕ → Bool
page_protect capabilities = capabilities / 256 % 2 == 1

-- The payload's pages can be protected one slot at a time.
unfoldable pub pages_fit : PoolConfig → Bool
pages_fit c =
    let m = payload_memory_of c in
    not (m.page_size == 0)
    && leb m.page_size u32_max
    && page_protect m.capabilities
    && (c.payload_offset % m.page_size == 0)
    && memory_address_aligned m c.payload_offset m.page_size
    && (c.slot_capacity % m.page_size == 0)

-- The stride of a pool without guard pages.
unfoldable pub plain_stride : PoolConfig → Option ℕ
plain_stride c =
    if not (c.slot_stride == 0)
    then some c.slot_stride
    else elim (align_up_checked c.slot_capacity c.payload_alignment) [
      | none ↦ none
      | some aligned ↦ if ltb u32_max aligned then none else some aligned
    ]

-- The last tests, on the stride.
unfoldable pub check_stride : PoolConfig → ℕ → Status × ℕ
check_stride c stride =
    if ltb stride c.slot_capacity || not (stride % c.payload_alignment == 0)
    then (invalid_argument, stride)
    else if not (c.control_memory.capabilities % 16 == 15)
    then (unsupported_memory, stride)
    else if not ((payload_memory_of c).capabilities % 4 == 3)
    then (unsupported_memory, stride)
    else (ok, stride)

abbrev pub check_plain : PoolConfig → Option ℕ → Status × ℕ
check_plain c none = (invalid_argument, 0)
check_plain c (some stride) = check_stride c stride

-- The stride is what `*slot_stride` holds, or 0 where it was not written.
unfoldable pub normalize_config : Abi → PoolConfig → Status × ℕ
normalize_config abi c =
    let m = payload_memory_of c in
    let guarded = u32 (c.slot_capacity + u32 m.page_size) in
    if (c.slot_count == 0)
      || (c.slot_capacity == 0)
      || not (is_power_of_two c.payload_alignment)
      || ltb 3 c.flags
    then (invalid_argument, 0)
    else if not (c.control_offset % abi.header_align == 0)
        || not (memory_address_aligned c.control_memory c.control_offset abi.header_align)
        || not (c.payload_offset % c.payload_alignment == 0)
        || not (memory_address_aligned m c.payload_offset c.payload_alignment)
    then (invalid_argument, 0)
    else if strict_ownership c.flags && not (pages_fit c)
    then (unsupported_memory, 0)
    else if guard_pages c.flags
    then (if not (pages_fit c) || ltb (u32_max - u32 m.page_size) c.slot_capacity
        then (unsupported_memory, 0)
        else if not (c.slot_stride == 0) && not (c.slot_stride == guarded)
        then (invalid_argument, 0)
        else check_stride c guarded)
    else check_plain c (plain_stride c)
