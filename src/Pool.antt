-- ===== src/Pool.antt =====
-- The layout of a pool in memory (src/core/zipc.c: is_power_of_two to zipc_pool_attach). Sizes and
-- offsets are 64-bit words, and their sums wrap.
pub mod Config
pub mod Size
pub mod Format
pub mod Attach
pub mod Layout
pub mod RoundTrip
use Prim.Native.Nat.{bit_and}
use z_ipc.Base.{
  ℕ, Bool, true, false, Option, none, some, ltb, leb, ◌==◌, ◌&&◌, ◌||◌, not, ◌+◌, ◌-◌, ◌%◌, ◌/◌,
}
use z_ipc.Base.{if◌then◌else◌}
use z_ipc.Word.{u64, u64_max}

-- What the code asks of a `zipc_platform_memory_t`: zipc_platform_memory_base, _size, _page_size
-- and _capabilities. `address` is the object's own.
pub record Memory : Type 0 where
  pub address : ℕ
  pub base : ℕ
  pub size : ℕ
  pub page_size : ℕ
  pub capabilities : ℕ

-- `zipc_pool_config_t`
pub record PoolConfig : Type 0 where
  pub control_memory : Memory
  pub control_offset : ℕ
  pub payload_memory : Option Memory
  pub payload_offset : ℕ
  pub slot_count : ℕ
  pub slot_capacity : ℕ
  pub slot_stride : ℕ
  pub payload_alignment : ℕ
  pub flags : ℕ
  pub pool_id : ℕ

-- The compiler's sizeof and _Alignof of the pool header and of a slot control.
pub record Abi : Type 0 where
  pub header_size : ℕ
  pub header_align : ℕ
  pub control_size : ℕ
  pub control_align : ℕ

abbrev pub payload_memory_of : PoolConfig → Memory
payload_memory_of c = elim c.payload_memory [ none ↦ c.control_memory | some m ↦ m ]

-- The two flags, and whether there is another.
abbrev pub guard_pages : ℕ → Bool
guard_pages flags = flags % 2 == 1

abbrev pub strict_ownership : ℕ → Bool
strict_ownership flags = flags / 2 % 2 == 1

unfoldable pub is_power_of_two : ℕ → Bool
is_power_of_two value = not (value == 0) && (bit_and value (value - 1) == 0)

-- The low bits are masked only for a power of two.
unfoldable pub align_up_checked : ℕ → ℕ → Option ℕ
align_up_checked value alignment =
    if not (is_power_of_two alignment) || ltb (u64_max - (alignment - 1)) value
    then none
    else some (value + alignment - 1 - (value + alignment - 1) % alignment)

unfoldable pub memory_address_aligned : Memory → ℕ → ℕ → Bool
memory_address_aligned m offset alignment =
    not (m.base == 0)
    && is_power_of_two alignment
    && leb offset (u64_max - m.base)
    && (u64 (m.base + offset) % alignment == 0)

unfoldable pub memory_range_fits : Memory → ℕ → ℕ → Bool
memory_range_fits m offset length =
    not (m.base == 0)
    && leb offset m.size
    && leb length (m.size - offset)
    && leb offset (u64_max - m.base)
    && leb length (u64_max - u64 (m.base + offset))

-- In one memory, the two ranges may not overlap.
unfoldable pub pool_ranges_valid : PoolConfig → ℕ → ℕ → Bool
pool_ranges_valid c control_required payload_required =
    let control_end = u64 (c.control_offset + control_required) in
    let payload_end = u64 (c.payload_offset + payload_required) in
    memory_range_fits c.control_memory c.control_offset control_required
    && memory_range_fits (payload_memory_of c) c.payload_offset payload_required
    && not (
        (c.control_memory.address == (payload_memory_of c).address)
        && ltb c.control_offset payload_end
        && ltb c.payload_offset control_end)
