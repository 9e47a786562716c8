-- ===== src/Pool/Size.antt =====
-- The sizes that a pool asks for (src/core/zipc.c: zipc_pool_required_control_size to
-- zipc_pool_required_payload_size). 0 says that the arguments are not usable.
use z_ipc.Base.{ℕ, Option, none, some, ltb, ◌==◌, ◌||◌, not, ◌+◌, ◌-◌, ◌*◌, ◌%◌, ◌/◌}
use z_ipc.Base.{if◌then◌else◌}
use z_ipc.Word.{u32, u32_max, u64, u64_max}
use z_ipc.Pool.{Abi, is_power_of_two, align_up_checked}

abbrev pub control_size_from : Abi → ℕ → Option ℕ → ℕ
control_size_from abi slot_count none = 0
control_size_from abi slot_count (some controls_offset) =
    if ltb ((u64_max - controls_offset) / abi.control_size) slot_count
    then 0
    else u64 (controls_offset + u64 (slot_count * abi.control_size))

unfoldable pub pool_required_control_size : Abi → ℕ → ℕ
pool_required_control_size abi slot_count =
    if slot_count == 0
    then 0
    else control_size_from abi slot_count (align_up_checked abi.header_size abi.control_align)

unfoldable pub pool_guarded_slot_stride : ℕ → ℕ → ℕ
pool_guarded_slot_stride page_size slot_capacity =
    if (page_size == 0)
      || ltb u32_max page_size
      || (slot_capacity == 0)
      || not (slot_capacity % page_size == 0)
      || ltb (u32_max - u32 page_size) slot_capacity
    then 0
    else u32 (slot_capacity + u32 page_size)

unfoldable pub pool_guarded_payload_size : ℕ → ℕ → ℕ → ℕ
pool_guarded_payload_size page_size slot_count slot_capacity =
    let stride = pool_guarded_slot_stride page_size slot_capacity in
    if (slot_count == 0) || (stride == 0) || ltb (u64_max / stride) slot_count
    then 0
    else u64 (slot_count * stride)

-- From the stride on.
unfoldable pub payload_size_at : ℕ → ℕ → ℕ → ℕ → ℕ
payload_size_at slot_count slot_capacity payload_alignment stride =
    if ltb stride slot_capacity
      || not (stride % payload_alignment == 0)
      || ltb (u64_max / stride) slot_count
    then 0
    else u64 (slot_count * stride)

abbrev payload_size_aligned : ℕ → ℕ → ℕ → Option ℕ → ℕ
payload_size_aligned slot_count slot_capacity payload_alignment none = 0
payload_size_aligned slot_count slot_capacity payload_alignment (some aligned) =
    if ltb u32_max aligned
    then 0
    else payload_size_at slot_count slot_capacity payload_alignment aligned

unfoldable pub pool_required_payload_size : ℕ → ℕ → ℕ → ℕ → ℕ
pool_required_payload_size slot_count slot_capacity slot_stride payload_alignment =
    if (slot_count == 0) || (slot_capacity == 0) || not (is_power_of_two payload_alignment)
    then 0
    else if slot_stride == 0
    then payload_size_aligned slot_count slot_capacity payload_alignment
        (align_up_checked slot_capacity payload_alignment)
    else payload_size_at slot_count slot_capacity payload_alignment slot_stride
