-- ===== src/Tests/Pools.antt =====
-- A pool of two slots of one page each, with guard pages and strict ownership, at the offset 8192 of
-- the memory whose first 8192 bytes hold its control memory.
use z_ipc.Base.{true, none, ◌≡◌, refl, arith}
use z_ipc.Status.{is_ok}
use z_ipc.Pool.{
  Memory, PoolConfig, Abi, is_power_of_two, align_up_checked, memory_address_aligned,
  memory_range_fits, pool_ranges_valid,
}
use z_ipc.Pool.Config.{normalize_config, check_stride, plain_stride, pages_fit}
use z_ipc.Pool.Size.{pool_required_control_size, pool_required_payload_size, payload_size_at}
use z_ipc.Pool.Format.{
  ControlMemory, pool_format, apply_guard_pages, guard_slots, cleared_memory, controls_usable,
}
use z_ipc.Pool.Layout.{pool_format_lays_out, LaidOut}
use z_ipc.Tests.{platform}

abbrev memory : Memory
memory = record { address = 1; base = 1048576; size = 65536; page_size = 4096; capabilities = 287 }

abbrev abi : Abi
abi = record { header_size = 6208; header_align = 8; control_size = 512; control_align = 8 }

abbrev config : PoolConfig
config = record {
  control_memory = memory;
  control_offset = 0;
  payload_memory = none;
  payload_offset = 8192;
  slot_count = 2;
  slot_capacity = 4096;
  slot_stride = 0;
  payload_alignment = 64;
  flags = 3;
  pool_id = 9;
}

abbrev memory_before : ControlMemory
unfolding cleared_memory
memory_before = cleared_memory abi config 0

format_is_ok : is_ok (pool_format abi platform config memory_before 0).0 ≡ true
unfolding pool_format normalize_config check_stride plain_stride pages_fit is_power_of_two
    align_up_checked memory_address_aligned memory_range_fits pool_ranges_valid
    pool_required_control_size pool_required_payload_size payload_size_at apply_guard_pages
    guard_slots controls_usable
format_is_ok = refl

pool_format_lays_out_example :
    LaidOut abi platform config memory_before 0
      (pool_format abi platform config memory_before 0).1.header.slot_stride
pool_format_lays_out_example =
    pool_format_lays_out abi platform config memory_before 0 format_is_ok (omega arith)
      (omega arith)
