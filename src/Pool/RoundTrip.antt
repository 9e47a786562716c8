-- ===== src/Pool/RoundTrip.antt =====
-- A pool that was formatted can be attached.
use z_ipc.Base.{ℕ, true, some, ◌<◌, ◌≡◌, ◌^◌}
use z_ipc.Status.{Status, is_ok, free}
use z_ipc.State.{Pool}
use z_ipc.Component.{registered_epoch}
use z_ipc.Platform.{Platform}
use z_ipc.Pool.{PoolConfig, Abi, align_up_checked, strict_ownership}
use z_ipc.Pool.Config.{normalize_config}
use z_ipc.Pool.Size.{pool_required_control_size}
use z_ipc.Pool.Format.{ControlMemory, formatted_memory, controls_usable}
use z_ipc.Pool.Attach.{pool_attach, attach_checked}
use z_ipc.Pool.Layout.{Accepted}

-- What the compiler's sizes satisfy.
pub record IsAbi (abi : Abi) : Type 0 where
  pub small_header : abi.header_size < 2 ^ 16
  pub some_control : 0 < abi.control_size
  pub align_word : abi.control_align < 2 ^ 64

-- A pool with the configuration's numbers, every slot free and unclaimed in generation 0, and no
-- component registered.
pub record IsFresh (c : PoolConfig) (pool : Pool) : Type 0 where
  pub slot_count : pool.header.slot_count ≡ c.slot_count
  pub slot_capacity : pool.header.slot_capacity ≡ c.slot_capacity
  pub pool_id : pool.pool_id ≡ c.pool_id
  pub payload_offset : pool.payload_offset ≡ c.payload_offset
  pub strict : pool.strict ≡ strict_ownership c.flags
  pub slots :
      (j : ℕ)
      → ((pool.controls j).state ≡ free)
        × ((pool.controls j).generation ≡ 0)
        × ((pool.controls j).claim_token ≡ 0)
  pub components : (component : ℕ) → registered_epoch pool component ≡ 0

module _ (abi : Abi) (z : IsAbi abi) (c : PoolConfig) (controls_offset : ℕ) (a : Accepted abi c)
    (found : align_up_checked abi.header_size abi.control_align ≡ some controls_offset)
    (usable : controls_usable abi c controls_offset ≡ true) where
  abbrev stride : ℕ
  stride = (normalize_config abi c).1

  abbrev formatted : ControlMemory
  formatted = formatted_memory abi c stride controls_offset

  abbrev required : ℕ
  required = pool_required_control_size abi c.slot_count

-- An attach, after a format of the same pool.
pub record Attaches (abi : Abi) (p : Platform) (c : PoolConfig) (memory : ControlMemory)
    (payload : ℕ → ℕ) (calls : ℕ) : Type 0 where
  pub accepted :
      pool_attach abi p c memory payload calls
      ≡ attach_checked p c (normalize_config abi c).1 memory payload calls
  pub fresh_pool :
      is_ok (pool_attach abi p c memory payload calls).0 ≡ true
      → (pool : Pool) × ((pool_attach abi p c memory payload calls).1 ≡ some pool) × IsFresh c pool
