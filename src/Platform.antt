-- ===== src/Platform.antt =====
-- The platform layer that src/core/zipc.c calls (zipc_platform_time_ns, zipc_platform_random,
-- zipc_platform_memory_protect_none and zipc_platform_memory_protect_rw) as a parameter: each
-- answer is a function of the number of the call.
pub mod Laws
use z_ipc.Base.{ℕ, suc, ◌+◌, ◌*◌, Bool, leb, if◌then◌else◌}
use z_ipc.Status.{Status, ok, invalid_handle}
use z_ipc.State.{World}

pub record Platform : Type 0 where
  pub time_ns : ℕ → ℕ
  -- the call, the offset, the length, and whether access is granted
  pub protect : ℕ → ℕ → ℕ → Bool → Status
  pub random : ℕ → Status × ℕ

-- The next answers, and the call counted.
abbrev pub tick : World → World
tick w = record w { calls = suc w.calls }

abbrev pub now_ns : Platform → World → ℕ
now_ns p w = p.time_ns w.calls

-- A pool that does not enforce ownership by page protection makes no call.
unfoldable pub protect_slot : Platform → World → ℕ → Bool → Status × World
protect_slot p w slot_id read_write =
    if w.pool.strict
    then (if leb w.pool.header.slot_count slot_id
        then (invalid_handle, w)
        else (p.protect w.calls offset w.pool.header.slot_capacity read_write, tick w))
    else (ok, w)
  where
    offset : ℕ
    offset = w.pool.payload_offset + slot_id * w.pool.header.slot_stride
