-- ===== src/Platform/Laws.antt =====
-- What protect_slot leaves alone.
use z_ipc.Platform.{Platform, protect_slot}
use z_ipc.State.{World}
use z_ipc.Base.{arith, ◌≡◌, Bool, ℕ}

pub pool-protect_slot :
    (p : Platform) (w : World) (slot_id : ℕ) (read_write : Bool)
    → (protect_slot p w slot_id read_write).1.pool ≡ w.pool
unfolding protect_slot
pool-protect_slot p w slot_id read_write = ground arith

pub generators-protect_slot :
    (p : Platform) (w : World) (slot_id : ℕ) (read_write : Bool)
    → (protect_slot p w slot_id read_write).1.generators ≡ w.generators
unfolding protect_slot
generators-protect_slot p w slot_id read_write = ground arith
