-- ===== src/Protocol/Allocate/Laws.antt =====
-- Theorems on buffer_allocate_internal as a whole.
use z_ipc.Protocol.Allocate.{Request, buffer_allocate_internal, allocate_scan}
use z_ipc.Protocol.Allocate.Scan.{
  Scanned-cast, index, takeable, Taken, Scanned, exhausted, took, allocate_scan_lem,
}
use z_ipc.Identity.Laws.{IsQuiet}
use z_ipc.State.{Buffer, World}
use z_ipc.Base.{
  refl, ◌-◌, ◌∙◌, ◌⊎◌, ◌^◌, some, arith, false, ◌+◌, ◌==◌, true, ◌≤◌, ◌≡◌, ◌%◌, if◌then◌else◌, ◌<◌,
  ℕ,
}
use z_ipc.Platform.{Platform}
use z_ipc.Status.{no_buffer, Status, component_id_valid}
use native.Mathlib.Decide.{dec_lt}
use native.Mathlib.Nat.{mod-eq_of_lt}
use z_ipc.Component.{registered_epoch}
use z_ipc.Word.{u32}
use z_ipc.Protocol.Common.{count_allocation_failure}
use mathlib.Core.Path.{subst}
use z_ipc.Handle.{buffer_id_valid}

-- The counts of a pool header, small enough that no index of the scan wraps.
pub record IsSized (w : World) : Type 0 where
  pub some_slots : 0 < w.pool.header.slot_count
  pub few_slots : w.pool.header.slot_count ≤ 2 ^ 31
  pub small_slots : w.pool.header.slot_capacity < 2 ^ 32

-- The arguments that the call accepts.
pub record IsRequest (w : World) (q : Request) : Type 0 where
  pub allocator_valid : component_id_valid q.allocator ≡ true
  pub parent_valid : (q.parent_id ≡ 0) ⊎ (buffer_id_valid q.parent_id ≡ true)
  pub region_fits : q.offset + q.length ≤ w.pool.header.slot_capacity

abbrev pub epoch_for : World → Request → ℕ
epoch_for w q = if q.owner_epoch == 0 then registered_epoch w.pool q.allocator else q.owner_epoch

mod-add_self : (j count : ℕ) → j < count → (j + count) % count ≡ j
mod-add_self j count h = grind arith

-- Every slot is looked at.
index_covers :
    (w : World) (start j : ℕ)
    → IsSized w
    → start < w.pool.header.slot_count
    → j < w.pool.header.slot_count
    → (k : ℕ) × (k < w.pool.header.slot_count) × (index w start k ≡ j)
index_covers w start j z hs hj = elim (dec_lt j start) [
  | yes before ↦
      let wrapped : u32 (start + (j + w.pool.header.slot_count - start))
          ≡ j + w.pool.header.slot_count =
        omega arith in
      (
        j + w.pool.header.slot_count - start,
        omega arith,
        rw wrapped (mod-add_self j w.pool.header.slot_count hj),
      )
  | no after ↦
      let direct : u32 (start + (j - start)) ≡ j = omega arith in
      (j - start, omega arith, rw direct (mod-eq_of_lt hj))
]

-- No slot can be taken.
abbrev pub NoneTakeable : World → Type 0
NoneTakeable w = (j : ℕ) → j < w.pool.header.slot_count → takeable (w.pool.controls j) ≡ false

-- The two ways in which an allocation ends.
pub data Allocation (q : Request) (buffer : Buffer) (w : World) (r : Status × Buffer × World)
    : Type 0 where
  full :
      NoneTakeable w → r ≡ (no_buffer, buffer, count_allocation_failure w) → Allocation q buffer w r
  taken :
      (slot_id : ℕ)
      → slot_id < w.pool.header.slot_count
      → Taken q (epoch_for w q) w slot_id r.0 r.1 r.2
      → Allocation q buffer w r

module _ (p : Platform) (q : Request) (buffer : Buffer) (w : World) (z : IsSized w)
    (a : IsRequest w q) where
  abbrev start : ℕ
  start = w.pool.header.allocation_cursor % w.pool.header.slot_count

  accepted :
      buffer_allocate_internal p q buffer w
      ≡ allocate_scan w.pool.header.slot_count p q (epoch_for w q) start 0 buffer w
  unfolding buffer_allocate_internal
  accepted = ground (arith, a.parent_valid)

  Scanned_allocation :
      (r : Status × Buffer × World)
      → Scanned p q (epoch_for w q) a.allocator_valid start 0 w.pool.header.slot_count buffer w r
      → Allocation q buffer w r
  Scanned_allocation r (exhausted all e) = full none_takeable e
    where
      none_takeable : NoneTakeable w
      none_takeable j h =
          let (k, lt, at) = index_covers w start j z (omega (arith, z.some_slots)) h in
          subst (λ i. takeable (w.pool.controls i) ≡ false) at (all k (omega arith) lt)
  Scanned_allocation r (took k low high before t) =
      taken (index w start k) (omega (arith, z.some_slots)) t

  -- An allocation with valid arguments, in a pool of 1 to 2^31 slots of a 32-bit capacity and with
  -- no other thread in the identity generator, always returns. It ends with ZIPC_ERR_NO_BUFFER and
  -- only the failure count changed if no slot is both free and unclaimed; otherwise it takes such
  -- a slot, and every other slot, the payload and the component table are as before. With ZIPC_OK
  -- the slot is owned by the allocator in the epoch of the call, unclaimed, under the next
  -- generation, at its first hop, with a valid identity, the region asked for, and the allocator
  -- alone in its visited set; with any other status it is free again and the buffer is invalid.
  pub buffer_allocate_total :
      IsQuiet w q.allocator
      → (r : Status × Buffer × World) × (buffer_allocate_internal p q buffer w ≡ some r)
        × Allocation q buffer w r
  buffer_allocate_total quiet =
      let (r, e, s) =
        allocate_scan_lem p q (epoch_for w q) a.allocator_valid w.pool.header.slot_count 0 start
          buffer w quiet in
      (
        r,
        accepted ∙ e,
        Scanned_allocation r
            (Scanned-cast p q (epoch_for w q) a.allocator_valid refl (omega arith) s),
      )
