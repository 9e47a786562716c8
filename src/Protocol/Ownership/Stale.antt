-- ===== src/Protocol/Ownership/Stale.antt =====
-- Theorems on handles to a slot that has been allocated again.
use z_ipc.Platform.{Platform}
use z_ipc.Base.{refl, sym, true, some, false, ◌≢◌, ◌≡◌, arith, ◌^◌, ◌<◌, ℕ}
use z_ipc.Handle.{handle_slot_id, handle_generation}
use z_ipc.State.{Buffer, Message, World}
use z_ipc.Protocol.Allocate.{buffer_allocate_internal, Request}
use z_ipc.Protocol.Transfer.{buffer_prepare_transfer_internal}
use z_ipc.Status.{ok, Status, is_ok}
use z_ipc.Protocol.Release.{pool_buffer_release}
use z_ipc.Protocol.Common.{next_generation}
use z_ipc.Protocol.Allocate.Laws.{
  epoch_for, taken, full, buffer_allocate_total, Allocation, IsRequest, IsSized,
}
use z_ipc.Protocol.Claim.{refuse_claim, claim_claimed, claim_slot, buffer_claim}
use z_ipc.Identity.Laws.{IsQuiet}
use z_ipc.Buffer.{buffer_owned, buffer_from_handle}
use z_ipc.Protocol.Allocate.Scan.{Taken, takeable}
use mathlib.Core.Path.{subst}

module _ (p : Platform) (w : World) where
  -- No call accepts the handle.
  pub record IsStale (handle : ℕ) : Type 0 where
    pub no_transfer :
        (current_owner next_owner link_id : ℕ) (message : Message)
        → is_ok
            (buffer_prepare_transfer_internal p handle current_owner next_owner link_id message w).0
          ≡ false
    pub no_release :
        (current_owner : ℕ) → is_ok (pool_buffer_release p handle current_owner w).0 ≡ false
    pub no_claim :
        (message : Message) (receiver : ℕ) (buffer : Buffer)
        → message.handle ≡ handle
        → is_ok (buffer_claim p message receiver buffer w).0 ≡ false
    pub no_view :
        (expected_owner : ℕ) (buffer : Buffer)
        → is_ok (buffer_from_handle w handle expected_owner buffer).0 ≡ false
    pub no_buffer_owned :
        (b : Buffer)
        → b.control ≡ some (handle_slot_id handle)
        → b.handle ≡ handle
        → buffer_owned w b ≡ false

  other_generation-IsStale :
      (handle : ℕ)
      → (w.pool.controls (handle_slot_id handle)).generation ≢ handle_generation handle
      → IsStale handle
  unfolding buffer_prepare_transfer_internal pool_buffer_release buffer_claim claim_slot
      claim_claimed refuse_claim buffer_from_handle buffer_owned
  other_generation-IsStale handle ne = record {
    no_transfer = λ current_owner next_owner link_id message. ground arith;
    no_release = λ current_owner. ground arith;
    no_claim = λ message receiver buffer at. ground arith;
    no_view = λ expected_owner buffer. ground arith;
    no_buffer_owned = λ b on at. ground arith;
  }

next_generation_ne :
    (generation : ℕ) → generation < 2 ^ 32 → next_generation generation ≢ generation
next_generation_ne generation small = ground arith

generation_small : (handle : ℕ) → handle_generation handle < 2 ^ 32
unfolding handle_generation
generation_small handle = omega arith

allocation_stales :
    (p : Platform) (q : Request) (buffer : Buffer) (w : World) (view : Buffer) (w' : World)
    (r : Status × Buffer × World)
    → r ≡ (ok, view, w')
    → Allocation q buffer w r
    → (slot_id : ℕ) × (takeable (w.pool.controls slot_id) ≡ true)
      × ((w'.pool.controls slot_id).owner_id ≡ q.allocator)
      × ((handle : ℕ)
          → handle_slot_id handle ≡ slot_id
          → handle_generation handle ≡ (w.pool.controls slot_id).generation
          → IsStale p w' handle)
allocation_stales p q buffer w view w' r e (full none_left refused) =
    absurd (ground (arith, e, refused))
allocation_stales p q buffer w view w' r e (taken slot_id low t) =
    let t' : Taken q (epoch_for w q) w slot_id ok view w' =
      subst (λ (r : Status × Buffer × World). Taken q (epoch_for w q) w slot_id r.0 r.1 r.2) e t in
    let g = t'.granted refl in
    (
      slot_id,
      t'.could,
      g.owner_id,
      λ handle at old.
          let fresh =
            next_generation_ne (w.pool.controls slot_id).generation
              (rw (sym old) (generation_small handle)) in
          other_generation-IsStale p w' handle
            (λ same. fresh (ground (arith, same, g.generation, at, old))),
    )

-- An allocation with valid arguments, in a pool of 1 to 2^31 slots of a 32-bit capacity and with
-- no other thread in the identity generator, that succeeds makes every handle of the slot's last
-- generation stale: no transfer, release, claim or look-up accepts it, and no buffer that holds it
-- is owned.
pub buffer_allocate_stales :
    (p : Platform) (q : Request) (buffer : Buffer) (w : World)
    → IsSized w
    → IsRequest w q
    → IsQuiet w q.allocator
    → (view : Buffer) (w' : World) → buffer_allocate_internal p q buffer w ≡ some (ok, view, w')
    → (slot_id : ℕ) × (takeable (w.pool.controls slot_id) ≡ true)
      × ((w'.pool.controls slot_id).owner_id ≡ q.allocator)
      × ((handle : ℕ)
          → handle_slot_id handle ≡ slot_id
          → handle_generation handle ≡ (w.pool.controls slot_id).generation
          → IsStale p w' handle)
buffer_allocate_stales p q buffer w z a quiet view w' e =
    let (r, run, how) = buffer_allocate_total p q buffer w z a quiet in
    allocation_stales p q buffer w view w' r (ground (arith, run, e)) how
