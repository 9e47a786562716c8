-- ===== src/Link/Send/Rollback.antt =====
-- Theorems on `rollback_transfer`, on a slot that a transfer has just published.
use z_ipc.Base.{
  ap, refl, ◌∙◌, if_elim, sym, ◌&&◌, not, ◌==◌, if◌then◌else◌, Bool, ℕ, true, false, some, ◌≡◌,
  arith,
}
use z_ipc.Word.{sub32}
use z_ipc.Status.{is_ok_only, ok, is_ok, owned, in_transfer, claiming, invalid_component_id, Status}
use z_ipc.Handle.{handle_generation, claim_token_make, rollback}
use z_ipc.State.{put_slot, World, Buffer, Message, Slot}
use z_ipc.Platform.{Platform, protect_slot}
use z_ipc.Protocol.Frame.{Frame, core_of}
use z_ipc.Link.{Link}
use z_ipc.Link.Send.{rollback_transfer, rollback_claimed, undone_slot}
use z_ipc.Buffer.{index_of}
use z_ipc.Protocol.Common.{give_back}
use mathlib.Core.Path.{ap₂, subst}
use z_ipc.Platform.Laws.{pool-protect_slot}

module _ (p : Platform) (link : Link) (b : Buffer) (slot_id : ℕ) (message : Message)
    (w : World) where
  abbrev before : Slot
  before = w.pool.controls slot_id

  -- The buffer is a view of the slot, and the slot is on its way with the message, unclaimed.
  pub record Published : Type 0 where
    pub control : b.control ≡ some slot_id
    pub index : b.slot_id ≡ slot_id
    pub state : before.state ≡ in_transfer
    pub claim_token : before.claim_token ≡ 0
    pub generation : before.generation ≡ handle_generation message.handle
    pub owner_id : before.owner_id ≡ link.local_component
    pub next_owner_id : before.next_owner_id ≡ link.remote_component
    pub sequence : before.transfer_sequence ≡ message.transfer_sequence

  -- What a rollback does: the slot is owned again if the pages open, and else waits in CLAIMING
  -- under the link's token.
  pub record RolledBack (r : Status × World) : Type 0 where
    pub status : r.0 ≡ (protect_slot p w slot_id true).0
    pub frame : Frame w slot_id r.1
    pub opened :
        is_ok r.0 ≡ true
        → (core_of (r.1.pool.controls slot_id)
            ≡ core_of (record before {
              state = owned;
              next_owner_id = invalid_component_id;
              transfer_sequence = sub32 message.transfer_sequence 1;
            }))
          × ((r.1.pool.controls slot_id).claim_token ≡ 0)
    pub closed :
        is_ok r.0 ≡ false
        → ((r.1.pool.controls slot_id).state ≡ claiming)
          × ((r.1.pool.controls slot_id).claim_token
              ≡ claim_token_make rollback link.local_component link.local_epoch)

  abbrev claim : ℕ
  claim = claim_token_make rollback link.local_component link.local_epoch

  -- The slot as the rollback claims it.
  abbrev taken : Slot
  taken = record before {
    state = claiming;
    claim_token = claim;
    claim_previous_sequence = sub32 message.transfer_sequence 1;
  }

  rollback_transfer_claims :
      Published
      → rollback_transfer p link b message w ≡ rollback_claimed p link b message claim taken w
  unfolding rollback_transfer
  rollback_transfer_claims h = ground (arith, h.control, h.state, h.claim_token)

  -- The claimed slot is the one that was sent.
  same_transfer : Slot → Bool
  same_transfer s =
      (s.generation == handle_generation message.handle)
      && (s.owner_id == link.local_component)
      && (s.next_owner_id == link.remote_component)
      && (s.transfer_sequence == message.transfer_sequence)

  same_transfer-taken : Published → same_transfer taken ≡ true
  unfolding same_transfer
  same_transfer-taken h = ground (arith, h.generation, h.owner_id, h.next_owner_id, h.sequence)

  -- What a rollback ends with, by the answer of the pages.
  abbrev settle : Status → World → ℕ → Status × World
  settle status w1 i =
      if not (is_ok status)
      then (status, put_slot w1 i (undone_slot link message taken))
      else (ok, put_slot w1 i (give_back owned claim (undone_slot link message taken)))

  rollback_claimed_settles :
      same_transfer taken ≡ true
      → rollback_claimed p link b message claim taken w
        ≡ settle
            (protect_slot p w b.slot_id true).0
            (protect_slot p w b.slot_id true).1
            (index_of b.control)
  unfolding same_transfer rollback_claimed
  rollback_claimed_settles same = ground (arith, same)

  settled :
      (status : Status) (w1 : World)
      → Published
      → w1.pool ≡ w.pool
      → (protect_slot p w slot_id true).0 ≡ status
      → RolledBack (settle status w1 slot_id)
  unfolding undone_slot
  settled status w1 h same e =
      if_elim RolledBack (not (is_ok status))
        (λ failed. record {
          status = sym e;
          frame = record {
            others = λ j ne. ground (arith, same);
            same_layout = ground (arith, same);
          };
          opened = λ good. ground (arith, failed);
          closed = λ bad. ground (arith, same);
        })
        (λ fine. record {
          status = sym (e ∙ is_ok_only status (ground (arith, fine)));
          frame = record {
            others = λ j ne. ground (arith, same);
            same_layout = ground (arith, same);
          };
          opened = λ good. ground (arith, h.owner_id);
          closed = λ bad. cc;
        })

  -- A rollback of a transfer that is published and unclaimed reopens the pages. If they open, the
  -- slot is owned again, as it was before the transfer but with no next owner.
  pub rollback_transfer_lem : Published → RolledBack (rollback_transfer p link b message w)
  rollback_transfer_lem h =
      subst RolledBack
        (sym (
          rollback_transfer_claims h
          ∙ rollback_claimed_settles (same_transfer-taken h)
          ∙ ap₂ (λ i j. settle (protect_slot p w i true).0 (protect_slot p w i true).1 j) h.index
              (ap index_of h.control)))
        (settled (protect_slot p w slot_id true).0 (protect_slot p w slot_id true).1 h
          (pool-protect_slot p w slot_id true) refl)
