-- ===== src/Protocol/Allocate/Slots.antt =====
-- One attempt of the loop of buffer_allocate_internal, behind the claim of its slot.
use z_ipc.State.{buffer_invalid, Slot, World, Buffer}
use z_ipc.Protocol.Allocate.{
  skipped, stuck, name_allocation, open_allocation, view_allocation, Request, returned, abandon,
  abandon_closing, publish_allocation,
}
use z_ipc.Base.{if◌then◌else◌, some, inr, inl, Bool-cases, false, true, arith, ◌≢◌, ◌≡◌, ℕ}
use z_ipc.Platform.{protect_slot, Platform}
use z_ipc.Status.{is_ok, invalid_component_id, Status, free, owned}
use z_ipc.Trace.{trace_slot}
use z_ipc.Protocol.Common.{free_claiming_slot}
use z_ipc.Buffer.{make_view}
use z_ipc.Platform.Laws.{pool-protect_slot}
use z_ipc.Handle.{handle_make}
use z_ipc.Protocol.Frame.{Frame-of_pool, Frame-trans, Frame}

-- The slot `s` after a grant: that of `t`, published, with the claim cleared.
pub record Published (t s : Slot) : Type 0 where
  pub state : s.state ≡ owned
  pub generation : s.generation ≡ t.generation
  pub owner_id : s.owner_id ≡ t.owner_id
  pub owner_epoch : s.owner_epoch ≡ t.owner_epoch
  pub claim_token : s.claim_token ≡ 0
  pub hop_count : s.hop_count ≡ t.hop_count
  pub hop_limit : s.hop_limit ≡ t.hop_limit
  pub visited : s.visited ≡ t.visited
  pub identity : s.identity ≡ t.identity
  pub region : s.region ≡ t.region
  pub transfer_sequence : s.transfer_sequence ≡ t.transfer_sequence
  pub deadline_ns : s.deadline_ns ≡ t.deadline_ns

-- The slot after an attempt that failed behind the claim.
pub record Freed (t s : Slot) : Type 0 where
  pub state : s.state ≡ free
  pub generation : s.generation ≡ t.generation
  pub owner_id : s.owner_id ≡ invalid_component_id
  pub claim_token : s.claim_token ≡ 0

pub record Landed (w : World) (slot_id : ℕ) (t : Slot) (status : Status) (view : Buffer)
    (w' : World) : Type 0 where
  pub frame : Frame w slot_id w'
  pub granted : is_ok status ≡ true → Published t (w'.pool.controls slot_id)
  pub failed : is_ok status ≡ false → Freed t (w'.pool.controls slot_id) × (view ≡ buffer_invalid)

module _ (p : Platform) (q : Request) (claim slot_id : ℕ) where
  -- Both error paths land on a free slot.
  abandon_lands :
      (s : Slot) (status st : Status) (view : Buffer) (w w' : World)
      → is_ok status ≡ false
      → abandon p q slot_id s status w ≡ returned st view w'
      → Landed w slot_id s st view w'
  unfolding abandon trace_slot free_claiming_slot
  abandon_lands s status st view w w' bad h = record {
    frame = record { others = λ j ne. ground arith; same_layout = ground arith };
    granted = λ good. absurd (ground arith);
    failed = λ e. (ground arith, ground arith);
  }

  abandon_closing_lands :
      (s : Slot) (status st : Status) (view : Buffer) (w w' : World)
      → is_ok status ≡ false
      → abandon_closing p q slot_id s status w ≡ returned st view w'
      → Landed w slot_id s st view w'
  unfolding abandon_closing trace_slot free_claiming_slot protect_slot
  abandon_closing_lands s status st view w w' bad h = record {
    frame = record { others = λ j ne. ground arith; same_layout = ground arith };
    granted = λ good. absurd (ground arith);
    failed = λ e. (ground arith, ground arith);
  }

  publish_lands :
      (s : Slot) (st : Status) (buffer view : Buffer) (w w' : World)
      → s.claim_token ≡ claim
      → publish_allocation p q claim slot_id s buffer w ≡ returned st view w'
      → Landed w slot_id s st view w'
  unfolding publish_allocation trace_slot
  publish_lands s st buffer view w w' mine h = record {
    frame = record { others = λ j ne. ground arith; same_layout = ground arith };
    granted = λ good. ground arith;
    failed = λ e. absurd (ground arith);
  }

  -- A platform call before the attempt does not matter to where it lands.
  Landed-from :
      {s : Slot} {st : Status} {view : Buffer} {w w1 w' : World}
      → w1.pool ≡ w.pool
      → Landed w1 slot_id s st view w'
      → Landed w slot_id s st view w'
  Landed-from same l = record {
    frame = Frame-trans (Frame-of_pool slot_id same) l.frame;
    granted = l.granted;
    failed = l.failed;
  }

  view_lands :
      (s : Slot) (buffer : Buffer) (st : Status) (view : Buffer) (w w' : World)
      → s.claim_token ≡ claim
      → view_allocation p q claim slot_id s buffer w ≡ returned st view w'
      → Landed w slot_id s st view w'
  unfolding view_allocation
  view_lands s buffer st view w w' mine h =
      let made = make_view w slot_id s (handle_make slot_id s.generation) buffer in
      elim (Bool-cases (is_ok made.0)) [
        | inl good ↦ publish_lands s st made.1 view w w' mine (ground arith)
        | inr bad ↦ elim (Bool-cases q.enable_payload) [
          | inl closing ↦ abandon_closing_lands s made.0 st view w w' bad (ground arith)
          | inr plain ↦ abandon_lands s made.0 st view w w' bad (ground arith)
        ]
      ]

  open_lands :
      (s : Slot) (buffer : Buffer) (st : Status) (view : Buffer) (w w' : World)
      → s.claim_token ≡ claim
      → open_allocation p q claim slot_id s buffer w ≡ returned st view w'
      → Landed w slot_id s st view w'
  unfolding open_allocation
  open_lands s buffer st view w w' mine h =
      let (status, w1) = protect_slot p w slot_id true in
      let same : w1.pool ≡ w.pool = pool-protect_slot p w slot_id true in
      elim (Bool-cases q.enable_payload) [
        | inl enabled ↦ elim (Bool-cases (is_ok status)) [
          | inl good ↦ Landed-from same (view_lands s buffer st view w1 w' mine (ground arith))
          | inr bad ↦
              Landed-from same (abandon_closing_lands s status st view w1 w' bad (ground arith))
        ]
        | inr plain ↦ view_lands s buffer st view w w' mine (ground arith)
      ]

  -- What the identity generator says becomes the identity of the slot.
  pub name_lands :
      (s : Slot) (buffer : Buffer) (st : Status) (view : Buffer) (w w' : World)
      (r : Status × ℕ × World)
      → s.claim_token ≡ claim
      → r.2.pool ≡ w.pool
      → name_allocation p q claim slot_id s buffer (some r) ≡ returned st view w'
      → Landed w slot_id
          (record s {
            identity = record {
              id = if is_ok r.0 then r.1 else s.identity.id;
              parent_id = if is_ok r.0 then q.parent_id else s.identity.parent_id;
            };
          })
          st
          view
          w'
  unfolding name_allocation
  name_lands s buffer st view w w' r mine same h = elim (Bool-cases (is_ok r.0)) [
    | inl good ↦ rw good (
        Landed-from same (
          open_lands (record s { identity = record { id = r.1; parent_id = q.parent_id } }) buffer
            st view r.2 w' mine (ground arith)))
    | inr bad ↦ rw bad (Landed-from same (abandon_lands s r.0 st view r.2 w' bad (ground arith)))
  ]

  -- Only a slot with an identity is granted.
  pub name_allocation-named :
      (s : Slot) (buffer : Buffer) (st : Status) (view : Buffer) (w' : World)
      (r : Status × ℕ × World)
      → name_allocation p q claim slot_id s buffer (some r) ≡ returned st view w'
      → is_ok st ≡ true
      → is_ok r.0 ≡ true
  unfolding name_allocation abandon
  name_allocation-named s buffer st view w' r h good = ground arith

  -- Behind the claim, with an answer of the generator, the call returns.
  pub name_allocation-returns :
      (s : Slot) (buffer : Buffer) (r : Status × ℕ × World)
      → (name_allocation p q claim slot_id s buffer (some r) ≢ stuck)
        × ((w : World) → name_allocation p q claim slot_id s buffer (some r) ≢ skipped w)
  unfolding name_allocation open_allocation view_allocation publish_allocation abandon
      abandon_closing
  name_allocation-returns s buffer r = (ground arith, λ w. ground arith)
