-- ===== src/Protocol/Transfer/Laws.antt =====
-- Theorems on what buffer_prepare_transfer_internal changes.
use z_ipc.State.{Pool, put_slot, Slot, Message, World}
use z_ipc.Protocol.Transfer.{
  transfer_claim, buffer_prepare_transfer_internal, sent_slot, commit_transfer, refuse_transfer,
  transfer_claimed,
}
use z_ipc.Base.{
  inr, sym, inl, Bool-cases, ◌∙◌, leb, ◌||◌, ◌==◌, not, ap, if_elim, refl, false, arith, ◌+◌, true,
  ◌≡◌, ℕ,
}
use z_ipc.Platform.{now_ns, tick, protect_slot, Platform}
use z_ipc.Status.{
  claiming, component_id_valid, invalid_state, is_owned, invalid_argument, deadline, not_owner,
  stale_handle, is_ok, Status, in_transfer, owned,
}
use z_ipc.Handle.{ClaimKind, claim_token_make, handle_generation, handle_slot_id}
use z_ipc.Word.{u32}
use z_ipc.Component.{registered_epoch}
use z_ipc.Protocol.Common.{give_back, past_hop_limit, past_deadline}
use z_ipc.Trace.{trace_external_event, record_protocol_error, record_slot_error, trace_slot}
use z_ipc.Protocol.Frame.{
  Frame-put_slot, controls-record_protocol_error, Frame-record_protocol_error, Frame-of_pool,
  Frame-trans, Frame, core_of,
}
use z_ipc.Platform.Laws.{pool-protect_slot}
use mathlib.Core.Path.{subst}

-- The slot and the message after a transfer of `s`.
pub record Sent (pool_id handle current_owner next_owner link_id : ℕ) (s s' : Slot)
    (message : Message) : Type 0 where
  pub core :
      core_of s'
      ≡ core_of (record s {
        state = in_transfer;
        next_owner_id = next_owner;
        transfer_sequence = u32 (s.transfer_sequence + 1);
      })
  pub claim_token : s'.claim_token ≡ 0
  pub link : s'.transfer_link_id ≡ link_id
  pub source : (s'.transfer_source_id ≡ current_owner) × (s'.transfer_source_epoch ≡ s.owner_epoch)
  pub snapshot :
      (s'.transfer_hop_count ≡ s.hop_count)
      × (s'.transfer_acquired_ns ≡ s.acquired_ns)
      × (s'.transfer_visited ≡ s.visited)
  pub described : message ≡ record {
    handle = handle;
    pool_id = pool_id;
    source_component = current_owner;
    destination_component = next_owner;
    transfer_sequence = u32 (s.transfer_sequence + 1);
    flags = 0;
  }

module _ (p : Platform) (handle current_owner next_owner link_id : ℕ) where
  abbrev slot_id : ℕ
  slot_id = handle_slot_id handle

  -- What the part that runs in CLAIMING makes of the slot `s` that was claimed from OWNED.
  record Claimed (s : Slot) (message : Message) (w : World) (r : Status × Message × World)
      : Type 0 where
    frame : Frame w slot_id r.2
    succeeded :
        is_ok r.0 ≡ true
        → Sent w.pool.pool_id handle current_owner next_owner link_id s
            (r.2.pool.controls slot_id)
            r.1
    refused :
        is_ok r.0 ≡ false
        → (core_of (r.2.pool.controls slot_id) ≡ core_of (record s { state = owned }))
          × (r.1 ≡ message)

  module _ (claim : ℕ) where
    refuse-Claimed :
        (s : Slot) (status : Status) (message : Message) (w : World)
        → is_ok status ≡ false
        → Claimed s message w (refuse_transfer p slot_id current_owner claim s status message w)
    unfolding refuse_transfer record_slot_error trace_slot
    refuse-Claimed s status message w bad = record {
      frame = record { others = λ j ne. ground arith; same_layout = ground arith };
      succeeded = λ good. cc;
      refused = λ e. (ground arith, refl);
    }

    commit-Claimed :
        (s : Slot) (message : Message) (w : World)
        → s.claim_token ≡ claim
        → Claimed s message w (
            commit_transfer p handle slot_id current_owner next_owner claim
              (sent_slot current_owner next_owner link_id s)
              w)
    unfolding commit_transfer sent_slot trace_slot
    commit-Claimed s message w mine = record {
      frame = record { others = λ j ne. ground arith; same_layout = ground arith };
      succeeded = λ good. ground arith;
      refused = λ e. cc;
    }

    back-Claimed :
        (s : Slot) (status : Status) (message : Message) (w : World)
        → is_ok status ≡ false
        → Claimed s message w (
          status,
          message,
          record_protocol_error p (put_slot w slot_id (give_back owned claim s)) current_owner,
        )
    unfolding record_protocol_error trace_external_event
    back-Claimed s status message w bad = record {
      frame = record { others = λ j ne. ground arith; same_layout = ground arith };
      succeeded = λ good. cc;
      refused = λ e. (ground arith, refl);
    }

    -- A platform call before does not matter.
    Claimed-from :
        {s : Slot} {message : Message} {w w1 : World} {r : Status × Message × World}
        → w1.pool ≡ w.pool
        → Claimed s message w1 r
        → Claimed s message w r
    Claimed-from {s} {w} {r} same c = record {
      frame = Frame-trans (Frame-of_pool slot_id same) c.frame;
      succeeded = λ good.
          subst
            (λ pool_id.
              Sent pool_id handle current_owner next_owner link_id s (r.2.pool.controls slot_id)
                r.1)
            (ap (λ (pool : Pool). pool.pool_id) same) (c.succeeded good);
      refused = c.refused;
    }

    transfer_claimed_lem :
        (owner_epoch : ℕ) (s : Slot) (message : Message) (w : World)
        → s.claim_token ≡ claim
        → Claimed s message w (
            transfer_claimed p handle slot_id current_owner next_owner owner_epoch link_id claim s
              message w)
    unfolding transfer_claimed
    transfer_claimed_lem owner_epoch s message w mine =
        let P = Claimed s message w in
        let (status, w1) = protect_slot p (tick w) slot_id false in
        let same : w1.pool ≡ w.pool = pool-protect_slot p (tick w) slot_id false in
        if_elim P (not (s.generation == handle_generation handle))
          (λ _. back-Claimed s stale_handle message w refl)
          λ _.
            if_elim P (not (s.owner_id == current_owner) || not (s.owner_epoch == owner_epoch))
              (λ _. back-Claimed s not_owner message w refl)
              λ _.
                if_elim P (past_deadline s (now_ns p w))
                  (λ _. Claimed-from refl (refuse-Claimed s deadline message (tick w) refl))
                  λ _.
                    if_elim P (past_hop_limit s)
                      (λ _.
                        Claimed-from refl (refuse-Claimed s Status.hop_limit message (tick w) refl))
                      λ _.
                        if_elim P (not (is_ok status))
                          (λ bad.
                            Claimed-from same (refuse-Claimed s status message w1 (ground arith)))
                          λ _. Claimed-from same (commit-Claimed s message w1 mine)

  abbrev before : World → Slot
  before w = w.pool.controls slot_id

  -- What a transfer makes of the slot, whoever asked for it.
  record Moved (message : Message) (w : World) (r : Status × Message × World) : Type 0 where
    frame : Frame w slot_id r.2
    succeeded :
        is_ok r.0 ≡ true
        → Sent w.pool.pool_id handle current_owner next_owner link_id
            (before w)
            (r.2.pool.controls slot_id)
            r.1
    refused :
        is_ok r.0 ≡ false
        → (core_of (r.2.pool.controls slot_id) ≡ core_of (before w)) × (r.1 ≡ message)

  -- A status before the claim.
  early-Moved :
      (status : Status) (message : Message) (w w' : World)
      → is_ok status ≡ false
      → Frame w slot_id w'
      → core_of (w'.pool.controls slot_id) ≡ core_of (before w)
      → Moved message w (status, message, w')
  early-Moved status message w w' bad f e = record {
    frame = f;
    succeeded = λ good. cc;
    refused = λ b. (e, refl);
  }

  error-Moved :
      (status : Status) (message : Message) (w : World)
      → is_ok status ≡ false
      → Moved message w (status, message, record_protocol_error p w current_owner)
  error-Moved status message w bad =
      early-Moved status message w (record_protocol_error p w current_owner) bad
        (Frame-record_protocol_error p w slot_id current_owner)
        (ground (arith, controls-record_protocol_error p w current_owner))

  Claimed-Moved :
      (s : Slot) (message : Message) (w : World) (r : Status × Message × World)
      → core_of (record s { state = owned }) ≡ core_of (before w)
      → s.acquired_ns ≡ (before w).acquired_ns
      → Claimed s message w r
      → Moved message w r
  Claimed-Moved s message w r same acquired c = record {
    frame = c.frame;
    succeeded = λ good. sent_as (c.succeeded good);
    refused = λ bad. let (kept, unsaid) = c.refused bad in (kept ∙ same, unsaid);
  }
    where
      sent_as :
          Sent w.pool.pool_id handle current_owner next_owner link_id s
            (r.2.pool.controls slot_id)
            r.1
          → Sent w.pool.pool_id handle current_owner next_owner link_id
              (before w)
              (r.2.pool.controls slot_id)
              r.1
      sent_as t = record {
        core = ground (arith, t.core);
        claim_token = t.claim_token;
        link = t.link;
        source = ground (arith, t.source);
        snapshot = ground (arith, t.snapshot);
        described = ground (arith, t.described);
      }

  transfer_claim_lem :
      (owner_epoch : ℕ) (message : Message) (w : World)
      → is_owned (before w).state ≡ true
      → Moved message w (
          transfer_claim p handle slot_id current_owner next_owner owner_epoch link_id
            (before w)
            message
            w)
  unfolding transfer_claim
  transfer_claim_lem owner_epoch message w mine = elim (Bool-cases ((before w).claim_token == 0)) [
    | inl won ↦ subst (Moved message w) (sym (goes won)) (
        Claimed-Moved claimed message w
          (transfer_claimed p handle slot_id current_owner next_owner owner_epoch link_id claim
            claimed message w)
          (ground arith) refl (transfer_claimed_lem claim owner_epoch claimed message w refl))
    | inr lost ↦ subst (Moved message w) (sym (stays lost)) (
        early-Moved invalid_state message w (put_slot w slot_id noted) refl
          (Frame-put_slot w slot_id noted) (ground arith))
  ]
    where
      claim : ℕ
      claim = claim_token_make ClaimKind.send current_owner owner_epoch

      noted : Slot
      noted = record (before w) { claim_previous_sequence = (before w).transfer_sequence }

      claimed : Slot
      claimed = record noted { claim_token = claim; state = claiming }

      goes :
          ((before w).claim_token == 0) ≡ true
          → transfer_claim p handle slot_id current_owner next_owner owner_epoch link_id
              (before w)
              message
              w
            ≡ transfer_claimed p handle slot_id current_owner next_owner owner_epoch link_id claim
                claimed message w
      goes won = ground arith

      stays :
          ((before w).claim_token == 0) ≡ false
          → transfer_claim p handle slot_id current_owner next_owner owner_epoch link_id
              (before w)
              message
              w
            ≡ (invalid_state, message, put_slot w slot_id noted)
      stays lost = ground arith

  transfer_moves :
      (message : Message) (w : World)
      → Moved message w
          (buffer_prepare_transfer_internal p handle current_owner next_owner link_id message w)
  unfolding buffer_prepare_transfer_internal
  transfer_moves message w =
      let P = Moved message w in
      let s = before w in
      let epoch = registered_epoch w.pool current_owner in
      if_elim P (not (component_id_valid current_owner) || not (component_id_valid next_owner))
        (λ _. early-Moved invalid_argument message w w refl (Frame-of_pool slot_id refl) refl)
        λ _.
          if_elim P (leb w.pool.header.slot_count slot_id)
            (λ _. error-Moved Status.invalid_handle message w refl)
            λ _.
              if_elim P (not (is_owned s.state)) (λ _. error-Moved invalid_state message w refl)
                λ mine.
                  if_elim P (not (s.generation == handle_generation handle))
                    (λ _. error-Moved stale_handle message w refl)
                    λ _.
                      if_elim P (not (s.owner_id == current_owner) || not (s.owner_epoch == epoch))
                        (λ _. error-Moved not_owner message w refl)
                        λ _. transfer_claim_lem epoch message w (ground arith)

  transfer_claim_unclaimed :
      (owner_epoch : ℕ) (message : Message) (w : World)
      → is_ok
          (transfer_claim p handle slot_id current_owner next_owner owner_epoch link_id
            (before w)
            message
            w).0
        ≡ true
      → (before w).claim_token ≡ 0
  unfolding transfer_claim
  transfer_claim_unclaimed owner_epoch message w good =
      elim (Bool-cases ((before w).claim_token == 0)) [
        | inl none ↦ ground (arith, none)
        | inr some ↦ absurd (ground (arith, some, good))
      ]

  -- The slot is the caller's, in its current epoch and under the handle, and no one claims it.
  pub record Owns (w : World) : Type 0 where
    pub state : is_owned (before w).state ≡ true
    pub owner_id : (before w).owner_id ≡ current_owner
    pub owner_epoch : (before w).owner_epoch ≡ registered_epoch w.pool current_owner
    pub generation : (before w).generation ≡ handle_generation handle
    pub unclaimed : (before w).claim_token ≡ 0

  transfer-Owns :
      (message : Message) (w : World)
      → is_ok
          (buffer_prepare_transfer_internal p handle current_owner next_owner link_id message w).0
        ≡ true
      → Owns w
  unfolding buffer_prepare_transfer_internal
  transfer-Owns message w =
      let P : Status × Message × World → Type 0 = λ r. is_ok r.0 ≡ true → Owns w in
      let s = before w in
      let epoch = registered_epoch w.pool current_owner in
      if_elim P (not (component_id_valid current_owner) || not (component_id_valid next_owner))
        (λ _ good. absurd cc)
        λ _.
          if_elim P (leb w.pool.header.slot_count slot_id) (λ _ good. absurd cc)
            λ _.
              if_elim P (not (is_owned s.state)) (λ _ good. absurd cc)
                λ mine.
                  if_elim P (not (s.generation == handle_generation handle)) (λ _ good. absurd cc)
                    λ same.
                      if_elim P (not (s.owner_id == current_owner) || not (s.owner_epoch == epoch))
                        (λ _ good. absurd cc)
                        λ owner good. record {
                          state = ground (arith, mine);
                          owner_id = ground (arith, owner);
                          owner_epoch = ground (arith, owner);
                          generation = ground (arith, same);
                          unclaimed = transfer_claim_unclaimed epoch message w good;
                        }

  -- What a transfer finds, and makes of the slot.
  pub record Transfer (message : Message) (w : World) (r : Status × Message × World) : Type 0 where
    pub owns : is_ok r.0 ≡ true → Owns w
    pub frame : Frame w slot_id r.2
    pub succeeded :
        is_ok r.0 ≡ true
        → Sent w.pool.pool_id handle current_owner next_owner link_id
            (before w)
            (r.2.pool.controls slot_id)
            r.1
    pub refused :
        is_ok r.0 ≡ false
        → (core_of (r.2.pool.controls slot_id) ≡ core_of (before w)) × (r.1 ≡ message)

  -- A transfer that succeeds found the slot OWNED by the caller in its current epoch, in the
  -- generation of the handle and unclaimed, and puts it into TRANSFER toward the receiver, under the
  -- next sequence, with its origin noted for recovery, its claim cleared, and a message that
  -- describes it; one that is refused leaves the owner, the state, the sequence and the lineage of
  -- the slot and the message as they were. Neither touches another slot, the payload or the component
  -- table.
  pub buffer_prepare_transfer_lem :
      (message : Message) (w : World)
      → Transfer message w
          (buffer_prepare_transfer_internal p handle current_owner next_owner link_id message w)
  buffer_prepare_transfer_lem message w =
      let m = transfer_moves message w in
      record {
        owns = transfer-Owns message w;
        frame = m.frame;
        succeeded = m.succeeded;
        refused = m.refused;
      }
