-- ===== src/Protocol/Claim/Laws.antt =====
-- Theorems on what zipc_buffer_claim changes.
use z_ipc.State.{buffer_invalid, put_slot, Slot, Message, World, Buffer}
use z_ipc.Protocol.Frame.{
  controls-record_protocol_error, Frame-record_protocol_error, Frame, core_of, Frame-trans,
  Frame-of_pool,
}
use z_ipc.Protocol.Claim.{
  buffer_claim, win_claim, claim_slot, claim_claimed, refuse_claim, drop_claim, drop_claim_closing,
  received_slot, commit_claim,
}
use z_ipc.Base.{
  ltb, Bool, leb, ◌∙◌, ap, sym, Bool-cases, ◌||◌, ◌==◌, refl, not, inr, inl, ◌⊎◌, if_elim, arith,
  ◌+◌, false, true, ◌≡◌, ℕ,
}
use z_ipc.Platform.{tick, now_ns, protect_slot, Platform}
use z_ipc.Status.{
  region_overflow, invalid_argument, component_id_valid, deadline, invalid_state, sequence_mismatch,
  invalid_receiver, claiming, stale_handle, is_in_transfer, received, in_transfer, ok, is_ok,
  invalid_component_id, Status, free, owned,
}
use z_ipc.Handle.{ClaimKind, claim_token_make, handle_generation, handle_slot_id}
use z_ipc.Trace.{trace_external_event, trace_slot, record_slot_error, record_protocol_error}
use z_ipc.Protocol.Common.{past_hop_limit, past_deadline, give_back, free_claiming_slot}
use z_ipc.Buffer.{make_view}
use z_ipc.Word.{sub32, u32}
use z_ipc.Platform.Laws.{pool-protect_slot}
use z_ipc.VisitedSet.{visited_set_add}
use mathlib.Core.Path.{subst}
use z_ipc.Component.{registered_epoch}

-- The slot `s'` after a claim of `s`.
pub record Received (receiver epoch : ℕ) (s s' : Slot) : Type 0 where
  pub core :
      core_of s'
      ≡ core_of (record s {
        state = owned;
        owner_id = receiver;
        next_owner_id = invalid_component_id;
        owner_epoch = epoch;
        hop_count = u32 (s.transfer_hop_count + 1);
        visited = visited_set_add s.visited receiver;
      })
  pub claim_token : s'.claim_token ≡ 0

module _ (p : Platform) (message : Message) (receiver : ℕ) where
  abbrev slot_id : ℕ
  slot_id = handle_slot_id message.handle

  abbrev before : World → Slot
  before w = w.pool.controls slot_id

  -- The region of the slot reaches past its end.
  abbrev pub outside : World → Slot → Bool
  outside w s =
      ltb w.pool.header.slot_capacity s.region.offset
      || ltb (sub32 w.pool.header.slot_capacity s.region.offset) s.region.length

  -- Why the payload of `s` cannot be used, in the world `o` in which its pages are opened: the
  -- pages do not open, or the region does not lie in the slot.
  abbrev pub Unopened : World → Slot → Status → Type 0
  Unopened o s status =
      ((protect_slot p o slot_id true).0 ≡ status)
      ⊎ ((outside o s ≡ true) × (status ≡ region_overflow))

  -- The slot `s'` of a buffer that was lost because its payload could not be opened.
  pub record Lost (o : World) (s s' : Slot) (status : Status) : Type 0 where
    pub state : s'.state ≡ free
    pub owner_id : s'.owner_id ≡ invalid_component_id
    pub claim_token : s'.claim_token ≡ 0
    pub why : Unopened o s status

  -- What a claim in the epoch `epoch` makes of a slot whose core, in TRANSFER, is that of `s`.
  pub record Reception (o : World) (epoch : ℕ) (s : Slot) (buffer : Buffer) (w : World)
      (r : Status × Buffer × World) : Type 0 where
    pub frame : Frame w slot_id r.2
    pub succeeded :
        is_ok r.0 ≡ true
        → Received receiver epoch s (r.2.pool.controls slot_id)
          × (make_view r.2 slot_id (r.2.pool.controls slot_id) message.handle buffer ≡ (ok, r.1))
    pub refused :
        is_ok r.0 ≡ false
        → ((core_of (r.2.pool.controls slot_id) ≡ core_of (record s { state = in_transfer }))
            × (r.1 ≡ buffer))
          ⊎ (Lost o s (r.2.pool.controls slot_id) r.0 × (r.1 ≡ buffer_invalid))

  module _ (o : World) (epoch claim : ℕ) where
    refuse-Reception :
        (s : Slot) (status : Status) (buffer : Buffer) (w : World)
        → is_ok status ≡ false
        → Reception o epoch s buffer w (refuse_claim p slot_id receiver claim s status buffer w)
    unfolding refuse_claim record_protocol_error trace_external_event
    refuse-Reception s status buffer w bad = record {
      frame = record { others = λ j ne. ground arith; same_layout = ground arith };
      succeeded = λ good. cc;
      refused = λ e. inl (ground arith, refl);
    }

    drop-Reception :
        (s t : Slot) (status : Status) (buffer : Buffer) (w : World)
        → is_ok status ≡ false
        → Unopened o s status
        → Reception o epoch s buffer w (drop_claim p slot_id receiver t status w)
    unfolding drop_claim record_slot_error trace_slot free_claiming_slot
    drop-Reception s t status buffer w bad why = record {
      frame = record { others = λ j ne. ground arith; same_layout = ground arith };
      succeeded = λ good. cc;
      refused = λ e. inr (
        record {
          state = ground arith;
          owner_id = ground arith;
          claim_token = ground arith;
          why = why;
        },
        refl,
      );
    }

    drop_closing-Reception :
        (s t : Slot) (status : Status) (buffer : Buffer) (w : World)
        → is_ok status ≡ false
        → Unopened o s status
        → Reception o epoch s buffer w (drop_claim_closing p slot_id receiver t status w)
    unfolding drop_claim_closing record_slot_error trace_slot free_claiming_slot protect_slot
    drop_closing-Reception s t status buffer w bad why = record {
      frame = record { others = λ j ne. ground arith; same_layout = ground arith };
      succeeded = λ good. cc;
      refused = λ e. inr (
        record {
          state = ground arith;
          owner_id = ground arith;
          claim_token = ground arith;
          why = why;
        },
        refl,
      );
    }

    Reception-from :
        {s : Slot} {buffer : Buffer} {w w1 : World} {r : Status × Buffer × World}
        → w1.pool ≡ w.pool
        → Reception o epoch s buffer w1 r
        → Reception o epoch s buffer w r
    Reception-from same c = record {
      frame = Frame-trans (Frame-of_pool slot_id same) c.frame;
      succeeded = c.succeeded;
      refused = c.refused;
    }

    -- The last step, with the view that was made before the slot is published.
    publish-Reception :
        (s : Slot) (now : ℕ) (buffer view : Buffer) (w : World)
        → s.claim_token ≡ claim
        → make_view w slot_id (received_slot receiver epoch now s) message.handle buffer
          ≡ (ok, view)
        → let (traced, w2) =
            trace_slot p w slot_id (received_slot receiver epoch now s) receiver received in
          Reception o epoch s buffer w
            (ok, view, put_slot w2 slot_id (give_back owned claim traced))
    unfolding received_slot trace_slot make_view
    publish-Reception s now buffer view w mine made = record {
      frame = record { others = λ j ne. ground arith; same_layout = ground arith };
      succeeded =
          λ good. (record { core = ground arith; claim_token = ground arith }, ground arith);
      refused = λ e. cc;
    }

  -- A view fails only for a region that reaches past the end of the slot.
  unviewed_lem :
      (epoch : ℕ) (s : Slot) (now : ℕ) (buffer : Buffer) (w : World) (w1 : World)
      → w1.pool ≡ w.pool
      → not (
          is_ok (make_view w1 slot_id (received_slot receiver epoch now s) message.handle buffer).0)
        ≡ true
      → (outside w s ≡ true)
        × ((make_view w1 slot_id (received_slot receiver epoch now s) message.handle buffer).0
            ≡ region_overflow)
  unfolding make_view received_slot
  unviewed_lem epoch s now buffer w w1 same bad =
      (ground (arith, same, bad), ground (arith, same, bad))

  module _ (epoch claim : ℕ) where
    commit-Reception :
        (s : Slot) (now : ℕ) (buffer : Buffer) (w : World)
        → s.claim_token ≡ claim
        → Reception w epoch s buffer w (
            commit_claim p message.handle slot_id receiver claim
              (received_slot receiver epoch now s)
              buffer
              w)
    unfolding commit_claim
    commit-Reception s now buffer w mine =
        let P = Reception w epoch s buffer w in
        let t = received_slot receiver epoch now s in
        let (status, w1) = protect_slot p w slot_id true in
        let same : w1.pool ≡ w.pool = pool-protect_slot p w slot_id true in
        let made = make_view w1 slot_id t message.handle buffer in
        if_elim P (not (is_ok status))
          (λ bad.
            Reception-from w epoch claim same
              (drop-Reception w epoch claim s t status buffer w1 (ground arith) (inl refl)))
          λ _.
            if_elim P (not (is_ok made.0))
              (λ bad. Reception-from w epoch claim same (
                drop_closing-Reception w epoch claim s t made.0 buffer w1 (ground arith)
                  (inr (unviewed_lem epoch s now buffer w w1 same bad))))
              λ good.
                Reception-from w epoch claim same
                  (publish-Reception w epoch claim s now buffer made.1 w1 mine (ground arith))

    claim_claimed_lem :
        (s : Slot) (buffer : Buffer) (w : World)
        → s.claim_token ≡ claim
        → Reception
            (tick w)
            epoch
            s
            buffer
            w
            (claim_claimed p message slot_id receiver epoch claim s buffer w)
    unfolding claim_claimed
    claim_claimed_lem s buffer w mine =
        let P = Reception (tick w) epoch s buffer w in
        if_elim P (not (s.generation == handle_generation message.handle))
          (λ _. refuse-Reception (tick w) epoch claim s stale_handle buffer w refl)
          λ _.
            if_elim P
              (not (s.owner_id == message.source_component) || not (s.next_owner_id == receiver))
              (λ _. refuse-Reception (tick w) epoch claim s invalid_receiver buffer w refl)
              λ _.
                if_elim P (not (s.transfer_sequence == message.transfer_sequence))
                  (λ _. refuse-Reception (tick w) epoch claim s sequence_mismatch buffer w refl)
                  λ _.
                    if_elim P (past_deadline s (now_ns p w))
                      (λ _.
                        Reception-from (tick w) epoch claim refl
                          (refuse-Reception (tick w) epoch claim s deadline buffer (tick w) refl))
                      λ _.
                        if_elim P (past_hop_limit s)
                          (λ _. Reception-from (tick w) epoch claim refl (
                            refuse-Reception (tick w) epoch claim s Status.hop_limit buffer (tick w)
                              refl))
                          λ _.
                            Reception-from (tick w) epoch claim refl
                              (commit-Reception s (now_ns p w) buffer (tick w) mine)

  -- A status before the slot is changed.
  early-Reception :
      (epoch : ℕ) (status : Status) (buffer : Buffer) (w w' : World)
      → is_ok status ≡ false
      → (before w).state ≡ in_transfer
      → Frame w slot_id w'
      → w'.pool.controls slot_id ≡ before w
      → Reception (tick w) epoch (before w) buffer w (status, buffer, w')
  early-Reception epoch status buffer w w' bad on f e = record {
    frame = f;
    succeeded = λ good. cc;
    refused = λ b. inl (ground (arith, on), refl);
  }

  claim_slot_lem :
      (epoch : ℕ) (buffer : Buffer) (w : World)
      → is_in_transfer (before w).state ≡ true
      → Reception
          (tick w)
          epoch
          (before w)
          buffer
          w
          (claim_slot p message slot_id receiver epoch (before w) buffer w)
  unfolding claim_slot
  claim_slot_lem epoch buffer w on = elim (Bool-cases (win_claim claim (before w)).0) [
    | inl won ↦ subst (Reception (tick w) epoch (before w) buffer w) (sym (goes won)) (
        as_before (claim_claimed p message slot_id receiver epoch claim claimed buffer w)
          (claim_claimed_lem epoch claim claimed buffer w refl))
    | inr lost ↦ subst (Reception (tick w) epoch (before w) buffer w) (sym (stays lost)) (
        early-Reception epoch invalid_state buffer w (record_protocol_error p w receiver) refl
          (ground arith) (Frame-record_protocol_error p w slot_id receiver)
          (ap (λ c. c slot_id) (controls-record_protocol_error p w receiver)))
  ]
    where
      claim : ℕ
      claim = claim_token_make ClaimKind.receive receiver epoch

      claimed : Slot
      claimed = record (before w) { claim_token = claim; state = claiming }

      goes :
          (win_claim claim (before w)).0 ≡ true
          → claim_slot p message slot_id receiver epoch (before w) buffer w
            ≡ claim_claimed p message slot_id receiver epoch claim claimed buffer w
      goes won = ground arith

      stays :
          (win_claim claim (before w)).0 ≡ false
          → claim_slot p message slot_id receiver epoch (before w) buffer w
            ≡ (invalid_state, buffer, record_protocol_error p w receiver)
      stays lost = ground arith

      as_before :
          (r : Status × Buffer × World)
          → Reception (tick w) epoch claimed buffer w r
          → Reception (tick w) epoch (before w) buffer w r
      as_before r c = record {
        frame = c.frame;
        succeeded = λ good.
            let (got, view) = c.succeeded good in
            (record { core = got.core; claim_token = got.claim_token }, view);
        refused = λ bad. elim (c.refused bad) [
          | inl kept ↦ inl kept
          | inr lost ↦ inr (
            record {
              state = lost.0.state;
              owner_id = lost.0.owner_id;
              claim_token = lost.0.claim_token;
              why = lost.0.why;
            },
            lost.1,
          )
        ];
      }

  -- What a claim makes of the slot and the buffer.
  pub record Claim (buffer : Buffer) (w : World) (r : Status × Buffer × World) : Type 0 where
    pub frame : Frame w slot_id r.2
    pub succeeded :
        is_ok r.0 ≡ true
        → Received receiver
            (registered_epoch w.pool receiver)
            (before w)
            (r.2.pool.controls slot_id)
          × (make_view r.2 slot_id (r.2.pool.controls slot_id) message.handle buffer ≡ (ok, r.1))
    pub refused :
        is_ok r.0 ≡ false
        → ((core_of (r.2.pool.controls slot_id) ≡ core_of (before w)) × (r.1 ≡ buffer))
          ⊎ (Lost (tick w) (before w) (r.2.pool.controls slot_id) r.0 × (r.1 ≡ buffer_invalid))

  error-Claim :
      (status : Status) (buffer : Buffer) (w w' : World)
      → is_ok status ≡ false
      → Frame w slot_id w'
      → w'.pool.controls slot_id ≡ before w
      → Claim buffer w (status, buffer, w')
  error-Claim status buffer w w' bad f e = record {
    frame = f;
    succeeded = λ good. cc;
    refused = λ b. inl (ap core_of e, refl);
  }

  counted-Claim :
      (status : Status) (buffer : Buffer) (w : World)
      → is_ok status ≡ false
      → Claim buffer w (status, buffer, record_protocol_error p w receiver)
  counted-Claim status buffer w bad =
      error-Claim status buffer w (record_protocol_error p w receiver) bad
        (Frame-record_protocol_error p w slot_id receiver)
        (ap (λ c. c slot_id) (controls-record_protocol_error p w receiver))

  Reception-Claim :
      (buffer : Buffer) (w : World) (r : Status × Buffer × World)
      → is_in_transfer (before w).state ≡ true
      → Reception (tick w) (registered_epoch w.pool receiver) (before w) buffer w r
      → Claim buffer w r
  Reception-Claim buffer w r on c = record {
    frame = c.frame;
    succeeded = c.succeeded;
    refused = λ bad. elim (c.refused bad) [
      | inl kept ↦ inl (kept.0 ∙ ground arith, kept.1)
      | inr lost ↦ inr lost
    ];
  }

  pub buffer_claim_lem :
      (buffer : Buffer) (w : World) → Claim buffer w (buffer_claim p message receiver buffer w)
  unfolding buffer_claim
  buffer_claim_lem buffer w =
      let P = Claim buffer w in
      if_elim P (not (component_id_valid receiver))
        (λ _. error-Claim invalid_argument buffer w w refl (Frame-of_pool slot_id refl) refl)
        λ _.
          if_elim P (not (message.pool_id == w.pool.pool_id))
            (λ _. counted-Claim Status.invalid_handle buffer w refl)
            λ _.
              if_elim P (not (message.destination_component == receiver))
                (λ _. counted-Claim invalid_receiver buffer w refl)
                λ _.
                  if_elim P (leb w.pool.header.slot_count slot_id)
                    (λ _. counted-Claim Status.invalid_handle buffer w refl)
                    λ _.
                      if_elim P (not (is_in_transfer (before w).state))
                        (λ _. counted-Claim invalid_state buffer w refl)
                        λ on.
                          Reception-Claim buffer w
                            (claim_slot p message slot_id receiver
                              (registered_epoch w.pool receiver) (before w) buffer w)
                            (ground arith)
                            (claim_slot_lem (registered_epoch w.pool receiver) buffer w
                              (ground arith))
