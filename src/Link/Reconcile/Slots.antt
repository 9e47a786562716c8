-- ===== src/Link/Reconcile/Slots.antt =====
-- What the pass of a reconciliation leaves behind in the slots.
use z_ipc.Base.{
  ℕ, zero, suc, Bool, true, false, ◌<◌, ◌≤◌, ◌≡◌, ◌+◌, ◌&&◌, ◌||◌, ◌==◌, not, if_elim, refl, arith,
  ap, ◌∙◌,
}
use z_ipc.Status.{
  ok, is_in_transfer_only, in_transfer, is_claiming_only, Status, is_ok, is_claiming,
  is_in_transfer, fault, claiming,
}
use z_ipc.Handle.{claim_token_kind, claim_code, receive}
use z_ipc.State.{clear_claim_token, cas_state, World, Slot, put_slot}
use z_ipc.Platform.{Platform, protect_slot}
use z_ipc.Platform.Laws.{pool-protect_slot}
use z_ipc.Component.{Restart}
use z_ipc.Protocol.Frame.{Frame-put_slot, Frame, Frame-trans, Frame-of_pool, layout_of}
use z_ipc.Recovery.Restarts.{undo_receive, dead_claim}
use z_ipc.Transport.{Transport}
use z_ipc.Link.{Link}
use z_ipc.Link.Reconcile.{
  sent_over, message_again, drop_rollback, producer_is_no_consumer, Settled, settled, stopped,
  matching_kind, undo_send, reconcile_claim, reconcile_transfer, reconcile_slot, reconcile_slots,
  is_consumer, is_producer,
}
use z_ipc.Link.Send.{is_published}
use z_ipc.Word.{u32}
use native.Mathlib.Decide.{dec_lt}
use mathlib.Core.Path.{subst}

-- The slot is in CLAIMING under a token of this end of the dead epoch, or, at the consumer, in
-- TRANSFER under one.
abbrev pub left_behind : Link → Restart → Slot → Bool
left_behind link r s =
    (is_claiming s.state && matching_kind link.role s.claim_token && dead_claim r s.claim_token)
    || (is_consumer link.role
        && is_in_transfer s.state
        && (claim_token_kind s.claim_token == claim_code receive)
        && dead_claim r s.claim_token)

module _ {T : Type 0} (tr : Transport T) (p : Platform) (link : Link) (r : Restart) where
  abbrev pub world_of : Settled T → World
  world_of (settled recovered t w) = w
  world_of (stopped status recovered t w) = w

  abbrev pub transport_of : Settled T → T
  transport_of (settled recovered t w) = t
  transport_of (stopped status recovered t w) = t

  abbrev pub status_of : Settled T → Status
  status_of (settled recovered t w) = ok
  status_of (stopped status recovered t w) = status

  abbrev pub goes_on : Settled T → Bool
  goes_on (settled recovered t w) = true
  goes_on (stopped status recovered t w) = false

  -- The visit of a slot touches no other, uses the transport at the producer only, and leaves
  -- nothing behind in the slot unless the call returns.
  record Visited (slot_id : ℕ) (t : T) (w : World) (x : Settled T) : Type 0 where
    kept : is_consumer link.role ≡ true → transport_of x ≡ t
    frame : Frame w slot_id (world_of x)
    failed : goes_on x ≡ false → is_ok (status_of x) ≡ false
    cleared : goes_on x ≡ true → left_behind link r ((world_of x).pool.controls slot_id) ≡ false

  written :
      (slot_id recovered : ℕ) (t : T) (w w1 : World) (s : Slot)
      → w1.pool ≡ w.pool
      → left_behind link r s ≡ false
      → Visited slot_id t w (settled recovered t (put_slot w1 slot_id s))
  written slot_id recovered t w w1 s same clear = record {
    kept = λ at_consumer. refl;
    frame = Frame-trans (Frame-of_pool slot_id same) (Frame-put_slot w1 slot_id s);
    failed = λ off. cc;
    cleared = λ on. ground (arith, clear);
  }

  sent_again :
      (slot_id recovered : ℕ) (t t1 : T) (w : World) (s : Slot)
      → is_producer link.role ≡ true
      → left_behind link r s ≡ false
      → Visited slot_id t w (settled recovered t1 (put_slot w slot_id s))
  sent_again slot_id recovered t t1 w s at_producer clear =
      let other : is_consumer link.role ≡ false = producer_is_no_consumer link.role at_producer in
      record {
        kept = λ at_consumer. absurd cc;
        frame = Frame-put_slot w slot_id s;
        failed = λ off. cc;
        cleared = λ on. ground (arith, clear);
      }

  returned :
      (slot_id recovered : ℕ) (status : Status) (t : T) (w w1 : World) (s : Slot)
      → w1.pool ≡ w.pool
      → is_ok status ≡ false
      → Visited slot_id t w (stopped status recovered t (put_slot w1 slot_id s))
  returned slot_id recovered status t w w1 s same bad = record {
    failed = λ off. bad;
    kept = λ at_consumer. refl;
    frame = Frame-trans (Frame-of_pool slot_id same) (Frame-put_slot w1 slot_id s);
    cleared = λ on. cc;
  }

  returned_sending :
      (slot_id recovered : ℕ) (status : Status) (t t1 : T) (w : World) (s : Slot)
      → is_producer link.role ≡ true
      → is_ok status ≡ false
      → Visited slot_id t w (stopped status recovered t1 (put_slot w slot_id s))
  returned_sending slot_id recovered status t t1 w s at_producer bad =
      let other : is_consumer link.role ≡ false = producer_is_no_consumer link.role at_producer in
      record {
        kept = λ at_consumer. absurd cc;
        frame = Frame-put_slot w slot_id s;
        failed = λ off. bad;
        cleared = λ on. cc;
      }

  untouched :
      (slot_id recovered : ℕ) (t : T) (w : World)
      → left_behind link r (w.pool.controls slot_id) ≡ false
      → Visited slot_id t w (settled recovered t w)
  untouched slot_id recovered t w clear = record {
    kept = λ at_consumer. refl;
    frame = Frame-of_pool slot_id refl;
    failed = λ off. cc;
    cleared = λ on. clear;
  }

  -- The slots that are written are not left behind.
  clear_sent : (s : Slot) → left_behind link r (undo_send s) ≡ false
  unfolding undo_send
  clear_sent s = ground arith

  clear_received : (s : Slot) → left_behind link r (undo_receive r s) ≡ false
  unfolding undo_receive claim_token_kind
  clear_received s = ground arith

  clear_foreign :
      (s : Slot)
      → is_claiming s.state ≡ true
      → (not (matching_kind link.role s.claim_token) || not (dead_claim r s.claim_token)) ≡ true
      → left_behind link r s ≡ false
  clear_foreign s busy foreign =
      let is : s.state ≡ claiming = is_claiming_only s.state busy in ground (arith, is, foreign)

  reconcile_claim-Visited :
      (slot_id recovered : ℕ) (t : T) (w : World)
      → is_claiming (w.pool.controls slot_id).state ≡ true
      → Visited slot_id t w
          (reconcile_claim p link r slot_id (w.pool.controls slot_id) recovered t w)
  unfolding reconcile_claim
  reconcile_claim-Visited slot_id recovered t w busy =
      let s = w.pool.controls slot_id in
      let s1 = (cas_state claiming fault s).1 in
      let same = pool-protect_slot p w slot_id false in
      let P = Visited slot_id t w in
      if_elim P (not (matching_kind link.role s.claim_token) || not (dead_claim r s.claim_token))
        (λ foreign. untouched slot_id recovered t w (clear_foreign s busy foreign))
        λ ours.
          if_elim P (not (cas_state claiming fault s).0)
            (λ lost. absurd (ground (arith, busy, lost)))
            λ won.
              if_elim P (is_producer link.role)
                (λ h. written slot_id recovered t w w (undo_send s1) refl (clear_sent s1))
                λ h.
                  if_elim P (not (is_ok (protect_slot p w slot_id false).0))
                    (λ bad. returned slot_id recovered _ t w _ _ same (ground (arith, bad)))
                    λ fine.
                      written slot_id recovered t w _ (undo_receive r s1) same (clear_received s1)

  clear_transfer :
      (s : Slot)
      → is_producer link.role ≡ true
      → is_claiming s.state ≡ false
      → left_behind link r s ≡ false
  clear_transfer s at_producer idle =
      let other : is_consumer link.role ≡ false = producer_is_no_consumer link.role at_producer in
      ground (arith, other, idle)

  state_kept : (s : Slot) → (drop_rollback r s).state ≡ s.state
  state_kept s = ground arith

  reconcile_transfer-Visited :
      (slot_id recovered : ℕ) (t : T) (w : World)
      → is_producer link.role ≡ true
      → is_in_transfer (w.pool.controls slot_id).state ≡ true
      → Visited slot_id t w
          (reconcile_transfer tr link r slot_id (w.pool.controls slot_id) recovered t w)
  unfolding reconcile_transfer
  reconcile_transfer-Visited slot_id recovered t w at_producer moving =
      let s = w.pool.controls slot_id in
      let s1 = drop_rollback r s in
      let s2 = (cas_state in_transfer fault s1).1 in
      let back : Slot = record s2 { state = in_transfer } in
      let clear = clear_transfer back at_producer refl in
      let sent = tr.send (message_again w link r slot_id s2) t in
      let P = Visited slot_id t w in
      if_elim P (not (cas_state in_transfer fault s1).0)
        (λ lost. absurd (ground (arith, lost, state_kept s, moving)))
        λ won.
          if_elim P (not (sent_over link r s2))
            (λ foreign. written slot_id recovered t w w back refl clear)
            λ ours.
              if_elim P (not (is_ok sent.0) && not (is_published sent.0))
                (λ bad.
                  returned_sending slot_id recovered _ t sent.1 w back at_producer
                    (ground (arith, bad)))
                λ fine. sent_again slot_id (u32 (recovered + 1)) t sent.1 w back at_producer clear

  clear_taken :
      (s : Slot)
      → is_in_transfer s.state ≡ true
      → left_behind link r (clear_claim_token s s.claim_token) ≡ false
  unfolding claim_token_kind
  clear_taken s moving =
      let is : s.state ≡ in_transfer = is_in_transfer_only s.state moving in ground (arith, is)

  reconcile_slot-Visited :
      (slot_id recovered : ℕ) (t : T) (w : World)
      → Visited slot_id t w (reconcile_slot tr p link r slot_id recovered t w)
  unfolding reconcile_slot
  reconcile_slot-Visited slot_id recovered t w =
      let s = w.pool.controls slot_id in
      let P = Visited slot_id t w in
      if_elim P
        (is_consumer link.role
          && is_in_transfer s.state
          && (claim_token_kind s.claim_token == claim_code receive)
          && dead_claim r s.claim_token)
        (λ taken.
          written slot_id recovered t w w (clear_claim_token s s.claim_token) refl
            (clear_taken s (ground (arith, taken))))
        λ none_taken.
          if_elim P (is_claiming s.state)
            (λ busy. reconcile_claim-Visited slot_id recovered t w busy)
            λ idle.
              if_elim P (not (is_producer link.role) || not (is_in_transfer s.state))
                (λ other. untouched slot_id recovered t w (ground (arith, none_taken, idle)))
                λ ours.
                  reconcile_transfer-Visited slot_id recovered t w (ground (arith, ours))
                    (ground (arith, ours))

  -- The slots from `low` up to `high` are not left behind.
  abbrev pub Cleared : ℕ → ℕ → World → Type 0
  Cleared low high w = (j : ℕ) → low ≤ j → j < high → left_behind link r (w.pool.controls j) ≡ false

  -- The pass over the slots from `slot_id` up to `high`.
  pub record Passed (slot_id high : ℕ) (t : T) (w : World) (x : Settled T) : Type 0 where
    pub kept : is_consumer link.role ≡ true → transport_of x ≡ t
    pub failed : goes_on x ≡ false → is_ok (status_of x) ≡ false
    pub same_layout : layout_of (world_of x) ≡ layout_of w
    pub before : (j : ℕ) → j < slot_id → (world_of x).pool.controls j ≡ w.pool.controls j
    pub cleared : goes_on x ≡ true → Cleared slot_id high (world_of x)

  abbrev continue_with : ℕ → ℕ → Settled T → Settled T
  continue_with n slot_id (settled recovered t w) =
      reconcile_slots tr p link r n slot_id recovered t w
  continue_with n slot_id (stopped status recovered t w) = stopped status recovered t w

  pass_next :
      (n slot_id : ℕ) (t : T) (w : World) (x : Settled T)
      → Visited slot_id t w x
      → ((recovered : ℕ) (t1 : T) (w1 : World)
          → Passed
              (suc slot_id)
              (suc slot_id + n)
              t1
              w1
              (reconcile_slots tr p link r n (suc slot_id) recovered t1 w1))
      → Passed slot_id (suc slot_id + n) t w (continue_with n (suc slot_id) x)
  pass_next n slot_id t w (stopped status recovered t1 w1) v later = record {
    kept = v.kept;
    failed = v.failed;
    same_layout = v.frame.same_layout;
    before = λ j low. v.frame.others j (omega arith);
    cleared = λ on. cc;
  }
  pass_next n slot_id t w (settled recovered t1 w1) v later =
      let l = later recovered t1 w1 in
      record {
        kept = λ at_consumer. l.kept at_consumer ∙ v.kept at_consumer;
        failed = l.failed;
        same_layout = l.same_layout ∙ v.frame.same_layout;
        before = λ j low. l.before j (omega arith) ∙ v.frame.others j (omega arith);
        cleared = λ on j low high. elim (dec_lt slot_id j) [
          | yes after ↦ l.cleared on j after high
          | no here ↦
              let is : slot_id ≡ j = omega arith in
              let same = l.before slot_id (omega arith) in
              subst
                (λ i.
                  left_behind link r (
                    (world_of
                        (reconcile_slots tr p link r n (suc slot_id) recovered t1 w1)).pool.controls
                      i)
                  ≡ false)
                is (ap (left_behind link r) same ∙ v.cleared refl)
        ];
      }

  pub reconcile_slots_lem :
      (n slot_id recovered : ℕ) (t : T) (w : World)
      → Passed slot_id (slot_id + n) t w (reconcile_slots tr p link r n slot_id recovered t w)
  unfolding reconcile_slots
  reconcile_slots_lem zero slot_id recovered t w = record {
    kept = λ at_consumer. refl;
    failed = λ off. cc;
    same_layout = refl;
    before = λ j low. refl;
    cleared = λ on j low high. absurd (omega arith);
  }
  reconcile_slots_lem (suc n) slot_id recovered t w =
      let moved : suc slot_id + n ≡ slot_id + suc n = omega arith in
      subst
        (λ high.
          Passed slot_id high t w (reconcile_slots tr p link r (suc n) slot_id recovered t w))
        moved
        (pass_next n slot_id t w (reconcile_slot tr p link r slot_id recovered t w)
          (reconcile_slot-Visited slot_id recovered t w)
          λ recovered1 t1 w1. reconcile_slots_lem n (suc slot_id) recovered1 t1 w1)
