-- ===== src/Recovery/Restarts/Visits.antt =====
-- The visit of one slot by zipc_component_restart_next: the predicates of its theorems.
use z_ipc.Component.{registered_epoch, lifecycle_of, Restart}
use z_ipc.State.{
  clear_claim_token, buffer_invalid, cas_state, cas_token, Buffer, put_slot, Slot, World,
}
use z_ipc.Platform.{protect_slot, now_ns, Platform}
use z_ipc.Base.{
  false, ◌||◌, if◌then◌else◌, if_elim, ◌∙◌, refl, ◌==◌, ◌+◌, ◌&&◌, true, arith, ◌≡◌, not, ◌≢◌, ◌^◌,
  Bool, ℕ, ◌<◌,
}
use z_ipc.Recovery.Restarts.{
  undo_claim, undo_receive, visit_slot, settle_claim, visit_owned, yielded, dead_claim, stopped,
  passed, inherited_slot, inherit_slot, Visit,
}
use z_ipc.Status.{
  is_in_transfer, is_free, claiming, fault, owned, is_ok, is_claiming, Status, component_id_valid,
  is_owned,
}
use z_ipc.Word.{u32}
use z_ipc.Buffer.{buffer_valid, buffer_owned, make_view}
use z_ipc.Trace.{trace_slot}
use z_ipc.Handle.{handle_generation, allocate, receive, claim_code, claim_token_kind, handle_make}
use z_ipc.Platform.Laws.{pool-protect_slot}
use z_ipc.Protocol.Common.{free_claiming_slot}

-- The dead epoch neither owns the slot nor is claiming it.
abbrev pub cleared : Restart → Slot → Bool
cleared r s =
    not (is_owned s.state && (s.owner_id == r.component) && (s.owner_epoch == r.dead_epoch))
    && not (is_claiming s.state && dead_claim r s.claim_token)

-- A restart as `zipc_component_restart_begin` makes it.
pub record IsRestart (r : Restart) : Type 0 where
  pub epoch_word : r.dead_epoch < 2 ^ 32
  pub next_epoch : r.epoch ≡ u32 (r.dead_epoch + 1)
  pub component_valid : component_id_valid r.component ≡ true

-- What a step of the scan leaves alone.
pub record Sweeps (w : World) (slot_id : ℕ) (w' : World) : Type 0 where
  pub others : (j : ℕ) → slot_id ≢ j → w'.pool.controls j ≡ w.pool.controls j
  pub slot_count : w'.pool.header.slot_count ≡ w.pool.header.slot_count
  pub lifecycles : (c : ℕ) → lifecycle_of w'.pool c ≡ lifecycle_of w.pool c

module _ (p : Platform) (r : Restart) (z : IsRestart r) (slot_id : ℕ)
    (short : slot_id < 2 ^ 32) where
  -- A slot that the scan passes is cleared, one whose visit fails keeps its state of before, and one
  -- that is yielded is owned by the component in the new epoch, under a new generation.
  pub data Visited (w : World) : Visit → Type 0 where
    passes :
        {w' : World}
        → Sweeps w slot_id w'
        → cleared r (w'.pool.controls slot_id) ≡ true
        → Visited w (passed w')
    stops :
        {status : Status} {w' : World}
        → is_ok status ≡ false
        → Sweeps w slot_id w'
        → Visited w (stopped status w')
    yields :
        {view : Buffer} {w' : World}
        → Sweeps w slot_id w'
        → cleared r (w'.pool.controls slot_id) ≡ true
        → ((w'.pool.controls slot_id).owner_id ≡ r.component)
          × ((w'.pool.controls slot_id).owner_epoch ≡ r.epoch)
          × (buffer_owned w' view ≡ (registered_epoch w'.pool r.component == r.epoch))
          × (view.owner ≡ r.component)
          × (view.owner_epoch ≡ r.epoch)
        → Visited w (yielded view w')

  Sweeps-put_slot : (w : World) (s : Slot) → Sweeps w slot_id (put_slot w slot_id s)
  Sweeps-put_slot w s = record {
    others = λ j ne. ground arith;
    slot_count = refl;
    lifecycles = λ c. refl;
  }

  new_epoch : r.epoch ≢ r.dead_epoch
  new_epoch = omega (arith, z.epoch_word, z.next_epoch)

  Visited-inherit_slot :
      (s : Slot) (w : World) → s.owner_id ≡ r.component → Visited w (inherit_slot p r slot_id s w)
  unfolding inherit_slot inherited_slot make_view trace_slot buffer_owned buffer_valid
      registered_epoch handle_generation handle_make
  Visited-inherit_slot s w mine =
      let t = inherited_slot r (now_ns p w) s in
      if_elim (Visited w)
        (is_ok (make_view w slot_id t (handle_make slot_id t.generation) buffer_invalid).0)
        (λ good.
          yields
            (record {
              others = λ j ne. ground arith;
              slot_count = refl;
              lifecycles = λ c. ground arith;
            })
            (ground (arith, new_epoch))
            (ground arith, ground arith, ground arith, ground arith, ground arith))
        λ bad.
          stops bad
            (record { others = λ j ne. ground arith; slot_count = refl; lifecycles = λ c. refl })

  Sweeps-trans :
      {w w1 w' : World} → Sweeps w slot_id w1 → Sweeps w1 slot_id w' → Sweeps w slot_id w'
  Sweeps-trans f g = record {
    others = λ j ne. g.others j ne ∙ f.others j ne;
    slot_count = g.slot_count ∙ f.slot_count;
    lifecycles = λ c. g.lifecycles c ∙ f.lifecycles c;
  }

  Sweeps-of_pool : (w w' : World) → w'.pool ≡ w.pool → Sweeps w slot_id w'
  Sweeps-of_pool w w' same = record {
    others = λ j ne. ground (arith, same);
    slot_count = ground (arith, same);
    lifecycles = λ c. ground (arith, same);
  }

  Visited-from : {w w1 : World} {v : Visit} → w1.pool ≡ w.pool → Visited w1 v → Visited w v
  Visited-from {w} {w1} same (passes s c) = passes (Sweeps-trans (Sweeps-of_pool w w1 same) s) c
  Visited-from {w} {w1} same (stops bad s) = stops bad (Sweeps-trans (Sweeps-of_pool w w1 same) s)
  Visited-from {w} {w1} same (yields s c v) = yields (Sweeps-trans (Sweeps-of_pool w w1 same) s) c v

  Visited-visit_owned :
      (token : ℕ) (s : Slot) (w : World)
      → is_owned s.state ≡ true
      → Visited w (visit_owned p r slot_id token s w)
  unfolding visit_owned
  Visited-visit_owned token s w on =
      let s1 = if dead_claim r token then (cas_token token 0 s).1 else s in
      let (won, s2) = cas_state owned fault s1 in
      let (status, w1) = protect_slot p w slot_id true in
      let same : w1.pool ≡ w.pool = pool-protect_slot p w slot_id true in
      if_elim (Visited w) (not won) (λ lost. absurd (ground arith))
        λ _.
          if_elim (Visited w)
            (not (s2.owner_id == r.component) || not (s2.owner_epoch == r.dead_epoch))
            (λ other. passes (Sweeps-put_slot w (record s2 { state = owned })) (ground arith))
            λ mine.
              if_elim (Visited w) (not (is_ok status))
                (λ bad.
                  Visited-from same
                    (stops (ground arith) (Sweeps-put_slot w1 (record s2 { state = owned }))))
                λ _. Visited-from same (Visited-inherit_slot s2 w1 (ground arith))

  Visited-settle_claim : (s : Slot) (w : World) → Visited w (settle_claim p r slot_id s w)
  unfolding settle_claim undo_receive undo_claim free_claiming_slot
  Visited-settle_claim s w =
      let kind = claim_token_kind s.claim_token in
      let (status, w1) = protect_slot p w slot_id false in
      let same : w1.pool ≡ w.pool = pool-protect_slot p w slot_id false in
      if_elim (Visited w) ((kind == claim_code receive) || (kind == claim_code allocate))
        (λ undone.
          if_elim (Visited w) (not (is_ok status))
            (λ bad.
              Visited-from same
                (stops (ground arith) (Sweeps-put_slot w1 (record s { state = claiming }))))
            λ _.
              if_elim (Visited w) (kind == claim_code receive)
                (λ back.
                  Visited-from same (passes (Sweeps-put_slot w1 (undo_receive r s)) (ground arith)))
                λ _.
                  Visited-from same
                    (passes (Sweeps-put_slot w1 (free_claiming_slot s)) (ground arith)))
        λ _. Visited-visit_owned s.claim_token (undo_claim s.claim_token s) w (ground arith)

  -- The visit of any slot.
  pub Visited-visit_slot : (w : World) → Visited w (visit_slot p r slot_id w)
  unfolding visit_slot
  Visited-visit_slot w =
      let s = w.pool.controls slot_id in
      let token = s.claim_token in
      let (won, s1) = cas_state claiming fault s in
      let still : Sweeps w slot_id w = Sweeps-of_pool w w refl in
      if_elim (Visited w) (is_free s.state && dead_claim r token)
        (λ vacant. passes (Sweeps-put_slot w (cas_token token 0 s).1) (ground arith))
        λ _.
          if_elim (Visited w)
            (is_in_transfer s.state
              && (claim_token_kind token == claim_code receive)
              && dead_claim r token)
            (λ moving. passes (Sweeps-put_slot w (clear_claim_token s token)) (ground arith))
            λ _.
              if_elim (Visited w) (is_claiming s.state)
                (λ busy.
                  if_elim (Visited w) (not (dead_claim r token))
                    (λ other. passes still (ground arith))
                    λ _.
                      if_elim (Visited w) (not won) (λ lost. absurd (ground arith))
                        λ _. Visited-settle_claim s1 w)
                λ idle.
                  if_elim (Visited w) (not (is_owned s.state))
                    (λ other. passes still (ground arith))
                    λ on. Visited-visit_owned token s w (ground arith)
