-- ===== src/Protocol/Release/Laws.antt =====
-- Theorems on zipc_pool_buffer_release.
use z_ipc.State.{put_slot, region_zero, Slot, World}
use z_ipc.Protocol.Release.{pool_buffer_release, release_claim, freed_slot, release_claimed}
use z_ipc.Protocol.Frame.{Frame-of_pool, Frame-trans, Frame-put_slot, Frame, core_of}
use z_ipc.Platform.{protect_slot, Platform}
use z_ipc.Base.{
  inr, sym, inl, Bool-cases, leb, ◌↔◌, ◌<◌, ◌∙◌, refl, arith, ◌||◌, ◌==◌, not, ◌+◌, if_elim, true,
  false, ℕ, ◌≡◌,
}
use z_ipc.Status.{
  not_owner, invalid_state, stale_handle, claiming, invalid_argument, is_owned, component_id_valid,
  owned, is_ok, invalid_component_id, Status, free,
}
use z_ipc.Handle.{ClaimKind, handle_generation, claim_token_make, handle_slot_id}
use z_ipc.Trace.{trace_slot}
use z_ipc.Platform.Laws.{pool-protect_slot}
use z_ipc.Word.{u64}
use z_ipc.Protocol.Common.{give_back}
use z_ipc.Component.{registered_epoch}
use mathlib.Core.Path.{subst}

-- The slot `s'` after a release of `s`.
pub record Released (s s' : Slot) : Type 0 where
  pub core :
      core_of s'
      ≡ core_of (record s {
        state = free;
        owner_id = invalid_component_id;
        next_owner_id = invalid_component_id;
        region = region_zero;
      })
  pub claim_token : s'.claim_token ≡ 0

module _ (p : Platform) (handle current_owner : ℕ) where
  abbrev slot_id : ℕ
  slot_id = handle_slot_id handle

  abbrev before : World → Slot
  before w = w.pool.controls slot_id

  -- What a release makes of a slot that stands, in OWNED, as `s`.
  record Freeing (s : Slot) (w : World) (r : Status × World) : Type 0 where
    frame : Frame w slot_id r.1
    succeeded :
        is_ok r.0 ≡ true
        → Released s (r.1.pool.controls slot_id)
          × (r.1.pool.header.release_count ≡ u64 (w.pool.header.release_count + 1))
    refused :
        is_ok r.0 ≡ false
        → (core_of (r.1.pool.controls slot_id) ≡ core_of (record s { state = owned }))
          × (r.1.pool.header ≡ w.pool.header)

  release_claimed_lem :
      (epoch claim : ℕ) (s : Slot) (w : World)
      → s.claim_token ≡ claim
      → Freeing s w (release_claimed p slot_id current_owner epoch claim s w)
  unfolding release_claimed trace_slot freed_slot
  release_claimed_lem epoch claim s w mine =
      let P = Freeing s w in
      let (status, w1) = protect_slot p w slot_id false in
      let same : w1.pool ≡ w.pool = pool-protect_slot p w slot_id false in
      if_elim P (not (s.owner_id == current_owner) || not (s.owner_epoch == epoch))
        (λ _. record {
          frame = Frame-put_slot w slot_id (give_back owned claim s);
          succeeded = λ good. cc;
          refused = λ bad. (ground arith, refl);
        })
        λ _.
          if_elim P (not (is_ok status))
            (λ failed. record {
              frame =
                  Frame-trans (Frame-of_pool slot_id same)
                    (Frame-put_slot w1 slot_id (give_back owned claim s));
              succeeded = λ good. ground arith;
              refused = λ bad. (ground arith, ground arith);
            })
            λ _. record {
              frame = record { others = λ j ne. ground (arith, same); same_layout = ground arith };
              succeeded = λ good. (ground arith, ground arith);
              refused = λ bad. cc;
            }

  -- What a release makes of the slot.
  pub record Release (w : World) (r : Status × World) : Type 0 where
    pub frame : Frame w slot_id r.1
    pub succeeded :
        is_ok r.0 ≡ true
        → Released (before w) (r.1.pool.controls slot_id)
          × (r.1.pool.header.release_count ≡ u64 (w.pool.header.release_count + 1))
    pub refused :
        is_ok r.0 ≡ false
        → (core_of (r.1.pool.controls slot_id) ≡ core_of (before w))
          × (r.1.pool.header ≡ w.pool.header)

  refused-Release : (status : Status) (w : World) → is_ok status ≡ false → Release w (status, w)
  refused-Release status w bad = record {
    frame = Frame-of_pool slot_id refl;
    succeeded = λ good. cc;
    refused = λ e. (refl, refl);
  }

  Freeing-Release :
      (s : Slot) (w : World) (r : Status × World)
      → core_of (record s { state = owned }) ≡ core_of (before w)
      → Freeing s w r
      → Release w r
  Freeing-Release s w r same c = record {
    frame = c.frame;
    succeeded = λ good. released_as (c.succeeded good).0 (c.succeeded good).1;
    refused = λ bad. let (kept, counted) = c.refused bad in (kept ∙ same, counted);
  }
    where
      released_as :
          Released s (r.1.pool.controls slot_id)
          → r.1.pool.header.release_count ≡ u64 (w.pool.header.release_count + 1)
          → Released (before w) (r.1.pool.controls slot_id)
            × (r.1.pool.header.release_count ≡ u64 (w.pool.header.release_count + 1))
      released_as f counted =
          (record { core = ground (arith, f.core); claim_token = f.claim_token }, counted)

  release_claim_lem :
      (epoch : ℕ) (w : World)
      → is_owned (before w).state ≡ true
      → Release w (release_claim p slot_id current_owner epoch (before w) w)
  unfolding release_claim
  release_claim_lem epoch w mine = elim (Bool-cases ((before w).claim_token == 0)) [
    | inl won ↦ subst (Release w) (sym (goes won)) (
        Freeing-Release claimed w (release_claimed p slot_id current_owner epoch claim claimed w)
          (ground arith) (release_claimed_lem epoch claim claimed w refl))
    | inr lost ↦ subst (Release w) (sym (stays lost)) (record {
      frame = Frame-put_slot w slot_id noted;
      succeeded = λ good. cc;
      refused = λ e. (ground arith, refl);
    })
  ]
    where
      claim : ℕ
      claim = claim_token_make ClaimKind.release current_owner epoch

      noted : Slot
      noted = record (before w) {
        claim_previous_region = (before w).region;
        claim_previous_owner = (before w).owner_id;
        claim_previous_owner_epoch = (before w).owner_epoch;
      }

      claimed : Slot
      claimed = record noted { claim_token = claim; state = claiming }

      goes :
          ((before w).claim_token == 0) ≡ true
          → release_claim p slot_id current_owner epoch (before w) w
            ≡ release_claimed p slot_id current_owner epoch claim claimed w
      goes won = ground arith

      stays :
          ((before w).claim_token == 0) ≡ false
          → release_claim p slot_id current_owner epoch (before w) w
            ≡ (invalid_state, put_slot w slot_id noted)
      stays lost = ground arith

  -- A release that succeeds frees the slot, with no owner, no receiver, an empty region and no
  -- claim, and counts itself; one that is refused leaves the core of the slot and the pool header
  -- as they were. Neither touches another slot, the payload or the component table.
  pub pool_buffer_release_lem :
      (w : World) → Release w (pool_buffer_release p handle current_owner w)
  unfolding pool_buffer_release
  pool_buffer_release_lem w =
      let P = Release w in
      let s = before w in
      let epoch = registered_epoch w.pool current_owner in
      if_elim P (not (component_id_valid current_owner))
        (λ _. refused-Release invalid_argument w refl)
        λ _.
          if_elim P (leb w.pool.header.slot_count slot_id)
            (λ _. refused-Release Status.invalid_handle w refl)
            λ _.
              if_elim P (not (s.generation == handle_generation handle))
                (λ _. refused-Release stale_handle w refl)
                λ _.
                  if_elim P (not (is_owned s.state)) (λ _. refused-Release invalid_state w refl)
                    λ mine.
                      if_elim P (not (s.owner_id == current_owner) || not (s.owner_epoch == epoch))
                        (λ _. refused-Release not_owner w refl)
                        λ _. release_claim_lem epoch w (ground arith)

  -- What a release asks for.
  pub record CanRelease (w : World) : Type 0 where
    pub usable : component_id_valid current_owner ≡ true
    pub exists : slot_id < w.pool.header.slot_count
    pub generation : (before w).generation ≡ handle_generation handle
    pub state : (before w).state ≡ owned
    pub owner_id : (before w).owner_id ≡ current_owner
    pub owner_epoch : (before w).owner_epoch ≡ registered_epoch w.pool current_owner
    pub unclaimed : (before w).claim_token ≡ 0
    pub closed : is_ok (protect_slot p w slot_id false).0 ≡ true

  -- A release succeeds exactly if the component is usable, the slot exists, and the slot is owned
  -- by the component in its current epoch under the handle's generation and unclaimed, and the
  -- platform closes the payload pages.
  pub pool_buffer_release_iff :
      (w : World) → (is_ok (pool_buffer_release p handle current_owner w).0 ≡ true) ↔ CanRelease w
  unfolding pool_buffer_release release_claim release_claimed protect_slot
  pool_buffer_release_iff w = (
    λ good. record {
      usable = ground arith;
      exists = ground arith;
      generation = ground arith;
      state = ground arith;
      owner_id = ground arith;
      owner_epoch = ground arith;
      unclaimed = ground arith;
      closed = ground arith;
    },
    λ c. ground arith,
  )
