-- ===== src/Protocol/Transfer/Conditions.antt =====
-- The condition of buffer_prepare_transfer_internal.
use z_ipc.Platform.{tick, protect_slot, now_ns, Platform}
use z_ipc.Base.{false, leb, ◌↔◌, not, arith, ◌<◌, true, ◌==◌, ◌&&◌, ◌≡◌, Bool, ℕ}
use z_ipc.Handle.{ClaimKind, claim_token_make, handle_generation, handle_slot_id}
use z_ipc.State.{Slot, Message, World}
use z_ipc.Protocol.Transfer.{
  commit_transfer, refuse_transfer, buffer_prepare_transfer_internal, transfer_claim,
  transfer_claimed,
}
use z_ipc.Status.{claiming, owned, is_owned, is_ok, component_id_valid}
use z_ipc.Component.{registered_epoch}
use z_ipc.Protocol.Common.{past_hop_limit, past_deadline}

module _ (p : Platform) (handle current_owner next_owner link_id : ℕ) where
  abbrev slot_id : ℕ
  slot_id = handle_slot_id handle

  abbrev before : World → Slot
  before w = w.pool.controls slot_id

  -- What a transfer asks for.
  pub record CanSend (w : World) : Type 0 where
    pub usable : (component_id_valid current_owner && component_id_valid next_owner) ≡ true
    pub exists : slot_id < w.pool.header.slot_count
    pub state : (before w).state ≡ owned
    pub generation : (before w).generation ≡ handle_generation handle
    pub owner_id : (before w).owner_id ≡ current_owner
    pub owner_epoch : (before w).owner_epoch ≡ registered_epoch w.pool current_owner
    pub unclaimed : (before w).claim_token ≡ 0
    pub in_time : past_deadline (before w) (now_ns p w) ≡ false
    pub hops_left : past_hop_limit (before w) ≡ false
    pub closed : is_ok (protect_slot p (tick w) slot_id false).0 ≡ true

  -- The claimed slot is the caller's under the handle, in time and below its hop limit, and its pages
  -- close.
  answers : ℕ → World → Slot → Bool
  answers epoch w s =
      (s.generation == handle_generation handle)
      && (s.owner_id == current_owner)
      && (s.owner_epoch == epoch)
      && not (past_deadline s (now_ns p w))
      && not (past_hop_limit s)
      && is_ok (protect_slot p (tick w) slot_id false).0

  transfer_claimed_ok :
      (epoch claim : ℕ) (s : Slot) (message : Message) (w : World)
      → is_ok
          (transfer_claimed p handle slot_id current_owner next_owner epoch link_id claim s message
            w).0
        ≡ answers epoch w s
  unfolding answers transfer_claimed refuse_transfer commit_transfer
  transfer_claimed_ok epoch claim s message w = ground arith

  transfer_claim_ok :
      (epoch : ℕ) (s : Slot) (message : Message) (w : World)
      → is_owned s.state ≡ true
      → is_ok (transfer_claim p handle slot_id current_owner next_owner epoch link_id s message w).0
        ≡ ((s.claim_token == 0) && answers epoch w s)
  unfolding transfer_claim answers
  transfer_claim_ok epoch s message w mine = ground (
    arith,
    transfer_claimed_ok epoch (claim_token_make ClaimKind.send current_owner epoch)
        (record s {
          claim_previous_sequence = s.transfer_sequence;
          claim_token = claim_token_make ClaimKind.send current_owner epoch;
          state = claiming;
        })
        message w,
  )

  -- What is tested before the claim.
  admits : World → Bool
  admits w =
      component_id_valid current_owner
      && component_id_valid next_owner
      && not (leb w.pool.header.slot_count slot_id)
      && is_owned (before w).state
      && ((before w).generation == handle_generation handle)
      && ((before w).owner_id == current_owner)
      && ((before w).owner_epoch == registered_epoch w.pool current_owner)

  prepare_ok :
      (message : Message) (w : World)
      → is_ok
          (buffer_prepare_transfer_internal p handle current_owner next_owner link_id message w).0
        ≡ (admits w
            && is_ok
                (transfer_claim p handle slot_id current_owner next_owner
                  (registered_epoch w.pool current_owner)
                  link_id
                  (before w)
                  message
                  w).0)
  unfolding admits buffer_prepare_transfer_internal
  prepare_ok message w = ground arith

  CanSend-admits : (w : World) → CanSend w → admits w ≡ true
  unfolding admits
  CanSend-admits w c = ground arith

  CanSend-answers :
      (w : World) → CanSend w → answers (registered_epoch w.pool current_owner) w (before w) ≡ true
  unfolding answers
  CanSend-answers w c = ground arith

  CanSend-of :
      (w : World)
      → admits w ≡ true
      → ((before w).claim_token == 0) ≡ true
      → answers (registered_epoch w.pool current_owner) w (before w) ≡ true
      → CanSend w
  unfolding admits answers
  CanSend-of w a free_token h = record {
    usable = ground arith;
    exists = ground arith;
    state = ground arith;
    generation = ground arith;
    owner_id = ground arith;
    owner_epoch = ground arith;
    unclaimed = ground arith;
    in_time = ground arith;
    hops_left = ground arith;
    closed = ground arith;
  }

  admits_owned : (w : World) → admits w ≡ true → is_owned (before w).state ≡ true
  unfolding admits
  admits_owned w a = ground arith

  -- A transfer succeeds exactly if both components are usable, the slot exists, and the slot is
  -- owned by the caller in its current epoch under the handle's generation, unclaimed, before its
  -- deadline and below its hop limit, and the platform closes the payload pages.
  pub buffer_prepare_transfer_iff :
      (message : Message) (w : World)
      → (is_ok
            (buffer_prepare_transfer_internal p handle current_owner next_owner link_id message w).0
          ≡ true)
        ↔ CanSend w
  buffer_prepare_transfer_iff message w =
      let epoch = registered_epoch w.pool current_owner in
      let outer = prepare_ok message w in
      let inner = transfer_claim_ok epoch (before w) message w in
      (
        λ good.
            let a : admits w ≡ true = ground (arith, outer) in
            CanSend-of w a (ground (arith, outer, inner (admits_owned w a)))
              (ground (arith, outer, inner (admits_owned w a))),
        λ c.
            let a = CanSend-admits w c in
            ground (arith, outer, a, inner (admits_owned w a), CanSend-answers w c, c.unclaimed),
      )
