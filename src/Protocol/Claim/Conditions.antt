-- ===== src/Protocol/Claim/Conditions.antt =====
-- The condition of zipc_buffer_claim.
use z_ipc.State.{Slot, Message, World, Buffer}
use z_ipc.Protocol.Claim.{
  refuse_claim, drop_claim, drop_claim_closing, received_slot, commit_claim, claim_claimed,
  claim_slot, buffer_claim,
}
use z_ipc.Platform.{now_ns, tick, protect_slot, Platform}
use z_ipc.Base.{
  ◌≤◌, false, ◌+◌, ◌↔◌, not, arith, leb, ◌&&◌, true, ◌||◌, ◌^◌, ◌≡◌, ◌==◌, ◌<◌, Bool, ℕ,
}
use z_ipc.Handle.{
  ClaimKind, claim_token_make, claim_code, claim_token_kind, handle_generation, handle_slot_id,
}
use z_ipc.Status.{claiming, in_transfer, is_in_transfer, is_ok, component_id_valid}
use z_ipc.Buffer.{make_view}
use z_ipc.Protocol.Common.{past_hop_limit, past_deadline}
use z_ipc.Component.{registered_epoch}

module _ (p : Platform) (message : Message) (receiver : ℕ) where
  abbrev slot_id : ℕ
  slot_id = handle_slot_id message.handle

  abbrev before : World → Slot
  before w = w.pool.controls slot_id

  -- The token of a slot that a claim may replace: none, or that of a send which has published the
  -- slot and not yet cleared it.
  abbrev pub claimable : ℕ → Bool
  claimable token = (token == 0) || (claim_token_kind token == claim_code ClaimKind.send)

  -- What a claim asks for.
  pub record CanClaim (w : World) : Type 0 where
    pub usable : component_id_valid receiver ≡ true
    pub addressed : (message.pool_id ≡ w.pool.pool_id) × (message.destination_component ≡ receiver)
    pub exists : slot_id < w.pool.header.slot_count
    pub state : (before w).state ≡ in_transfer
    pub generation : (before w).generation ≡ handle_generation message.handle
    pub source : (before w).owner_id ≡ message.source_component
    pub next_owner : (before w).next_owner_id ≡ receiver
    pub sequence : (before w).transfer_sequence ≡ message.transfer_sequence
    pub unclaimed : claimable (before w).claim_token ≡ true
    pub in_time : past_deadline (before w) (now_ns p w) ≡ false
    pub hops_left : past_hop_limit (before w) ≡ false
    pub opened : is_ok (protect_slot p (tick w) slot_id true).0 ≡ true
    pub region_fits :
        (before w).region.offset + (before w).region.length ≤ w.pool.header.slot_capacity

  -- The payload pages open and the region lies in the slot.
  opens : World → Slot → Bool
  opens w s =
      is_ok (protect_slot p (tick w) slot_id true).0
      && leb (s.region.offset + s.region.length) w.pool.header.slot_capacity

  commit_claim_ok :
      (epoch claim now : ℕ) (s : Slot) (buffer : Buffer) (w : World)
      → w.pool.header.slot_capacity < 2 ^ 32
      → is_ok
          (commit_claim p message.handle slot_id receiver claim
            (received_slot receiver epoch now s)
            buffer
            (tick w)).0
        ≡ opens w s
  unfolding opens commit_claim drop_claim drop_claim_closing make_view received_slot protect_slot
  commit_claim_ok epoch claim now s buffer w small = ground arith

  -- The claimed slot answers the message, in time and below its hop limit.
  answers : World → Slot → Bool
  answers w s =
      (s.generation == handle_generation message.handle)
      && (s.owner_id == message.source_component)
      && (s.next_owner_id == receiver)
      && (s.transfer_sequence == message.transfer_sequence)
      && not (past_deadline s (now_ns p w))
      && not (past_hop_limit s)

  claim_claimed_ok :
      (epoch claim : ℕ) (s : Slot) (buffer : Buffer) (w : World)
      → w.pool.header.slot_capacity < 2 ^ 32
      → is_ok (claim_claimed p message slot_id receiver epoch claim s buffer w).0
        ≡ (answers w s && opens w s)
  unfolding answers claim_claimed refuse_claim
  claim_claimed_ok epoch claim s buffer w small =
      ground (arith, commit_claim_ok epoch claim (now_ns p w) s buffer w small)

  claim_slot_ok :
      (epoch : ℕ) (s : Slot) (buffer : Buffer) (w : World)
      → w.pool.header.slot_capacity < 2 ^ 32
      → is_in_transfer s.state ≡ true
      → is_ok (claim_slot p message slot_id receiver epoch s buffer w).0
        ≡ (claimable s.claim_token && answers w s && opens w s)
  unfolding claim_slot answers opens
  claim_slot_ok epoch s buffer w small on = ground (
    arith,
    claim_claimed_ok epoch (claim_token_make ClaimKind.receive receiver epoch)
        (record s {
          claim_token = claim_token_make ClaimKind.receive receiver epoch;
          state = claiming;
        })
        buffer w small,
  )

  -- In a pool of a 32-bit slot capacity, a claim succeeds exactly if the message is addressed to
  -- the receiver and this pool, and the slot is in transfer from the message's source to the
  -- receiver under the message's generation and sequence, with no claim but that of its send, in
  -- time, below its hop limit, with payload pages that open and a region inside the slot.
  pub buffer_claim_iff :
      (buffer : Buffer) (w : World)
      → w.pool.header.slot_capacity < 2 ^ 32
      → (is_ok (buffer_claim p message receiver buffer w).0 ≡ true) ↔ CanClaim w
  unfolding buffer_claim answers opens
  buffer_claim_iff buffer w small =
      let stage = claim_slot_ok (registered_epoch w.pool receiver) (before w) buffer w small in
      (
        λ good. record {
          usable = ground arith;
          addressed = ground arith;
          exists = ground arith;
          state = ground arith;
          generation = ground (arith, stage);
          source = ground (arith, stage);
          next_owner = ground (arith, stage);
          sequence = ground (arith, stage);
          unclaimed = ground (arith, stage);
          in_time = ground (arith, stage);
          hops_left = ground (arith, stage);
          opened = ground (arith, stage);
          region_fits = ground (arith, stage);
        },
        λ c. ground (arith, stage (ground arith)),
      )
