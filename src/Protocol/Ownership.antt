-- ===== src/Protocol/Ownership.antt =====
-- Theorems across the operations of the protocol: transfer, claim and release.
pub mod Stale
use z_ipc.Platform.{tick, protect_slot, now_ns, Platform}
use z_ipc.State.{Buffer, Message, World}
use z_ipc.Base.{◌∙◌, ◌≤◌, ◌+◌, ◌^◌, ◌<◌, ◌≢◌, arith, some, true, false, ◌≡◌, ℕ}
use z_ipc.Protocol.Transfer.{buffer_prepare_transfer_internal}
use z_ipc.Protocol.Claim.{refuse_claim, claim_claimed, claim_slot, buffer_claim}
use z_ipc.Buffer.{make_view, buffer_owned}
use z_ipc.Protocol.Release.{pool_buffer_release}
use z_ipc.Status.{Status, ok, is_ok, is_owned, is_in_transfer}
use z_ipc.Handle.{handle_generation, handle_slot_id}
use z_ipc.Protocol.Release.Laws.{pool_buffer_release_lem}
use z_ipc.Protocol.Transfer.Laws.{Sent, buffer_prepare_transfer_lem}
use z_ipc.Component.{registered_epoch}
use z_ipc.Protocol.Claim.Laws.{buffer_claim_lem}
use z_ipc.Protocol.Claim.Conditions.{CanClaim, buffer_claim_iff}
use z_ipc.Protocol.Common.{past_deadline}
use mathlib.Core.Path.{subst}
use z_ipc.Protocol.Frame.{core_of, layout_of}
use z_ipc.Protocol.Transfer.Conditions.{buffer_prepare_transfer_iff, CanSend}

-- The slot that a handle names, and whether a call on it may still succeed.
module _ (p : Platform) (w : World) where
  -- No one holds the slot: neither a transfer nor a release of it, under any handle and by any
  -- component, succeeds, and no buffer on it is owned.
  pub record NoHolder (slot_id : ℕ) : Type 0 where
    pub no_transfer :
        (handle current_owner next_owner link_id : ℕ) (message : Message)
        → handle_slot_id handle ≡ slot_id
        → is_ok
            (buffer_prepare_transfer_internal p handle current_owner next_owner link_id message w).0
          ≡ false
    pub no_release :
        (handle current_owner : ℕ)
        → handle_slot_id handle ≡ slot_id
        → is_ok (pool_buffer_release p handle current_owner w).0 ≡ false
    pub no_buffer_owned : (b : Buffer) → b.control ≡ some slot_id → buffer_owned w b ≡ false

  -- No message can be claimed on the slot.
  pub NoMessage : ℕ → Type 0
  NoMessage slot_id =
      (message : Message) (receiver : ℕ) (buffer : Buffer)
      → handle_slot_id message.handle ≡ slot_id
      → is_ok (buffer_claim p message receiver buffer w).0 ≡ false

  not_owned-NoHolder :
      (slot_id : ℕ) → is_owned (w.pool.controls slot_id).state ≡ false → NoHolder slot_id
  unfolding buffer_prepare_transfer_internal pool_buffer_release buffer_owned
  not_owned-NoHolder slot_id h = record {
    no_transfer = λ handle current_owner next_owner link_id message at. ground arith;
    no_release = λ handle current_owner at. ground arith;
    no_buffer_owned = λ b on. ground arith;
  }

  not_in_transfer-NoMessage :
      (slot_id : ℕ) → is_in_transfer (w.pool.controls slot_id).state ≡ false → NoMessage slot_id
  unfolding NoMessage buffer_claim
  not_in_transfer-NoMessage slot_id h message receiver buffer at = ground arith

  -- Two owned buffers on one slot have the same owner, epoch and generation.
  pub buffer_owned_unique :
      (b c : Buffer)
      → buffer_owned w b ≡ true
      → buffer_owned w c ≡ true
      → b.control ≡ c.control
      → (b.owner ≡ c.owner)
        × (b.owner_epoch ≡ c.owner_epoch)
        × (handle_generation b.handle ≡ handle_generation c.handle)
  unfolding buffer_owned
  buffer_owned_unique b c hb hc same = (ground arith, ground arith, ground arith)

-- A claim by a component that the slot is not on its way to.
claim_needs_receiver :
    (p : Platform) (message : Message) (receiver : ℕ) (buffer : Buffer) (w : World)
    → (w.pool.controls (handle_slot_id message.handle)).next_owner_id ≢ receiver
    → is_ok (buffer_claim p message receiver buffer w).0 ≡ false
unfolding buffer_claim claim_slot claim_claimed refuse_claim
claim_needs_receiver p message receiver buffer w ne = ground arith

-- After a transfer that succeeded, in that world and in any later one in which the slot still has
-- the state, the generation, the owners, the sequence, the region and the lineage that the transfer
-- left: every transfer and release on it is refused, no buffer on it is owned, and a claim by any
-- component but the receiver of the transfer is refused, whatever the message says.
pub buffer_prepare_transfer_hands_over :
    (p : Platform) (handle current_owner next_owner link_id : ℕ) (message : Message)
    (w later : World)
    → is_ok (buffer_prepare_transfer_internal p handle current_owner next_owner link_id message w).0
      ≡ true
    → core_of (later.pool.controls (handle_slot_id handle))
      ≡ core_of (
          (buffer_prepare_transfer_internal p handle current_owner next_owner link_id message
              w).2.pool.controls
            (handle_slot_id handle))
    → NoHolder p later (handle_slot_id handle)
      × ((other : Message) (receiver : ℕ) (buffer : Buffer)
          → handle_slot_id other.handle ≡ handle_slot_id handle
          → receiver ≢ next_owner
          → is_ok (buffer_claim p other receiver buffer later).0 ≡ false)
buffer_prepare_transfer_hands_over p handle current_owner next_owner link_id message w later good
      kept =
    let t =
      (buffer_prepare_transfer_lem p handle current_owner next_owner link_id message w).succeeded
        good in
    let left = kept ∙ t.core in
    (
      not_owned-NoHolder p later (handle_slot_id handle) (ground (arith, left)),
      λ other receiver buffer at ne.
          claim_needs_receiver p other receiver buffer later (ground (arith, left)),
    )

-- After a release that succeeded, no one holds the slot and no message can be claimed on it: in
-- particular a second release, under any handle to the slot, is refused.
pub pool_buffer_release_final :
    (p : Platform) (handle current_owner : ℕ) (w : World)
    → is_ok (pool_buffer_release p handle current_owner w).0 ≡ true
    → NoHolder p (pool_buffer_release p handle current_owner w).1 (handle_slot_id handle)
      × NoMessage p (pool_buffer_release p handle current_owner w).1 (handle_slot_id handle)
pool_buffer_release_final p handle current_owner w good =
    let r = pool_buffer_release p handle current_owner w in
    let t = ((pool_buffer_release_lem p handle current_owner w).succeeded good).0 in
    (
      not_owned-NoHolder p r.1 (handle_slot_id handle) (ground (arith, t.core)),
      not_in_transfer-NoMessage p r.1 (handle_slot_id handle) (ground (arith, t.core)),
    )

-- After a claim that succeeded, in a pool of a 32-bit slot capacity, the buffer that it returned
-- is owned, and no message can be claimed on the slot: a second claim of the same message is
-- refused.
pub buffer_claim_once :
    (p : Platform) (message : Message) (receiver : ℕ) (buffer : Buffer) (w : World)
    → w.pool.header.slot_capacity < 2 ^ 32
    → is_ok (buffer_claim p message receiver buffer w).0 ≡ true
    → (buffer_owned
          (buffer_claim p message receiver buffer w).2
          (buffer_claim p message receiver buffer w).1
        ≡ true)
      × NoMessage p (buffer_claim p message receiver buffer w).2 (handle_slot_id message.handle)
unfolding make_view buffer_owned registered_epoch
buffer_claim_once p message receiver buffer w small good =
    let r = buffer_claim p message receiver buffer w in
    let c = buffer_claim_lem p message receiver buffer w in
    let (t, view) = c.succeeded good in
    let able = (buffer_claim_iff p message receiver buffer w small).0 good in
    (
      ground (arith, t.core, view, able.generation, c.frame.same_layout),
      not_in_transfer-NoMessage p r.2 (handle_slot_id message.handle) (ground (arith, t.core)),
    )

-- The slot, after the transfer, answers the message of the transfer.
module _ (p : Platform) (handle current_owner next_owner link_id : ℕ) (w w1 : World)
    (sent : Message) where
  abbrev slot_id : ℕ
  slot_id = handle_slot_id handle

  pub delivery :
      Sent w.pool.pool_id handle current_owner next_owner link_id
        (w.pool.controls slot_id)
        (w1.pool.controls slot_id)
        sent
      → CanSend p handle current_owner next_owner link_id w
      → layout_of w1 ≡ layout_of w
      → (w.pool.controls slot_id).region.offset + (w.pool.controls slot_id).region.length
        ≤ w.pool.header.slot_capacity
      → past_deadline (w.pool.controls slot_id) (now_ns p w1) ≡ false
      → is_ok (protect_slot p (tick w1) slot_id true).0 ≡ true
      → CanClaim p sent next_owner w1
  delivery t able same fits in_time opens = record {
    usable = ground (arith, able.usable);
    addressed = ground (arith, t.described, same);
    exists = ground (arith, t.described, able.exists, same);
    state = ground (arith, t.described, t.core);
    generation = ground (arith, t.described, t.core, able.generation);
    source = ground (arith, t.described, t.core, able.owner_id);
    next_owner = ground (arith, t.described, t.core);
    sequence = ground (arith, t.described, t.core);
    unclaimed = ground (arith, t.described, t.claim_token);
    in_time = ground (arith, t.described, t.core);
    hops_left = ground (arith, t.described, t.core, able.hops_left);
    opened = ground (arith, t.described);
    region_fits = ground (arith, t.described, t.core, same);
  }

  -- In a pool of a 32-bit slot capacity, the claim by the receiver of the message that a
  -- successful transfer made succeeds if the pages open, the deadline has not passed and the
  -- region lies in the slot.
  pub buffer_claim-prepare_transfer :
      (message : Message) (buffer : Buffer)
      → buffer_prepare_transfer_internal p handle current_owner next_owner link_id message w
        ≡ (ok, sent, w1)
      → w.pool.header.slot_capacity < 2 ^ 32
      → (w.pool.controls slot_id).region.offset + (w.pool.controls slot_id).region.length
        ≤ w.pool.header.slot_capacity
      → past_deadline (w.pool.controls slot_id) (now_ns p w1) ≡ false
      → is_ok (protect_slot p (tick w1) slot_id true).0 ≡ true
      → is_ok (buffer_claim p sent next_owner buffer w1).0 ≡ true
  buffer_claim-prepare_transfer message buffer e small fits in_time opens =
      let run =
        buffer_prepare_transfer_internal p handle current_owner next_owner link_id message w in
      let good : is_ok run.0 ≡ true = cc in
      let able =
        (buffer_prepare_transfer_iff p handle current_owner next_owner link_id message w).0 good in
      let l = buffer_prepare_transfer_lem p handle current_owner next_owner link_id message w in
      let t : Sent w.pool.pool_id handle current_owner next_owner link_id (w.pool.controls slot_id)
          (w1.pool.controls slot_id) sent =
        subst
          (λ (r : Status × Message × World).
            Sent w.pool.pool_id handle current_owner next_owner link_id (w.pool.controls slot_id)
              (r.2.pool.controls slot_id) r.1)
          e (l.succeeded good) in
      let same : layout_of w1 ≡ layout_of w =
        subst (λ (r : Status × Message × World). layout_of r.2 ≡ layout_of w) e
          l.frame.same_layout in
      (buffer_claim_iff p sent next_owner buffer w1 (ground (arith, same))).1
        (delivery t able same fits in_time opens)
