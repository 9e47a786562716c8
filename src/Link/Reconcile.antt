-- ===== src/Link/Reconcile.antt =====
-- `zipc_link_reconcile` of src/core/zipc.c: what a restarted component does at one end of a link,
-- over a transport whose ring can be reached.
pub mod Drain
pub mod Slots
pub mod Whole
use z_ipc.Base.{
  refl, ◌≡◌, ℕ, zero, suc, Bool, true, false, Option, none, some, leb, ◌+◌, ◌&&◌, ◌||◌, ◌==◌, not,
  if◌then◌else◌, ◌%◌,
}
use z_ipc.Word.{u32}
use z_ipc.Status.{
  Status, ok, is_ok, invalid_argument, recovery_unsupported, invalid_component_id, claiming, fault,
  owned, in_transfer, is_claiming, is_in_transfer,
}
use z_ipc.Handle.{
  claim_token_kind, claim_code, send, receive, rollback, handle_make, handle_slot_id,
  handle_generation,
}
use z_ipc.State.{World, Message, Slot, cas_state, cas_token, put_slot, clear_claim_token}
use z_ipc.Platform.{Platform, protect_slot}
use z_ipc.Component.{Restart, component_epoch_recovering}
use z_ipc.Recovery.Restarts.{undo_receive, dead_claim}
use z_ipc.Ring.{Ring}
use z_ipc.Transport.{Transport}
use z_ipc.Link.{Link, Role, producer, consumer}
use z_ipc.Link.Send.{is_published}

abbrev pub is_producer : Role → Bool
is_producer producer = true
is_producer _ = false

abbrev pub is_consumer : Role → Bool
is_consumer consumer = true
is_consumer _ = false

pub producer_is_no_consumer : (role : Role) → is_producer role ≡ true → is_consumer role ≡ false
producer_is_no_consumer producer h = refl
producer_is_no_consumer _ h = cc

-- What became of a slot: the pass goes on, or the call returns. The number counts the messages that
-- were sent again.
pub data Settled (T : Type 0) : Type 0 where
  settled : ℕ → T → World → Settled T
  stopped : Status → ℕ → T → World → Settled T

-- A claim that this end of the link may have left behind.
abbrev pub matching_kind : Role → ℕ → Bool
matching_kind role token =
    if is_producer role
    then (claim_token_kind token == claim_code send)
      || (claim_token_kind token == claim_code rollback)
    else claim_token_kind token == claim_code receive

-- A send or a rollback that is undone.
unfoldable pub undo_send : Slot → Slot
undo_send s = record s {
  transfer_sequence = s.claim_previous_sequence;
  next_owner_id = invalid_component_id;
  claim_token = 0;
  state = owned;
}

-- A slot in CLAIMING.
unfoldable pub reconcile_claim :
    {T : Type 0} → Platform → Link → Restart → ℕ → Slot → ℕ → T → World → Settled T
reconcile_claim p link r slot_id s recovered t w =
    let (won, s1) = cas_state claiming fault s in
    let (protect_status, w1) = protect_slot p w slot_id false in
    if not (matching_kind link.role s.claim_token) || not (dead_claim r s.claim_token)
    then settled recovered t w
    else if not won
    then settled recovered t w
    else if is_producer link.role
    then settled recovered t (put_slot w slot_id (undo_send s1))
    else if not (is_ok protect_status)
    then stopped protect_status recovered t (put_slot w1 slot_id (record s1 { state = claiming }))
    else settled recovered t (put_slot w1 slot_id (undo_receive r s1))

abbrev pub message_again : World → Link → Restart → ℕ → Slot → Message
message_again w link r slot_id s = record {
  handle = handle_make slot_id s.generation;
  pool_id = w.pool.pool_id;
  source_component = r.component;
  destination_component = link.remote_component;
  transfer_sequence = s.transfer_sequence;
  flags = 0;
}

-- The token of a rollback that the dead epoch had begun is cleared.
abbrev pub drop_rollback : Restart → Slot → Slot
drop_rollback r s =
    let (dropped, s1) = cas_token s.claim_token 0 s in
    if (claim_token_kind s.claim_token == claim_code rollback) && dead_claim r s.claim_token
    then s1
    else s

-- The slot was sent by the dead epoch over this link.
abbrev pub sent_over : Link → Restart → Slot → Bool
sent_over link r s =
    (s.owner_id == r.component)
    && (s.owner_epoch == r.dead_epoch)
    && (s.next_owner_id == link.remote_component)
    && (s.transfer_link_id == link.link_id)

-- A slot in TRANSFER, at the producer: its message is sent again.
unfoldable pub reconcile_transfer :
    {T : Type 0} → Transport T → Link → Restart → ℕ → Slot → ℕ → T → World → Settled T
reconcile_transfer tr link r slot_id s recovered t w =
    let s1 = drop_rollback r s in
    let (won, s2) = cas_state in_transfer fault s1 in
    let w1 = put_slot w slot_id (record s2 { state = in_transfer }) in
    let (status, t1) = tr.send (message_again w link r slot_id s2) t in
    if not won
    then settled recovered t (put_slot w slot_id s1)
    else if not (sent_over link r s2)
    then settled recovered t w1
    else if not (is_ok status) && not (is_published status)
    then stopped status recovered t1 w1
    else settled (u32 (recovered + 1)) t1 w1

unfoldable pub reconcile_slot :
    {T : Type 0} → Transport T → Platform → Link → Restart → ℕ → ℕ → T → World → Settled T
reconcile_slot tr p link r slot_id recovered t w =
    let s = w.pool.controls slot_id in
    if is_consumer link.role
      && is_in_transfer s.state
      && (claim_token_kind s.claim_token == claim_code receive)
      && dead_claim r s.claim_token
    then settled recovered t (put_slot w slot_id (clear_claim_token s s.claim_token))
    else if is_claiming s.state
    then reconcile_claim p link r slot_id s recovered t w
    else if not (is_producer link.role) || not (is_in_transfer s.state)
    then settled recovered t w
    else reconcile_transfer tr link r slot_id s recovered t w

-- The slots from `slot_id` on, `n` of them.
unfoldable pub reconcile_slots :
    {T : Type 0} → Transport T → Platform → Link → Restart → ℕ → ℕ → ℕ → T → World → Settled T
reconcile_slots tr p link r zero slot_id recovered t w = settled recovered t w
reconcile_slots tr p link r (suc n) slot_id recovered t w =
    elim (reconcile_slot tr p link r slot_id recovered t w) [
      | settled recovered1 t1 w1 ↦ reconcile_slots tr p link r n (suc slot_id) recovered1 t1 w1
      | stopped status recovered1 t1 w1 ↦ stopped status recovered1 t1 w1
    ]

-- The message is of a slot that is still on its way in that generation.
abbrev pub is_live : World → Message → Bool
is_live w message =
    let s = w.pool.controls (handle_slot_id message.handle) in
    not (leb w.pool.header.slot_count (handle_slot_id message.handle))
    && is_in_transfer s.state
    && (s.generation == handle_generation message.handle)

-- Messages at the front of the ring that are not live are dropped, at most `fuel` of them.
unfoldable pub drain_ring : World → ℕ → Ring → Option Ring
drain_ring w zero r = none
drain_ring w (suc fuel) r =
    let later = drain_ring w fuel (record r { consumer = u32 (r.consumer + 1) }) in
    if r.consumer == r.producer
    then some r
    else if is_live w (r.entries (r.consumer % r.depth))
    then some r
    else later

-- The memory of the transport that `recovery_ring` points to.
pub record RecoveryRing (T : Type 0) : Type 0 where
  pub ring : T → Ring
  pub with_ring : T → Ring → T

abbrev finish_drain :
    {T : Type 0} → RecoveryRing T → ℕ → T → World → Option Ring → Option (Status × ℕ × T × World)
finish_drain access recovered t w none = none
finish_drain access recovered t w (some r) = some (ok, recovered, access.with_ring t r, w)

abbrev after_slots :
    {T : Type 0} → RecoveryRing T → Link → ℕ → Settled T → Option (Status × ℕ × T × World)
after_slots access link fuel (stopped status recovered t w) = some (status, recovered, t, w)
after_slots access link fuel (settled recovered t w) =
    if is_consumer link.role
    then finish_drain access recovered t w (drain_ring w fuel (access.ring t))
    else some (ok, recovered, t, w)

-- `recovered` is what `*recovered_transfers` holds.
unfoldable pub link_reconcile :
    {T : Type 0}
    → Transport T
    → RecoveryRing T
    → Platform
    → Link
    → ℕ
    → Restart
    → ℕ
    → T
    → World
    → Option (Status × ℕ × T × World)
link_reconcile tr access p link fuel r recovered t w =
    if not r.attached
      || not (link.local_component == r.component)
      || not (link.local_epoch == r.epoch)
      || (link.link_id == 0)
      || not (r.epoch == u32 (r.dead_epoch + 1))
      || not (component_epoch_recovering w.pool r.component r.epoch)
    then some (invalid_argument, recovered, t, w)
    else if not link.ring_based
    then some (recovery_unsupported, recovered, t, w)
    else if not (is_producer link.role) && not (is_consumer link.role)
    then some (invalid_argument, recovered, t, w)
    else if not link.has_recovery_ring
    then some (recovery_unsupported, recovered, t, w)
    else after_slots access link fuel (reconcile_slots tr p link r w.pool.header.slot_count 0 0 t w)
