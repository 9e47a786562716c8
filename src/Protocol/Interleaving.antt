-- ===== src/Protocol/Interleaving.antt =====
-- Many callers at one slot (src/core/zipc.c: buffer_allocate_internal,
-- buffer_prepare_transfer_internal, zipc_buffer_claim, zipc_pool_buffer_release): the atomic
-- accesses to the claim token and the state, in any order. A caller that dies is one that takes no
-- more steps; recovery is not among the callers.
pub mod Tokens
pub mod Exclusion
use z_ipc.Base.{◌&&◌, ◌==◌, false, update, if◌then◌else◌, ◌≡◌, ℕ}
use z_ipc.State.{cas_state, clear_claim_token, cas_token, Slot}
use z_ipc.Status.{is_in_transfer, claiming, is_claiming, SlotState}
use z_ipc.Handle.{send, receive, claim_code, claim_token_kind}

-- Where a caller stands: outside; refused the token, which was a sender's (the token it would store
-- and the one it saw); that sender's slot seen in TRANSFER; with its token stored; refused
-- CLAIMING, its token still stored; in CLAIMING; or with the slot published, its token still
-- stored.
pub data Phase : Type 0 where
  outside : Phase
  blocked seen : ℕ → ℕ → Phase
  noted withdrawing claiming_slot published : ℕ → Phase

-- The slot and the callers.
pub record Callers : Type 0 where
  pub slot : Slot
  pub phase : ℕ → Phase

abbrev pub move_to : ℕ → Phase → Callers → Callers
move_to caller phase c = record c { phase = update c.phase caller phase }

-- `atomic_compare_exchange_strong_explicit(&slot->claim_token, &empty_claim, claim, ...)`. Where it
-- fails, only a receiver that saw the token of a sender goes on.
unfoldable pub take_token : ℕ → ℕ → Callers → Callers
take_token caller token c =
    let (won, s) = cas_token 0 token c.slot in
    if won
    then record { slot = s; phase = update c.phase caller (noted token) }
    else if (claim_token_kind token == claim_code receive)
        && (claim_token_kind c.slot.claim_token == claim_code send)
    then move_to caller (blocked token c.slot.claim_token) c
    else c

-- The load of the state.
unfoldable pub see_state : ℕ → ℕ → ℕ → Callers → Callers
see_state caller token observed c =
    if is_in_transfer c.slot.state
    then move_to caller (seen token observed) c
    else move_to caller outside c

-- The exchange of the sender's token, as it was seen, with the receiver's.
unfoldable pub take_over_token : ℕ → ℕ → ℕ → Callers → Callers
take_over_token caller token observed c =
    let (won, s) = cas_token observed token c.slot in
    if won
    then record { slot = s; phase = update c.phase caller (noted token) }
    else move_to caller outside c

-- The exchange of the state with CLAIMING.
unfoldable pub take_state : ℕ → ℕ → SlotState → Callers → Callers
take_state caller token expected c =
    let (won, s) = cas_state expected claiming c.slot in
    if won
    then record { slot = s; phase = update c.phase caller (claiming_slot token) }
    else move_to caller (withdrawing token) c

-- `atomic_store_explicit(&slot->state, ...)`
unfoldable pub publish_state : ℕ → ℕ → SlotState → Callers → Callers
publish_state caller token target c = record {
  slot = record (c.slot) { state = target };
  phase = update c.phase caller (published token);
}

-- `clear_claim_token(slot, claim)`
unfoldable pub drop_token : ℕ → ℕ → Callers → Callers
drop_token caller token c = record {
  slot = clear_claim_token c.slot token;
  phase = update c.phase caller outside;
}

-- One access by one caller, or a write to the slot in CLAIMING that leaves the state and the token.
pub data Step (c : Callers) : Callers → Type 0 where
  takes_token : (caller token : ℕ) → c.phase caller ≡ outside → Step c (take_token caller token c)
  sees_state :
      (caller token observed : ℕ)
      → c.phase caller ≡ blocked token observed
      → Step c (see_state caller token observed c)
  takes_over :
      (caller token observed : ℕ)
      → c.phase caller ≡ seen token observed
      → Step c (take_over_token caller token observed c)
  takes_state :
      (caller token : ℕ) (expected : SlotState)
      → c.phase caller ≡ noted token
      → is_claiming expected ≡ false
      → Step c (take_state caller token expected c)
  works :
      (caller token : ℕ) (s : Slot)
      → c.phase caller ≡ claiming_slot token
      → s.state ≡ c.slot.state
      → s.claim_token ≡ c.slot.claim_token
      → Step c (record c { slot = s })
  publishes :
      (caller token : ℕ) (target : SlotState)
      → c.phase caller ≡ claiming_slot token
      → is_claiming target ≡ false
      → Step c (publish_state caller token target c)
  drops : (caller token : ℕ) → c.phase caller ≡ published token → Step c (drop_token caller token c)
  withdraws :
      (caller token : ℕ) → c.phase caller ≡ withdrawing token → Step c (drop_token caller token c)

pub data Steps (c : Callers) : Callers → Type 0 where
  at_start : Steps c c
  then_step : {m e : Callers} → Steps c m → Step m e → Steps c e
