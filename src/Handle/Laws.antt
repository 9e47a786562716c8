-- ===== src/Handle/Laws.antt =====
-- Theorems on the packed words.
use z_ipc.Base.{◌≢◌, ℕ, ◌^◌, ◌<◌, ◌≡◌, true, arith}
use z_ipc.Status.{component_id_valid}
use z_ipc.Handle.{
  buffer_id_valid, handle_make, handle_slot_id, handle_generation, buffer_id_make,
  buffer_id_component, buffer_id_session, buffer_id_sequence, ClaimKind, claim_code,
  claim_token_make, claim_token_kind, claim_token_component, claim_token_epoch, ComponentState,
  state_code, component_lifecycle_make, component_lifecycle_epoch, component_lifecycle_state,
}
use z_ipc.Word.{u32_max}

-- A handle of a 32-bit slot and generation gives both back.
pub handle_round_trip :
    (slot_id generation : ℕ)
    → slot_id < 2 ^ 32
    → generation < 2 ^ 32
    → (handle_slot_id (handle_make slot_id generation) ≡ slot_id)
      × (handle_generation (handle_make slot_id generation) ≡ generation)
unfolding handle_make handle_slot_id handle_generation
handle_round_trip slot_id generation hs hg = omega arith

-- A buffer identity of a valid component, a 24-bit session and a 32-bit sequence gives all three
-- back.
pub buffer_id_round_trip :
    (component session sequence : ℕ)
    → component_id_valid component ≡ true
    → session < 2 ^ 24
    → sequence < 2 ^ 32
    → let id = buffer_id_make component session sequence in
      (buffer_id_component id ≡ component)
      × (buffer_id_session id ≡ session)
      × (buffer_id_sequence id ≡ sequence)
unfolding buffer_id_make buffer_id_component buffer_id_session buffer_id_sequence component_id_valid
buffer_id_round_trip component session sequence hc hs hq = ground arith

claim_code-lt : (kind : ClaimKind) → claim_code kind < 6
claim_code-lt kind = ground arith

-- A claim token of any kind, a 16-bit component and a 32-bit epoch gives all three back.
pub claim_token_round_trip :
    (kind : ClaimKind) (component epoch : ℕ)
    → component < 2 ^ 16
    → epoch < 2 ^ 32
    → let token = claim_token_make kind component epoch in
      (claim_token_kind token ≡ claim_code kind)
      × (claim_token_component token ≡ component)
      × (claim_token_epoch token ≡ epoch)
unfolding claim_token_make claim_token_kind claim_token_component claim_token_epoch
claim_token_round_trip kind component epoch hc he = omega (arith, claim_code-lt kind)

-- A lifecycle of a 32-bit epoch and any state gives both back.
pub component_lifecycle_round_trip :
    (epoch : ℕ) (state : ComponentState)
    → epoch < 2 ^ 32
    → (component_lifecycle_epoch (component_lifecycle_make epoch state) ≡ epoch)
      × (component_lifecycle_state (component_lifecycle_make epoch state) ≡ state_code state)
unfolding component_lifecycle_make component_lifecycle_epoch component_lifecycle_state
component_lifecycle_round_trip epoch state he = ground arith

-- The identity of a usable component, session and sequence is valid.
pub buffer_id_make_valid :
    (component session sequence : ℕ)
    → component_id_valid component ≡ true
    → session ≢ 0
    → session < 2 ^ 24
    → sequence < u32_max
    → buffer_id_valid (buffer_id_make component session sequence) ≡ true
unfolding buffer_id_valid component_id_valid
buffer_id_make_valid component session sequence hc hn hs hq =
    let fields = buffer_id_round_trip component session sequence hc hs (omega arith) in
    ground (arith, fields)
