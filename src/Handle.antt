-- ===== src/Handle.antt =====
-- The packed 64-bit words of include/zipc/zipc.h and src/core/zipc.c: slot handles, buffer
-- identities, claim tokens and component lifecycles. An `|` of fields that do not overlap is
-- written as their sum, a shift as a product or a quotient, and a mask of low bits as a remainder.
pub mod Laws
use z_ipc.Base.{ℕ, ◌+◌, ◌*◌, ◌/◌, ◌%◌, ◌^◌, Bool, ◌&&◌, not, leb, ◌==◌}
use z_ipc.Word.{u8, u16, u32, u32_max}
use z_ipc.Status.{component_id_min, component_id_max}

unfoldable pub handle_make : ℕ → ℕ → ℕ
handle_make slot_id generation = generation * 2 ^ 32 + slot_id

unfoldable pub handle_slot_id : ℕ → ℕ
handle_slot_id handle = u32 handle

unfoldable pub handle_generation : ℕ → ℕ
handle_generation handle = u32 (handle / 2 ^ 32)

unfoldable pub buffer_id_make : ℕ → ℕ → ℕ → ℕ
buffer_id_make allocator session sequence =
    u8 allocator * 2 ^ 56 + session % 2 ^ 24 * 2 ^ 32 + sequence

unfoldable pub buffer_id_component : ℕ → ℕ
buffer_id_component id = u16 (id / 2 ^ 56)

unfoldable pub buffer_id_session : ℕ → ℕ
buffer_id_session id = id / 2 ^ 32 % 2 ^ 24

unfoldable pub buffer_id_sequence : ℕ → ℕ
buffer_id_sequence id = u32 id

unfoldable pub buffer_id_valid : ℕ → Bool
unfolding buffer_id_component buffer_id_session buffer_id_sequence
buffer_id_valid id =
    leb component_id_min (buffer_id_component id)
    && leb (buffer_id_component id) component_id_max
    && not (buffer_id_session id == 0)
    && not (buffer_id_sequence id == u32_max)

-- `zipc_claim_kind_t`
pub data ClaimKind : Type 0 where
  none allocate send receive release rollback : ClaimKind

abbrev pub claim_code : ClaimKind → ℕ
claim_code none = 0
claim_code allocate = 1
claim_code send = 2
claim_code receive = 3
claim_code release = 4
claim_code rollback = 5

unfoldable pub claim_token_make : ClaimKind → ℕ → ℕ → ℕ
claim_token_make kind component epoch = epoch * 2 ^ 32 + component * 2 ^ 8 + claim_code kind

-- The cast to `uint8_t` may leave a number that is no `zipc_claim_kind_t`; it is compared by code.
unfoldable pub claim_token_kind : ℕ → ℕ
claim_token_kind token = u8 token

unfoldable pub claim_token_component : ℕ → ℕ
claim_token_component token = u16 (token / 2 ^ 8)

unfoldable pub claim_token_epoch : ℕ → ℕ
claim_token_epoch token = u32 (token / 2 ^ 32)

-- `zipc_component_state_t`
pub data ComponentState : Type 0 where
  inactive recovering active : ComponentState

abbrev pub state_code : ComponentState → ℕ
state_code inactive = 0
state_code recovering = 1
state_code active = 2

unfoldable pub component_lifecycle_make : ℕ → ComponentState → ℕ
component_lifecycle_make epoch state = epoch * 2 ^ 32 + state_code state

unfoldable pub component_lifecycle_epoch : ℕ → ℕ
component_lifecycle_epoch lifecycle = u32 (lifecycle / 2 ^ 32)

unfoldable pub component_lifecycle_state : ℕ → ℕ
component_lifecycle_state lifecycle = u32 lifecycle
