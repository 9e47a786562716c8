-- ===== src/Status.antt =====
-- include/zipc/zipc.h: the status codes, the enumerations and the limits that the core shares.
use z_ipc.Base.{refl, ◌≡◌, ℕ, ◌-◌, ◌^◌, Bool, true, false, ◌&&◌, leb}

-- `zipc_status_t`, in the header's order
pub data Status : Type 0 where
  ok invalid_argument invalid_pool no_buffer invalid_handle stale_handle : Status
  invalid_state not_owner invalid_receiver sequence_mismatch region_overflow : Status
  unsupported_memory transport platform timeout hop_limit deadline : Status
  component_stale recovery_required invalid_buffer buffer_too_small : Status
  entropy_unavailable transport_published recovery_unsupported : Status

-- `status == ZIPC_OK`
abbrev pub is_ok : Status → Bool
is_ok ok = true
is_ok _ = false

pub is_ok_only : (s : Status) → is_ok s ≡ true → s ≡ ok
is_ok_only ok h = refl
is_ok_only _ h = cc

-- `zipc_slot_state_t`; `fault` is ZIPC_SLOT_ERROR.
pub data SlotState : Type 0 where
  free claiming owned in_transfer fault : SlotState

abbrev pub is_free : SlotState → Bool
is_free free = true
is_free _ = false

abbrev pub is_claiming : SlotState → Bool
is_claiming claiming = true
is_claiming _ = false

pub is_claiming_only : (s : SlotState) → is_claiming s ≡ true → s ≡ claiming
is_claiming_only claiming h = refl
is_claiming_only _ h = cc

abbrev pub is_owned : SlotState → Bool
is_owned owned = true
is_owned _ = false

abbrev pub is_in_transfer : SlotState → Bool
is_in_transfer in_transfer = true
is_in_transfer _ = false

pub is_in_transfer_only : (s : SlotState) → is_in_transfer s ≡ true → s ≡ in_transfer
is_in_transfer_only in_transfer h = refl
is_in_transfer_only _ h = cc

abbrev pub is_fault : SlotState → Bool
is_fault fault = true
is_fault _ = false

-- `zipc_trace_event_t`
pub data TraceEvent : Type 0 where
  allocated sent received released recovered error : TraceEvent

abbrev pub component_id_min : ℕ
component_id_min = 1

abbrev pub component_id_max : ℕ
component_id_max = 254

abbrev pub invalid_component_id : ℕ
invalid_component_id = 2 ^ 16 - 1

abbrev pub invalid_handle_value : ℕ
invalid_handle_value = 2 ^ 64 - 1

abbrev pub hop_limit_unlimited : ℕ
hop_limit_unlimited = 2 ^ 32 - 1

abbrev pub deadline_none : ℕ
deadline_none = 2 ^ 64 - 1

abbrev pub trace_depth : ℕ
trace_depth = 8

unfoldable pub component_id_valid : ℕ → Bool
component_id_valid component = leb component_id_min component && leb component component_id_max
