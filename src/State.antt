-- ===== src/State.antt =====
-- The shared and the process state of include/zipc/zipc.h and src/core/zipc.c: the pool in shared
-- memory, a buffer's local view, a message, and the globals of one process. Arrays are functions
-- of the index; a pointer into one is the index, and a pointer to payload bytes is the offset from
-- `payload_base`.
use z_ipc.Base.{ℕ, Bool, true, false, Option, none, List, update}
use z_ipc.Base.{if◌then◌else◌, ◌==◌}
use z_ipc.Status.{
  SlotState, free, claiming, owned, in_transfer, fault, is_free, is_claiming, is_owned,
  is_in_transfer, is_fault, TraceEvent,
}
use z_ipc.VisitedSet.{VisitedSet, visited_none}

-- `zipc_buffer_region_t`
pub record Region : Type 0 where
  pub offset : ℕ
  pub length : ℕ

-- `zipc_buffer_identity_t`
pub record Identity : Type 0 where
  pub id : ℕ
  pub parent_id : ℕ

-- `zipc_trace_entry_t`
pub record TraceEntry : Type 0 where
  pub timestamp_ns : ℕ
  pub sequence : ℕ
  pub component_id : ℕ
  pub event : Option TraceEvent

-- `zipc_trace_record_t`
pub record TraceRecord : Type 0 where
  pub timestamp_ns : ℕ
  pub buffer_id : ℕ
  pub parent_id : ℕ
  pub handle : ℕ
  pub pool_id : ℕ
  pub transfer_sequence : ℕ
  pub component_id : ℕ
  pub event : TraceEvent

-- `zipc_component_status_t`
pub record Component : Type 0 where
  pub lifecycle : ℕ
  pub last_heartbeat_ns : ℕ
  pub recovered_slots : ℕ

-- `zipc_slot_control_t`
pub record Slot : Type 0 where
  pub state : SlotState
  pub generation : ℕ
  pub owner_id : ℕ
  pub next_owner_id : ℕ
  pub owner_epoch : ℕ
  pub hop_count : ℕ
  pub hop_limit : ℕ
  pub visited : VisitedSet
  pub identity : Identity
  pub region : Region
  pub transfer_sequence : ℕ
  pub payload_type : ℕ
  pub flags : ℕ
  pub error_flags : ℕ
  pub acquired_ns : ℕ
  pub deadline_ns : ℕ
  pub trace_count : ℕ
  pub recovery_count : ℕ
  pub claim_token : ℕ
  pub claim_previous_sequence : ℕ
  pub claim_previous_region : Region
  pub claim_previous_owner : ℕ
  pub claim_previous_owner_epoch : ℕ
  pub transfer_link_id : ℕ
  pub transfer_source_id : ℕ
  pub transfer_source_epoch : ℕ
  pub transfer_hop_count : ℕ
  pub transfer_acquired_ns : ℕ
  pub transfer_visited : VisitedSet
  pub trace : ℕ → TraceEntry

-- `zipc_pool_header_t`, without the layout words that only `zipc_pool_format` and
-- `zipc_pool_attach` read
pub record Header : Type 0 where
  pub slot_count : ℕ
  pub slot_capacity : ℕ
  pub slot_stride : ℕ
  pub allocation_cursor : ℕ
  pub allocation_count : ℕ
  pub release_count : ℕ
  pub allocation_failure_count : ℕ
  pub protocol_error_count : ℕ
  pub recovery_count : ℕ
  pub components : ℕ → Component

-- `zipc_pool_t` with the memory that it points to; `strict` is ZIPC_POOL_F_STRICT_OWNERSHIP.
pub record Pool : Type 0 where
  pub header : Header
  pub controls : ℕ → Slot
  pub payload : ℕ → ℕ
  pub payload_offset : ℕ
  pub strict : Bool
  pub pool_id : ℕ

-- `zipc_buffer_id_generator_t`
pub record Generator : Type 0 where
  pub session_state : ℕ
  pub sequence : ℕ
  pub active : ℕ

-- `zipc_message_t`
pub record Message : Type 0 where
  pub handle : ℕ
  pub pool_id : ℕ
  pub source_component : ℕ
  pub destination_component : ℕ
  pub transfer_sequence : ℕ
  pub flags : ℕ

-- `zipc_buffer_impl_t`: `control` is none for NULL, `attached` says that `pool` is not NULL, and
-- `local_owned` that `local_state` is ZIPC_BUFFER_LOCAL_OWNED.
pub record Buffer : Type 0 where
  pub handle : ℕ
  pub slot_id : ℕ
  pub control : Option ℕ
  pub slot_base : ℕ
  pub payload_start : ℕ
  pub length : ℕ
  pub capacity : ℕ
  pub attached : Bool
  pub owner : ℕ
  pub local_owned : Bool
  pub owner_epoch : ℕ
  pub pool_id : ℕ

-- A process and the pool that it is attached to. `calls` numbers the platform calls made so far;
-- `emitted` is what the trace hook was given, the newest first, if one is set (`hooked`).
pub record World : Type 0 where
  pub pool : Pool
  pub generators : ℕ → Generator
  pub calls : ℕ
  pub hooked : Bool
  pub emitted : List TraceRecord

abbrev pub region_zero : Region
region_zero = record { offset = 0; length = 0 }

abbrev pub visited_zero : VisitedSet
visited_zero = visited_none

abbrev pub entry_zero : TraceEntry
entry_zero = record { timestamp_ns = 0; sequence = 0; component_id = 0; event = none }

abbrev pub trace_zero : ℕ → TraceEntry
trace_zero i = entry_zero

-- `buffer_invalidate`: `memset(buffer, 0, sizeof(*buffer))`
abbrev pub buffer_invalid : Buffer
buffer_invalid = record {
  handle = 0;
  slot_id = 0;
  control = none;
  slot_base = 0;
  payload_start = 0;
  length = 0;
  capacity = 0;
  attached = false;
  owner = 0;
  local_owned = false;
  owner_epoch = 0;
  pool_id = 0;
}

abbrev pub same_state : SlotState → SlotState → Bool
same_state free t = is_free t
same_state claiming t = is_claiming t
same_state owned t = is_owned t
same_state in_transfer t = is_in_transfer t
same_state fault t = is_fault t

-- `atomic_compare_exchange_strong_explicit` on the state and on the claim token of a slot
abbrev pub cas_state : SlotState → SlotState → Slot → Bool × Slot
cas_state expected desired s =
    if same_state expected s.state then (true, record s { state = desired }) else (false, s)

abbrev pub cas_token : ℕ → ℕ → Slot → Bool × Slot
cas_token expected desired s =
    if s.claim_token == expected then (true, record s { claim_token = desired }) else (false, s)

-- `clear_claim_token`
abbrev pub clear_claim_token : Slot → ℕ → Slot
clear_claim_token s token = record s {
  claim_token = if s.claim_token == token then 0 else s.claim_token;
}

-- The write of the slot that `&pool->controls[slot_id]` points to.
abbrev pub put_slot : World → ℕ → Slot → World
put_slot w slot_id s = record w {
  pool = record (w.pool) { controls = update w.pool.controls slot_id s };
}
