-- ===== src/Trace.antt =====
-- The trace ring of a slot, the process's trace hook, and the protocol error count
-- (src/core/zipc.c: trace_slot, record_protocol_error, trace_external_event,
-- zipc_slot_trace_copy).
use z_ipc.Base.{ℕ, zero, suc, ◌+◌, ◌%◌, some, List, [], ◌∷◌, ltb, if◌then◌else◌}
use z_ipc.Base.{update}
use z_ipc.Word.{u32, u64}
use z_ipc.Status.{TraceEvent, error, trace_depth, invalid_handle_value}
use z_ipc.Handle.{handle_make}
use z_ipc.State.{TraceEntry, TraceRecord, Slot, World}
use z_ipc.Platform.{Platform, tick, now_ns}

-- What the hook is given, if one is set.
abbrev pub emit : World → TraceRecord → World
emit w r = record w { emitted = if w.hooked then r ∷ w.emitted else w.emitted }

abbrev trace_entry : ℕ → Slot → ℕ → TraceEvent → TraceEntry
trace_entry now s component event = record {
  timestamp_ns = now;
  sequence = s.transfer_sequence;
  component_id = component;
  event = some event;
}

abbrev slot_record : ℕ → ℕ → ℕ → Slot → ℕ → TraceEvent → TraceRecord
slot_record now pool_id slot_id s component event = record {
  timestamp_ns = now;
  buffer_id = s.identity.id;
  parent_id = s.identity.parent_id;
  handle = handle_make slot_id s.generation;
  pool_id = pool_id;
  transfer_sequence = s.transfer_sequence;
  component_id = component;
  event = event;
}

-- The slot is the caller's pointer; it is written back by the caller.
unfoldable pub trace_slot : Platform → World → ℕ → Slot → ℕ → TraceEvent → Slot × World
trace_slot p w slot_id s component event = (
  record s {
    trace = update s.trace (s.trace_count % trace_depth) (trace_entry now s component event);
    trace_count = u32 (s.trace_count + 1);
  },
  emit (tick w) (slot_record now w.pool.pool_id slot_id s component event),
)
  where
    now : ℕ
    now = now_ns p w

-- The time is read only where a hook is set.
unfoldable pub trace_external_event : Platform → World → ℕ → ℕ → ℕ → TraceEvent → World
trace_external_event p w handle transfer_sequence component event = record w {
  calls = if w.hooked then suc w.calls else w.calls;
  emitted = if w.hooked then external ∷ w.emitted else w.emitted;
}
  where
    external : TraceRecord
    external = record {
      timestamp_ns = now_ns p w;
      buffer_id = 0;
      parent_id = 0;
      handle = handle;
      pool_id = w.pool.pool_id;
      transfer_sequence = transfer_sequence;
      component_id = component;
      event = event;
    }

abbrev pub count_protocol_error : World → World
count_protocol_error w = record w {
  pool = record (w.pool) {
    header = record (w.pool.header) {
      protocol_error_count = u64 (w.pool.header.protocol_error_count + 1);
    };
  };
}

-- `record_protocol_error(pool, NULL, component)`
unfoldable pub record_protocol_error : Platform → World → ℕ → World
unfolding trace_external_event
record_protocol_error p w component =
    trace_external_event p (count_protocol_error w) invalid_handle_value 0 component error

-- `record_protocol_error(pool, slot, component)`
unfoldable pub record_slot_error : Platform → World → ℕ → Slot → ℕ → Slot × World
unfolding trace_slot
record_slot_error p w slot_id s component =
    trace_slot p (count_protocol_error w) slot_id s component error

-- The entries from ring index `start + i` on, `n` of them.
trace_entries : (ℕ → TraceEntry) → ℕ → ℕ → List TraceEntry
trace_entries trace position zero = []
trace_entries trace position (suc n) =
    trace (position % trace_depth) ∷ trace_entries trace (position + 1) n

unfoldable pub slot_trace_copy : Slot → ℕ → List TraceEntry
unfolding trace_entries
slot_trace_copy s capacity = trace_entries s.trace start count
  where
    held : ℕ
    held = if ltb s.trace_count trace_depth then s.trace_count else trace_depth

    count : ℕ
    count = if ltb capacity held then capacity else held

    start : ℕ
    start = if ltb trace_depth s.trace_count then s.trace_count % trace_depth else 0
