-- ===== src/Protocol/Frame.antt =====
-- Views of the state by which the protocol's theorems say what changes: the part of a slot that
-- the protocol is about, and the part of the pool that no protocol operation writes.
use z_ipc.State.{put_slot, Slot, World, Region, Identity, Component}
use z_ipc.Trace.{trace_slot, record_protocol_error, record_slot_error, trace_external_event}
use z_ipc.Status.{TraceEvent, SlotState}
use z_ipc.Base.{refl, arith, ap, ◌≡◌, ◌∙◌, ◌≢◌, Bool, ℕ}
use z_ipc.Platform.{Platform}
use z_ipc.VisitedSet.{VisitedSet}

-- Who holds the slot, where it stands in the protocol, and its lineage.
pub record Core : Type 0 where
  pub state : SlotState
  pub generation : ℕ
  pub owner_id : ℕ
  pub owner_epoch : ℕ
  pub next_owner_id : ℕ
  pub sequence : ℕ
  pub hop_count : ℕ
  pub hop_limit : ℕ
  pub deadline_ns : ℕ
  pub visited : VisitedSet
  pub identity : Identity
  pub region : Region

abbrev pub core_of : Slot → Core
core_of s = record {
  state = s.state;
  generation = s.generation;
  owner_id = s.owner_id;
  owner_epoch = s.owner_epoch;
  next_owner_id = s.next_owner_id;
  sequence = s.transfer_sequence;
  hop_count = s.hop_count;
  hop_limit = s.hop_limit;
  deadline_ns = s.deadline_ns;
  visited = s.visited;
  identity = s.identity;
  region = s.region;
}

-- The pool but for its slots and counters.
pub record Layout : Type 0 where
  pub slot_count : ℕ
  pub slot_capacity : ℕ
  pub slot_stride : ℕ
  pub components : ℕ → Component
  pub payload : ℕ → ℕ
  pub payload_offset : ℕ
  pub strict : Bool
  pub pool_id : ℕ

abbrev pub layout_of : World → Layout
layout_of w = record {
  slot_count = w.pool.header.slot_count;
  slot_capacity = w.pool.header.slot_capacity;
  slot_stride = w.pool.header.slot_stride;
  components = w.pool.header.components;
  payload = w.pool.payload;
  payload_offset = w.pool.payload_offset;
  strict = w.pool.strict;
  pool_id = w.pool.pool_id;
}

-- What an operation on one slot leaves alone.
pub record Frame (w : World) (slot_id : ℕ) (w' : World) : Type 0 where
  pub others : (j : ℕ) → slot_id ≢ j → w'.pool.controls j ≡ w.pool.controls j
  pub same_layout : layout_of w' ≡ layout_of w

pub Frame-trans :
    {w w1 w' : World} {slot_id : ℕ} → Frame w slot_id w1 → Frame w1 slot_id w' → Frame w slot_id w'
Frame-trans f g = record {
  others = λ j ne. g.others j ne ∙ f.others j ne;
  same_layout = g.same_layout ∙ f.same_layout;
}

pub Frame-of_pool : {w w' : World} (slot_id : ℕ) → w'.pool ≡ w.pool → Frame w slot_id w'
Frame-of_pool slot_id e = record { others = λ j ne. cc; same_layout = ground arith }

pub Frame-put_slot : (w : World) (slot_id : ℕ) (s : Slot) → Frame w slot_id (put_slot w slot_id s)
Frame-put_slot w slot_id s = record { others = λ j ne. ground arith; same_layout = refl }

module _ (p : Platform) (w : World) where
  pub controls-record_protocol_error :
      (component : ℕ) → (record_protocol_error p w component).pool.controls ≡ w.pool.controls
  unfolding record_protocol_error trace_external_event
  controls-record_protocol_error component = refl

  pub layout-record_protocol_error :
      (component : ℕ) → layout_of (record_protocol_error p w component) ≡ layout_of w
  unfolding record_protocol_error trace_external_event
  layout-record_protocol_error component = refl

  pub pool-trace_slot :
      (slot_id : ℕ) (s : Slot) (component : ℕ) (event : TraceEvent)
      → (trace_slot p w slot_id s component event).1.pool ≡ w.pool
  unfolding trace_slot
  pool-trace_slot slot_id s component event = refl

  pub core-trace_slot :
      (slot_id : ℕ) (s : Slot) (component : ℕ) (event : TraceEvent)
      → core_of (trace_slot p w slot_id s component event).0 ≡ core_of s
  unfolding trace_slot
  core-trace_slot slot_id s component event = refl

  pub controls-record_slot_error :
      (slot_id : ℕ) (s : Slot) (component : ℕ)
      → (record_slot_error p w slot_id s component).1.pool.controls ≡ w.pool.controls
  unfolding record_slot_error trace_slot
  controls-record_slot_error slot_id s component = refl

  pub layout-record_slot_error :
      (slot_id : ℕ) (s : Slot) (component : ℕ)
      → layout_of (record_slot_error p w slot_id s component).1 ≡ layout_of w
  unfolding record_slot_error trace_slot
  layout-record_slot_error slot_id s component = refl

  pub Frame-record_protocol_error :
      (slot_id component : ℕ) → Frame w slot_id (record_protocol_error p w component)
  Frame-record_protocol_error slot_id component = record {
    others = λ j ne. ap (λ c. c j) (controls-record_protocol_error component);
    same_layout = layout-record_protocol_error component;
  }

  pub Frame-record_slot_error :
      (slot_id : ℕ) (s : Slot) (component : ℕ)
      → Frame w slot_id (record_slot_error p w slot_id s component).1
  Frame-record_slot_error slot_id s component = record {
    others = λ j ne. ap (λ c. c j) (controls-record_slot_error slot_id s component);
    same_layout = layout-record_slot_error slot_id s component;
  }
