-- ===== src/Tests.antt =====
-- A small pool with two slots of 64 bytes and the registered components 16 and 32, on a platform
-- whose clock counts calls, whose pages always open and whose draws succeed.
mod Protocol
mod Ownership
mod Words
mod Windows
mod Identities
mod Components
mod Recoveries
mod Rings
mod Baremetal
mod Topologies
mod Links
mod Pools
mod Copies
mod Interleavings
use z_ipc.Platform.{Platform}
use z_ipc.State.{trace_zero, region_zero, visited_zero, Buffer, Message, World, Component, Slot}
use z_ipc.Base.{[], false, ◌%◌, ◌||◌, true, ◌^◌, ◌==◌, some, ◌*◌, if◌then◌else◌, ◌+◌, ℕ}
use z_ipc.Status.{
  deadline_none, hop_limit_unlimited, invalid_component_id, ok, in_transfer, owned, free,
}
use z_ipc.Handle.{state_code, active, component_lifecycle_make}

abbrev pub platform : Platform
platform = record {
  time_ns = λ call. call + 1000;
  protect = λ call offset count read_write. ok;
  random = λ call. (ok, call + 77);
}

abbrev pub slot_free : Slot
slot_free = record {
  state = free;
  generation = 6;
  owner_id = invalid_component_id;
  next_owner_id = invalid_component_id;
  owner_epoch = 0;
  hop_count = 0;
  hop_limit = hop_limit_unlimited;
  visited = visited_zero;
  identity = record { id = 0; parent_id = 0 };
  region = region_zero;
  transfer_sequence = 0;
  payload_type = 0;
  flags = 0;
  error_flags = 0;
  acquired_ns = 0;
  deadline_ns = deadline_none;
  trace_count = 0;
  recovery_count = 0;
  claim_token = 0;
  claim_previous_sequence = 0;
  claim_previous_region = region_zero;
  claim_previous_owner = invalid_component_id;
  claim_previous_owner_epoch = 0;
  transfer_link_id = 0;
  transfer_source_id = invalid_component_id;
  transfer_source_epoch = 0;
  transfer_hop_count = 0;
  transfer_acquired_ns = 0;
  transfer_visited = visited_zero;
  trace = trace_zero;
}

abbrev pub component_active : Component
component_active = record {
  lifecycle = 1 * 2 ^ 32 + state_code active;
  last_heartbeat_ns = 0;
  recovered_slots = 0;
}

abbrev pub component_absent : Component
component_absent = record { lifecycle = 0; last_heartbeat_ns = 0; recovered_slots = 0 }

-- The pool with `s` in slot 0 and `t` in slot 1.
abbrev pub world_with : Slot → Slot → World
world_with s t = record {
  pool = record {
    header = record {
      slot_count = 2;
      slot_capacity = 64;
      slot_stride = 128;
      allocation_cursor = 0;
      allocation_count = 0;
      release_count = 0;
      allocation_failure_count = 0;
      protocol_error_count = 0;
      recovery_count = 0;
      components = λ c. if (c == 16) || (c == 32) then component_active else component_absent;
    };
    controls = λ j. if j == 0 then s else t;
    payload = λ i. i % 256;
    payload_offset = 4096;
    strict = true;
    pool_id = 9;
  };
  generators = λ c. record { session_state = 0; sequence = 0; active = 0 };
  calls = 0;
  hooked = false;
  emitted = [];
}

-- Slot 0 owned by component 16, with a region of 10 bytes at offset 20.
abbrev pub slot_owned : Slot
slot_owned = record slot_free {
  state = owned;
  generation = 7;
  owner_id = 16;
  owner_epoch = 1;
  hop_count = 1;
  region = record { offset = 20; length = 10 };
}

abbrev pub world_free : World
world_free = world_with slot_free slot_free

abbrev pub world_owned : World
world_owned = world_with slot_owned slot_free

-- The handle to slot 0 in generation 7.
abbrev pub handle_owned : ℕ
handle_owned = 7 * 2 ^ 32

abbrev pub message_none : Message
message_none = record {
  handle = 0;
  pool_id = 0;
  source_component = 0;
  destination_component = 0;
  transfer_sequence = 0;
  flags = 0;
}

-- What the transfer of slot 0 from component 16 to component 32 says.
abbrev pub message_sent : Message
message_sent = record {
  handle = handle_owned;
  pool_id = 9;
  source_component = 16;
  destination_component = 32;
  transfer_sequence = 1;
  flags = 0;
}

-- Slot 0 on its way from component 16 to component 32.
abbrev pub slot_sent : Slot
slot_sent = record slot_owned { state = in_transfer; next_owner_id = 32; transfer_sequence = 1 }

abbrev pub world_sent : World
world_sent = world_with slot_sent slot_free

abbrev pub buffer_view : Buffer
buffer_view = record {
  handle = handle_owned;
  slot_id = 0;
  control = some 0;
  slot_base = 0;
  payload_start = 20;
  length = 10;
  capacity = 64;
  attached = true;
  owner = 16;
  local_owned = true;
  owner_epoch = 1;
  pool_id = 9;
}
