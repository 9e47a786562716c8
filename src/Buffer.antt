-- ===== src/Buffer.antt =====
-- The local view of a slot (src/core/zipc.c: make_view, buffer_valid, buffer_owned,
-- zipc_buffer_from_handle, the accessors), and the operations that move its payload window
-- (zipc_buffer_set_region to zipc_buffer_trim_back).
pub mod Window
use z_ipc.Status.{
  component_stale, not_owner, invalid_state, stale_handle, invalid_argument, is_owned,
  component_id_valid, Status, ok, region_overflow,
}
use z_ipc.State.{buffer_invalid, Slot, Buffer, World}
use z_ipc.Base.{
  none, ◌+◌, ◌*◌, leb, ◌||◌, ◌==◌, not, true, ltb, ◌&&◌, some, if◌then◌else◌, false, Bool, Option,
  ℕ,
}
use z_ipc.Handle.{handle_generation, handle_slot_id}
use z_ipc.Word.{sub32}
use z_ipc.Component.{registered_epoch}

-- The buffer is written only if the region lies in the slot.
unfoldable pub make_view : World → ℕ → Slot → ℕ → Buffer → Status × Buffer
make_view w slot_id s handle buffer =
    if ltb w.pool.header.slot_capacity s.region.offset
      || ltb (sub32 w.pool.header.slot_capacity s.region.offset) s.region.length
    then (region_overflow, buffer)
    else (
      ok,
      record {
        handle = handle;
        slot_id = slot_id;
        control = some slot_id;
        slot_base = slot_id * w.pool.header.slot_stride;
        payload_start = slot_id * w.pool.header.slot_stride + s.region.offset;
        length = s.region.length;
        capacity = w.pool.header.slot_capacity;
        attached = true;
        owner = s.owner_id;
        local_owned = true;
        owner_epoch = s.owner_epoch;
        pool_id = w.pool.pool_id;
      },
    )

-- `buffer->control != NULL`, and the slot that it points to
abbrev pub has_control : Option ℕ → Bool
has_control none = false
has_control (some slot_id) = true

abbrev pub index_of : Option ℕ → ℕ
index_of none = 0
index_of (some slot_id) = slot_id

abbrev pub control_of : World → Buffer → Slot
control_of w b = w.pool.controls (index_of b.control)

unfoldable pub buffer_valid : Buffer → Bool
buffer_valid b = b.local_owned && has_control b.control && b.attached

unfoldable pub buffer_owned : World → Buffer → Bool
unfolding buffer_valid
buffer_owned w b =
    buffer_valid b
    && ((control_of w b).generation == handle_generation b.handle)
    && is_owned (control_of w b).state
    && ((control_of w b).owner_id == b.owner)
    && ((control_of w b).owner_epoch == b.owner_epoch)
    && (registered_epoch w.pool b.owner == b.owner_epoch)

unfoldable pub buffer_from_handle : World → ℕ → ℕ → Buffer → Status × Buffer
buffer_from_handle w handle expected_owner buffer =
    if not (component_id_valid expected_owner)
    then (invalid_argument, buffer)
    else if leb w.pool.header.slot_count slot_id
    then (Status.invalid_handle, buffer_invalid)
    else if not (s.generation == handle_generation handle)
    then (stale_handle, buffer_invalid)
    else if not (is_owned s.state)
    then (invalid_state, buffer_invalid)
    else if not (s.owner_id == expected_owner)
    then (not_owner, buffer_invalid)
    else if not (s.owner_epoch == registered_epoch w.pool expected_owner)
    then (component_stale, buffer_invalid)
    else make_view w slot_id s handle buffer_invalid
  where
    slot_id : ℕ
    slot_id = handle_slot_id handle

    s : Slot
    s = w.pool.controls slot_id
