-- ===== src/Buffer/Window.antt =====
-- The payload window of an owned buffer (src/core/zipc.c: zipc_buffer_set_region and
-- zipc_buffer_resize to zipc_buffer_tailroom). Source bytes are given as a list; the window lies
-- from `offset` on in the slot's bytes.
pub mod Bytes
pub mod Laws
use z_ipc.State.{put_slot, Buffer, World}
use z_ipc.Base.{
  zero, ◌==◌, ◌||◌, ◌+◌, length, ltb, none, some, suc, not, update, if◌then◌else◌, [], ◌∷◌, List,
  Option, ℕ,
}
use z_ipc.Status.{deadline_none, hop_limit_unlimited, region_overflow, ok, invalid_buffer, Status}
use z_ipc.Buffer.{index_of, control_of, buffer_owned}
use z_ipc.Word.{sub64, sub32, u32, u32_max}

-- `memcpy` into and out of the payload memory
abbrev pub write_bytes : (ℕ → ℕ) → ℕ → List ℕ → ℕ → ℕ
write_bytes payload start [] = payload
write_bytes payload start (x ∷ xs) = update (write_bytes payload (start + 1) xs) start x

abbrev pub read_bytes : (ℕ → ℕ) → ℕ → ℕ → List ℕ
read_bytes payload start zero = []
read_bytes payload start (suc n) = payload start ∷ read_bytes payload (start + 1) n

abbrev pub put_payload : World → (ℕ → ℕ) → World
put_payload w payload = record w { pool = record (w.pool) { payload = payload } }

unfoldable pub buffer_set_region : World → Buffer → ℕ → ℕ → Status × Buffer × World
buffer_set_region w b offset count =
    if not (buffer_owned w b)
    then (invalid_buffer, b, w)
    else if ltb b.capacity offset || ltb (sub32 b.capacity offset) count
    then (region_overflow, b, w)
    else (
      ok,
      record b { payload_start = b.slot_base + offset; length = count },
      put_slot w (index_of b.control)
          (record (control_of w b) { region = record { offset = offset; length = count } }),
    )

unfoldable pub buffer_size : World → Buffer → ℕ
buffer_size w b = if buffer_owned w b then b.length else 0

unfoldable pub buffer_capacity : World → Buffer → ℕ
buffer_capacity w b = if buffer_owned w b then b.capacity else 0

unfoldable pub buffer_headroom : World → Buffer → ℕ
buffer_headroom w b = if buffer_owned w b then (control_of w b).region.offset else 0

unfoldable pub buffer_tailroom : World → Buffer → ℕ
buffer_tailroom w b =
    if not (buffer_owned w b)
      || ltb b.capacity (control_of w b).region.offset
      || ltb (sub32 b.capacity (control_of w b).region.offset) b.length
    then 0
    else sub32 (sub32 b.capacity (control_of w b).region.offset) b.length

-- `none` is NULL.
unfoldable pub buffer_data : World → Buffer → Option ℕ
buffer_data w b = if buffer_owned w b then some b.payload_start else none

unfoldable pub buffer_at : World → Buffer → ℕ → ℕ → Option ℕ
buffer_at w b offset count =
    if not (buffer_owned w b)
    then none
    else if ltb b.capacity offset || ltb (sub64 b.capacity offset) count
    then none
    else some (b.slot_base + offset)

unfoldable pub buffer_resize : World → Buffer → ℕ → Status × Buffer × World
unfolding buffer_headroom buffer_tailroom
buffer_resize w b size =
    if not (buffer_owned w b)
    then (invalid_buffer, b, w)
    else if ltb u32_max size
        || ltb (u32 (u32 (buffer_headroom w b + buffer_tailroom w b) + b.length)) size
    then (region_overflow, b, w)
    else if ltb (sub32 b.capacity (control_of w b).region.offset) size
    then (region_overflow, b, w)
    else buffer_set_region w b (control_of w b).region.offset (u32 size)

unfoldable pub buffer_append : World → Buffer → List ℕ → Status × Buffer × World
unfolding buffer_tailroom
buffer_append w b bytes =
    if not (buffer_owned w b)
    then (invalid_buffer, b, w)
    else if ltb (buffer_tailroom w b) (length bytes)
    then (region_overflow, b, w)
    else buffer_set_region
        (put_payload w (write_bytes w.pool.payload (b.payload_start + b.length) bytes)) b
        (control_of w b).region.offset (u32 (b.length + length bytes))

unfoldable pub buffer_prepend : World → Buffer → List ℕ → Status × Buffer × World
unfolding buffer_headroom
buffer_prepend w b bytes =
    if not (buffer_owned w b)
    then (invalid_buffer, b, w)
    else if ltb (buffer_headroom w b) (length bytes)
    then (region_overflow, b, w)
    else buffer_set_region
        (put_payload w (
          write_bytes w.pool.payload
            (b.slot_base + sub32 (control_of w b).region.offset (length bytes)) bytes))
        b (sub32 (control_of w b).region.offset (length bytes)) (u32 (b.length + length bytes))

unfoldable pub buffer_trim_front : World → Buffer → ℕ → Status × Buffer × World
buffer_trim_front w b count =
    if not (buffer_owned w b)
    then (invalid_buffer, b, w)
    else if ltb b.length count
    then (region_overflow, b, w)
    else buffer_set_region w b (u32 ((control_of w b).region.offset + count)) (sub32 b.length count)

unfoldable pub buffer_trim_back : World → Buffer → ℕ → Status × Buffer × World
buffer_trim_back w b count =
    if not (buffer_owned w b)
    then (invalid_buffer, b, w)
    else if ltb b.length count
    then (region_overflow, b, w)
    else buffer_set_region w b (control_of w b).region.offset (sub32 b.length count)

-- `zipc_buffer_set_limits`: zero asks for no limit.
unfoldable pub buffer_set_limits : World → Buffer → ℕ → ℕ → Status × World
buffer_set_limits w b limit absolute_deadline_ns =
    if not (buffer_owned w b) then (invalid_buffer, w) else (
      ok,
      put_slot w (index_of b.control) (record (control_of w b) {
        hop_limit = if limit == 0 then hop_limit_unlimited else limit;
        deadline_ns = if absolute_deadline_ns == 0 then deadline_none else absolute_deadline_ns;
      }),
    )
