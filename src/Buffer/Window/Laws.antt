-- ===== src/Buffer/Window/Laws.antt =====
-- Theorems on the operations of the payload window, by the bytes that a buffer shows.
use z_ipc.Buffer.Window.{
  buffer_trim_back, buffer_trim_front, buffer_prepend, write_bytes, buffer_append, buffer_tailroom,
  buffer_headroom, read_bytes, buffer_set_region,
}
use z_ipc.Buffer.{buffer_owned, buffer_valid, control_of}
use z_ipc.State.{Buffer, World}
use z_ipc.Component.{registered_epoch}
use z_ipc.Base.{
  ◌∙◌, ap, take, drop, inr, inl, ◌-◌, sym, ◌++◌, length, arith, ◌^◌, ◌≤◌, ◌<◌, ◌+◌, true, ℕ, List,
  ◌≡◌,
}
use z_ipc.Status.{region_overflow, ok, Status}
use mathlib.Core.Path.{ap₂, subst₃}
use z_ipc.Buffer.Window.Bytes.{
  take-read_bytes, drop-read_bytes, read-write_self, read-write-Apart, read_bytes-add,
}
use z_ipc.Word.{u32, sub32}

-- An owned buffer whose view agrees with its slot.
pub record IsView (w : World) (b : Buffer) : Type 0 where
  pub is_mine : buffer_owned w b ≡ true
  pub small : b.capacity < 2 ^ 32
  pub fits : (control_of w b).region.offset + b.length ≤ b.capacity
  pub same_length : (control_of w b).region.length ≡ b.length
  pub same_start : b.payload_start ≡ b.slot_base + (control_of w b).region.offset

abbrev pub contents : World → Buffer → List ℕ
contents w b = read_bytes w.pool.payload b.payload_start b.length

-- What an operation does to the bytes of a view: `Shows w b offset bytes r` says that it succeeded,
-- and that the view now shows `bytes` from `offset` on in the same slot.
pub record Shows (w : World) (b : Buffer) (offset : ℕ) (bytes : List ℕ)
    (r : Status × Buffer × World) : Type 0 where
  pub status : r.0 ≡ ok
  pub view : IsView r.2 r.1
  pub at_offset : (control_of r.2 r.1).region.offset ≡ offset
  pub same_slot : (r.1.slot_base ≡ b.slot_base) × (r.1.capacity ≡ b.capacity)
  pub shown : contents r.2 r.1 ≡ bytes

-- The region is set whether or not the payload has been written before.
set_region-Shows :
    (w : World) (b : Buffer) (offset count : ℕ) (payload : ℕ → ℕ)
    → IsView w b
    → offset + count ≤ b.capacity
    → let m = record w { pool = record (w.pool) { payload = payload } } in
      Shows w b offset
        (read_bytes payload (b.slot_base + offset) count)
        (buffer_set_region m b offset count)
unfolding buffer_set_region buffer_owned buffer_valid registered_epoch
set_region-Shows w b offset count payload v h = record {
  status = ground arith;
  view = record {
    is_mine = ground arith;
    small = ground arith;
    fits = ground arith;
    same_length = ground arith;
    same_start = ground arith;
  };
  at_offset = ground arith;
  same_slot = ground arith;
  shown = ground arith;
}

-- The same operation, its offset, bytes and result written otherwise.
Shows-cast :
    {w : World} {b : Buffer} {o o' : ℕ} {xs ys : List ℕ} {r r' : Status × Buffer × World}
    → r ≡ r'
    → o ≡ o'
    → xs ≡ ys
    → Shows w b o xs r
    → Shows w b o' ys r'
Shows-cast {w} {b} p q e = subst₃ (λ r o xs. Shows w b o xs r) p q e

module _ (w : World) (b : Buffer) (v : IsView w b) where
  open v use {is_mine, small, fits, same_start}

  abbrev offset : ℕ
  offset = (control_of w b).region.offset

  abbrev written : (ℕ → ℕ) → World
  written payload = record w { pool = record (w.pool) { payload = payload } }

  headroom_lem : buffer_headroom w b ≡ offset
  unfolding buffer_headroom
  headroom_lem = rw is_mine

  tailroom_lem : buffer_tailroom w b + offset + b.length ≡ b.capacity
  unfolding buffer_tailroom
  tailroom_lem = ground arith

  append_runs :
      (bytes : List ℕ)
      → length bytes ≤ buffer_tailroom w b
      → buffer_set_region
          (written (write_bytes w.pool.payload (b.payload_start + b.length) bytes))
          b
          offset
          (b.length + length bytes)
        ≡ buffer_append w b bytes
  unfolding buffer_append
  append_runs bytes h = ground (arith, tailroom_lem)

  append_bytes :
      (bytes : List ℕ)
      → read_bytes
          (write_bytes w.pool.payload (b.payload_start + b.length) bytes)
          (b.slot_base + offset)
          (b.length + length bytes)
        ≡ contents w b ++ bytes
  append_bytes bytes =
      rw (← same_start, read_bytes-add)
        (ap₂ ◌++◌
          (read-write-Apart w.pool.payload (b.payload_start + b.length) b.payload_start b.length
            bytes (inl (omega arith)))
          (read-write_self w.pool.payload (b.payload_start + b.length) bytes))

  -- In an owned buffer whose view agrees with its slot, bytes appended follow the bytes of the
  -- buffer, if the tailroom holds them.
  buffer_append_lem :
      (bytes : List ℕ)
      → length bytes ≤ buffer_tailroom w b
      → Shows w b (buffer_headroom w b) (contents w b ++ bytes) (buffer_append w b bytes)
  buffer_append_lem bytes h =
      Shows-cast (append_runs bytes h) (sym headroom_lem) (append_bytes bytes) (
        set_region-Shows w b offset (b.length + length bytes)
          (write_bytes w.pool.payload (b.payload_start + b.length) bytes) v
          (omega (arith, tailroom_lem)))

  prepend_runs :
      (bytes : List ℕ)
      → length bytes ≤ offset
      → buffer_set_region
          (written (write_bytes w.pool.payload (b.slot_base + (offset - length bytes)) bytes))
          b
          (offset - length bytes)
          (length bytes + b.length)
        ≡ buffer_prepend w b bytes
  unfolding buffer_prepend
  prepend_runs bytes h = rw (is_mine, back, total) (ground (arith, headroom_lem))
    where
      back : sub32 offset (length bytes) ≡ offset - length bytes
      back = omega arith

      total : u32 (b.length + length bytes) ≡ length bytes + b.length
      total = omega arith

  prepend_bytes :
      (bytes : List ℕ)
      → length bytes ≤ offset
      → read_bytes
          (write_bytes w.pool.payload (b.slot_base + (offset - length bytes)) bytes)
          (b.slot_base + (offset - length bytes))
          (length bytes + b.length)
        ≡ bytes ++ contents w b
  prepend_bytes bytes h = rw read_bytes-add (
      ap₂ ◌++◌ (read-write_self w.pool.payload (b.slot_base + (offset - length bytes)) bytes) (
        rw reached (
          read-write-Apart w.pool.payload (b.slot_base + (offset - length bytes)) b.payload_start
            b.length bytes (inr (omega arith)))))
    where
      reached : b.slot_base + (offset - length bytes) + length bytes ≡ b.payload_start
      reached = omega arith

  -- In an owned buffer whose view agrees with its slot, bytes prepended precede the bytes of the
  -- buffer, if the headroom holds them, and the headroom shrinks by their number.
  buffer_prepend_lem :
      (bytes : List ℕ)
      → length bytes ≤ buffer_headroom w b
      → Shows w b
          (buffer_headroom w b - length bytes)
          (bytes ++ contents w b)
          (buffer_prepend w b bytes)
  buffer_prepend_lem bytes h =
      let room : length bytes ≤ offset = omega (arith, headroom_lem) in
      Shows-cast (prepend_runs bytes room) (rw headroom_lem) (prepend_bytes bytes room) (
        set_region-Shows w b (offset - length bytes) (length bytes + b.length)
          (write_bytes w.pool.payload (b.slot_base + (offset - length bytes)) bytes) v
          (omega arith))

  trim_front_runs :
      (count : ℕ)
      → count ≤ b.length
      → buffer_set_region (written w.pool.payload) b (offset + count) (b.length - count)
        ≡ buffer_trim_front w b count
  unfolding buffer_trim_front
  trim_front_runs count h = rw (is_mine, wraps, left) (ground arith)
    where
      wraps : u32 (offset + count) ≡ offset + count
      wraps = omega arith

      left : sub32 b.length count ≡ b.length - count
      left = omega arith

  -- In an owned buffer whose view agrees with its slot, trimming no more bytes than there are from
  -- the front drops them and turns them into headroom.
  buffer_trim_front_lem :
      (count : ℕ)
      → count ≤ b.length
      → Shows w b
          (buffer_headroom w b + count)
          (drop count (contents w b))
          (buffer_trim_front w b count)
  buffer_trim_front_lem count h =
      Shows-cast (trim_front_runs count h) (rw headroom_lem)
        (ap (λ k. read_bytes w.pool.payload k (b.length - count)) (omega arith)
          ∙ sym (drop-read_bytes w.pool.payload b.payload_start count b.length h))
        (set_region-Shows w b (offset + count) (b.length - count) w.pool.payload v (omega arith))

  trim_back_runs :
      (count : ℕ)
      → count ≤ b.length
      → buffer_set_region (written w.pool.payload) b offset (b.length - count)
        ≡ buffer_trim_back w b count
  unfolding buffer_trim_back
  trim_back_runs count h = rw (is_mine, left) (ground arith)
    where
      left : sub32 b.length count ≡ b.length - count
      left = omega arith

  -- In an owned buffer whose view agrees with its slot, trimming no more bytes than there are from
  -- the back keeps a prefix of the bytes.
  buffer_trim_back_lem :
      (count : ℕ)
      → count ≤ b.length
      → Shows w b
          (buffer_headroom w b)
          (take (b.length - count) (contents w b))
          (buffer_trim_back w b count)
  buffer_trim_back_lem count h =
      Shows-cast (trim_back_runs count h) (sym headroom_lem)
        (ap (λ k. read_bytes w.pool.payload k (b.length - count)) (sym same_start)
          ∙ sym (
              take-read_bytes w.pool.payload b.payload_start (b.length - count) b.length
                (omega arith)))
        (set_region-Shows w b offset (b.length - count) w.pool.payload v (omega arith))

  -- In an owned buffer whose view agrees with its slot, each operation succeeds and moves the window
  -- as said, in the same slot. An append that the tailroom holds puts its bytes after those of the
  -- buffer; a prepend that the headroom holds puts them before, and takes them from the headroom; a
  -- trim of no more bytes than there are drops them from the front and turns them into headroom, or
  -- drops them from the back.
  pub buffer_window_lem :
      (added before : List ℕ) (count : ℕ)
      → length added ≤ buffer_tailroom w b
      → length before ≤ buffer_headroom w b
      → count ≤ b.length
      → Shows w b (buffer_headroom w b) (contents w b ++ added) (buffer_append w b added)
        × Shows w b
            (buffer_headroom w b - length before)
            (before ++ contents w b)
            (buffer_prepend w b before)
        × Shows w b
            (buffer_headroom w b + count)
            (drop count (contents w b))
            (buffer_trim_front w b count)
        × Shows w b
            (buffer_headroom w b)
            (take (b.length - count) (contents w b))
            (buffer_trim_back w b count)
  buffer_window_lem added before count ha hb hc = (
    buffer_append_lem added ha,
    buffer_prepend_lem before hb,
    buffer_trim_front_lem count hc,
    buffer_trim_back_lem count hc,
  )

  -- In an owned buffer whose view agrees with its slot, a window that does not fit is refused with
  -- the buffer, its slot and the payload unchanged: an append past the tailroom, a prepend past
  -- the headroom, a trim of more bytes than there are, and a region past the end of the slot.
  pub window_overflow_refused :
      (bytes : List ℕ) (count from : ℕ)
      → buffer_tailroom w b < length bytes
      → buffer_headroom w b < length bytes
      → b.length < count
      → from < 2 ^ 32
      → b.capacity < from + count
      → (buffer_append w b bytes ≡ (region_overflow, b, w))
        × (buffer_prepend w b bytes ≡ (region_overflow, b, w))
        × (buffer_trim_front w b count ≡ (region_overflow, b, w))
        × (buffer_trim_back w b count ≡ (region_overflow, b, w))
        × (buffer_set_region w b from count ≡ (region_overflow, b, w))
  unfolding buffer_append buffer_prepend buffer_trim_front buffer_trim_back buffer_set_region
  window_overflow_refused bytes count from ht hh hc hf hs =
      (ground arith, ground arith, ground arith, ground arith, ground arith)
