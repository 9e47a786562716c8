-- ===== src/Link/Copy/RoundTrip.antt =====
-- Bytes that are copied into a link at one end are copied out at the other.
use z_ipc.Base.{
  ◌&&◌, not, if◌then◌else◌, Bool, ◌+◌, ◌^◌, ◌<◌, refl, ◌*◌, false, ltb, [], true, sym, arith, ◌≤◌,
  ℕ, Option, some, List, length, ◌≡◌, ap, ◌∙◌,
}
use z_ipc.State.{buffer_invalid, Message, World, Buffer}
use z_ipc.Buffer.Window.{buffer_size, read_bytes, write_bytes, put_payload}
use z_ipc.Buffer.Window.Bytes.{length-read_bytes, read-write_self}
use z_ipc.Buffer.Window.Laws.{IsView, contents}
use z_ipc.Link.Copy.{recv_copy, copy_answer, copy_received, send_filled, Copied}
use z_ipc.Transport.{Transport}
use z_ipc.Transport.Queue.{IsQueue}
use z_ipc.Platform.{tick, protect_slot, now_ns, Platform}
use z_ipc.Link.{buffer_release, epoch_stale, Link}
use z_ipc.Status.{is_ok, Status, ok}
use z_ipc.Link.Send.{link_send}
use z_ipc.Link.Exchange.{link_recv-link_send, Arrived}
use z_ipc.Buffer.{buffer_owned}
use mathlib.Core.Path.{subst}
use z_ipc.Link.Send.Laws.{IsAnchored}
use z_ipc.Handle.{handle_slot_id}
use z_ipc.Protocol.Common.{past_deadline}
use z_ipc.Link.Receive.{link_recv}

-- The world with the bytes in the buffer's window.
abbrev pub filled : World → Buffer → List ℕ → World
filled w b bytes = put_payload w (write_bytes w.pool.payload b.payload_start bytes)

contents-filled :
    (w : World) (b : Buffer) (bytes : List ℕ)
    → b.length ≡ length bytes
    → contents (filled w b bytes) b ≡ bytes
contents-filled w b bytes e =
    ap (read_bytes (write_bytes w.pool.payload b.payload_start bytes) b.payload_start) e
    ∙ read-write_self w.pool.payload b.payload_start bytes

-- What a receive into memory of `capacity` bytes gives.
pub record Received {T : Type 0} (bytes : List ℕ) (x : Option (Copied T)) : Type 0 where
  pub copied : Copied T
  pub returns : x ≡ some copied
  pub actual_size : copied.actual_size ≡ some (length bytes)
  pub same_bytes : copied.bytes ≡ bytes

module _ {T : Type 0} (tr : Transport T) (IsSound : T → Type 0) (queue : T → List Message)
    (q : IsQueue tr IsSound queue) (p : Platform) (sender receiver : Link) (b : Buffer)
    (bytes : List ℕ) (t : T) (w : World) where
  -- The world in which the buffer is sent.
  abbrev w0 : World
  w0 = filled w b bytes

  -- What a copy returns of a send.
  abbrev after_send : Bool → World → Status × Buffer × T × World → Status × T × World
  after_send owned w2 (status, kept, u, v) =
      if not (is_ok status) && owned then (status, u, w2) else (status, u, v)

  -- A copy that succeeded was a send that succeeded.
  sent_so :
      (r : Status × Buffer × T × World) (owned : Bool) (w2 w1 : World) (t1 : T)
      → after_send owned w2 r ≡ (ok, t1, w1)
      → r ≡ (ok, r.1, t1, w1)
  sent_so (status, kept, u, v) owned w2 w1 t1 run =
      let first : (after_send owned w2 (status, kept, u, v)).0 ≡ status = ground arith in
      let good : status ≡ ok = sym first ∙ ap (λ (y : Status × T × World). y.0) run in
      let plain : after_send owned w2 (status, kept, u, v) ≡ (status, u, v) =
        ground (arith, good) in
      ap (λ (y : Status × T × World). (y.0, kept, y.1, y.2)) (sym plain ∙ run)

  sends :
      (t1 : T) (w1 : World)
      → send_filled tr p sender bytes b t w ≡ (ok, t1, w1)
      → (kept : Buffer) × (link_send tr p sender b t w0 ≡ (ok, kept, t1, w1))
  unfolding send_filled
  sends t1 w1 run =
      let r = link_send tr p sender b t w0 in
      (r.1, sent_so r (buffer_owned r.3 r.1) (buffer_release p r.1 r.3).2 w1 t1 run)

  copies-Received :
      (capacity : ℕ) (c : Buffer) (u : T) (v : World)
      → buffer_owned v c ≡ true
      → contents v c ≡ bytes
      → length bytes ≤ capacity
      → Received bytes (copy_answer p capacity (some (ok, c, u, v)))
  unfolding copy_received buffer_size
  copies-Received capacity c u v mine shown room =
      let count : c.length ≡ length bytes =
        sym (length-read_bytes v.pool.payload c.payload_start c.length) ∙ ap length shown in
      let size : buffer_size v c ≡ c.length = ground (arith, mine) in
      let fits : ltb capacity c.length ≡ false = ground (arith, count, room) in
      record {
        copied = copy_received p capacity c u v;
        returns = refl;
        actual_size = ground (arith, size, count, fits);
        same_bytes = ground (arith, size, fits) ∙ shown;
      }

  copies :
      (capacity : ℕ) (x : Option (Status × Buffer × T × World))
      → Arrived tr IsSound queue q p sender receiver b t w0 x
      → b.length ≡ length bytes
      → length bytes ≤ capacity
      → Received bytes (copy_answer p capacity x)
  copies capacity x a count room =
      subst (λ y. Received bytes (copy_answer p capacity y)) (sym a.returns)
        (copies-Received capacity a.buffer a.state a.world a.is_mine
          (a.shown ∙ contents-filled w b bytes count) room)

  -- Bytes that are copied into an allocated buffer of their number and sent, over an empty queue,
  -- are what a receive into large enough memory at the other end copies out, with their number,
  -- under the conditions of the send and the receive of a buffer.
  pub recv_copy-send_filled :
      (t1 : T) (w1 : World) (fuel capacity : ℕ)
      → IsSound t
      → queue t ≡ []
      → send_filled tr p sender bytes b t w ≡ (ok, t1, w1)
      → IsView w0 b
      → IsAnchored b
      → b.slot_base ≡ handle_slot_id b.handle * w.pool.header.slot_stride
      → b.length ≡ length bytes
      → (w.pool.controls (handle_slot_id b.handle)).transfer_sequence < 2 ^ 32
      → w.pool.header.slot_capacity < 2 ^ 32
      → (w.pool.controls (handle_slot_id b.handle)).region.offset
          + (w.pool.controls (handle_slot_id b.handle)).region.length
        ≤ w.pool.header.slot_capacity
      → receiver.local_component ≡ sender.remote_component
      → receiver.remote_component ≡ sender.local_component
      → epoch_stale w1 receiver ≡ false
      → past_deadline (w.pool.controls (handle_slot_id b.handle)) (now_ns p w1) ≡ false
      → is_ok (protect_slot p (tick w1) (handle_slot_id b.handle) true).0 ≡ true
      → 1 < fuel
      → length bytes ≤ capacity
      → Received bytes (recv_copy tr p receiver fuel capacity t1 w1)
  unfolding recv_copy
  recv_copy-send_filled t1 w1 fuel capacity s none_held run v a base count word small fits to from
        current in_time opens enough room =
      let (kept, sent_run) = sends t1 w1 run in
      copies capacity (link_recv tr p receiver fuel buffer_invalid t1 w1)
        (link_recv-link_send tr IsSound queue q p sender receiver b t w0 kept buffer_invalid t1 w1
          fuel s none_held sent_run v a base word small fits to from current in_time opens enough)
        count room
