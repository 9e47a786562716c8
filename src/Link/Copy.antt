-- ===== src/Link/Copy.antt =====
-- `zipc_send_copy` and `zipc_recv_copy` of src/core/zipc.c. The bytes are given as a list.
pub mod RoundTrip
use z_ipc.Base.{ℕ, Option, none, some, List, [], ltb, ◌&&◌, not, if◌then◌else◌, length}
use z_ipc.Status.{Status, is_ok, buffer_too_small}
use z_ipc.State.{World, Buffer, buffer_invalid}
use z_ipc.Platform.{Platform}
use z_ipc.Buffer.{buffer_owned}
use z_ipc.Buffer.Window.{write_bytes, read_bytes, put_payload, buffer_size}
use z_ipc.Transport.{Transport}
use z_ipc.Link.{Link, buffer_alloc, buffer_release, no_parent}
use z_ipc.Link.Send.{link_send}
use z_ipc.Link.Receive.{link_recv}

-- From the allocated buffer on. A buffer that a failed send leaves with the caller is released.
unfoldable pub send_filled :
    {T : Type 0} → Transport T → Platform → Link → List ℕ → Buffer → T → World → Status × T × World
send_filled tr p link bytes buffer t w =
    let filled = put_payload w (write_bytes w.pool.payload buffer.payload_start bytes) in
    let (status, kept, t1, w1) = link_send tr p link buffer t filled in
    let (released, none_left, w2) = buffer_release p kept w1 in
    if not (is_ok status) && buffer_owned w1 kept then (status, t1, w2) else (status, t1, w1)

abbrev send_allocated :
    {T : Type 0}
    → Transport T
    → Platform
    → Link
    → List ℕ
    → T
    → Option (Status × Buffer × World)
    → Option (Status × T × World)
send_allocated tr p link bytes t none = none
send_allocated tr p link bytes t (some (status, buffer, w)) =
    if not (is_ok status)
    then some (status, t, w)
    else some (send_filled tr p link bytes buffer t w)

unfoldable pub send_copy :
    {T : Type 0} → Transport T → Platform → Link → List ℕ → T → World → Option (Status × T × World)
send_copy tr p link bytes t w =
    send_allocated tr p link bytes t (buffer_alloc p link (length bytes) buffer_invalid no_parent w)

-- What the caller gets: the status, the size if it was written, and the bytes copied.
pub record Copied (T : Type 0) : Type 0 where
  pub status : Status
  pub actual_size : Option ℕ
  pub bytes : List ℕ
  pub transport : T
  pub world : World

-- From a received buffer on.
unfoldable pub copy_received : {T : Type 0} → Platform → ℕ → Buffer → T → World → Copied T
copy_received p capacity buffer t w =
    let size = buffer_size w buffer in
    let (released, none_left, w1) = buffer_release p buffer w in
    if ltb capacity size
    then record {
      status = buffer_too_small;
      actual_size = some size;
      bytes = [];
      transport = t;
      world = w1;
    }
    else record {
      status = released;
      actual_size = some size;
      bytes = read_bytes w.pool.payload buffer.payload_start size;
      transport = t;
      world = w1;
    }

abbrev pub copy_answer :
    {T : Type 0} → Platform → ℕ → Option (Status × Buffer × T × World) → Option (Copied T)
copy_answer p capacity none = none
copy_answer p capacity (some (status, buffer, t, w)) =
    if not (is_ok status)
    then some (record { status = status; actual_size = none; bytes = []; transport = t; world = w })
    else some (copy_received p capacity buffer t w)

unfoldable pub recv_copy :
    {T : Type 0} → Transport T → Platform → Link → ℕ → ℕ → T → World → Option (Copied T)
recv_copy tr p link fuel capacity t w =
    copy_answer p capacity (link_recv tr p link fuel buffer_invalid t w)
