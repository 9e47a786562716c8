-- ===== src/Linux/Calls.antt =====
-- zipc_platform_transport_send to zipc_platform_transport_receive_abort of
-- platform/linux/user/platform-linux-user.c.
use z_ipc.Base.{
  ℕ, zero, suc, Bool, true, false, Option, none, some, leb, ◌==◌, ◌&&◌, ◌||◌, not, if◌then◌else◌,
}
use z_ipc.Status.{
  Status, ok, is_ok, invalid_argument, transport, transport_published, timeout, no_buffer,
}
use z_ipc.State.{Message}
use z_ipc.Ring.{ring_commit, ring_peek, ring_push, ring_pop}
use z_ipc.Linux.{
  Os, Endpoint, Kind, posix_mqueue, unix_dgram, fifo, shm_ring_eventfd, shm_ring_polling, rpmsg,
  ipi, pl_ring_irq, smc, ffa, Written, whole, part, failed, made, waited, deadline_from,
}
use z_ipc.Transport.{Transport, Token}
use z_ipc.Word.{u32}

-- The status of a datagram, and of a stream, of which a part may go out.
abbrev datagram_status : Written → Status
datagram_status whole = ok
datagram_status _ = transport

abbrev stream_status : Written → Status
stream_status whole = ok
stream_status part = transport_published
stream_status failed = transport

-- After the message is out, a signal that fails leaves it published.
abbrev signalled : Bool → Status
signalled done = if done then ok else transport_published

-- A push, and the signal that follows if it succeeds.
unfoldable pub push_signal : Bool → Message → Endpoint → Status × Endpoint
push_signal done message t =
    let (status, ring) = ring_push t.ring message in
    if not (is_ok status) then (status, t) else (signalled done, made (record t { ring = ring }))

unfoldable pub send_secure : Os → Message → Endpoint → Status × Endpoint
send_secure os message t =
    let (status, response) = os.secure_call t.calls message in
    (
      signalled (is_ok status),
      made
          (record t { response = response; response_pending = is_ok status || t.response_pending }),
    )

unfoldable pub send_as : Os → Kind → Message → Endpoint → Status × Endpoint
send_as os posix_mqueue message t = (datagram_status (os.write t.calls message), made t)
send_as os fifo message t = (stream_status (os.write t.calls message), made t)
send_as os shm_ring_eventfd message t = push_signal (os.signal t.calls) message t
send_as os shm_ring_polling message t =
    let (status, ring) = ring_push t.ring message in
    if not (is_ok status) then (status, t) else (ok, record t { ring = ring })
send_as os rpmsg message t = (stream_status (os.write t.calls message), made t)
send_as os ipi message t =
    (signalled (is_ok (os.notify t.calls)), made (record t { mailbox = message }))
send_as os pl_ring_irq message t = push_signal (is_ok (os.notify t.calls)) message t
send_as os smc message t = send_secure os message t
send_as os ffa message t = send_secure os message t
send_as os unix_dgram message t = (datagram_status (os.write t.calls message), made t)
send_as os _ message t = (invalid_argument, t)

unfoldable pub transport_send : Os → Message → Endpoint → Status × Endpoint
transport_send os message t = send_as os t.kind message t

-- A read of a whole message, or of none.
abbrev read_status : Option Message → Status
read_status none = transport
read_status (some message) = ok

abbrev read_message : Message → Option Message → Message
read_message message none = message
read_message message (some received) = received

unfoldable pub receive_datagram : Os → Message → Endpoint → Status × Message × Endpoint
receive_datagram os message t =
    (read_status (os.read t.calls), read_message message (os.read t.calls), made t)

-- `status == ZIPC_ERR_NO_BUFFER`
abbrev pub is_no_buffer : Status → Bool
is_no_buffer no_buffer = true
is_no_buffer _ = false

-- At most `fuel` pops, each after an event.
unfoldable pub receive_eventfd : Os → ℕ → Message → Endpoint → Option (Status × Message × Endpoint)
receive_eventfd os zero message t = none
receive_eventfd os (suc fuel) message t =
    let (status, popped, ring) = ring_pop t.ring message in
    let later = receive_eventfd os fuel popped (waited os t) in
    if not (is_no_buffer status)
    then some (status, popped, record t { ring = ring })
    else if not (os.await t.calls)
    then some (transport, popped, waited os t)
    else later

-- At most `fuel` pops, the clock read after each that finds nothing, if there is a timeout.
unfoldable pub receive_polls :
    Os → ℕ → ℕ → Message → Endpoint → Option (Status × Message × Endpoint)
receive_polls os zero deadline_ns message t = none
receive_polls os (suc fuel) deadline_ns message t =
    let (status, popped, ring) = ring_pop t.ring message in
    let later = receive_polls os fuel deadline_ns popped (waited os t) in
    if not (is_no_buffer status)
    then some (status, popped, record t { ring = ring })
    else if not (t.timeout_ns == 0) && leb deadline_ns (os.time_ns t.calls)
    then some (timeout, popped, made t)
    else later

-- The deadline of a poll, and the endpoint after the clock was read for it.
abbrev pub poll_deadline : Os → Endpoint → ℕ
poll_deadline os t =
    if t.timeout_ns == 0 then 0 else deadline_from (os.time_ns t.calls) t.timeout_ns

abbrev pub poll_started : Endpoint → Endpoint
poll_started t = if t.timeout_ns == 0 then t else made t

unfoldable pub receive_notice : Os → Message → Endpoint → Status × Message × Endpoint
receive_notice os message t =
    let status = os.await_notice t.calls in
    if not (is_ok status)
    then (status, message, waited os t)
    else (ok, (waited os t).mailbox, waited os t)

unfoldable pub receive_pl_ring : Os → Message → Endpoint → Status × Message × Endpoint
receive_pl_ring os message t =
    let status = os.await_notice t.calls in
    let (popped_status, popped, ring) = ring_pop (waited os t).ring message in
    if not (is_ok status)
    then (status, message, waited os t)
    else (popped_status, popped, record (waited os t) { ring = ring })

unfoldable pub receive_secure : Message → Endpoint → Status × Message × Endpoint
receive_secure message t =
    if not t.response_pending
    then (transport, message, t)
    else (ok, t.response, record t { response_pending = false })

unfoldable pub receive_as :
    Os → ℕ → Kind → Message → Endpoint → Option (Status × Message × Endpoint)
receive_as os fuel posix_mqueue message t = some (receive_datagram os message t)
receive_as os fuel fifo message t = some (receive_datagram os message t)
receive_as os fuel shm_ring_eventfd message t = receive_eventfd os fuel message t
receive_as os fuel shm_ring_polling message t =
    receive_polls os fuel (poll_deadline os t) message (poll_started t)
receive_as os fuel rpmsg message t = some (receive_datagram os message t)
receive_as os fuel ipi message t = some (receive_notice os message t)
receive_as os fuel pl_ring_irq message t = some (receive_pl_ring os message t)
receive_as os fuel smc message t = some (receive_secure message t)
receive_as os fuel ffa message t = some (receive_secure message t)
receive_as os fuel unix_dgram message t = some (receive_datagram os message t)
receive_as os fuel _ message t = some (invalid_argument, message, t)

unfoldable pub transport_receive :
    Os → ℕ → Message → Endpoint → Option (Status × Message × Endpoint)
transport_receive os fuel message t = receive_as os fuel t.kind message t

-- `memset` and the address; a message of a ring is held until its position is committed.
abbrev token_new : Endpoint → Token
token_new t = record { position = 0; cookie = t.address; transactional = false; pending = false }

abbrev token_at : Endpoint → ℕ → Token
token_at t position = record {
  position = position;
  cookie = t.address;
  transactional = true;
  pending = true;
}

unfoldable pub begin_eventfd :
    Os → ℕ → Message → Endpoint → Option (Status × Message × Token × Endpoint)
begin_eventfd os zero message t = none
begin_eventfd os (suc fuel) message t =
    let (status, peeked, position) = ring_peek t.ring message 0 in
    let later = begin_eventfd os fuel peeked (waited os t) in
    if is_ok status
    then some (ok, peeked, token_at t position, t)
    else if not (is_no_buffer status)
    then some (status, peeked, token_new t, t)
    else if not (os.await t.calls)
    then some (transport, peeked, token_new t, waited os t)
    else later

unfoldable pub begin_polls :
    Os → ℕ → ℕ → Message → Endpoint → Option (Status × Message × Token × Endpoint)
begin_polls os zero deadline_ns message t = none
begin_polls os (suc fuel) deadline_ns message t =
    let (status, peeked, position) = ring_peek t.ring message 0 in
    let later = begin_polls os fuel deadline_ns peeked (waited os t) in
    if is_ok status
    then some (ok, peeked, token_at t position, t)
    else if not (is_no_buffer status)
    then some (status, peeked, token_new t, t)
    else if not (t.timeout_ns == 0) && leb deadline_ns (os.time_ns t.calls)
    then some (timeout, peeked, token_new t, made t)
    else later

-- A transport that cannot peek receives, and has nothing to commit.
abbrev begin_received :
    Option (Status × Message × Endpoint) → Option (Status × Message × Token × Endpoint)
begin_received none = none
begin_received (some (status, message, t)) =
    some (status, message, record (token_new t) { pending = is_ok status }, t)

unfoldable pub begin_as :
    Os → ℕ → Kind → Message → Endpoint → Option (Status × Message × Token × Endpoint)
begin_as os fuel shm_ring_eventfd message t = begin_eventfd os fuel message t
begin_as os fuel shm_ring_polling message t =
    begin_polls os fuel (poll_deadline os t) message (poll_started t)
begin_as os fuel _ message t = begin_received (transport_receive os fuel message t)

unfoldable pub transport_receive_begin :
    Os → ℕ → Message → Endpoint → Option (Status × Message × Token × Endpoint)
transport_receive_begin os fuel message t = begin_as os fuel t.kind message t

-- The two rings that can peek.
abbrev pub is_shm_ring : Kind → Bool
is_shm_ring shm_ring_eventfd = true
is_shm_ring shm_ring_polling = true
is_shm_ring _ = false

unfoldable pub transport_receive_commit : Token → Endpoint → Status × Token × Endpoint
transport_receive_commit token t =
    let (status, ring) = ring_commit t.ring (u32 token.position) in
    if not token.pending || not (token.cookie == t.address)
    then (invalid_argument, token, t)
    else if not token.transactional
    then (ok, record token { pending = false }, t)
    else if not (is_shm_ring t.kind)
    then (invalid_argument, token, t)
    else if is_ok status
    then (ok, record token { pending = false }, record t { ring = ring })
    else (status, token, record t { ring = ring })

unfoldable pub transport_receive_abort : Token → Endpoint → Token
transport_receive_abort token t = record token {
  pending = token.pending && not (token.cookie == t.address);
}

-- The calls as the link layer makes them, with at most `fuel` rounds in a wait.
abbrev pub linux_transport : Os → ℕ → Transport Endpoint
linux_transport os fuel = record {
  send = transport_send os;
  receive_begin = transport_receive_begin os fuel;
  receive_commit = transport_receive_commit;
}
