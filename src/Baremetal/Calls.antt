-- ===== src/Baremetal/Calls.antt =====
-- zipc_platform_transport_send to zipc_platform_transport_receive_abort of
-- platform/baremetal/platform-baremetal.c.
use z_ipc.Base.{false, leb, ◌==◌, ◌&&◌, ◌||◌, not, ◌+◌, ◌%◌, update, if◌then◌else◌}
use z_ipc.Word.{u32, sub32}
use z_ipc.Status.{Status, ok, is_ok, invalid_argument, transport, transport_published}
use z_ipc.State.{Message}
use z_ipc.Ring.{Ring}
use z_ipc.Transport.{Token}
use z_ipc.Linux.{Kind, rpmsg, ipi, pl_ring_irq, smc, ffa}
use z_ipc.Baremetal.{Signals, BareEndpoint, called, awaited}

-- Once the message is out, a failure leaves it published.
abbrev pub once_out : Status → Status
once_out status = if is_ok status then ok else transport_published

-- The message at the producer's position, whether or not it is queued already.
abbrev pub ring_put : Ring → Message → Ring
ring_put r message = record r {
  entries = update r.entries (r.producer % r.depth) message;
  producer = u32 (r.producer + 1);
}

unfoldable pub send_pl_ring : Signals → Message → BareEndpoint → Status × BareEndpoint
send_pl_ring s message t =
    if leb t.ring.depth (sub32 t.ring.producer t.ring.consumer)
    then (transport, t)
    else (once_out (s.notify t.calls), called (record t { ring = ring_put t.ring message }))

unfoldable pub send_secure_call : Signals → Message → BareEndpoint → Status × BareEndpoint
send_secure_call s message t =
    let (status, response) = s.secure_call t.calls message in
    (
      once_out status,
      called
          (record t { response = response; response_pending = is_ok status || t.response_pending }),
    )

unfoldable pub bare_send_as : Signals → Kind → Message → BareEndpoint → Status × BareEndpoint
bare_send_as s rpmsg message t = (if s.rpmsg_send t.calls message then ok else transport, called t)
bare_send_as s ipi message t =
    (once_out (s.notify t.calls), called (record t { mailbox = message }))
bare_send_as s pl_ring_irq message t = send_pl_ring s message t
bare_send_as s smc message t = send_secure_call s message t
bare_send_as s ffa message t = send_secure_call s message t
bare_send_as s _ message t = (transport, t)

unfoldable pub bare_send : Signals → Message → BareEndpoint → Status × BareEndpoint
bare_send s message t = bare_send_as s t.kind message t

-- A mailbox is read after a signal, whatever it holds.
unfoldable pub receive_mailbox : Signals → Message → BareEndpoint → Status × Message × BareEndpoint
receive_mailbox s message t =
    let t1 = awaited s t in
    let status = s.await t.calls in
    if not (is_ok status) then (status, message, t1) else (ok, t1.mailbox, t1)

abbrev pub ring_take : Ring → Ring
ring_take r = record r { consumer = u32 (r.consumer + 1) }

unfoldable pub receive_pl_ring_irq :
    Signals → Message → BareEndpoint → Status × Message × BareEndpoint
receive_pl_ring_irq s message t =
    let t1 = awaited s t in
    let status = s.await t.calls in
    if not (is_ok status)
    then (status, message, t1)
    else if t1.ring.consumer == t1.ring.producer
    then (transport, message, t1)
    else (
      ok,
      t1.ring.entries (t1.ring.consumer % t1.ring.depth),
      record t1 { ring = ring_take t1.ring },
    )

unfoldable pub receive_response : Message → BareEndpoint → Status × Message × BareEndpoint
receive_response message t =
    if not t.response_pending
    then (transport, message, t)
    else (ok, t.response, record t { response_pending = false })

unfoldable pub bare_receive_as :
    Signals → Kind → Message → BareEndpoint → Status × Message × BareEndpoint
bare_receive_as s rpmsg message t = receive_mailbox s message t
bare_receive_as s ipi message t = receive_mailbox s message t
bare_receive_as s pl_ring_irq message t = receive_pl_ring_irq s message t
bare_receive_as s smc message t = receive_response message t
bare_receive_as s ffa message t = receive_response message t
bare_receive_as s _ message t = (transport, message, t)

unfoldable pub bare_receive : Signals → Message → BareEndpoint → Status × Message × BareEndpoint
bare_receive s message t = bare_receive_as s t.kind message t

-- The message is received here already.
unfoldable pub bare_receive_begin :
    Signals → Message → BareEndpoint → Status × Message × Token × BareEndpoint
bare_receive_begin s message t =
    let (status, received, t1) = bare_receive s message t in
    (
      status,
      received,
      record { position = 0; cookie = t.address; transactional = false; pending = is_ok status },
      t1,
    )

unfoldable pub bare_receive_commit : Token → BareEndpoint → Status × Token
bare_receive_commit token t =
    if not token.pending || not (token.cookie == t.address)
    then (invalid_argument, token)
    else (ok, record token { pending = false })

unfoldable pub bare_receive_abort : Token → BareEndpoint → Token
bare_receive_abort token t = record token {
  pending = token.pending && not (token.cookie == t.address);
}
