-- ===== src/Baremetal.antt =====
-- The transports of platform/baremetal/platform-baremetal.c. The callbacks of the client and the
-- remote processor's message layer are a parameter: each answer is a function of the number of the
-- call.
pub mod Open
pub mod Calls
pub mod Order
use z_ipc.Base.{ℕ, suc, Bool}
use z_ipc.Status.{Status}
use z_ipc.State.{Message}
use z_ipc.Ring.{Ring}
use z_ipc.Linux.{Kind}

-- `rpmsg_send` says whether the result is not negative; `notify` and `await` are the callbacks
-- signal_send and signal_wait; `peer` and `peer_mailbox` are what the other side does to the shared
-- memory while a call waits.
pub record Signals : Type 0 where
  pub rpmsg_send : ℕ → Message → Bool
  pub notify : ℕ → Status
  pub await : ℕ → Status
  pub secure_call : ℕ → Message → Status × Message
  pub peer : ℕ → Ring → Ring
  pub peer_mailbox : ℕ → Message → Message

-- `struct zipc_platform_transport`, with the shared memory that it points to; `address` is its own,
-- and `calls` numbers the calls made so far.
pub record BareEndpoint : Type 0 where
  pub kind : Kind
  pub address : ℕ
  pub ring : Ring
  pub mailbox : Message
  pub response : Message
  pub response_pending : Bool
  pub calls : ℕ

abbrev pub called : BareEndpoint → BareEndpoint
called t = record t { calls = suc t.calls }

abbrev pub awaited : Signals → BareEndpoint → BareEndpoint
awaited s t = record t {
  ring = s.peer t.calls t.ring;
  mailbox = s.peer_mailbox t.calls t.mailbox;
  calls = suc t.calls;
}
