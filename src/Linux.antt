-- ===== src/Linux.antt =====
-- A transport endpoint of platform/linux/user/platform-linux-user.c, and the system calls and the
-- client's callbacks that it makes as a parameter: each answer is a function of the number of the
-- call.
pub mod Calls
pub mod Polling
pub mod Queue
use z_ipc.Base.{ℕ, suc, Bool, Option, ltb, ◌-◌, ◌+◌, ◌^◌, if◌then◌else◌}
use z_ipc.Status.{Status}
use z_ipc.State.{Message}
use z_ipc.Ring.{Ring}

-- `zipc_platform_transport_type_t`, without the alias of the first
pub data Kind : Type 0 where
  posix_mqueue unix_dgram fifo shm_ring_eventfd shm_ring_polling rpmsg : Kind
  task_notification ipi xen_ring_evtchn pl_ring_irq smc ffa : Kind

-- What a write of a message put out.
pub data Written : Type 0 where
  whole part failed : Written

-- `write` stands for mq_send, write and sendto, and `read` for mq_receive, read and recv, of one
-- message; `signal` and `await` for the write and the read of an event descriptor, the latter until
-- it is not interrupted, and whether it gave a count. `peer` and
-- `peer_mailbox` are what the other side does to the ring and the mailbox while the call waits.
pub record Os : Type 0 where
  pub time_ns : ℕ → ℕ
  pub write : ℕ → Message → Written
  pub read : ℕ → Option Message
  pub signal : ℕ → Bool
  pub await : ℕ → Bool
  pub notify : ℕ → Status
  pub await_notice : ℕ → Status
  pub secure_call : ℕ → Message → Status × Message
  pub peer : ℕ → Ring → Ring
  pub peer_mailbox : ℕ → Message → Message

-- `zipc_platform_transport_t`; the union's member is the kind's, and `address` is the transport's.
-- `calls` numbers the calls made so far.
pub record Endpoint : Type 0 where
  pub kind : Kind
  pub address : ℕ
  pub ring : Ring
  pub timeout_ns : ℕ
  pub mailbox : Message
  pub response : Message
  pub response_pending : Bool
  pub calls : ℕ

-- A call made, and the shared memory after the other side had its turn.
abbrev pub made : Endpoint → Endpoint
made t = record t { calls = suc t.calls }

abbrev pub waited : Os → Endpoint → Endpoint
waited os t = record t {
  ring = os.peer t.calls t.ring;
  mailbox = os.peer_mailbox t.calls t.mailbox;
  calls = suc t.calls;
}

-- The deadline of a wait that starts at `now`.
abbrev pub deadline_from : ℕ → ℕ → ℕ
deadline_from now timeout_ns =
    if ltb (2 ^ 64 - 1 - now) timeout_ns then 2 ^ 64 - 1 else now + timeout_ns
