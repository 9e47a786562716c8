-- ===== src/Ring.antt =====
-- The ring of message descriptors in shared memory: zipc_transport_spsc_ring_initialize of
-- src/core/zipc.c and platform/linux/common/platform-linux-common.c.
pub mod Window
pub mod Laws
pub mod Steps
use z_ipc.Base.{
  zero, update, ◌||◌, ◌%◌, not, leb, ◌+◌, suc, ◌&&◌, ltb, false, ◌==◌, if◌then◌else◌, Bool, ℕ,
}
use z_ipc.State.{Message}
use z_ipc.Status.{transport, recovery_required, no_buffer, ok, invalid_argument, Status}
use z_ipc.Word.{sub32, u32}

-- `zipc_transport_spsc_ring_t`
pub record Ring : Type 0 where
  pub producer : ℕ
  pub consumer : ℕ
  pub depth : ℕ
  pub entries : ℕ → Message

unfoldable pub ring_initialize : Ring → ℕ → Status × Ring
ring_initialize r depth =
    if ltb depth 2
    then (invalid_argument, r)
    else (ok, record r { producer = 0; consumer = 0; depth = depth })

-- The fields by which a queued message is taken to be the one that is pushed.
abbrev pub same_message : Message → Message → Bool
same_message queued message =
    (queued.handle == message.handle)
    && (queued.pool_id == message.pool_id)
    && (queued.source_component == message.source_component)
    && (queued.destination_component == message.destination_component)
    && (queued.transfer_sequence == message.transfer_sequence)

-- The search from `position` on, with `n` positions left before the producer's.
unfoldable pub already_queued : (ℕ → Message) → ℕ → Message → ℕ → ℕ → Bool
already_queued entries depth message position zero = false
already_queued entries depth message position (suc n) =
    let rest = already_queued entries depth message (u32 (position + 1)) n in
    same_message (entries (position % depth)) message || rest

unfoldable pub ring_push : Ring → Message → Status × Ring
ring_push r message =
    if ltb r.depth 2
    then (invalid_argument, r)
    else if leb r.depth (sub32 r.producer r.consumer)
    then (transport, r)
    else if already_queued r.entries r.depth message r.consumer (sub32 r.producer r.consumer)
    then (ok, r)
    else (
      ok,
      record r {
        entries = update r.entries (r.producer % r.depth) message;
        producer = u32 (r.producer + 1);
      },
    )

-- A message and a position that are not read are left as they were.
unfoldable pub ring_peek : Ring → Message → ℕ → Status × Message × ℕ
ring_peek r message position =
    if ltb r.depth 2
    then (invalid_argument, message, position)
    else if r.consumer == r.producer
    then (no_buffer, message, position)
    else (ok, r.entries (r.consumer % r.depth), r.consumer)

unfoldable pub ring_commit : Ring → ℕ → Status × Ring
ring_commit r position =
    if ltb r.depth 2
    then (invalid_argument, r)
    else if not (r.consumer == position)
    then (recovery_required, r)
    else (ok, record r { consumer = u32 (r.consumer + 1) })

unfoldable pub ring_pop : Ring → Message → Status × Message × Ring
ring_pop r message =
    if ltb r.depth 2
    then (invalid_argument, message, r)
    else if r.consumer == r.producer
    then (no_buffer, message, r)
    else (ok, r.entries (r.consumer % r.depth), record r { consumer = u32 (r.consumer + 1) })
