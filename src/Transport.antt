-- ===== src/Transport.antt =====
-- The transport calls of include/zipc/zipc.h that the link layer makes
-- (zipc_platform_transport_send, zipc_platform_transport_receive_begin and
-- zipc_platform_transport_receive_commit), as an interface over the state `T` of a transport.
pub mod Queue
use z_ipc.Base.{ℕ, Bool, Option}
use z_ipc.Status.{Status}
use z_ipc.State.{Message}

-- `zipc_transport_receive_token_t`; `cookie` is the address of the transport.
pub record Token : Type 0 where
  pub position : ℕ
  pub cookie : ℕ
  pub transactional : Bool
  pub pending : Bool

-- A receive that never returns is none. It is given the message that it may leave as it was.
pub record Transport (T : Type 0) : Type 0 where
  pub send : Message → T → Status × T
  pub receive_begin : Message → T → Option (Status × Message × Token × T)
  pub receive_commit : Token → T → Status × Token × T

-- A message that was not written yet.
abbrev pub message_zero : Message
message_zero = record {
  handle = 0;
  pool_id = 0;
  source_component = 0;
  destination_component = 0;
  transfer_sequence = 0;
  flags = 0;
}
