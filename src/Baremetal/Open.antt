-- ===== src/Baremetal/Open.antt =====
-- Opening a memory and a transport of platform/baremetal/platform-baremetal.c.
use z_ipc.Base.{
  ℕ, Bool, true, false, Option, none, some, ltb, ◌==◌, ◌&&◌, ◌||◌, not, ◌+◌, if◌then◌else◌,
}
use z_ipc.Status.{Status, ok, is_ok, invalid_argument, unsupported_memory, platform, transport}
use z_ipc.State.{Message}
use z_ipc.Transport.{message_zero}
use z_ipc.Ring.{Ring, ring_initialize}
use z_ipc.Linux.{Kind, rpmsg, ipi, pl_ring_irq, smc, ffa}
use z_ipc.Baremetal.{BareEndpoint}

-- The memory types that are told apart, and what a configuration says of each; an address is 0 for
-- NULL.
pub data MemoryConfig : Type 0 where
  preallocated : ℕ → ℕ → ℕ → MemoryConfig
  dtrevmem : Bool → ℕ → Bool → Bool → Bool → MemoryConfig
  another_type : MemoryConfig

-- `struct zipc_platform_memory`
pub record BareMemory : Type 0 where
  pub base : ℕ
  pub size : ℕ
  pub physical_base : ℕ
  pub capabilities : ℕ

-- CPU_READ, CPU_WRITE and FIXED_PHYS, and by the flags CACHEABLE, the two atomics, REMOTE_ACCESS and
-- DEVICE_MEMORY.
unfoldable pub dtrevmem_capabilities : Bool → Bool → Bool → Bool → ℕ
dtrevmem_capabilities cached atomics remote device =
    35
    + (if cached then 16 else 0)
    + (if atomics then 12 else 0)
    + (if remote then 64 else 0)
    + (if device then 128 else 0)

-- ZIPC_PHYS_ADDR_INVALID
abbrev pub no_address : ℕ
no_address = 18446744073709551615

abbrev pub memory_of : (ℕ → ℕ) → ℕ → MemoryConfig → Status × Option BareMemory
memory_of phys_to_virt size (preallocated address physical capabilities) =
    if address == 0 then (invalid_argument, none) else (
      ok,
      some (record {
        base = address;
        size = size;
        physical_base = physical;
        capabilities = capabilities;
      }),
    )
memory_of phys_to_virt size (dtrevmem cached physical atomics remote device) =
    if physical == no_address then (invalid_argument, none) else (
      ok,
      some (record {
        base = phys_to_virt physical;
        size = size;
        physical_base = physical;
        capabilities = dtrevmem_capabilities cached atomics remote device;
      }),
    )
memory_of phys_to_virt size another_type = (unsupported_memory, none)

abbrev pub is_another : MemoryConfig → Bool
is_another another_type = true
is_another _ = false

-- `phys_to_virt` is ZIPC_BAREMETAL_PHYS_TO_VIRT.
unfoldable pub bare_memory_open : (ℕ → ℕ) → ℕ → MemoryConfig → Bool → Status × Option BareMemory
bare_memory_open phys_to_virt size config allocates =
    if size == 0
    then (invalid_argument, none)
    else if is_another config
    then (unsupported_memory, none)
    else if not allocates
    then (platform, none)
    else memory_of phys_to_virt size config

-- `zipc_platform_transport_config_t`: which of its pointers are given, and the ring at
-- `platform_handle`.
pub record BareConfig : Type 0 where
  pub kind : Kind
  pub has_handle : Bool
  pub has_mailbox : Bool
  pub has_send : Bool
  pub has_wait : Bool
  pub has_secure_call : Bool
  pub create_endpoint : Bool
  pub ring_depth : ℕ
  pub ring : Ring
  pub mailbox : Message

unfoldable pub open_pl_ring_irq : BareConfig → Status × Ring
open_pl_ring_irq c =
    let (status, ring) = ring_initialize c.ring c.ring_depth in
    if not c.has_handle || not c.has_send || not c.has_wait
    then (invalid_argument, c.ring)
    else if c.create_endpoint
    then (status, ring)
    else if ltb c.ring.depth 2 || (not (c.ring_depth == 0) && not (c.ring.depth == c.ring_depth))
    then (invalid_argument, c.ring)
    else (ok, c.ring)

-- The status of the open, and the ring after it.
unfoldable pub open_as : Kind → BareConfig → Status × Ring
open_as rpmsg c = (
  if not c.has_handle || not c.has_mailbox || not c.has_wait then invalid_argument else ok,
  c.ring,
)
open_as ipi c =
    (if not c.has_mailbox || not c.has_send || not c.has_wait then invalid_argument else ok, c.ring)
open_as pl_ring_irq c = open_pl_ring_irq c
open_as smc c = (if not c.has_secure_call then invalid_argument else ok, c.ring)
open_as ffa c = (if not c.has_secure_call then invalid_argument else ok, c.ring)
open_as _ c = (transport, c.ring)

-- `address` is that of the memory for the transport, 0 if there is none.
unfoldable pub bare_transport_open : BareConfig → ℕ → Status × Option BareEndpoint
bare_transport_open c address =
    let (status, ring) = open_as c.kind c in
    if address == 0 then (platform, none) else if not (is_ok status) then (status, none) else (
      ok,
      some (record {
        kind = c.kind;
        address = address;
        ring = ring;
        mailbox = c.mailbox;
        response = message_zero;
        response_pending = false;
        calls = 0;
      }),
    )
