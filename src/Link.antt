-- ===== src/Link.antt =====
-- A link between two components (src/core/zipc.c: struct zipc_link, zipc_buffer_alloc_ex,
-- zipc_buffer_alloc, zipc_buffer_get, zipc_buffer_release, zipc_buffer_put). A call takes the state
-- of the link's transport and the world, and returns both.
pub mod Send
pub mod Receive
pub mod Exchange
pub mod Create
pub mod Copy
pub mod Reconcile
use z_ipc.Base.{ℕ, Bool, true, false, Option, none, some, ltb, ◌+◌, ◌&&◌, ◌||◌, ◌==◌, not}
use z_ipc.Base.{if◌then◌else◌}
use z_ipc.Word.{u64, u32_max}
use z_ipc.Status.{
  Status, is_ok, invalid_argument, component_stale, region_overflow, invalid_buffer, not_owner,
}
use z_ipc.State.{World, Buffer, buffer_invalid}
use z_ipc.Platform.{Platform}
use z_ipc.Component.{component_epoch_current}
use z_ipc.Buffer.{buffer_owned, control_of}
use z_ipc.Protocol.Allocate.{Request, buffer_allocate_internal}
use z_ipc.Protocol.Release.{pool_buffer_release}

-- `zipc_link_role_t`
pub data Role : Type 0 where
  unspecified producer consumer : Role

-- `zipc_link_t` but for its transport; `pool` is the pool of the world. `ring_based` says that the
-- transport is one of the two shared-memory rings, `has_recovery_ring` that `recovery_ring` is not
-- NULL.
pub record Link : Type 0 where
  pub local_component : ℕ
  pub remote_component : ℕ
  pub link_id : ℕ
  pub local_epoch : ℕ
  pub role : Role
  pub ring_based : Bool
  pub has_recovery_ring : Bool
  pub hop_limit : ℕ
  pub default_deadline_ns : ℕ
  pub timeout_ticks : ℕ

-- The test with which the calls on a link begin.
abbrev pub epoch_stale : World → Link → Bool
epoch_stale w link =
    not (link.local_epoch == 0)
    && not (component_epoch_current w.pool link.local_component link.local_epoch)

-- The argument `parent` of an allocation: NULL, the buffer that is being allocated, or another one.
pub data Parent : Type 0 where
  no_parent itself : Parent
  parent_of : Buffer → Parent

abbrev is_itself : Parent → Bool
is_itself itself = true
is_itself _ = false

abbrev parent_usable : World → Parent → Bool
parent_usable w (parent_of b) = buffer_owned w b
parent_usable w _ = true

abbrev identity_of : World → Parent → ℕ
identity_of w (parent_of b) = (control_of w b).identity.id
identity_of w _ = 0

-- The sizes are 64-bit words, and their sums wrap.
unfoldable pub buffer_alloc_ex :
    Platform → Link → ℕ → ℕ → ℕ → Buffer → Parent → World → Option (Status × Buffer × World)
buffer_alloc_ex p link size headroom tailroom buffer parent w =
    if ltb u32_max size || ltb u32_max headroom || ltb u32_max tailroom
    then some (invalid_argument, buffer, w)
    else if epoch_stale w link
    then some (component_stale, buffer, w)
    else if ltb (u64 (headroom + size)) headroom
        || ltb (u64 (headroom + size + tailroom)) size
        || ltb w.pool.header.slot_capacity (u64 (headroom + size + tailroom))
    then some (region_overflow, buffer, w)
    else if is_itself parent
    then some (invalid_argument, buffer, w)
    else if not (parent_usable w parent)
    then some (invalid_buffer, buffer, w)
    else buffer_allocate_internal p
        (record {
          allocator = link.local_component;
          parent_id = identity_of w parent;
          offset = headroom;
          length = size;
          owner_epoch = link.local_epoch;
          hop_limit = link.hop_limit;
          deadline_duration_ns = link.default_deadline_ns;
          enable_payload = true;
        })
        buffer_invalid w

unfoldable pub buffer_alloc :
    Platform → Link → ℕ → Buffer → Parent → World → Option (Status × Buffer × World)
buffer_alloc p link size buffer parent w = buffer_alloc_ex p link size 0 0 buffer parent w

-- An empty buffer with headroom.
unfoldable pub buffer_get : Platform → Link → ℕ → Buffer → World → Option (Status × Buffer × World)
buffer_get p link headroom buffer w = buffer_alloc_ex p link 0 headroom 0 buffer no_parent w

unfoldable pub buffer_release : Platform → Buffer → World → Status × Buffer × World
buffer_release p buffer w =
    let (status, w1) = pool_buffer_release p buffer.handle buffer.owner w in
    if not (buffer_owned w buffer)
    then (invalid_buffer, buffer, w)
    else (status, if is_ok status then buffer_invalid else buffer, w1)

-- `BI(buffer)->pool` is the pool of the world, and so of the link, where it is set.
unfoldable pub buffer_put : Platform → Link → Buffer → World → Status × Buffer × World
buffer_put p link buffer w =
    if not (buffer_owned w buffer)
    then (invalid_buffer, buffer, w)
    else if not buffer.attached || not (buffer.owner == link.local_component)
    then (not_owner, buffer, w)
    else buffer_release p buffer w
