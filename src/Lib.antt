-- ===== src/Lib.antt =====
-- The zIPC core: zero-copy buffers in shared memory whose ownership passes between components.
--
-- A pool (`zipc_pool_t`) is a header, an array of slot controls and one payload area. A component
-- allocates a slot, fills the payload through a buffer view, prepares a transfer, which yields a
-- small message, and hands the message to the receiver by some transport; the receiver claims the
-- slot with it. A slot is FREE, CLAIMING, OWNED, in TRANSFER or in ERROR, and a claim token says who
-- is in CLAIMING, so that a recovery can tell. Components register in the header with an epoch that
-- fences the calls of a dead predecessor. Each file below models the named part of the repository.
--
--   Word          wrap-around of 8 to 64-bit words
--   Status        include/zipc/zipc.h: statuses, states, events and limits
--   Handle        include/zipc/zipc.h, src/core/zipc.c: the packed words (zipc_handle_make,
--                 zipc_buffer_id_make, claim_token_make, component_lifecycle_make and their readers)
--   VisitedSet    src/core/zipc.c: zipc_visited_set_test, visited_set_add
--   State         include/zipc/zipc.h: the records of the pool, a slot, a message, a buffer
--   Platform      the platform calls, and protect_slot of src/core/zipc.c
--   Pool          Config (normalize_config), Size (zipc_pool_required_control_size to
--                 zipc_pool_required_payload_size), Format (apply_guard_pages, zipc_pool_format) and
--                 Attach (zipc_pool_attach)
--   Trace         trace_slot, record_protocol_error, trace_external_event, zipc_slot_trace_copy
--   Component     registered_epoch, zipc_component_register to zipc_component_restart_begin, and
--                 zipc_component_restart_finish
--   Identity      random_session, generate_buffer_id
--   Buffer        make_view, buffer_owned, zipc_buffer_from_handle; Buffer/Window: the operations
--                 zipc_buffer_set_region to zipc_buffer_tailroom and zipc_buffer_set_limits
--   Protocol      Allocate (buffer_allocate_internal), Transfer (buffer_prepare_transfer_internal),
--                 Claim (zipc_buffer_claim), Release (zipc_pool_buffer_release); Ownership states what
--                 they mean for one another, Interleaving has the atomic accesses of many callers
--   Recovery      Restarts (zipc_component_restart_next) and Pools (zipc_pool_recover_owner,
--                 zipc_pool_recover_claiming)
--   Ring          zipc_transport_spsc_ring_initialize and the ring operations of
--                 platform/linux/common/platform-linux-common.c
--   Transport     the transport calls that a link makes, as an interface; Transport/Queue: what a link
--                 relies on in them
--   Link          struct zipc_link, zipc_buffer_alloc_ex, zipc_buffer_release; Link/Send (zipc_send,
--                 rollback_transfer), Link/Receive (zipc_recv), Link/Copy (zipc_send_copy,
--                 zipc_recv_copy), Link/Create (zipc_link_create), Link/Reconcile
--                 (zipc_link_reconcile); Link/Exchange: a send and its receive
--   Linux         platform/linux/user/platform-linux-user.c: the transports, from
--                 zipc_platform_transport_send to zipc_platform_transport_receive_abort
--   Baremetal     platform/baremetal/platform-baremetal.c: Open (zipc_platform_memory_open,
--                 zipc_platform_transport_open) and Calls (the transport calls)
--   Topology      zipc_topology_bind_pool and _transport, the look-ups; Topology/Register
--                 (zipc_topology_validate, _register_config, _register and zipc_link_open),
--                 Topology/Text and Parser (topology_trim to zipc_topology_load_string);
--                 Topology/Written: the text that a configuration is written as
--   Tests         the theorems at a small concrete pool
--
-- How the code is written here. `World` is the pool and the globals of one process; an operation
-- takes the world and returns its status, its output objects and the new world. Each operation is
-- one run with no other component acting on its slot in between; the compare-exchanges are written
-- out with their failure branches, and a loop around a weak exchange is decided in one round. A
-- function of the code that is long is split into stages, each of which is a definition; the
-- stages behind the claim of a slot work on a copy of it that is written back at the end. An `|`
-- of fields that do not overlap is a sum, shifts and masks are products, quotients and remainders,
-- and each machine word wraps as its C type does. Arrays are functions of the index. Pointers that
-- the code checks for NULL are present. One pool is attached; `Pool` of State is what an attach
-- leaves. The sizes and alignments of the C types in it are a parameter of format and attach
-- (`Abi`), and so is what they ask of a memory object (`Memory`). Platform calls are a parameter,
-- `Platform`: the answer to each call is a function of its number, and `World.calls` counts the
-- calls, so that any clock, generator and page protection is covered. The generator of identities
-- runs on fuel 2, since a session is drawn at most once in a call; a round that waits for another
-- thread is `spin`, and the call is then `none`. The allocation scan and the recoveries are
-- recursion on the number of slots left, the search of a ring on the number of its messages. A
-- link's calls also take and return the state of its transport, of any type; a receive that never
-- returns is `none`. The receive loop of a link runs on fuel, and more fuel than there are queued
-- messages is enough; the waits of a Linux transport run on fuel for their rounds, and between two
-- rounds the other side of a ring may do anything to it (`Os.peer`). A name of the topology is the
-- list of its characters, and what zipc_link_open hands to zipc_link_create is an argument of the
-- caller's choice (`Opening`). Code under ZIPC_TESTING is not modelled.
--
-- Not modelled: zipc_visited_set_count and src/core/zipc-backends.c, which are pure reads and name
-- tables; and, being system calls, vendor layers and clients, the rest of platform/, the utilities and
-- the examples.
pub mod Base
pub mod Word
pub mod Status
pub mod Handle
pub mod VisitedSet
pub mod State
pub mod Platform
pub mod Trace
pub mod Component
pub mod Buffer
pub mod Identity
pub mod Protocol
pub mod Recovery
pub mod Pool
pub mod Ring
pub mod Transport
pub mod Link
pub mod Linux
pub mod Baremetal
pub mod Topology
pub mod Tests
