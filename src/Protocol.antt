-- ===== src/Protocol.antt =====
-- The ownership protocol of a slot (src/core/zipc.c): allocation, transfer, claim and release. Each
-- operation is one run of its code with no other component acting on the slot in between; the
-- compare-exchanges are written out, with the branch for a value that another component left.
pub mod Common
pub mod Frame
pub mod Allocate
pub mod Transfer
pub mod Claim
pub mod Release
pub mod Ownership
pub mod Interleaving
