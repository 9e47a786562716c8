-- ===== src/Recovery.antt =====
-- Recovery after a crash (src/core/zipc.c: zipc_component_restart_next, zipc_pool_recover_owner,
-- zipc_pool_recover_claiming).
pub mod Restarts
pub mod Pools
