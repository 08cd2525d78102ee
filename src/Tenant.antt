-- ===== src/Tenant.antt =====
-- tenant/: the multi-user path.
pub mod Allocation
pub mod Rows
pub mod Semantics
pub mod Store
pub mod Groups
pub mod Materialize
pub mod Retry
