-- ===== src/Tenant/Semantics/Outcomes.antt =====
-- `record_outcomes`: the row that one outcome writes, and its ledger entries.
mod Writes
pub mod Leases
pub mod Versions
pub mod Ledger
unfoldable pub use Writes.*
