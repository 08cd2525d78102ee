-- ===== src/Core.antt =====
-- core/: the booking engine's data and its pure policies.
pub mod Calendar
pub mod Models
pub mod Policy
pub mod Slots
pub mod Orchestrator
