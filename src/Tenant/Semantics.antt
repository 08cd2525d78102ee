-- ===== src/Tenant/Semantics.antt =====
-- tenant/semantics.py: the rules that every store computes its writes with.
pub mod Intents
pub mod Rules
pub mod Restoring
pub mod Restored
pub mod Outcomes
mod Examples
