-- ===== src/Tenant/Rows.antt =====
-- tenant/models.py: request rows and the state machine that every write of one goes through.
--
-- Identifiers, lease owners and free-text outcomes are numbers, since the code only compares them.
-- A status reason is one of the strings that the code names, or another one. A row's timezone is
-- the zone that it names.
mod Data
mod Machine
pub mod Edges
pub mod Soundness
pub use Data.*
unfoldable pub use Machine.*
