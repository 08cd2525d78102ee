-- ===== src/Tenant/Groups.antt =====
-- tenant/groups.py: one user's rows for a date across courses, of which one booking is kept.
mod Ranks
mod Collapse
mod Report
pub mod Standing
pub mod Best
pub mod Floor
pub mod Spares
mod Examples
unfoldable pub use Ranks.*
unfoldable pub use Collapse.*
unfoldable pub use Report.*
