-- ===== src/Tenant/Store.antt =====
-- tenant/in_memory_store.py: the store of rows, rules and accounts, and its transactions.
--
-- Journal has what no other method reads. Identifiers are numbers; a fresh random id is an
-- argument.
mod State
mod Equality
mod Commit
mod Plans
mod Web
mod Materializing
mod Running
mod Watching
mod Cutoffs
mod Reads
mod Calls
mod Journal
mod Examples
pub mod Pointers
pub mod Batches
pub mod Commits
pub mod Committed
pub mod Ruledays
pub mod Moves
pub mod Sound
pub mod Recorded
pub mod Caught
pub mod Leasing
pub mod Offers
pub mod Reach
pub mod Covered
unfoldable pub use State.*
unfoldable pub use Equality.*
unfoldable pub use Commit.*
unfoldable pub use Plans.*
unfoldable pub use Web.*
unfoldable pub use Materializing.*
unfoldable pub use Running.*
unfoldable pub use Watching.*
unfoldable pub use Cutoffs.*
unfoldable pub use Reads.*
unfoldable pub use Calls.*
unfoldable pub use Journal.*
