-- ===== src/Tenant/Store/Sound.antt =====
-- The batches that the methods plan replace rows in place, and write no row twice.
pub mod Steps
pub mod Runs
pub mod Rules
pub mod Web
pub mod Calls
