-- ===== src/Jobs.antt =====
-- src/jobs.rs: the registry of background jobs. The lock makes each operation one step, so an
-- operation is a function of the registry. The clock is an argument.
pub mod Text
pub mod Registry
pub mod Handlers
pub mod Life
pub mod Ends
pub mod Evict
pub mod Room
mod Examples
