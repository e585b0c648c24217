-- ===== src/Lookup.antt =====
-- src/lookup.rs: the namespace.
mod Examples
mod Trees
pub mod Key
pub mod NodeMap
pub mod Table
pub mod Rename
