-- ===== src/Engine.antt =====
-- src/engine.rs: the storage engine, and the fields of the archive formats that it writes and reads.
pub mod Result
pub mod Fields
pub mod Extra
pub mod Tables
pub mod Roundtrip
pub mod Dict
pub mod Vram
pub mod Hash
pub mod State
pub mod Chunks
pub mod Store
pub mod Files
pub mod Read
pub mod Pieces
pub mod RawWrite
pub mod DedupWrite
pub mod PackedWrite
pub mod Write
pub mod Clone
pub mod Accounts
pub mod Refs
pub mod Nodes
pub mod Contents
pub mod Writes
pub mod Removal
pub mod Growth
pub mod Creation
pub mod Shrink
pub mod Truncate
pub mod Resize
pub mod Laying
pub mod WriteTo
pub mod RawInternal
pub mod RawRuns
pub mod Placing
pub mod RunWrites
pub mod RunOver
pub mod RunLengths
pub mod Stored
pub mod RawRounds
pub mod RawParts
pub mod Reach
mod Mounted
mod Examples
