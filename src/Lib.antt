-- ===== src/Lib.antt =====
-- VRAMDISK: a RAM disk in video memory. This library models the parts that decide where bytes
-- live, which paths name which files, and what becomes of background jobs.
--
-- The disk is one buffer of 64 KiB chunks. `ChunkAllocator` (src/chunk.rs) gives out whole
-- chunks; `CompressedAllocator` (src/arena.rs) packs compressed blobs into chunks that the engine
-- hands to it; `LookupTable` (src/lookup.rs) maps paths to nodes, whose coordinates are
-- placements in those chunks. The engine (src/engine.rs) sits on all of them.
--
-- Files:
--   Units       src/lib.rs, the chunk size
--   Chunk       src/chunk.rs; the bitmap is a list of 64-bit words. Chunk/View reads it as a
--               function from chunk ids to 0 and 1, Chunk/Invariant says what holds of it, and
--               Chunk/Single, Release and Contiguous are about the operations. Chunk/Runs is the
--               plain search that Chunk/Scanning compares the word-wise scan with.
--   Arena       src/arena.rs. `carve`, `give_back` and `release` are `Arena::alloc`,
--               `Arena::free` and `CompressedAllocator::free`. Arena/Partition is about one
--               arena; Arena/Allocator and Turnover are about all of them, with a ledger of the
--               live blobs.
--   Placement   src/lookup.rs, `Placement` and `Codec`
--   Lookup      src/lookup.rs. Lookup/Key has the path functions over UTF-8 bytes, Lookup/NodeMap
--               the maps and sets that they key, Lookup/Table and Lookup/Rename the operations.
--               Lookup/Key/Canonical relates `normalize` and its shortcut. Of the modules in
--               Lookup/Rename, Refusals is about what `rename` refuses, and Keys, Moves, Success and
--               Free about the move of a node with all below it.
--   Jobs        src/jobs.rs. Jobs/Text is the JSON of a result, Jobs/Registry the registry and
--               `reserve`, Jobs/Handlers the other operations. Jobs/Life and Ends are about the
--               states of a job, Jobs/Evict and Room about `reserve`.
--   Engine      src/engine.rs. Engine/Fields has the little-endian fields, Engine/Extra the extra
--               fields of ZIP entries, written and read; Engine/Tables and Roundtrip compare.
--               Engine/Vram is the buffer of src/cuda.rs, as a map from offsets to bytes, Dict the
--               hash maps, Hash `fnv1a`. Engine/State has `StorageEngine`, the counts and the index,
--               Chunks what happens to one placement, Store `write_chunk`, Files the size, removal
--               and renaming of files, and Read the reads. Pieces, RawWrite, DedupWrite and
--               PackedWrite are the ways of `write` to store bytes over many chunks, Write has
--               `write` and `write_raw_internal`, and Clone `clone_range`. Engine/Accounts says when
--               the counts, the bitmap and the index agree with a number of references for each
--               chunk; Engine/Refs counts the references of the table. Engine/Contents has the abstract view, a map from files and
--               logical chunks to bytes, and the plain engines: the books agree with the table, and
--               no blob is stored. Engine/Writes is about `write_chunk` against that view, Removal
--               about `remove`, Shrink, Truncate and Resize about `set_size`, Growth and Creation
--               about new coordinates and files, and Reach about all sequences of these. The
--               modules in Engine/Read are about reads against the view and under the two locks,
--               Laying, WriteTo and RawInternal about a write over many chunks, chunk by chunk, and
--               RawRuns, RunLengths, Placing, RunWrites, RunOver, Stored, RawRounds and RawParts
--               about one in runs. Of the modules in Engine/Clone, Pending, Sharing and Chunks are
--               about the chunks that `clone_range` shares, Piece, Copies and Copying about the bytes
--               that it copies, and Ends, Ranges and Reads about all of it.
--   Bits        machine words as numbers, and Common what all parts share
--
-- Words of w bits are numbers. The invariants of the bitmap and of the arena bound them, fields of
-- archives are written with their wrap, and a count of references wraps at 2 ^ 32: a theorem about
-- shared chunks says which counts it admits. Loops are
-- recursion on the number of rounds that the source's range has; the readers of extra fields have
-- the length of the field as fuel, since each round reads four bytes at least. The loops of a read
-- and of a write have as fuel the bytes or chunks of the request, since each round serves one at
-- least; a request for a run of chunks that is halved on failure has its length. A release build is
-- modelled: a `debug_assert` is no step. A hash map is an association list or a function, since
-- no result depends on its order. The clock is an argument. An operation on the job registry
-- holds its lock throughout, so an interleaving of threads is a sequence of operations.
--
-- An operation of the engine gives the engine it leaves and its result, so that a failure after a
-- change keeps the change. The codecs, the hash kernel, the entropy test, which is made of floating
-- point, and the clock are the fields of `External`; a transfer fails at its bounds only.
--
-- Not modelled: the CUDA, nvCOMP and WinFsp bindings, which call code outside the repository; the
-- file-system front end (src/fs.rs) and the internal API (src/internal_api.rs), which turn callbacks
-- into calls of the engine and reports into text, and the benchmarks, the command line and the
-- desktop application: none of them keeps state of the disk; and of the engine the copy of a whole
-- file, archives but for the fields named here, and searching. No theorem is about the batched
-- writes with dedup or compression; they are definitions only.
pub mod Common
pub mod Bits
pub mod Units
pub mod Chunk
pub mod Arena
pub mod Placement
pub mod Lookup
pub mod Jobs
pub mod Engine
