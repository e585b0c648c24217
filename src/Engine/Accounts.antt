-- ===== src/Engine/Accounts.antt =====
-- The books of an engine that stores no compressed blobs: the reference counts, the bitmap and the
-- dedup index against the number of references that each chunk has.
pub mod Alloc
pub mod Index
pub mod Enter
pub mod Release
use vramdisk.Units.{chunk_size}
use vramdisk.Placement.{Placement, raw, compressed}
use vramdisk.Chunk.{ChunkAllocator, alloc_one, free_one}
use vramdisk.Chunk.View.{digit}
use vramdisk.Chunk.Invariant.{IsValid}
use vramdisk.Chunk.Takes.{Takes}
use vramdisk.Chunk.Single.{alloc_one_lem}
use vramdisk.Chunk.Release.{Drops, free_one_lem}
use vramdisk.Engine.Result.{EResult, ok, err, no_space}
use vramdisk.Engine.Dict.{get-insert, get-remove}
use vramdisk.Engine.Dict
use vramdisk.Engine.State.{
  StorageEngine, Outcome, took, alloc_chunk, ref_inc, release_chunk, index_remove, index_insert,
  is_raw, give_chunk, set_refcount,
}
use vramdisk.Common.{
  ℕ, zero, suc, ◌+◌, ◌-◌, ◌*◌, ◌≤◌, ◌<◌, ◌≡◌, ◌≢◌, ◌⊎◌, inl, inr, refl, sym, ap, ◌∙◌, subst, arith,
  List, Option, none, some, Bool, true, false, ◌==◌, ltb, leb, ◌&&◌, if◌then◌else◌, length, get_or,
  set, length-set, get_or-set_self, get_or-set_ne, ℕ_discrete, Bool-cases, Option-cases, ==_iff,
  ==_refl, by_true, by_false,
}

-- How many references each chunk has.
abbrev pub Refs : Type 0
Refs = ℕ → ℕ

abbrev pub more : Refs → ℕ → Refs
more r c d = if c == d then r d + 1 else r d

abbrev pub fewer : Refs → ℕ → Refs
fewer r c d = if c == d then r d - 1 else r d

-- The entry is a raw chunk of the disk that is referred to and knows its hash.
pub record IsIndexed (e : StorageEngine) (r : Refs) (h : ℕ) (p : Placement) : Type 0 where
  pub chunk : ℕ
  pub is : p ≡ raw chunk
  pub below : chunk < e.alloc.total
  pub live : 0 < r chunk
  pub hashed : get_or e.chunk_hash chunk none ≡ some h

pub record Accounts (e : StorageEngine) (r : Refs) : Type 0 where
  pub bitmap : IsValid e.alloc
  pub fits : e.alloc.total * chunk_size ≤ e.vram.size
  pub marked : (c : ℕ) → c < e.alloc.total → digit e.alloc.words c ≡ (if ltb 0 (r c) then 1 else 0)
  pub beyond : (c : ℕ) → e.alloc.total ≤ c → r c ≡ 0
  pub single : e.dedup ≡ false → (c : ℕ) → r c ≤ 1
  pub counted : e.dedup ≡ true → (c : ℕ) → c < e.alloc.total → get_or e.refcount c 0 ≡ r c
  pub long : e.dedup ≡ true → e.alloc.total ≤ length e.refcount
  pub hashes : e.dedup ≡ true → e.alloc.total ≤ length e.chunk_hash
  pub unindexed : e.dedup ≡ false → (c : ℕ) → get_or e.chunk_hash c none ≡ none
  pub indexed : (h : ℕ) (p : Placement) → Dict.get h e.hash_index ≡ some p → IsIndexed e r h p

-- What an operation on the books leaves alone.
pub record SameFiles (e e' : StorageEngine) : Type 0 where
  pub table : e'.table ≡ e.table
  pub vram : e'.vram ≡ e.vram
  pub total : e'.alloc.total ≡ e.alloc.total
  pub dedup : e'.dedup ≡ e.dedup
  pub compress : e'.compress ≡ e.compress
  pub verify : e'.dedup_verify_bytes ≡ e.dedup_verify_bytes

pub SameFiles-refl : (e : StorageEngine) → SameFiles e e
SameFiles-refl e = record {
  table = refl;
  vram = refl;
  total = refl;
  dedup = refl;
  compress = refl;
  verify = refl;
}

pub SameFiles-trans : (a b c : StorageEngine) → SameFiles a b → SameFiles b c → SameFiles a c
SameFiles-trans a b c p q = record {
  table = q.table ∙ p.table;
  vram = q.vram ∙ p.vram;
  total = q.total ∙ p.total;
  dedup = q.dedup ∙ p.dedup;
  compress = q.compress ∙ p.compress;
  verify = q.verify ∙ p.verify;
}

-- A chunk that is given out had no reference and has one.
pub record Allots (e : StorageEngine) (r : Refs) (e' : StorageEngine) (c : ℕ) : Type 0 where
  pub accounts : Accounts e' (more r c)
  pub same : SameFiles e e'
  pub index : e'.hash_index ≡ e.hash_index
  pub was_free : r c ≡ 0
  pub below : c < e.alloc.total
