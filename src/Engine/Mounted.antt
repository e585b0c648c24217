-- ===== src/Engine/Mounted.antt =====
-- A disk of two chunks with one file of two holes, and the storage engine's theorems applied to it.
mod Reading
mod Cloning
mod Truncating
use vramdisk.Lookup.Key.{Bytes, root, normalize, normalize_key}
use vramdisk.Lookup.NodeMap.{bytes_eq}
use vramdisk.Lookup.NodeMap
use vramdisk.Lookup.NodeMap.Distinct.{Distinct}
use vramdisk.Lookup.Table.{LookupError, not_found, create, Node, LookupTable, new_node, node_at}
use vramdisk.Lookup.Table
use vramdisk.Placement.{Placement}
use vramdisk.Chunk.{free}
use vramdisk.Chunk
use vramdisk.Bits.Words.{trailing_ones}
use vramdisk.Engine.Result.{EResult, ok, err, lookup}
use vramdisk.Engine.State.{External, StorageEngine, Outcome, new, alloc_chunk, release_chunk}
use vramdisk.Engine.Chunks.{read_logical_chunk, make_exclusive}
use vramdisk.Engine.Store.{write_chunk}
use vramdisk.Engine.Accounts.{more, fewer, Accounts, SameFiles, Allots}
use vramdisk.Engine.Accounts.Alloc.{alloc_chunk_lem}
use vramdisk.Engine.Accounts.Release.{release_chunk-Accounts}
use vramdisk.Engine.Refs.{refs, placement_at}
use vramdisk.Engine.Contents.{content, IsPlain, CountsFit, Holds, read_logical_chunk_lem}
use vramdisk.Engine.Contents.Storing.{Written, Accounts-cong, Accounts-files}
use vramdisk.Engine.Contents.Initial.{new-IsPlain}
use vramdisk.Engine.Contents.Overlay.{overlay}
use vramdisk.Engine.Writes.{write_chunk_lem}
use vramdisk.Engine.Writes.Exclusive.{Owns, make_exclusive_lem}
use vramdisk.Engine.Files.{ensure_logical_len}
use vramdisk.Engine.Files
use vramdisk.Engine.Removal.{Removed, remove-Removed}
use vramdisk.Engine.Growth.{Grows, ensure_logical_len-Grows}
use vramdisk.Engine.Resize.{IsSound}
use vramdisk.Engine.Reach.{Reaches, with_node, Reaches-IsSound}
use vramdisk.Common.{
  ◌<◌, false, ℕ, zero, suc, ◌<◌, ◌≡◌, ◌⊎◌, inl, inr, refl, sym, ap, ◌∙◌, subst, arith, List, [],
  ◌∷◌, Option, none, some, true, false, length, get_or, Bool-cases,
}

-- Functions in place of the codecs and the hash kernel: nothing is compressed, and all hash alike.
abbrev outside : External
outside = record {
  lz4_compress = λ b. ok none;
  lz4_decompress = ok;
  zstd_encode = λ b. none;
  zstd_decode = ok;
  lz4_slices = λ v requests. ok [];
  should_skip_compression = λ b. true;
  hash_chunk = λ v at. ok 0;
  hash_chunks = λ v offsets. ok [];
  compress_group = λ group n. ok [];
  should_skip_batch_compression = λ b. true;
  now = 0;
}

-- The path `\a`.
abbrev path : Bytes
path = 92 ∷ 97 ∷ []

abbrev two_holes : List (Option Placement)
two_holes = none ∷ none ∷ []

abbrev file : Node
file = record (new_node 0 (97 ∷ []) false 0 2) { coords = two_holes; size = 100000 }

abbrev table : LookupTable
table = record {
  nodes =
      (root, record (new_node 0 [] true 16 1) { children = (97 ∷ []) ∷ [] }) ∷ (path, file) ∷ [];
  next_index = 3;
}

abbrev mounted : StorageEngine
mounted = new 0 (record { size = 131072; byte = λ i. 7 }) false false true

abbrev disk : StorageEngine
disk = record mounted { table = table }

mounted-IsPlain : IsPlain mounted
mounted-IsPlain = new-IsPlain 0 (record { size = 131072; byte = λ i. 7 }) false false true

no_refs : (c : ℕ) → refs (mounted.table) c ≡ refs table c
unfolding refs new Table.new new_node
no_refs c = refl

holes : (lc : ℕ) → get_or two_holes lc none ≡ none
holes zero = refl
holes (suc zero) = refl
holes (suc (suc lc)) = refl

no_placement : (k : Bytes) (lc : ℕ) → placement_at table k lc ≡ none
unfolding placement_at NodeMap.get new_node
no_placement k lc = elim (Bool-cases (bytes_eq root k)) [
  | inl same ↦ rw same refl
  | inr ne ↦ elim (Bool-cases (bytes_eq path k)) [
    | inl here ↦ rw (ne, here) (holes lc)
    | inr other ↦ rw (ne, other) refl
  ]
]

table_keyed : Distinct table.nodes
unfolding NodeMap.get bytes_eq
table_keyed = (refl, (refl, tt))

disk-IsPlain : IsPlain disk
disk-IsPlain = record {
  accounts = Accounts-cong disk (refs mounted.table) (refs table) no_refs (
      Accounts-files mounted (refs mounted.table) table mounted.vram refl mounted-IsPlain.accounts);
  keyed = table_keyed;
  raw_only = λ k lc offset len codec q. cc (q, no_placement k lc);
}

is_file : node_at table (normalize_key path) ≡ some file
unfolding normalize_key NodeMap.get new_node bytes_eq
is_file = refl

in_file : 0 < length file.coords
in_file = omega arith

disk_refs : (c : ℕ) → refs table c ≡ 0
unfolding refs new_node
disk_refs c = refl

disk-CountsFit : CountsFit 1 disk
disk-CountsFit c = omega (arith, disk_refs c)

write_chunk_lem_example :
    Written disk
      (normalize_key path)
      0
      (overlay 5 (1 ∷ 2 ∷ []) (content disk (normalize_key path) 0))
      (write_chunk outside disk path 0 5 (1 ∷ 2 ∷ []))
unfolding new
write_chunk_lem_example =
    write_chunk_lem disk disk-IsPlain path 0 file is_file in_file outside 5 (1 ∷ 2 ∷ []) refl refl
      (omega arith) (omega arith) (λ shared whole. disk-CountsFit)

read_logical_chunk_lem_example :
    (bytes : Bytes) × (read_logical_chunk outside disk path 0 ≡ ok bytes)
    × Holds disk (normalize_key path) 0 bytes
read_logical_chunk_lem_example = read_logical_chunk_lem outside disk disk-IsPlain path 0

-- The disk after its first chunk is given out, before a file refers to it.
abbrev taken : StorageEngine
taken = (alloc_chunk disk).0

number : EResult ℕ → ℕ
number (ok n) = n
number (err x) = 0

first : alloc_chunk disk ≡ (taken, ok 0)
unfolding alloc_chunk new Chunk.alloc_one trailing_ones
first = refl

first-Allots : Allots disk (refs table) taken 0
unfolding number
first-Allots = elim (alloc_chunk_lem disk (refs table) disk-IsPlain.accounts) [
  | inl (q, full) ↦ cc (q, first)
  | inr (a, c, q, al) ↦
      subst (λ (u : StorageEngine). Allots disk (refs table) u 0)
        (ap (λ (o : Outcome ℕ). o.0) (sym q ∙ first))
        (subst (Allots disk (refs table) a) (ap (λ (o : Outcome ℕ). number o.1) (sym q ∙ first)) al)
]

first-Accounts : Accounts taken (more (refs table) 0)
first-Accounts = first-Allots.accounts

first_below : 0 < taken.alloc.total
unfolding new
first_below = omega (arith, first-Allots.same.total)

release_chunk-Accounts_example :
    Accounts (release_chunk taken 0) (fewer (more (refs table) 0) 0)
    × SameFiles taken (release_chunk taken 0)
release_chunk-Accounts_example =
    release_chunk-Accounts taken (more (refs table) 0) first-Accounts 0 first_below (omega arith)

remove-Removed_example :
    ((failed : LookupError) × (Files.remove disk path ≡ (disk, err (lookup failed))))
    ⊎ ((e' : StorageEngine) × (n : Node) × (Files.remove disk path ≡ (e', ok tt))
        × Removed disk (normalize path) n e')
remove-Removed_example = remove-Removed disk disk-IsPlain path

-- Two bytes are stored in the file, another is made, and the first is removed.
abbrev after_write : StorageEngine
after_write = (write_chunk outside disk path 0 5 (1 ∷ 2 ∷ [])).0

abbrev after_create : StorageEngine
after_create = with_node after_write (create 9 after_write.table (92 ∷ 98 ∷ []) false 0)

history : Reaches outside disk (Files.remove after_create path).0
history =
    Reaches.removed
      (Reaches.created
        (Reaches.stored Reaches.mounted path 0 file 5 (1 ∷ 2 ∷ []) is_file in_file (omega arith)
          (omega arith) (λ shared whole. disk-CountsFit))
        9 (92 ∷ 98 ∷ []) false 0)
      path

Reaches-IsSound_example : IsSound disk (Files.remove after_create path).0
unfolding new
Reaches-IsSound_example =
    Reaches-IsSound outside disk (Files.remove after_create path).0 disk-IsPlain refl refl history
