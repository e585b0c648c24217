-- ===== src/Engine/Mounted/Truncating.antt =====
-- A full disk of three chunks with dedup. A file refers to one of them three times; a truncation of it
-- fails for want of a chunk, and the next one panics.
use vramdisk.Lookup.Key.{root, normalize_key}
use vramdisk.Lookup.NodeMap
use vramdisk.Lookup.NodeMap.{bytes_eq}
use vramdisk.Lookup.Table.{Node, LookupTable, new_node}
use vramdisk.Lookup.Table
use vramdisk.Placement.{raw}
use vramdisk.Bits.Words.{trailing_ones, set_bit}
use vramdisk.Chunk.{alloc_one}
use vramdisk.Engine.Result.{err, no_space, panicked}
use vramdisk.Engine.State.{StorageEngine, new, coord, alloc_chunk, ref_inc, release_chunk}
use vramdisk.Engine.Chunks.{make_exclusive, free_coords, free_placement}
use vramdisk.Engine.Files.{set_size, resize, shrink, clear_tail}
use vramdisk.Engine.Mounted.{outside, path}
use vramdisk.Common.{◌≡◌, refl, [], ◌∷◌, some, false, true}

abbrev shared_file : Node
shared_file = record (new_node 0 (97 ∷ []) false 0 2) {
  coords = some (raw 0) ∷ some (raw 0) ∷ some (raw 0) ∷ [];
  size = 196608;
}

abbrev other_file : Node
other_file = record (new_node 0 (98 ∷ []) false 0 3) {
  coords = some (raw 1) ∷ some (raw 2) ∷ [];
  size = 131072;
}

abbrev two_files : LookupTable
two_files = record {
  nodes =
      (root, record (new_node 0 [] true 16 1) { children = (97 ∷ []) ∷ (98 ∷ []) ∷ [] })
      ∷ (path, shared_file)
      ∷ (92 ∷ 98 ∷ [], other_file)
      ∷ [];
  next_index = 4;
}

abbrev three_chunks : StorageEngine
three_chunks = new 0 (record { size = 196608; byte = λ i. 7 }) false false true

abbrev full_disk : StorageEngine
full_disk =
    record (ref_inc (ref_inc (alloc_chunk (alloc_chunk (alloc_chunk three_chunks).0).0).0 0) 0) {
      table = two_files;
    }

-- The engine after the truncation that fails.
abbrev half_cut : StorageEngine
half_cut = (set_size outside full_disk path 65546).0

first_truncation : set_size outside full_disk path 65546 ≡ (half_cut, err no_space)
unfolding set_size resize shrink clear_tail make_exclusive free_coords free_placement release_chunk
    alloc_chunk alloc_one trailing_ones set_bit new coord Table.new_node NodeMap.get bytes_eq
    normalize_key ref_inc NodeMap.insert
first_truncation = refl

second_truncation : set_size outside half_cut path 140000 ≡ (half_cut, err panicked)
unfolding set_size resize shrink clear_tail make_exclusive free_coords free_placement release_chunk
    alloc_chunk alloc_one trailing_ones set_bit new coord Table.new_node NodeMap.get bytes_eq
    normalize_key ref_inc NodeMap.insert
second_truncation = refl
