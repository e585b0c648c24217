-- ===== src/Engine/Mounted/Cloning.antt =====
-- The disk of Engine/Mounted with dedup: a whole chunk of a file is cloned to another place of it.
use vramdisk.Lookup.Table.{Node, node_at}
use vramdisk.Lookup.Table
use vramdisk.Lookup.Key.{normalize_key}
use vramdisk.Lookup.NodeMap
use vramdisk.Lookup.NodeMap.{bytes_eq}
use vramdisk.Placement.{raw}
use vramdisk.Bits.Words.{trailing_ones, set_bit}
use vramdisk.Chunk.{alloc_one}
use vramdisk.Engine.Vram.{write_at, zero_at}
use vramdisk.Engine.State.{StorageEngine, new, coord, alloc_chunk, ref_inc}
use vramdisk.Engine.Store.{write_chunk}
use vramdisk.Engine.Contents.{IsPlain}
use vramdisk.Engine.Reach.{Reaches, Reaches-IsSound}
use vramdisk.Engine.Clone.{ranges_overlap, clone_range, copy_head, share_chunks, copy_tail}
use vramdisk.Engine.Refs.{refs, refers}
use vramdisk.Engine.Clone.Reads.{read-clone_range}
use vramdisk.Engine.Files.{ensure_logical_len}
use vramdisk.Engine.Read.{read}
use vramdisk.Engine.Result.{ok}
use vramdisk.Engine.Clone.Piece.{IsSharing}
use vramdisk.Engine.Clone.Ranges.{ClonesTo, SharesApart, before_sharing, clone_range_lem}
use vramdisk.Engine.Mounted.{
  outside, path, file, disk, disk-IsPlain, disk-CountsFit, is_file, in_file, after_write,
}
use vramdisk.Common.{ℕ, ◌+◌, min, ◌-◌, ◌≡◌, inl, inr, refl, arith, [], ◌∷◌, some, none, false}

after_write-IsPlain : IsPlain after_write
unfolding new
after_write-IsPlain =
    let s = Reaches-IsSound outside disk after_write disk-IsPlain refl refl (
      Reaches.stored Reaches.mounted path 0 file 5 (1 ∷ 2 ∷ []) is_file in_file (omega arith)
        (omega arith) (λ shared whole. disk-CountsFit)) in
    s.plain

-- The file, with a chunk and a hole.
abbrev written_file : Node
written_file = record file { coords = some (raw 0) ∷ none ∷ [] }

is_written : node_at after_write.table (normalize_key path) ≡ some written_file
unfolding write_chunk alloc_chunk alloc_one trailing_ones new coord Table.new_node NodeMap.get
    bytes_eq normalize_key zero_at write_at NodeMap.insert set_bit
is_written = refl

written_file_not_dir : written_file.is_dir ≡ false
unfolding Table.new_node
written_file_not_dir = refl

after_write-IsSharing : IsSharing after_write
unfolding write_chunk alloc_chunk alloc_one trailing_ones new coord Table.new_node NodeMap.get
    bytes_eq normalize_key zero_at write_at NodeMap.insert set_bit
after_write-IsSharing = record { shared = refl; raw_only = refl; verify = refl }

-- Its chunk has one reference, and the head of the range is empty.
refs-before_sharing :
    (c : ℕ)
    → refs
        (before_sharing outside path path 0 65536 after_write after_write-IsPlain
          after_write-IsSharing.raw_only written_file written_file is_written written_file_not_dir
          is_written written_file_not_dir 65536).table
        c
      ≡ refers c (some (raw 0)) + 0
unfolding refs write_chunk alloc_chunk alloc_one trailing_ones new coord Table.new_node NodeMap.get
    bytes_eq normalize_key zero_at write_at NodeMap.insert set_bit ensure_logical_len copy_head
refs-before_sharing c = omega arith

-- The chunk goes to the hole.
next_chunk-SharesApart :
    SharesApart outside path path 0 65536 after_write after_write-IsPlain
      after_write-IsSharing.raw_only written_file written_file is_written written_file_not_dir
      is_written written_file_not_dir 65536
unfolding ranges_overlap bytes_eq
next_chunk-SharesApart = (
  after_write-IsSharing,
  λ c. ground (arith, refs-before_sharing c),
  inr (inl (omega arith)),
  refl,
)

clone_range_lem_example :
    ClonesTo outside path path 0 65536 after_write after_write-IsPlain
      after_write-IsSharing.raw_only written_file written_file is_written written_file_not_dir
      is_written written_file_not_dir 65536
      (clone_range outside path path 0 65536 after_write 65536)
clone_range_lem_example =
    clone_range_lem outside path path 0 65536 after_write after_write-IsPlain
      after_write-IsSharing.raw_only written_file written_file is_written written_file_not_dir
      is_written written_file_not_dir 65536 (omega arith) (omega arith) (inr next_chunk-SharesApart)

abbrev after_clone : StorageEngine
after_clone = (clone_range outside path path 0 65536 after_write 65536).0

cloned : clone_range outside path path 0 65536 after_write 65536 ≡ (after_clone, ok 65536)
unfolding clone_range write_chunk alloc_chunk alloc_one trailing_ones new coord Table.new_node
    NodeMap.get bytes_eq normalize_key zero_at write_at NodeMap.insert set_bit ensure_logical_len
    copy_head share_chunks copy_tail ref_inc
cloned = refl

read-clone_range_example :
    ((◌≡◌ {A = ℕ} 65536 (min 65536 (100000 - 0))))
    × (read outside after_clone path 65536 65536 ≡ read outside after_write path 0 65536)
read-clone_range_example =
    read-clone_range outside path path 0 65536 after_write after_write-IsPlain
      after_write-IsSharing.raw_only written_file written_file is_written written_file_not_dir
      is_written written_file_not_dir 65536 (omega arith) (omega arith) (inr next_chunk-SharesApart)
      after_clone 65536 cloned
