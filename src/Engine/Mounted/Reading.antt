-- ===== src/Engine/Mounted/Reading.antt =====
-- The disk of Engine/Mounted, with dedup and without, read and written.
use vramdisk.Lookup.Key.{Bytes, normalize_key}
use vramdisk.Lookup.Table.{node_at}
use vramdisk.Lookup.Table
use vramdisk.Lookup.NodeMap
use vramdisk.Lookup.NodeMap.{bytes_eq}
use vramdisk.Placement.{raw}
use vramdisk.Bits.Words.{trailing_ones, set_bit}
use vramdisk.Chunk.{alloc_one}
use vramdisk.Engine.Result.{ok, err, no_space}
use vramdisk.Engine.Vram.{write_at, zero_at}
use vramdisk.Engine.State.{StorageEngine, new, coord, alloc_chunk}
use vramdisk.Engine.Store.{write_chunk}
use vramdisk.Engine.Refs.{refs}
use vramdisk.Engine.Contents.{IsPlain, length-zeros}
use vramdisk.Engine.Contents.Storing.{Accounts-cong, Accounts-files}
use vramdisk.Engine.Contents.Initial.{new-IsPlain}
use vramdisk.Engine.Reach.{Reaches, Reaches-IsSound}
use vramdisk.Engine.Files.{ensure_logical_len}
use vramdisk.Engine.Read.{
  raw_run_bytes, read_into, read_into_shared, read, as_some, spans, blob_span, wanted,
}
use vramdisk.Engine.Read.Runs.{file_byte, IsMaximal, raw_run_bytes-IsMaximal}
use vramdisk.Engine.Read.Agreement.{HasBlob, read_into_shared-read_into}
use vramdisk.Engine.Read.Reads.{Reads, read_into_shared-Reads, read_lem}
use vramdisk.Engine.Read.Ends.{RunsTo, spans-ends}
use vramdisk.Engine.Write.{write, write_raw_internal}
use vramdisk.Engine.WriteTo.{WroteTo}
use vramdisk.Engine.RawInternal.{write_raw_internal_lem}
use vramdisk.Engine.RawWrite.{alloc_contiguous_run}
use vramdisk.Engine.RawRuns.{AllotsRun, alloc_contiguous_run_lem}
use vramdisk.Engine.RawParts.{write_lem, read-write}
use vramdisk.Engine.Chunks.{zeros}
use vramdisk.Chunk.{free}
use vramdisk.Engine.Mounted.{
  outside, path, file, table, disk, disk-IsPlain, table_keyed, no_placement, no_refs, is_file,
  in_file,
}
use vramdisk.Common.{
  ℕ, ◌+◌, ◌-◌, ◌*◌, ◌/◌, ◌%◌, ◌≤◌, ◌<◌, ◌≡◌, ◌⊎◌, min, refl, arith, [], ◌∷◌, some, none, false,
  length, get_or,
}

not_dir : file.is_dir ≡ false
unfolding Table.new_node
not_dir = refl

-- Four bytes of the caller.
abbrev buffer : Bytes
buffer = 9 ∷ 9 ∷ 9 ∷ 9 ∷ []

read_into_shared-Reads_example :
    (out : Bytes) × (read_into outside disk path 65534 buffer ≡ (out, ok (min (100000 - 65534) 4)))
    × (read_into_shared disk path 65534 buffer ≡ (out, ok (some (min (100000 - 65534) 4))))
    × Reads disk (normalize_key path) 65534 (min (100000 - 65534) 4) buffer out
read_into_shared-Reads_example =
    read_into_shared-Reads outside disk disk-IsPlain path 65534 file is_file not_dir buffer

read_lem_example :
    (bytes : Bytes) × (read outside disk path 65534 4 ≡ ok bytes)
    × (length bytes ≡ min (100000 - 65534) 4)
    × ((i : ℕ)
        → i < length bytes
        → get_or bytes i 0 ≡ file_byte disk (normalize_key path) (65534 + i))
read_lem_example = read_lem outside disk disk-IsPlain path 65534 file is_file not_dir 4

read_into_shared-read_into_example :
    (read_into_shared disk path 65534 buffer ≡ as_some (read_into outside disk path 65534 buffer))
    ⊎ ((n : Table.Node) × (node_at disk.table (normalize_key path) ≡ some n)
        × (read_into_shared disk path 65534 buffer ≡ (buffer, ok none))
        × HasBlob
            (λ lc. get_or n.coords lc none)
            (65534 / 65536)
            ((65534 + wanted n 65534 buffer - 1) / 65536 + 1))
read_into_shared-read_into_example = read_into_shared-read_into outside disk path 65534 buffer

spans-ends_example :
    RunsTo disk path
      (coord disk path)
      (blob_span outside disk)
      65534
      4
      0
      (record { out = buffer; pending = [] })
      (spans disk path
        (coord disk path)
        (blob_span outside disk)
        65534
        4
        4
        0
        (record { out = buffer; pending = [] }))
spans-ends_example = spans-ends outside disk path 65534 4 (record { out = buffer; pending = [] })

-- The disk without dedup.
abbrev raw_mounted : StorageEngine
raw_mounted = new 0 (record { size = 131072; byte = λ i. 7 }) false false false

abbrev raw_disk : StorageEngine
raw_disk = record raw_mounted { table = table }

raw_disk-IsPlain : IsPlain raw_disk
unfolding new
raw_disk-IsPlain =
    let v : IsPlain raw_mounted =
      new-IsPlain 0 (record { size = 131072; byte = λ i. 7 }) false false false in
    record {
      accounts = Accounts-cong raw_disk (refs raw_mounted.table) (refs table) no_refs (
          Accounts-files raw_mounted (refs raw_mounted.table) table raw_mounted.vram refl
            v.accounts);
      keyed = table_keyed;
      raw_only = λ k lc offset len codec q. cc (q, no_placement k lc);
    }

write_raw_internal_lem_example :
    WroteTo raw_disk raw_disk-IsPlain path file is_file not_dir 65535
      (1 ∷ 2 ∷ [])
      (write_raw_internal outside raw_disk path 65535 (1 ∷ 2 ∷ []))
unfolding new
write_raw_internal_lem_example =
    write_raw_internal_lem outside raw_disk raw_disk-IsPlain refl path file is_file not_dir 65535
      (1 ∷ 2 ∷ []) (omega arith)

-- The disk after the two bytes, one in each chunk.
abbrev raw_after : StorageEngine
raw_after = (write outside raw_disk path 65535 (1 ∷ 2 ∷ [])).0

raw_wrote : write outside raw_disk path 65535 (1 ∷ 2 ∷ []) ≡ (raw_after, ok 2)
unfolding write ensure_logical_len write_chunk alloc_chunk alloc_one trailing_ones new
    Table.new_node NodeMap.get bytes_eq normalize_key NodeMap.insert zero_at write_at set_bit
raw_wrote = refl

read-write_example : read outside raw_after path 65535 2 ≡ ok (1 ∷ 2 ∷ [])
unfolding new
read-write_example =
    read-write outside path 65535 (1 ∷ 2 ∷ []) (omega arith) raw_disk raw_disk-IsPlain refl refl
      file is_file not_dir raw_after 2 raw_wrote

-- A write of a whole chunk and part of another.
many_bytes : 0 < length (zeros 70000)
many_bytes = omega (arith, length-zeros 70000)

write_lem_example :
    WroteTo raw_disk raw_disk-IsPlain path file is_file not_dir 0
      (zeros 70000)
      (write outside raw_disk path 0 (zeros 70000))
unfolding new
write_lem_example =
    write_lem outside path 0 (zeros 70000) many_bytes raw_disk raw_disk-IsPlain refl refl file
      is_file not_dir

alloc_contiguous_run_lem_example :
    ((alloc_contiguous_run raw_disk 2 ≡ (raw_disk, err no_space)) × (free raw_disk.alloc ≡ 0))
    ⊎ ((e' : StorageEngine) × (start : ℕ) × (got : ℕ) × (alloc_contiguous_run raw_disk 2
          ≡ (e', ok (start, got)))
        × (0 < got)
        × (got ≤ 2)
        × AllotsRun raw_disk (refs table) e' start got)
unfolding new
alloc_contiguous_run_lem_example =
    alloc_contiguous_run_lem raw_disk (refs table) raw_disk-IsPlain.accounts refl 2 (omega arith)

-- Two bytes are stored in the first chunk.
abbrev raw_stored : StorageEngine
raw_stored = (write_chunk outside raw_disk path 0 5 (1 ∷ 2 ∷ [])).0

raw_stored-IsPlain : IsPlain raw_stored
unfolding new
raw_stored-IsPlain =
    let s = Reaches-IsSound outside raw_disk raw_stored raw_disk-IsPlain refl refl (
      Reaches.stored Reaches.mounted path 0 file 5 (1 ∷ 2 ∷ []) is_file in_file (omega arith)
        (omega arith) (λ shared. cc shared)) in
    s.plain

raw_at_zero : coord raw_stored path 0 ≡ some (raw 0)
unfolding write_chunk alloc_chunk alloc_one trailing_ones new coord Table.new_node NodeMap.get
    bytes_eq normalize_key zero_at write_at NodeMap.insert
raw_at_zero = refl

raw_run_bytes-IsMaximal_example :
    IsMaximal raw_stored path 3
      (0 * 65536 + 3 % 65536)
      10
      10
      (raw_run_bytes raw_stored path 3 10 10 0)
raw_run_bytes-IsMaximal_example =
    raw_run_bytes-IsMaximal raw_stored raw_stored-IsPlain path 3 10 0 raw_at_zero (omega arith) 10
      refl
