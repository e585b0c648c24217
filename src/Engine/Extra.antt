-- ===== src/Engine/Extra.antt =====
-- src/engine.rs: the extra fields of gzip members and ZIP entries. A position in the field is the
-- list of the bytes from there on, and the fuel of a loop is their number.
use vramdisk.Lookup.Key.{Bytes}
use vramdisk.Engine.Result.{EResult, ok, err, invalid_input}
use vramdisk.Jobs.Text.{codes}
use vramdisk.Engine.Fields.{le_bytes, read_u16_le, read_u32_le, read_u64_le}
use vramdisk.Common.{
  ℕ, zero, suc, ◌+◌, ◌-◌, ◌*◌, ◌/◌, ◌%◌, ◌^◌, min, List, [], ◌∷◌, ◌++◌, Option, none, some, Bool,
  true, false, not, ◌&&◌, ◌||◌, ◌==◌, ltb, if◌then◌else◌, length, take, drop,
}

abbrev pub u32_max : ℕ
u32_max = 2 ^ 32 - 1

abbrev pub zip_chunk_table_tag : ℕ
zip_chunk_table_tag = 18260

abbrev pub zip_chunk_table_tag_legacy : ℕ
zip_chunk_table_tag_legacy = 18259

unfoldable pub push_sizes : List ℕ → Bytes
unfolding le_bytes
push_sizes [] = []
push_sizes (size ∷ sizes) = le_bytes 8 size ++ push_sizes sizes

-- The loop of `zip_local_extra` over the sizes from `start` on, at most 8190 to a table.
unfoldable pub push_tables : ℕ → ℕ → List ℕ → Bytes
unfolding le_bytes push_sizes
push_tables zero start sizes = []
push_tables (suc fuel) start [] = []
push_tables (suc fuel) start (size ∷ sizes) =
    let count = min (length (size ∷ sizes)) 8190 in
    le_bytes 2 zip_chunk_table_tag
    ++ le_bytes 2 ((8 + count * 8) % 65536)
    ++ (le_bytes 4 (start % 2 ^ 32)
        ++ le_bytes 4 (count % 2 ^ 32)
        ++ push_sizes (take count (size ∷ sizes)))
    ++ push_tables fuel (start + count) (drop count (size ∷ sizes))

-- Each round of the loop takes a size at least.
unfoldable pub zip_local_extra : ℕ → ℕ → List ℕ → Bytes
unfolding push_tables le_bytes
zip_local_extra uncomp_size comp_size sizes =
    le_bytes 2 1
    ++ le_bytes 2 16
    ++ (le_bytes 8 uncomp_size ++ le_bytes 8 comp_size)
    ++ push_tables (length sizes) 0 sizes

unfoldable pub zip64_central_extra : ℕ → ℕ → ℕ → Bytes
unfolding le_bytes
zip64_central_extra uncomp_size comp_size local_offset =
    le_bytes 2 1
    ++ le_bytes 2 24
    ++ le_bytes 8 uncomp_size
    ++ le_bytes 8 comp_size
    ++ le_bytes 8 local_offset

-- The loop of `zip_sizes_from_local_extra`.
unfoldable pub find_zip64 : ℕ → Bytes → EResult (ℕ × ℕ)
find_zip64 (suc fuel) (t0 ∷ t1 ∷ l0 ∷ l1 ∷ rest) =
    let len = read_u16_le (l0 ∷ l1 ∷ []) in
    let later = find_zip64 fuel (drop len rest) in
    let field = take len rest in
    if ltb (length rest) len
    then err (invalid_input (codes "invalid ZIP extra field length"))
    else if read_u16_le (t0 ∷ t1 ∷ []) == 1
    then if ltb len 16
      then err (invalid_input (codes "truncated ZIP64 size extra field"))
      else ok (read_u64_le field, read_u64_le (drop 8 field))
    else later
find_zip64 fuel rest =
    err (invalid_input (codes "ZIP entry uses 0xffffffff sizes without ZIP64 extra field"))

unfoldable pub zip_sizes_from_local_extra : ℕ → ℕ → Bytes → EResult (ℕ × ℕ)
unfolding find_zip64
zip_sizes_from_local_extra uncomp32 comp32 extra =
    if not (uncomp32 == u32_max) && not (comp32 == u32_max)
    then ok (uncomp32, comp32)
    else find_zip64 (length extra) extra

pub record ZipChunkTable : Type 0 where
  pub sizes : List ℕ
  pub spliced : Bool

unfoldable pub read_sizes : ℕ → Bytes → List ℕ
read_sizes zero src = []
read_sizes (suc n) src = read_u64_le src ∷ read_sizes n (drop 8 src)

-- The loop of `zip_deflate_chunks_from_extra`, with the sizes so far.
unfoldable pub scan_tables : ℕ → Bytes → List ℕ → Bool → EResult (List ℕ × Bool)
unfolding read_sizes
scan_tables (suc fuel) (t0 ∷ t1 ∷ l0 ∷ l1 ∷ rest) sizes spliced =
    let tag = read_u16_le (t0 ∷ t1 ∷ []) in
    let len = read_u16_le (l0 ∷ l1 ∷ []) in
    let body = take len rest in
    let start = read_u32_le body in
    let count = read_u32_le (drop 4 body) in
    let skip = scan_tables fuel (drop len rest) sizes spliced in
    let next =
      scan_tables fuel (drop len rest) (sizes ++ read_sizes count (drop 8 body))
        (if tag == zip_chunk_table_tag_legacy then false else spliced) in
    if ltb (length rest) len
    then err (invalid_input (codes "invalid ZIP extra field length"))
    else if tag == zip_chunk_table_tag || tag == zip_chunk_table_tag_legacy
    then if ltb len 8 || not ((len - 8) % 8 == 0)
      then err (invalid_input (codes "invalid VRAMDISK ZIP chunk table"))
      else if not (count == (len - 8) / 8)
      then err (invalid_input (codes "VRAMDISK ZIP chunk table count mismatch"))
      else if ltb (length sizes) start
      then err (invalid_input (codes "VRAMDISK ZIP chunk table has a gap"))
      else next
    else skip
scan_tables fuel rest sizes spliced = ok (sizes, spliced)

unfoldable pub table_of : List ℕ × Bool → Option ZipChunkTable
table_of ([], spliced) = none
table_of (size ∷ sizes, spliced) = some (record { sizes = size ∷ sizes; spliced = spliced })

unfoldable pub zip_deflate_chunks_from_extra : Bytes → EResult (Option ZipChunkTable)
unfolding scan_tables table_of
zip_deflate_chunks_from_extra extra = elim (scan_tables (length extra) extra [] true) [
  | err e ↦ err e
  | ok found ↦ ok (table_of found)
]
