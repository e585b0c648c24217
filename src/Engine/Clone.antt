-- ===== src/Engine/Clone.antt =====
-- src/engine.rs, `StorageEngine`: `clone_range`, which shares whole chunks under dedup and copies the
-- other bytes.
pub mod Pending
pub mod Sharing
pub mod Chunks
pub mod Piece
pub mod Copies
pub mod Copying
pub mod Ends
pub mod Ranges
pub mod Reads
use vramdisk.Lookup.Key.{Bytes, to_ascii_lowercase}
use vramdisk.Lookup.Table.{Node, not_found}
use vramdisk.Lookup.Table
use vramdisk.Lookup.NodeMap.{bytes_eq}
use vramdisk.Placement.{Placement}
use vramdisk.Units.{chunk_size}
use vramdisk.Engine.Result.{ok, err, lookup, not_a_file, no_space}
use vramdisk.Engine.State.{
  External, StorageEngine, Outcome, and_then, coord, set_coord, ref_inc_placement,
}
use vramdisk.Engine.Chunks.{free_old}
use vramdisk.Engine.Files.{change_node, ensure_logical_len}
use vramdisk.Engine.Read.{read}
use vramdisk.Engine.Write.{touched, write}
use vramdisk.Common.{
  ℕ, zero, suc, ◌+◌, ◌-◌, ◌*◌, ◌/◌, ◌%◌, ◌^◌, min, List, [], ◌∷◌, map, Option, none, some, Bool,
  not, ◌==◌, ltb, leb, ◌&&◌, ◌||◌, if◌then◌else◌,
}

unfoldable pub ranges_overlap : ℕ → ℕ → ℕ → ℕ → Bool
ranges_overlap a0 a1 b0 b1 = ltb a0 b1 && ltb b0 a1

abbrev pub eq_ignore_ascii_case : Bytes → Bytes → Bool
eq_ignore_ascii_case a b = bytes_eq (map to_ascii_lowercase a) (map to_ascii_lowercase b)

-- The placements of `n` logical chunks from `lc` on.
unfoldable pub placements_of : ℕ → StorageEngine → Bytes → ℕ → List (Option Placement)
unfolding coord
placements_of zero e path lc = []
placements_of (suc n) e path lc = coord e path lc ∷ placements_of n e path (lc + 1)

unfoldable pub ref_inc_all : List (Option Placement) → StorageEngine → StorageEngine
unfolding ref_inc_placement
ref_inc_all [] e = e
ref_inc_all (none ∷ placements) e = ref_inc_all placements e
ref_inc_all (some p ∷ placements) e = ref_inc_all placements (ref_inc_placement e p)

-- The placements go to logical chunks from `lc` on, and those there are freed.
unfoldable pub replace_all : List (Option Placement) → StorageEngine → Bytes → ℕ → StorageEngine
unfolding coord set_coord
replace_all [] e path lc = e
replace_all (p ∷ placements) e path lc =
    replace_all placements (set_coord (free_old e (coord e path lc)) path lc p) path (lc + 1)

module _ (x : External) (src_path dst_path : Bytes) (src_offset dst_offset : ℕ) where
  -- `read` of the one range and `write` to the other.
  unfoldable pub copy_bytes : StorageEngine → ℕ → ℕ → Outcome ℕ
  unfolding read write
  copy_bytes e done len = elim (read x e src_path (src_offset + done) len) [
    | err failed ↦ (e, err failed)
    | ok bytes ↦ write x e dst_path (dst_offset + done) bytes
  ]

  -- Bytes are copied until both ranges are at the start of a chunk: how many.
  unfoldable pub copy_head : ℕ → StorageEngine → ℕ → ℕ → Outcome ℕ
  unfolding copy_bytes
  copy_head zero e n done = (e, ok done)
  copy_head (suc fuel) e n done =
      let src_next = chunk_size - (src_offset + done) % chunk_size in
      let dst_next = chunk_size - (dst_offset + done) % chunk_size in
      let some_bytes = min (n - done) (min src_next dst_next) in
      let further =
        and_then (copy_bytes e done some_bytes)
          (λ a written. copy_head fuel a n (done + some_bytes)) in
      if ltb done n
        && (not ((src_offset + done) % chunk_size == 0)
            || not ((dst_offset + done) % chunk_size == 0))
      then further
      else (e, ok done)

  -- The whole chunks are shared: how many bytes were cloned then.
  unfoldable pub share_chunks : StorageEngine → ℕ → ℕ → StorageEngine × ℕ
  unfolding placements_of ref_inc_all replace_all
  share_chunks e n done =
      let full_chunks = (n - done) / chunk_size in
      let placements = placements_of full_chunks e src_path ((src_offset + done) / chunk_size) in
      (
        replace_all placements (ref_inc_all placements e) dst_path
            ((dst_offset + done) / chunk_size),
        done + full_chunks * chunk_size,
      )

  -- What is left after the whole chunks, and the node.
  unfoldable pub copy_tail : StorageEngine → ℕ → ℕ → Outcome ℕ
  unfolding copy_bytes
  copy_tail e n done =
      let finish : StorageEngine → Outcome ℕ =
        λ a. (change_node a dst_path (touched x.now (dst_offset + n)), ok n) in
      if ltb done n
      then and_then (copy_bytes e done (n - done)) (λ a written. finish a)
      else finish e

  unfoldable pub clone_shared : StorageEngine → ℕ → Outcome ℕ
  unfolding copy_head share_chunks copy_tail ensure_logical_len
  clone_shared e n = and_then (ensure_logical_len e dst_path (dst_offset + n)) (λ a done.
      and_then (copy_head n a n 0)
        (λ b done. let (c, shared) = share_chunks b n done in copy_tail c n shared))

  unfoldable pub clone_nodes : StorageEngine → ℕ → Node → Node → Outcome ℕ
  unfolding clone_shared copy_bytes ranges_overlap
  clone_nodes e len src dst =
      let n = min len (src.size - src_offset) in
      if src.is_dir || dst.is_dir
      then (e, err not_a_file)
      else if leb src.size src_offset
      then (e, ok 0)
      else if leb (2 ^ 64) (dst_offset + n)
      then (e, err no_space)
      else if not e.dedup
      then copy_bytes e 0 n
      else if eq_ignore_ascii_case src_path dst_path
          && ranges_overlap src_offset (src_offset + n) dst_offset (dst_offset + n)
      then copy_bytes e 0 n
      else clone_shared e n

  unfoldable pub clone_range : StorageEngine → ℕ → Outcome ℕ
  unfolding clone_nodes Table.get
  clone_range e len = if len == 0 then (e, ok 0) else elim (Table.get e.table src_path) [
    | none ↦ (e, err (lookup not_found))
    | some src ↦ elim (Table.get e.table dst_path) [
      | none ↦ (e, err (lookup not_found))
      | some dst ↦ clone_nodes e len src dst
    ]
  ]
