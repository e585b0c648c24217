-- ===== src/Engine/Store.antt =====
-- src/engine.rs, `StorageEngine`: storing a logical chunk, and the operations on files that go by
-- whole chunks. Sizes and offsets stay below 2 ^ 64.
use vramdisk.Lookup.Key.{Bytes}
use vramdisk.Placement.{Placement, Codec, raw, compressed, lz4, zstd}
use vramdisk.Units.{chunk_size}
use vramdisk.Jobs.Text.{codes}
use vramdisk.Engine.Result.{ok, err, unsupported}
use vramdisk.Engine.Vram.{write_at, zero_at}
use vramdisk.Engine.Hash.{fnv1a}
use vramdisk.Engine.State.{
  External, StorageEngine, Outcome, and_then, on_vram, coord, set_coord, alloc_chunk, index_remove,
  index_insert, compressed_index_insert,
}
use vramdisk.Engine.Chunks.{
  read_logical_chunk, free_old, try_share_hashed, make_exclusive, carena_alloc,
}
use vramdisk.Common.{
  ℕ, ◌+◌, ◌*◌, ◌++◌, Option, none, some, not, ◌==◌, ltb, ◌&&◌, if◌then◌else◌, length, get_or, take,
  drop,
}

-- The result of an operation that only changes the engine.
abbrev pub Done : Type 0
Done = Unit

-- `whole[at..at + part.len()].copy_from_slice(part)`
unfoldable pub splice : ℕ → Bytes → Bytes → Bytes
splice at part whole = take at whole ++ (part ++ drop (at + length part) whole)

-- A result of compression that is kept only where it is smaller.
abbrev pub smaller : ℕ → Option Bytes → Option (Bytes × Codec)
smaller n none = none
smaller n (some b) = if ltb (length b) n then some (b, zstd) else none

abbrev pub with_lz4 : Option Bytes → Option (Bytes × Codec)
with_lz4 none = none
with_lz4 (some b) = some (b, lz4)

unfoldable pub place_chunk :
    StorageEngine
    → Bytes
    → ℕ
    → Bytes
    → Option Placement
    → Option (Bytes × Codec)
    → Option ℕ
    → Outcome Done
unfolding carena_alloc set_coord alloc_chunk index_insert
place_chunk e path lc full old (some (blob, codec)) content_hash =
    and_then (carena_alloc e (length blob)) (λ a offset.
      and_then (on_vram a (write_at a.vram offset blob)) (λ b v.
        let placed =
          set_coord (free_old b old) path lc (some (compressed offset (length blob) codec)) in
        elim content_hash [
          | none ↦ (placed, ok tt)
          | some h ↦ (
            if placed.dedup
                then compressed_index_insert placed offset (length blob) codec h
                else placed,
            ok tt,
          )
        ]))
place_chunk e path lc full old none content_hash = and_then (alloc_chunk e) (λ a chunk.
    and_then (on_vram a (write_at a.vram (chunk * chunk_size) full)) (λ b v.
      let placed = set_coord (free_old b old) path lc (some (raw chunk)) in
      elim content_hash [
        | none ↦ (placed, ok tt)
        | some h ↦ (if placed.dedup then index_insert placed chunk h else placed, ok tt)
      ]))

unfoldable pub store_compressed :
    External → StorageEngine → Bytes → ℕ → Bytes → Option ℕ → Outcome Done
unfolding place_chunk
store_compressed x e path lc full content_hash =
    let old = coord e path lc in
    if x.should_skip_compression full
    then place_chunk e path lc full old none content_hash
    else if e.has_codec
    then elim (x.lz4_compress full) [
      | err failed ↦ (e, err failed)
      | ok packed ↦ place_chunk e path lc full old (with_lz4 packed) content_hash
    ]
    else place_chunk e path lc full old (smaller (length full) (x.zstd_encode full)) content_hash

-- What `write_chunk` does with a whole chunk of known hash that no other chunk has.
unfoldable pub store_unique : StorageEngine → Bytes → ℕ → Bytes → ℕ → Outcome Done
unfolding index_remove index_insert alloc_chunk set_coord coord
store_unique e path lc sub h =
    let old = coord e path lc in
    let overwrite : StorageEngine → ℕ → Outcome Done = λ a chunk.
      and_then (on_vram a (write_at a.vram (chunk * chunk_size) sub))
        (λ b v. (index_insert b chunk h, ok tt)) in
    let fresh : Outcome Done = and_then (alloc_chunk e) (λ a c.
      and_then (on_vram a (write_at a.vram (c * chunk_size) sub))
        (λ b v. (set_coord (free_old (index_insert b c h) old) path lc (some (raw c)), ok tt))) in
    elim old [
      | none ↦ fresh
      | some (compressed offset len codec) ↦ fresh
      | some (raw chunk) ↦
          if get_or e.refcount chunk 0 == 1 then overwrite (index_remove e chunk) chunk else fresh
    ]

-- `write_chunk` without dedup and compression.
unfoldable pub write_plain : StorageEngine → Bytes → ℕ → ℕ → Bytes → Outcome Done
unfolding coord alloc_chunk set_coord
write_plain e path lc in_off sub = elim (coord e path lc) [
  | some (compressed offset len codec) ↦
      (e, err (unsupported (codes "compressed write not implemented")))
  | some (raw chunk) ↦
      and_then (on_vram e (write_at e.vram (chunk * chunk_size + in_off) sub)) (λ b v. (b, ok tt))
  | none ↦ and_then (alloc_chunk e) (λ a chunk.
      let base = chunk * chunk_size in
      let full = in_off == 0 && length sub == chunk_size in
      let cleared = if full then ok a.vram else zero_at a.vram base chunk_size in
      and_then (on_vram a cleared) (λ b v.
        and_then (on_vram b (write_at b.vram (base + in_off) sub))
          (λ d w. (set_coord d path lc (some (raw chunk)), ok tt))))
]

-- The bytes are shared with a chunk that has them, or go to the rest.
unfoldable pub shared_or :
    External → StorageEngine → Bytes → ℕ → Bytes → (StorageEngine → Outcome Done) → Outcome Done
unfolding try_share_hashed fnv1a
shared_or x e path lc bytes rest =
    and_then (try_share_hashed x e path lc (fnv1a bytes) bytes)
      (λ a shared. if shared then (a, ok tt) else rest a)

-- `write_chunk`, for a whole chunk under dedup.
unfoldable pub write_shared : External → StorageEngine → Bytes → ℕ → Bytes → Outcome Done
unfolding shared_or store_compressed store_unique fnv1a
write_shared x e path lc sub = shared_or x e path lc sub (λ a.
    if a.compress
    then store_compressed x a path lc sub (some (fnv1a sub))
    else store_unique a path lc sub (fnv1a sub))

-- `write_chunk`, for part of a chunk with compression.
unfoldable pub write_modified : External → StorageEngine → Bytes → ℕ → ℕ → Bytes → Outcome Done
unfolding shared_or store_compressed read_logical_chunk splice fnv1a
write_modified x e path lc in_off sub = elim (read_logical_chunk x e path lc) [
  | err failed ↦ (e, err failed)
  | ok old ↦
      let whole = splice in_off sub old in
      if e.dedup
      then shared_or x e path lc whole
          (λ a. store_compressed x a path lc whole (some (fnv1a whole)))
      else store_compressed x e path lc whole none
]

-- `write_chunk`, for part of a chunk under dedup without compression.
unfoldable pub write_exclusive : External → StorageEngine → Bytes → ℕ → ℕ → Bytes → Outcome Done
unfolding make_exclusive
write_exclusive x e path lc in_off sub = and_then (make_exclusive x e path lc) (λ a chunk.
    and_then (on_vram a (write_at a.vram (chunk * chunk_size + in_off) sub)) (λ b v. (b, ok tt)))

unfoldable pub write_chunk : External → StorageEngine → Bytes → ℕ → ℕ → Bytes → Outcome Done
unfolding store_compressed write_shared write_modified write_plain write_exclusive
write_chunk x e path lc in_off sub =
    let full = in_off == 0 && length sub == chunk_size in
    if e.dedup && full
    then write_shared x e path lc sub
    else if e.compress
    then if full
      then store_compressed x e path lc sub none
      else write_modified x e path lc in_off sub
    else if not e.dedup
    then write_plain e path lc in_off sub
    else write_exclusive x e path lc in_off sub
