-- ===== src/Engine/Write.antt =====
-- src/engine.rs, `StorageEngine`: `write` and `write_raw_internal`. Offsets and lengths
-- are bounded as in the source, where an end of 2 ^ 64 or more is refused.
use vramdisk.Lookup.Key.{Bytes}
use vramdisk.Lookup.Table.{Node, not_found}
use vramdisk.Lookup.Table
use vramdisk.Placement.{raw, compressed}
use vramdisk.Chunk.{alloc_one}
use vramdisk.Units.{chunk_size}
use vramdisk.Jobs.Text.{codes}
use vramdisk.Engine.Result.{ok, err, lookup, not_a_file, no_space, internal}
use vramdisk.Engine.Vram.{write_at, zero_at}
use vramdisk.Engine.State.{
  External, StorageEngine, Outcome, and_then, on_vram, coord, set_coord, alloc_chunk, took,
}
use vramdisk.Engine.Store.{Done}
use vramdisk.Engine.Files.{change_node, ensure_logical_len}
use vramdisk.Engine.Pieces.{write_pieces, put_pieces}
use vramdisk.Engine.RawWrite.{write_raw_unshared}
use vramdisk.Engine.DedupWrite.{write_dedup_uncompressed}
use vramdisk.Engine.PackedWrite.{write_compressed, write_compress_dedup}
use vramdisk.Common.{
  ℕ, ◌+◌, ◌*◌, ◌^◌, max, Option, none, some, not, ◌==◌, leb, ◌&&◌, if◌then◌else◌, length,
}

-- `node.size = node.size.max(end)`, and the times.
abbrev pub touched : ℕ → ℕ → Node → Node
touched now end m = record m { size = max m.size end; modified = now; changed = now }

-- A write of at least one byte to a node that was found, where `store` stores the bytes.
abbrev pub write_to :
    ℕ → StorageEngine → Bytes → ℕ → Bytes → (StorageEngine → Outcome Done) → Option Node → Outcome ℕ
write_to now e path offset bytes store none = (e, err (lookup not_found))
write_to now e path offset bytes store (some n) =
    let end = offset + length bytes in
    let stored : Outcome ℕ = and_then (ensure_logical_len e path end) (λ a done.
      and_then (store a) (λ b done. (change_node b path (touched now end), ok (length bytes)))) in
    if n.is_dir then (e, err not_a_file) else if leb (2 ^ 64) end then (e, err no_space) else stored

-- A chunk that was just given out gets the bytes, and zeros around them.
abbrev pub fill_chunk : Bytes → ℕ → ℕ → Bytes → StorageEngine → ℕ → Outcome Done
fill_chunk path lc in_off sub a chunk =
    let base = chunk * chunk_size in
    let full = in_off == 0 && length sub == chunk_size in
    let cleared = if full then ok a.vram else zero_at a.vram base chunk_size in
    and_then (on_vram a cleared) (λ b v.
      and_then (on_vram b (write_at b.vram (base + in_off) sub))
        (λ d w. (set_coord d path lc (some (raw chunk)), ok tt)))

unfoldable pub write_chunk_raw_internal : StorageEngine → Bytes → ℕ → ℕ → Bytes → Outcome Done
unfolding coord alloc_chunk set_coord
write_chunk_raw_internal e path lc in_off sub = elim (coord e path lc) [
  | some (raw chunk) ↦
      and_then (on_vram e (write_at e.vram (chunk * chunk_size + in_off) sub)) (λ b v. (b, ok tt))
  | some (compressed offset len codec) ↦
      (e, err (internal (codes "archive internal raw stream contains compressed placement")))
  | none ↦
      and_then (if e.dedup then alloc_chunk e else took e (alloc_one e.alloc))
        (fill_chunk path lc in_off sub)
]

module _ (x : External) where
  unfoldable pub write_raw_internal : StorageEngine → Bytes → ℕ → Bytes → Outcome ℕ
  unfolding put_pieces write_chunk_raw_internal ensure_logical_len Table.get
  write_raw_internal e path offset bytes =
      if length bytes == 0
      then (e, ok 0)
      else write_to x.now e path offset bytes
          (λ a. put_pieces write_chunk_raw_internal (length bytes) a path offset bytes)
          (Table.get e.table path)

  -- The way of storing that the modes choose.
  unfoldable pub store_bytes : StorageEngine → Bytes → ℕ → Bytes → Outcome Done
  unfolding write_dedup_uncompressed write_raw_unshared write_compressed write_compress_dedup
      write_pieces
  store_bytes e path offset bytes =
      if e.dedup && not e.compress
      then write_dedup_uncompressed x e path offset bytes
      else if not e.compress && not e.dedup
      then write_raw_unshared x e path offset bytes
      else if e.compress && (not e.dedup && e.has_codec)
      then write_compressed x e path offset bytes
      else if e.compress && (e.dedup && e.has_codec)
      then write_compress_dedup x e path offset bytes
      else write_pieces x e path offset bytes

  unfoldable pub write : StorageEngine → Bytes → ℕ → Bytes → Outcome ℕ
  unfolding store_bytes ensure_logical_len Table.get
  write e path offset bytes =
      if length bytes == 0
      then (e, ok 0)
      else write_to x.now e path offset bytes (λ a. store_bytes a path offset bytes)
          (Table.get e.table path)
