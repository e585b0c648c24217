-- ===== src/Engine/PackedWrite.antt =====
-- src/engine.rs, `StorageEngine`: the writes with compression, whole chunks in groups of at most 256.
-- `compress_group` of `External` gives the blobs of a group, which the source moves from the codec's
-- slots into the arena. A group has at least one chunk; the loop has the number of chunks as fuel.
use vramdisk.Lookup.Key.{Bytes}
use vramdisk.Placement.{Placement, raw, compressed, lz4}
use vramdisk.Chunk.{alloc_one}
use vramdisk.Units.{chunk_size}
use vramdisk.Jobs.Text.{codes}
use vramdisk.Engine.Result.{EResult, ok, err, internal}
use vramdisk.Engine.Vram.{write_at}
use vramdisk.Engine.State.{
  External, StorageEngine, Outcome, and_then, on_vram, coord, set_coord, alloc_chunk, took,
  index_remove, index_insert, compressed_index_insert, is_raw,
}
use vramdisk.Engine.Chunks.{carena_alloc, free_old}
use vramdisk.Engine.Store.{Done}
use vramdisk.Engine.Pieces.{slice, write_parts}
use vramdisk.Engine.DedupWrite.{fnv1a_chunks, batch_trusted_candidates, try_share_batched}
use vramdisk.Common.{
  ℕ, zero, suc, ◌+◌, ◌-◌, ◌*◌, ◌/◌, min, List, [], ◌∷◌, ◌++◌, Option, none, some, Bool, false, not,
  ◌==◌, ◌||◌, if◌then◌else◌, length, get_or, take, drop,
}

-- `BATCH` of src/nvcomp.rs
abbrev pub max_batch : ℕ
max_batch = 256

-- The chunk that a raw chunk goes to: its own, where no other coordinate has it.
unfoldable pub raw_chunk_for : StorageEngine → Option Placement → Outcome ℕ
unfolding alloc_chunk index_remove
raw_chunk_for e none = if e.dedup then alloc_chunk e else took e (alloc_one e.alloc)
raw_chunk_for e (some (compressed offset len codec)) =
    if e.dedup then alloc_chunk e else took e (alloc_one e.alloc)
raw_chunk_for e (some (raw chunk)) =
    if not e.dedup
    then (e, ok chunk)
    else if get_or e.refcount chunk 0 == 1
    then (index_remove e chunk, ok chunk)
    else alloc_chunk e

unfoldable pub index_known : StorageEngine → ℕ → Option ℕ → StorageEngine
unfolding index_insert
index_known e chunk none = e
index_known e chunk (some h) = if e.dedup then index_insert e chunk h else e

unfoldable pub write_raw_compress_fallback :
    StorageEngine → Bytes → ℕ → Bytes → Option Placement → Option ℕ → Outcome Done
unfolding raw_chunk_for set_coord index_known
write_raw_compress_fallback e path lc full old content_hash =
    and_then (raw_chunk_for e old) (λ a chunk.
      and_then (on_vram a (write_at a.vram (chunk * chunk_size) full)) (λ b v.
        let freed = if is_raw chunk old then b else free_old b old in
        (index_known (set_coord freed path lc (some (raw chunk))) chunk content_hash, ok tt)))

abbrev pub index_blob : StorageEngine → ℕ → ℕ → Option ℕ → StorageEngine
index_blob e offset len none = e
index_blob e offset len (some h) = compressed_index_insert e offset len lz4 h

-- A blob goes to the arena.
unfoldable pub store_blob :
    StorageEngine → Bytes → ℕ → Bytes → Option Placement → Option ℕ → Outcome Done
unfolding carena_alloc set_coord
store_blob e path lc blob old content_hash = and_then (carena_alloc e (length blob)) (λ a offset.
    and_then (on_vram a (write_at a.vram offset blob)) (λ b v. (
      index_blob (set_coord (free_old b old) path lc (some (compressed offset (length blob) lz4)))
          offset (length blob) content_hash,
      ok tt,
    )))

-- A chunk to store: its number, its bytes, its old placement and its hash.
pub record Item : Type 0 where
  pub lc : ℕ
  pub full : Bytes
  pub old : Option Placement
  pub content_hash : Option ℕ

-- A chunk without a blob stays raw.
unfoldable pub store_item : StorageEngine → Bytes → Item → Option Bytes → Outcome Done
unfolding store_blob write_raw_compress_fallback
store_item e path t (some blob) = store_blob e path t.lc blob t.old t.content_hash
store_item e path t none = write_raw_compress_fallback e path t.lc t.full t.old t.content_hash

-- Chunks one after another, whose old placements were looked up before.
unfoldable pub store_items : StorageEngine → Bytes → List Item → List (Option Bytes) → Outcome Done
unfolding store_item
store_items e path [] blobs = (e, ok tt)
store_items e path (t ∷ items) blobs =
    and_then (store_item e path t (get_or blobs 0 none))
      (λ a done. store_items a path items (drop 1 blobs))

-- `n` logical chunks from `lc` on, one after another.
unfoldable pub store_run :
    ℕ → StorageEngine → Bytes → ℕ → Bytes → List (Option Bytes) → Outcome Done
unfolding store_item coord
store_run zero e path lc group blobs = (e, ok tt)
store_run (suc n) e path lc group blobs =
    let t : Item = record {
      lc = lc;
      full = take chunk_size group;
      old = coord e path lc;
      content_hash = none;
    } in
    and_then (store_item e path t (get_or blobs 0 none))
      (λ a done. store_run n a path (lc + 1) (drop chunk_size group) (drop 1 blobs))

unfoldable pub contains : ℕ → List ℕ → Bool
contains n [] = false
contains n (m ∷ seen) = n == m || contains n seen

-- The bytes of the items.
unfoldable pub item_bytes : List Item → Bytes
item_bytes [] = []
item_bytes (t ∷ items) = t.full ++ item_bytes items

module _ (x : External) where
  -- The probes that are left, what was probed, and how many had a high entropy.
  unfoldable pub sample : Bytes → List ℕ → List ℕ → ℕ → Bool
  unfolding contains
  sample group [] seen high_entropy = high_entropy == length seen
  sample group (chunk ∷ probes) seen high_entropy =
      let again = sample group probes seen high_entropy in
      let skip = x.should_skip_batch_compression (slice (chunk * chunk_size) chunk_size group) in
      let new =
        sample group probes (seen ++ (chunk ∷ []))
          (if skip then high_entropy + 1 else high_entropy) in
      if contains chunk seen then again else new

  unfoldable pub group_looks_incompressible : Bytes → ℕ → Bool
  unfolding sample
  group_looks_incompressible group chunks =
      if chunks == 0
      then false
      else sample group (0 ∷ (chunks / 3) ∷ (chunks * 2 / 3) ∷ (chunks - 1) ∷ []) [] 0

  -- The blobs of a group; there are none where it is not compressed.
  unfoldable pub packed : StorageEngine → Bytes → ℕ → EResult (List (Option Bytes))
  unfolding group_looks_incompressible
  packed e group m =
      if group_looks_incompressible group m
      then ok []
      else if not e.has_codec
      then err (internal (codes "nvCOMP codec present"))
      else x.compress_group group m

  abbrev pub with_blobs :
      StorageEngine
      → EResult (List (Option Bytes))
      → (List (Option Bytes) → Outcome Done)
      → Outcome Done
  with_blobs e (err failed) rest = (e, err failed)
  with_blobs e (ok blobs) rest = rest blobs

  -- The groups of `n` chunks.
  unfoldable pub compressed_groups : ℕ → StorageEngine → Bytes → ℕ → ℕ → Bytes → Outcome Done
  unfolding packed store_run
  compressed_groups zero e path lc n rest = (e, ok tt)
  compressed_groups (suc fuel) e path lc n rest =
      let m = min n max_batch in
      let group = take (m * chunk_size) rest in
      let further =
        and_then (with_blobs e (packed e group m) (λ blobs. store_run m e path lc group blobs))
          (λ a done. compressed_groups fuel a path (lc + m) (n - m) (drop (m * chunk_size) rest)) in
      if n == 0 then (e, ok tt) else further

  unfoldable pub write_compressed : StorageEngine → Bytes → ℕ → Bytes → Outcome Done
  unfolding write_parts compressed_groups
  write_compressed e path offset bytes =
      write_parts x
        (λ a lc middle.
          let n = length middle / chunk_size in compressed_groups n a path lc n middle)
        e path offset bytes

  -- The chunks of a group that are not shared.
  unfoldable pub share_group :
      ℕ → StorageEngine → Bytes → ℕ → ℕ → List ℕ → Bytes → Option (List Bool) → Outcome (List Item)
  unfolding try_share_batched coord
  share_group zero e path lc0 i hashes group trusted = (e, ok [])
  share_group (suc left) e path lc0 i hashes group trusted =
      let incoming = take chunk_size group in
      and_then (try_share_batched x e path (lc0 + i) i hashes incoming trusted) (λ a shared.
        and_then (share_group left a path lc0 (i + 1) hashes (drop chunk_size group) trusted)
          (λ b misses.
            let t : Item = record {
              lc = lc0 + i;
              full = incoming;
              old = coord a path (lc0 + i);
              content_hash = some (get_or hashes i 0);
            } in
            (b, ok (if shared then misses else t ∷ misses))))

  unfoldable pub store_misses : StorageEngine → Bytes → List Item → Outcome Done
  unfolding packed store_items item_bytes
  store_misses e path [] = (e, ok tt)
  store_misses e path (t ∷ misses) =
      with_blobs e (packed e (item_bytes (t ∷ misses)) (length (t ∷ misses)))
        (λ blobs. store_items e path (t ∷ misses) blobs)

  unfoldable pub dedup_group : StorageEngine → Bytes → ℕ → ℕ → Bytes → Outcome Done
  unfolding fnv1a_chunks batch_trusted_candidates share_group store_misses
  dedup_group e path lc m group =
      let hashes = fnv1a_chunks m group in
      elim (batch_trusted_candidates x e hashes) [
        | err failed ↦ (e, err failed)
        | ok trusted ↦
            and_then (share_group m e path lc 0 hashes group trusted)
              (λ a misses. store_misses a path misses)
      ]

  unfoldable pub dedup_groups : ℕ → StorageEngine → Bytes → ℕ → ℕ → Bytes → Outcome Done
  unfolding dedup_group
  dedup_groups zero e path lc n rest = (e, ok tt)
  dedup_groups (suc fuel) e path lc n rest =
      let m = min n max_batch in
      let further =
        and_then (dedup_group e path lc m (take (m * chunk_size) rest))
          (λ a done. dedup_groups fuel a path (lc + m) (n - m) (drop (m * chunk_size) rest)) in
      if n == 0 then (e, ok tt) else further

  unfoldable pub write_compress_dedup : StorageEngine → Bytes → ℕ → Bytes → Outcome Done
  unfolding write_parts dedup_groups
  write_compress_dedup e path offset bytes =
      write_parts x
        (λ a lc middle. let n = length middle / chunk_size in dedup_groups n a path lc n middle) e
        path offset bytes
