-- ===== src/Engine/DedupWrite.antt =====
-- src/engine.rs, `StorageEngine`: the write under dedup without compression, whole chunks in one batch.
-- The hashing of a batch of chunks on the GPU is `hash_chunks` of `External`. `fnv1a_chunks` may share
-- its chunks out to threads; the hashes come in the order of the chunks.
use vramdisk.Lookup.Key.{Bytes}
use vramdisk.Arena.{is_empty}
use vramdisk.Placement.{Placement, raw, compressed}
use vramdisk.Units.{chunk_size}
use vramdisk.Engine.Result.{EResult, ok, err}
use vramdisk.Engine.Dict
use vramdisk.Engine.Hash.{fnv1a}
use vramdisk.Engine.Vram.{write_at}
use vramdisk.Engine.State.{
  External, StorageEngine, Outcome, and_then, on_vram, coord, set_coord, alloc_chunk, set_refcount,
  index_remove, index_insert, is_raw,
}
use vramdisk.Engine.Chunks.{candidate_matches_bytes, free_old, share_placement, then_ok}
use vramdisk.Engine.Store.{Done}
use vramdisk.Engine.Pieces.{write_parts}
use vramdisk.Engine.RawWrite.{alloc_contiguous_run, is_hole}
use vramdisk.Common.{
  ℕ, zero, suc, ◌+◌, ◌-◌, ◌*◌, ◌/◌, List, [], ◌∷◌, ◌++◌, Option, none, some, Bool, true, false,
  ◌==◌, ◌&&◌, if◌then◌else◌, length, get_or, take, drop,
}

-- The hashes of `n` chunks.
unfoldable pub fnv1a_chunks : ℕ → Bytes → List ℕ
unfolding fnv1a
fnv1a_chunks zero bytes = []
fnv1a_chunks (suc n) bytes = fnv1a (take chunk_size bytes) ∷ fnv1a_chunks n (drop chunk_size bytes)

-- Where the GPU has to hash the candidates.
unfoldable pub raw_offsets : StorageEngine → List ℕ → List ℕ
raw_offsets e [] = []
raw_offsets e (h ∷ hashes) = elim (Dict.get h e.hash_index) [
  | none ↦ raw_offsets e hashes
  | some (raw chunk) ↦ chunk * chunk_size ∷ raw_offsets e hashes
  | some (compressed offset len codec) ↦ raw_offsets e hashes
]

abbrev pub same_hash : ℕ → Option ℕ → Bool
same_hash h none = false
same_hash h (some g) = g == h

-- Which candidates hold what their hash says, by the hashes of the raw ones.
unfoldable pub trusted_candidates : StorageEngine → List ℕ → List ℕ → List Bool
trusted_candidates e [] out = []
trusted_candidates e (h ∷ hashes) out = elim (Dict.get h e.hash_index) [
  | none ↦ false ∷ trusted_candidates e hashes out
  | some (raw chunk) ↦ (get_or out 0 0 == h) ∷ trusted_candidates e hashes (drop 1 out)
  | some (compressed offset len codec) ↦
      same_hash h (Dict.get offset e.compressed_hash) ∷ trusted_candidates e hashes out
]

-- The chunk that a chunk of the batch goes to.
unfoldable pub chunk_for : StorageEngine → Option Placement → Outcome ℕ
unfolding index_remove alloc_chunk
chunk_for e none = alloc_chunk e
chunk_for e (some (compressed offset len codec)) = alloc_chunk e
chunk_for e (some (raw chunk)) =
    if get_or e.refcount chunk 0 == 1 then (index_remove e chunk, ok chunk) else alloc_chunk e

-- One chunk of the batch that no other has: its chunk.
unfoldable pub place_unique : StorageEngine → Bytes → ℕ → Bytes → Outcome ℕ
unfolding chunk_for coord set_coord
place_unique e path lc incoming =
    let old = coord e path lc in
    and_then (chunk_for e old) (λ a chunk.
      and_then (on_vram a (write_at a.vram (chunk * chunk_size) incoming)) (λ b v.
        let freed = if is_raw chunk old then b else free_old b old in
        (set_coord freed path lc (some (raw chunk)), ok chunk)))

abbrev pub Indexed : Type 0
Indexed = List (ℕ × ℕ)

unfoldable pub index_all : Indexed → StorageEngine → StorageEngine
unfolding index_insert
index_all [] e = e
index_all ((chunk, h) ∷ indexed) e = index_all indexed (index_insert e chunk h)

-- The chunks of one run, in use and set to logical chunks from `lc` on.
unfoldable pub stage_run : ℕ → StorageEngine → Bytes → ℕ → ℕ → StorageEngine
unfolding set_coord
stage_run zero e path lc chunk = e
stage_run (suc n) e path lc chunk =
    stage_run n (set_coord (set_refcount e chunk 1) path lc (some (raw chunk))) path (lc + 1)
      (chunk + 1)

-- `start..start + n`
unfoldable pub chunks_from : ℕ → ℕ → List ℕ
chunks_from start zero = []
chunks_from start (suc n) = start ∷ chunks_from (start + 1) n

-- All chunks of the batch go to runs: the chunks in their order.
unfoldable pub stage_runs : ℕ → StorageEngine → Bytes → ℕ → ℕ → Bytes → Outcome (List ℕ)
unfolding alloc_contiguous_run stage_run chunks_from
stage_runs zero e path lc n rest = (e, ok [])
stage_runs (suc fuel) e path lc n rest =
    let further = and_then (alloc_contiguous_run e n) (λ a run.
      let (start, got) = run in
      and_then (on_vram a (write_at a.vram (start * chunk_size) (take (got * chunk_size) rest)))
        (λ b v.
          and_then
            (stage_runs fuel (stage_run got b path lc start) path (lc + got) (n - got)
              (drop (got * chunk_size) rest))
            (λ c chunks. (c, ok (chunks_from start got ++ chunks))))) in
    if n == 0 then (e, ok []) else further

unfoldable pub offsets_of : List ℕ → List ℕ
offsets_of [] = []
offsets_of (chunk ∷ chunks) = chunk * chunk_size ∷ offsets_of chunks

unfoldable pub zipped : List ℕ → List ℕ → Indexed
zipped (chunk ∷ chunks) (h ∷ hashes) = (chunk, h) ∷ zipped chunks hashes
zipped [] hashes = []
zipped (chunk ∷ chunks) [] = []

unfoldable pub all_holes : ℕ → StorageEngine → Bytes → ℕ → Bool
unfolding coord
all_holes zero e path lc = true
all_holes (suc n) e path lc = is_hole (coord e path lc) && all_holes n e path (lc + 1)

module _ (x : External) where
  -- No launch without raw candidates.
  abbrev pub hash_all : StorageEngine → List ℕ → EResult (List ℕ)
  hash_all e [] = ok []
  hash_all e (o ∷ offsets) = x.hash_chunks e.vram (o ∷ offsets)

  unfoldable pub batch_trusted_candidates : StorageEngine → List ℕ → EResult (Option (List Bool))
  unfolding raw_offsets trusted_candidates
  batch_trusted_candidates e hashes =
      if e.dedup_verify_bytes
      then ok none
      else then_ok (hash_all e (raw_offsets e hashes))
          (λ out. ok (some (trusted_candidates e hashes out)))

  -- `Some(t) => t[i]`, or the bytes are compared.
  abbrev pub confirmed : StorageEngine → Placement → ℕ → Bytes → Option (List Bool) → EResult Bool
  confirmed e cand i incoming none = candidate_matches_bytes x e cand incoming
  confirmed e cand i incoming (some t) = ok (get_or t i false)

  unfoldable pub try_share_batched :
      StorageEngine → Bytes → ℕ → ℕ → List ℕ → Bytes → Option (List Bool) → Outcome Bool
  unfolding share_placement candidate_matches_bytes
  try_share_batched e path lc i hashes incoming trusted =
      elim (Dict.get (get_or hashes i 0) e.hash_index) [
        | none ↦ (e, ok false)
        | some cand ↦ elim (confirmed e cand i incoming trusted) [
          | err failed ↦ (e, err failed)
          | ok same ↦ if same then (share_placement e path lc cand, ok true) else (e, ok false)
        ]
      ]

  -- The loop over the batch: the chunks to index, with their hashes.
  unfoldable pub place_batch :
      ℕ → StorageEngine → Bytes → ℕ → ℕ → List ℕ → Bytes → Option (List Bool) → Outcome Indexed
  unfolding try_share_batched place_unique
  place_batch zero e path lc0 i hashes bytes trusted = (e, ok [])
  place_batch (suc left) e path lc0 i hashes bytes trusted =
      let incoming = take chunk_size bytes in
      let next : StorageEngine → Outcome Indexed =
        λ a. place_batch left a path lc0 (i + 1) hashes (drop chunk_size bytes) trusted in
      and_then (try_share_batched e path (lc0 + i) i hashes incoming trusted) (λ a shared.
        if shared
        then next a
        else and_then (place_unique a path (lc0 + i) incoming) (λ b chunk.
          and_then (next b) (λ c indexed. (c, ok ((chunk, get_or hashes i 0) ∷ indexed)))))

  unfoldable pub write_dedup_full_chunks_gpu_staged :
      StorageEngine → Bytes → ℕ → Bytes → Outcome Done
  unfolding stage_runs index_all offsets_of zipped
  write_dedup_full_chunks_gpu_staged e path lc0 bytes =
      let n = length bytes / chunk_size in
      and_then (stage_runs n e path lc0 n bytes) (λ a chunks.
        elim (x.hash_chunks a.vram (offsets_of chunks)) [
          | err failed ↦ (a, err failed)
          | ok hashes ↦ (index_all (zipped chunks hashes) a, ok tt)
        ])

  unfoldable pub write_dedup_full_chunks : StorageEngine → Bytes → ℕ → Bytes → Outcome Done
  unfolding all_holes write_dedup_full_chunks_gpu_staged fnv1a_chunks batch_trusted_candidates
      place_batch index_all
  write_dedup_full_chunks e path lc0 bytes =
      let n = length bytes / chunk_size in
      let hashes = fnv1a_chunks n bytes in
      let batched : Outcome Done = elim (batch_trusted_candidates e hashes) [
        | err failed ↦ (e, err failed)
        | ok trusted ↦
            and_then (place_batch n e path lc0 0 hashes bytes trusted)
              (λ a indexed. (index_all indexed a, ok tt))
      ] in
      if is_empty e.hash_index && all_holes n e path lc0
      then write_dedup_full_chunks_gpu_staged e path lc0 bytes
      else batched

  unfoldable pub write_dedup_uncompressed : StorageEngine → Bytes → ℕ → Bytes → Outcome Done
  unfolding write_parts write_dedup_full_chunks
  write_dedup_uncompressed e path offset bytes =
      write_parts x (λ a lc middle. write_dedup_full_chunks a path lc middle) e path offset bytes
