-- ===== src/Engine/Chunks.antt =====
-- src/engine.rs, `StorageEngine`: sharing, copying on write and freeing the placement of one logical
-- chunk, and reading it whole.
use vramdisk.Lookup.Key.{Bytes}
use vramdisk.Lookup.NodeMap.{bytes_eq}
use vramdisk.Placement.{Placement, Codec, raw, compressed, lz4, zstd}
use vramdisk.Chunk.{alloc_one}
use vramdisk.Arena
use vramdisk.Units.{chunk_size}
use vramdisk.Jobs.Text.{codes}
use vramdisk.Engine.Result.{EResult, ok, err, no_space, unsupported, internal}
use vramdisk.Engine.Dict
use vramdisk.Engine.Vram.{Vram, read_at, write_at, copy_within, zero_at}
use vramdisk.Engine.State.{
  External, StorageEngine, Outcome, and_then, on_vram, coord, set_coord, alloc_chunk,
  ref_inc_placement, one_less, give_chunk, index_remove, release_chunk, compressed_index_remove,
}
use vramdisk.Common.{
  ℕ, zero, suc, ◌*◌, List, [], ◌∷◌, Option, none, some, Bool, true, false, ◌==◌, ltb, ◌&&◌,
  if◌then◌else◌, length, get_or,
}

unfoldable pub zeros : ℕ → Bytes
zeros zero = []
zeros (suc n) = 0 ∷ zeros n

-- A blob must decode to a whole chunk.
abbrev pub whole_chunk : Bytes → EResult Bytes
whole_chunk full =
    if length full == chunk_size
    then ok full
    else err (internal (codes "compressed blob decoded to a wrong length"))

abbrev pub then_ok {ℓ κ} : {A : Type ℓ} {B : Type κ} → EResult A → (A → EResult B) → EResult B
then_ok (err x) rest = err x
then_ok (ok a) rest = rest a

module _ (x : External) where
  abbrev pub decode : StorageEngine → Codec → Bytes → EResult Bytes
  decode e lz4 blob =
      if e.has_codec
      then x.lz4_decompress blob
      else err (unsupported (codes "LZ4 chunk without nvCOMP codec"))
  decode e zstd blob = x.zstd_decode blob

  unfoldable pub decompress_blob : StorageEngine → ℕ → ℕ → Codec → EResult Bytes
  decompress_blob e offset len codec =
      then_ok (read_at e.vram offset len) (λ blob. then_ok (decode e codec blob) whole_chunk)

  unfoldable pub read_logical_chunk : StorageEngine → Bytes → ℕ → EResult Bytes
  unfolding decompress_blob
  read_logical_chunk e path lc = elim (coord e path lc) [
    | none ↦ ok (zeros chunk_size)
    | some (raw chunk) ↦ read_at e.vram (chunk * chunk_size) chunk_size
    | some (compressed offset len codec) ↦ decompress_blob e offset len codec
  ]

  unfoldable pub verify_placement : StorageEngine → Placement → ℕ → EResult Bool
  verify_placement e (raw chunk) expected_hash =
      then_ok (x.hash_chunk e.vram (chunk * chunk_size))
        (λ gpu_hash. ok (gpu_hash == expected_hash))
  verify_placement e (compressed offset len codec) expected_hash =
      elim (Dict.get offset e.compressed_hash) [
        | none ↦ ok false
        | some h ↦ ok (h == expected_hash)
      ]

  unfoldable pub candidate_matches_bytes : StorageEngine → Placement → Bytes → EResult Bool
  unfolding decompress_blob
  candidate_matches_bytes e (raw chunk) incoming =
      then_ok (read_at e.vram (chunk * chunk_size) chunk_size)
        (λ stored. ok (bytes_eq stored incoming))
  candidate_matches_bytes e (compressed offset len codec) incoming =
      then_ok (decompress_blob e offset len codec) (λ full. ok (bytes_eq full incoming))

  unfoldable pub confirm_candidate : StorageEngine → Placement → ℕ → Bytes → EResult Bool
  unfolding candidate_matches_bytes verify_placement
  confirm_candidate e p h incoming =
      if e.dedup_verify_bytes then candidate_matches_bytes e p incoming else verify_placement e p h

-- The arena takes its bytes back, and the bitmap a chunk that became empty.
unfoldable pub free_blob : StorageEngine → ℕ → ℕ → StorageEngine
free_blob e offset len =
    let (a, emptied) = Arena.release e.carena offset len in
    let freed = record e { carena = a } in
    elim emptied [ none ↦ freed | some chunk ↦ give_chunk freed chunk ]

unfoldable pub free_placement : StorageEngine → Placement → StorageEngine
unfolding release_chunk free_blob compressed_index_remove
free_placement e (raw chunk) = release_chunk e chunk
free_placement e (compressed offset len codec) =
    let last =
      compressed_index_remove
        (record e { compressed_refcount = Dict.remove offset e.compressed_refcount }) offset len
        codec in
    let counted : StorageEngine = elim (Dict.get offset e.compressed_refcount) [
      | none ↦ free_blob e offset len
      | some n ↦
          if ltb 0 (one_less n)
          then record e {
            compressed_refcount = Dict.insert offset (one_less n) e.compressed_refcount;
          }
          else free_blob last offset len
    ] in
    if e.dedup then counted else free_blob e offset len

unfoldable pub free_coords : StorageEngine → List (Option Placement) → StorageEngine
unfolding free_placement
free_coords e [] = e
free_coords e (none ∷ coords) = free_coords e coords
free_coords e (some p ∷ coords) = free_coords (free_placement e p) coords

abbrev pub free_old : StorageEngine → Option Placement → StorageEngine
free_old e none = e
free_old e (some p) = free_placement e p

unfoldable pub share_placement : StorageEngine → Bytes → ℕ → Placement → StorageEngine
unfolding free_placement ref_inc_placement coord set_coord
share_placement e path lc p =
    let counted = ref_inc_placement e p in
    set_coord (free_old counted (coord counted path lc)) path lc (some p)

-- The chunk id is known by then, so the result says only whether the candidate was shared.
unfoldable pub try_share_hashed : External → StorageEngine → Bytes → ℕ → ℕ → Bytes → Outcome Bool
unfolding share_placement confirm_candidate
try_share_hashed x e path lc h incoming = elim (Dict.get h e.hash_index) [
  | none ↦ (e, ok false)
  | some cand ↦ elim (confirm_candidate x e cand h incoming) [
    | err failed ↦ (e, err failed)
    | ok confirmed ↦ if confirmed then (share_placement e path lc cand, ok true) else (e, ok false)
  ]
]

unfoldable pub make_exclusive : External → StorageEngine → Bytes → ℕ → Outcome ℕ
unfolding alloc_chunk release_chunk set_coord free_placement decompress_blob
make_exclusive x e path lc =
    let fresh_from : (StorageEngine → ℕ → EResult Vram)
        → (StorageEngine → StorageEngine)
        → Outcome ℕ =
      λ fill drop_old. and_then (alloc_chunk e) (λ a nc.
        and_then (on_vram a (fill a nc))
          (λ b v. (set_coord (drop_old b) path lc (some (raw nc)), ok nc))) in
    elim (coord e path lc) [
      | none ↦ fresh_from (λ a nc. zero_at a.vram (nc * chunk_size) chunk_size) (λ b. b)
      | some (raw chunk) ↦
          if e.dedup && ltb 1 (get_or e.refcount chunk 0)
          then fresh_from
              (λ a nc. copy_within a.vram (chunk * chunk_size) (nc * chunk_size) chunk_size)
              (λ b. release_chunk b chunk)
          else ((if e.dedup then index_remove e chunk else e), ok chunk)
      | some (compressed offset len codec) ↦ elim (decompress_blob x e offset len codec) [
        | err failed ↦ (e, err failed)
        | ok full ↦
            fresh_from (λ a nc. write_at a.vram (nc * chunk_size) full)
              (λ b. free_placement b (compressed offset len codec))
      ]
    ]

unfoldable pub carena_alloc : StorageEngine → ℕ → Outcome ℕ
carena_alloc e len =
    let (ca, found) = Arena.try_alloc e.carena len in
    let probed = record e { carena = ca } in
    let (a, chunk) = alloc_one e.alloc in
    elim found [
      | some offset ↦ (probed, ok offset)
      | none ↦ elim chunk [
        | none ↦ (record probed { alloc = a }, err no_space)
        | some c ↦ elim (Arena.add_arena ca c len) [
          | none ↦ (
            record probed { alloc = a },
            err (internal (codes "fresh arena must fit len <= chunk")),
          )
          | some (ca', offset) ↦ (record probed { alloc = a; carena = ca' }, ok offset)
        ]
      ]
    ]
