-- ===== src/Engine/Read.antt =====
-- src/engine.rs, `StorageEngine`: reading bytes of a file, with the exclusive lock and with the shared
-- one. A loop over the spans of a request has as much fuel as the request has bytes; a read that
-- panics for want of a codec is an error here. The buffer of the caller is given back with the result.
pub mod Runs
pub mod Splice
pub mod Served
pub mod Agreement
pub mod Reads
pub mod Ends
use vramdisk.Lookup.Key.{Bytes}
use vramdisk.Lookup.Table.{Node, not_found}
use vramdisk.Lookup.Table
use vramdisk.Placement.{Placement, Codec, raw, compressed, lz4, zstd}
use vramdisk.Units.{chunk_size}
use vramdisk.Jobs.Text.{codes}
use vramdisk.Engine.Result.{EResult, EngineError, ok, err, lookup, not_a_file, internal}
use vramdisk.Engine.Vram.{Vram, read_at}
use vramdisk.Engine.State.{External, StorageEngine, coord, coord_of, is_raw}
use vramdisk.Engine.Chunks.{zeros, decompress_blob, then_ok}
use vramdisk.Engine.Store.{Done, splice}
use vramdisk.Common.{
  ℕ, zero, suc, ◌+◌, ◌-◌, ◌*◌, ◌/◌, ◌%◌, min, List, [], ◌∷◌, ◌++◌, map, Option, none, some, Bool,
  true, false, not, ◌==◌, ltb, leb, ◌&&◌, ◌||◌, if◌then◌else◌, length, take, drop,
}

-- Whether the logical chunk after `run` bytes is whole in the request and lies behind `prev`.
abbrev pub continues : StorageEngine → Bytes → ℕ → ℕ → ℕ → ℕ → Bool
continues e path pos remaining run prev =
    ltb run remaining
    && ((pos + run) % chunk_size == 0
        && is_raw (prev + 1) (coord e path ((pos + run) / chunk_size)))

unfoldable pub raw_run : StorageEngine → Bytes → ℕ → ℕ → ℕ → ℕ → ℕ → ℕ
unfolding coord
raw_run e path pos remaining zero run prev = run
raw_run e path pos remaining (suc fuel) run prev =
    let further =
      raw_run e path pos remaining fuel (run + min chunk_size (remaining - run)) (prev + 1) in
    if continues e path pos remaining run prev then further else run

unfoldable pub raw_run_bytes : StorageEngine → Bytes → ℕ → ℕ → ℕ → ℕ → ℕ
unfolding raw_run
raw_run_bytes e path pos first_take remaining first_chunk =
    raw_run e path pos remaining remaining first_take first_chunk

pub record Pending : Type 0 where
  pub out_pos : ℕ
  pub take : ℕ
  pub in_off : ℕ
  pub off : ℕ
  pub len : ℕ

-- The caller's buffer, and the blobs to decompress into it.
pub record Reading : Type 0 where
  pub out : Bytes
  pub pending : List Pending

abbrev pub fill : ℕ → Bytes → Reading → Reading
fill done bytes r = record r { out = splice done bytes r.out }

-- What one span does: how many bytes of the request it serves.
abbrev pub Span : Type 0
Span = Reading × EResult ℕ

-- `out[done..done + bytes.len()].copy_from_slice(bytes)`
abbrev pub filled : ℕ → Reading → EResult Bytes → Span
filled done r (err failed) = (r, err failed)
filled done r (ok bytes) = (fill done bytes r, ok (length bytes))

-- What becomes of a span in a blob.
abbrev pub OnBlob : Type 0
OnBlob = Reading → ℕ → ℕ → ℕ → ℕ → ℕ → Codec → Span

-- `done += take`, and the rest of the loop.
abbrev pub after_span : Span → (ℕ → Reading → Reading × EResult Done) → Reading × EResult Done
after_span (r, err failed) rest = (r, err failed)
after_span (r, ok took) rest = rest took r

module _ (e : StorageEngine) (path : Bytes) (place : ℕ → Option Placement) (blob : OnBlob)
    (offset n : ℕ) where
  unfoldable pub span : ℕ → Reading → Span
  unfolding raw_run_bytes splice zeros read_at
  span done r =
      let pos = offset + done in
      let in_off = pos % chunk_size in
      let some_bytes = min (chunk_size - in_off) (n - done) in
      elim (place (pos / chunk_size)) [
        | none ↦ filled done r (ok (zeros some_bytes))
        | some (raw chunk) ↦ filled done r (
            read_at e.vram (chunk * chunk_size + in_off)
              (raw_run_bytes e path pos some_bytes (n - done) chunk))
        | some (compressed off len codec) ↦ blob r done in_off some_bytes off len codec
      ]

  unfoldable pub spans : ℕ → ℕ → Reading → Reading × EResult Done
  unfolding span
  spans zero done r = (r, if ltb done n then err (internal (codes "spans left over")) else ok tt)
  spans (suc fuel) done r =
      let further = after_span (span done r) (λ took. spans fuel (done + took)) in
      if ltb done n then further else (r, ok tt)

abbrev pub is_direct : Option Placement → Bool
is_direct none = true
is_direct (some (raw chunk)) = true
is_direct (some (compressed offset len codec)) = false

-- The pre-scan over `count` logical chunks from `lc` on.
unfoldable pub all_direct : (ℕ → Option Placement) → ℕ → ℕ → Bool
all_direct place zero lc = true
all_direct place (suc count) lc = is_direct (place lc) && all_direct place count (lc + 1)

-- A blob that the pre-scan missed.
unfoldable pub missed_blob : OnBlob
missed_blob r done in_off some_bytes off len codec =
    (r, err (internal (codes "shared read reached a compressed placement")))

abbrev pub served : ℕ → Reading × EResult Done → Bytes × EResult ℕ
served n (r, err failed) = (r.out, err failed)
served n (r, ok done) = (r.out, ok n)

abbrev pub as_some : Bytes × EResult ℕ → Bytes × EResult (Option ℕ)
as_some (out, err failed) = (out, err failed)
as_some (out, ok n) = (out, ok (some n))

-- The part of the file that the buffer takes: `n` of the source.
abbrev pub wanted : Node → ℕ → Bytes → ℕ
wanted node offset buf = min (node.size - offset) (length buf)

abbrev pub nothing_wanted : Node → ℕ → Bytes → Bool
nothing_wanted node offset buf = leb node.size offset || length buf == 0

unfoldable pub shared_from : StorageEngine → Bytes → ℕ → Bytes → Node → Bytes × EResult (Option ℕ)
unfolding all_direct spans missed_blob
shared_from e path offset buf node =
    let n = wanted node offset buf in
    let first_lc = offset / chunk_size in
    let last_lc = (offset + n - 1) / chunk_size in
    if node.is_dir
    then (buf, err not_a_file)
    else if nothing_wanted node offset buf
    then (buf, ok (some 0))
    else if all_direct (coord_of node.coords) (last_lc + 1 - first_lc) first_lc
    then as_some (
        served n (
          spans e path (coord_of node.coords) missed_blob offset n n 0
            (record { out = buf; pending = [] })))
    else (buf, ok none)

unfoldable pub read_into_shared : StorageEngine → Bytes → ℕ → Bytes → Bytes × EResult (Option ℕ)
unfolding shared_from Table.get
read_into_shared e path offset buf = elim (Table.get e.table path) [
  | none ↦ (buf, err (lookup not_found))
  | some node ↦ shared_from e path offset buf node
]

-- The pieces go to their places.
unfoldable pub scatter : List Pending → List Bytes → Bytes → Bytes
unfolding splice
scatter (p ∷ pending) (piece ∷ pieces) out = scatter pending pieces (splice p.out_pos piece out)
scatter [] pieces out = out
scatter (p ∷ pending) [] out = out

abbrev pub request : Pending → ℕ × ℕ × ℕ × ℕ
request p = (p.off, p.len, p.in_off, p.take)

-- `out.truncate(got)`
abbrev pub truncated : Bytes × EResult ℕ → EResult Bytes
truncated (out, err failed) = err failed
truncated (out, ok got) = ok (take got out)

module _ (x : External) where
  -- A blob of the exclusive read: LZ4 waits, zstd is decoded at once.
  unfoldable pub blob_span : StorageEngine → OnBlob
  unfolding decompress_blob splice
  blob_span e r done in_off some_bytes off len lz4 = (
    record r {
      pending =
          r.pending
          ++ (record { out_pos = done; take = some_bytes; in_off = in_off; off = off; len = len }
              ∷ []);
    },
    ok some_bytes,
  )
  blob_span e r done in_off some_bytes off len zstd =
      filled done r (
        then_ok (decompress_blob x e off len zstd)
          (λ full. ok (take some_bytes (drop in_off full))))

  -- The blobs that were gathered are decompressed together.
  unfoldable pub decompress_pending : StorageEngine → ℕ → Bytes → List Pending → Bytes × EResult ℕ
  unfolding scatter
  decompress_pending e n out [] = (out, ok n)
  decompress_pending e n out (p ∷ pending) =
      if not e.has_codec
      then (out, err (internal (codes "nvCOMP codec present for Lz4 placements")))
      else elim (x.lz4_slices e.vram (map request (p ∷ pending))) [
        | err failed ↦ (out, err failed)
        | ok pieces ↦
            if length pieces == length (p ∷ pending)
            then (scatter (p ∷ pending) pieces out, ok n)
            else (out, err (internal (codes "decompress returned another number of pieces")))
      ]

  abbrev pub finished : StorageEngine → ℕ → Reading × EResult Done → Bytes × EResult ℕ
  finished e n (r, err failed) = (r.out, err failed)
  finished e n (r, ok done) = decompress_pending e n r.out r.pending

  unfoldable pub read_from : StorageEngine → Bytes → ℕ → Bytes → Node → Bytes × EResult ℕ
  unfolding coord spans blob_span decompress_pending
  read_from e path offset buf node =
      let n = wanted node offset buf in
      if node.is_dir
      then (buf, err not_a_file)
      else if nothing_wanted node offset buf
      then (buf, ok 0)
      else finished e n (
          spans e path (coord e path) (blob_span e) offset n n 0
            (record { out = buf; pending = [] }))

  unfoldable pub read_into : StorageEngine → Bytes → ℕ → Bytes → Bytes × EResult ℕ
  unfolding read_from Table.get
  read_into e path offset buf = elim (Table.get e.table path) [
    | none ↦ (buf, err (lookup not_found))
    | some node ↦ read_from e path offset buf node
  ]

  unfoldable pub read : StorageEngine → Bytes → ℕ → ℕ → EResult Bytes
  unfolding read_into Table.get zeros
  read e path offset len = elim (Table.get e.table path) [
    | none ↦ err (lookup not_found)
    | some node ↦
        if node.is_dir
        then err not_a_file
        else if leb node.size offset || len == 0
        then ok []
        else truncated (read_into e path offset (zeros (min (node.size - offset) len)))
  ]
