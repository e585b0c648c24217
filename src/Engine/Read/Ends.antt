-- ===== src/Engine/Read/Ends.antt =====
-- src/engine.rs, `read_into` and `read_into_shared`: their loop ends, on every engine.
use vramdisk.Lookup.Key.{Bytes}
use vramdisk.Placement.{Placement, Codec, raw, compressed, lz4, zstd}
use vramdisk.Units.{chunk_size}
use vramdisk.Engine.Result.{EResult, EngineError, ok, err}
use vramdisk.Engine.Vram.{Vram, read_at, length-bytes_at}
use vramdisk.Engine.State.{External, StorageEngine, coord}
use vramdisk.Engine.Chunks.{zeros, decompress_blob, then_ok, whole_chunk}
use vramdisk.Engine.Store.{Done}
use vramdisk.Engine.Contents.{length-zeros}
use vramdisk.Engine.Read.{
  Reading, Span, OnBlob, span, spans, after_span, filled, raw_run, raw_run_bytes, continues,
  blob_span,
}
use vramdisk.Common.{
  ℕ, zero, suc, ◌+◌, ◌-◌, ◌*◌, ◌/◌, ◌%◌, ◌≤◌, ◌<◌, ◌≡◌, min, inl, inr, refl, arith, Option, none,
  some, ◌==◌, ltb, Bool-cases, by_true, by_false, ltb→lt, ==_iff, length, take, drop, length-take,
  length-drop,
}

raw_run_from :
    (e : StorageEngine) (path : Bytes) (pos remaining fuel run prev : ℕ)
    → run ≤ raw_run e path pos remaining fuel run prev
unfolding raw_run
raw_run_from e path pos remaining zero run prev = omega arith
raw_run_from e path pos remaining (suc fuel) run prev =
    elim (Bool-cases (continues e path pos remaining run prev)) [
      | inl more ↦
          by_true (λ (r : ℕ). run ≤ r) _ _ _ more
            (omega (
              arith,
              raw_run_from e path pos remaining fuel (run + min chunk_size (remaining - run))
                  (prev + 1),
            ))
      | inr stop ↦ by_false (λ (r : ℕ). run ≤ r) _ _ _ stop (omega arith)
    ]

-- A span that succeeds serves at least one byte.
abbrev Serves : Span → Type 0
Serves (r, ok took) = 0 < took
Serves (r, err failed) = Unit

-- An answer of bytes is not empty.
abbrev Some : EResult Bytes → Type 0
Some (ok bytes) = 0 < length bytes
Some (err failed) = Unit

filled-Serves : (done : ℕ) (r : Reading) (o : EResult Bytes) → Some o → Serves (filled done r o)
filled-Serves done r (ok bytes) h = h
filled-Serves done r (err failed) h = h

read_at-Some : (v : Vram) (offset n : ℕ) → 0 < n → Some (read_at v offset n)
unfolding read_at
read_at-Some v offset n pos =
    by_false Some (n == 0) _ _ (ground arith) (elim (Bool-cases (ltb v.size (offset + n))) [
      | inl out ↦ by_true Some _ _ _ out tt
      | inr inside ↦ by_false Some _ _ _ inside (omega (arith, length-bytes_at v.byte n offset))
    ])

-- An answer of bytes is a whole chunk.
abbrev Whole : EResult Bytes → Type 0
Whole (ok bytes) = length bytes ≡ chunk_size
Whole (err failed) = Unit

then_ok-Whole {ℓ} :
    {A : Type ℓ} (o : EResult A) (rest : A → EResult Bytes)
    → ((a : A) → Whole (rest a))
    → Whole (then_ok o rest)
then_ok-Whole (ok a) rest h = h a
then_ok-Whole (err failed) rest h = tt

whole_chunk-Whole : (bytes : Bytes) → Whole (whole_chunk bytes)
whole_chunk-Whole bytes = elim (Bool-cases (length bytes == chunk_size)) [
  | inl whole ↦ by_true Whole _ _ _ whole ((==_iff (length bytes) chunk_size).0 whole)
  | inr other ↦ by_false Whole _ _ _ other tt
]

-- A part of a whole chunk that begins inside it.
part-Some :
    (n in_off : ℕ) (o : EResult Bytes)
    → Whole o
    → 0 < n
    → in_off < chunk_size
    → Some (then_ok o (λ full. ok (take n (drop in_off full))))
part-Some n in_off (err failed) whole pos low = tt
part-Some n in_off (ok full) whole pos low =
    ground (arith, length-take n (drop in_off full), length-drop in_off full)

module _ (e : StorageEngine) (path : Bytes) (place : ℕ → Option Placement) (blob : OnBlob)
    (offset n : ℕ) where
  -- The loop as it runs, with no bound on its rounds: it is over when every byte is served, it stops at
  -- a span that fails, and else it goes on behind the bytes that the span served.
  pub data RunsTo : ℕ → Reading → Reading × EResult Done → Type 0 where
    over : {done : ℕ} {r : Reading} → n ≤ done → RunsTo done r (r, ok tt)
    stopped :
        {done : ℕ} {r r' : Reading} {failed : EngineError}
        → done < n
        → span e path place blob offset n done r ≡ (r', err failed)
        → RunsTo done r (r', err failed)
    served :
        {done took : ℕ} {r r' : Reading} {o : Reading × EResult Done}
        → done < n
        → span e path place blob offset n done r ≡ (r', ok took)
        → RunsTo (done + took) r' o
        → RunsTo done r o

module _ (e : StorageEngine) (path : Bytes) (place : ℕ → Option Placement) (blob : OnBlob)
    (offset n : ℕ)
    (serves : (r : Reading) (done in_off some_bytes off len : ℕ) (codec : Codec)
      → 0 < some_bytes
      → in_off < chunk_size
      → Serves (blob r done in_off some_bytes off len codec)) where
  span-Serves :
      (done : ℕ) (r : Reading) → done < n → Serves (span e path place blob offset n done r)
  unfolding span raw_run_bytes
  span-Serves done r lt = go (place ((offset + done) / chunk_size)) refl
    where
      in_off : ℕ
      in_off = (offset + done) % chunk_size

      some_bytes : ℕ
      some_bytes = min (chunk_size - in_off) (n - done)

      pos : 0 < some_bytes
      pos = ground arith

      go :
          (p : Option Placement)
          → place ((offset + done) / chunk_size) ≡ p
          → Serves (span e path place blob offset n done r)
      go none q =
          rw (q, span)
            (filled-Serves done r (ok (zeros some_bytes))
              (omega (arith, pos, length-zeros some_bytes)))
      go (some (raw chunk)) q =
          rw (q, span)
            (filled-Serves done r _ (
              read_at-Some e.vram (chunk * chunk_size + in_off)
                (raw_run_bytes e path (offset + done) some_bytes (n - done) chunk)
                (omega (
                  arith,
                  pos,
                  raw_run_from e path (offset + done) (n - done) (n - done) some_bytes chunk,
                ))))
      go (some (compressed off len codec)) q =
          rw (q, span) (serves r done in_off some_bytes off len codec pos (omega arith))

  abbrev Runs : ℕ → Reading → Reading × EResult Done → Type 0
  Runs = RunsTo e path place blob offset n

  after_span-RunsTo :
      (done : ℕ) (r : Reading)
      → done < n
      → (s : Span) → Serves s
      → span e path place blob offset n done r ≡ s
      → (rest : ℕ → Reading → Reading × EResult Done)
      → ((took : ℕ) (r' : Reading) → 0 < took → Runs (done + took) r' (rest took r'))
      → Runs done r (after_span s rest)
  after_span-RunsTo done r more (r', err failed) some_bytes q rest later = stopped more q
  after_span-RunsTo done r more (r', ok took) some_bytes q rest later =
      served more q (later took r' some_bytes)

  spans-RunsTo :
      (fuel done : ℕ) (r : Reading)
      → n ≤ done + fuel
      → Runs done r (spans e path place blob offset n fuel done r)
  unfolding spans
  spans-RunsTo zero done r enough =
      by_false (λ (d : EResult Done). Runs done r (r, d)) (ltb done n) _ _ (ground arith)
        (over (omega arith))
  spans-RunsTo (suc fuel) done r enough = elim (Bool-cases (ltb done n)) [
    | inr all ↦ by_false (Runs done r) _ _ _ all (over (ground (arith, all)))
    | inl more ↦ by_true (Runs done r) _ _ _ more (
        after_span-RunsTo done r (ltb→lt done n more) (span e path place blob offset n done r)
          (span-Serves done r (ltb→lt done n more)) refl _
          (λ took r' some_bytes. spans-RunsTo fuel (done + took) r' (omega arith)))
  ]

blob_span-Serves :
    (x : External) (e : StorageEngine) (r : Reading) (done in_off some_bytes off len : ℕ)
    (codec : Codec)
    → 0 < some_bytes
    → in_off < chunk_size
    → Serves (blob_span x e r done in_off some_bytes off len codec)
unfolding blob_span decompress_blob
blob_span-Serves x e r done in_off some_bytes off len lz4 pos low = pos
blob_span-Serves x e r done in_off some_bytes off len zstd pos low = filled-Serves done r _ (
    part-Some some_bytes in_off (decompress_blob x e off len zstd)
      (then_ok-Whole (read_at e.vram off len) _
        (λ blob. then_ok-Whole (x.zstd_decode blob) whole_chunk whole_chunk-Whole))
      pos low)

-- On every engine the loop of `read_into` ends: run with no bound on its rounds, it comes to a result,
-- and this is the result with as many rounds as the request has bytes.
pub spans-ends :
    (x : External) (e : StorageEngine) (path : Bytes) (offset n : ℕ) (r : Reading)
    → RunsTo e path
        (coord e path)
        (blob_span x e)
        offset
        n
        0
        r
        (spans e path (coord e path) (blob_span x e) offset n n 0 r)
spans-ends x e path offset n r =
    spans-RunsTo e path (coord e path) (blob_span x e) offset n (blob_span-Serves x e) n 0 r
      (omega arith)
