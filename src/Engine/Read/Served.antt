-- ===== src/Engine/Read/Served.antt =====
-- src/engine.rs, `read_into`, `read_into_shared` and `read`: the buffer gets the bytes of the file, as
-- the view of `Engine.Contents` has them.
use vramdisk.Lookup.Key.{Bytes, normalize_key}
use vramdisk.Placement.{Placement, raw}
use vramdisk.Units.{chunk_size}
use vramdisk.Engine.Result.{EResult, ok}
use vramdisk.Engine.Vram.{bytes_at, read_at, length-bytes_at, get_or-bytes_at, read_at_inside}
use vramdisk.Engine.State.{StorageEngine, coord}
use vramdisk.Engine.Chunks.{zeros}
use vramdisk.Engine.Refs.{placement_at}
use vramdisk.Engine.Contents.{
  content, byte_of, IsPlain, coord_lem, placement_cases, length-zeros, get_or-zeros,
}
use vramdisk.Engine.Read.{
  Reading, Span, OnBlob, span, spans, after_span, fill, filled, raw_run_bytes,
}
use vramdisk.Engine.Read.Splice.{length-splice, get_or-splice}
use vramdisk.Engine.Read.Runs.{file_byte, raw_run_bytes-IsMaximal}
use vramdisk.Common.{
  ℕ, zero, suc, ◌+◌, ◌-◌, ◌*◌, ◌/◌, ◌%◌, ◌≤◌, ◌<◌, ◌≡◌, min, inl, inr, refl, sym, ap, ◌∙◌, arith,
  Option, none, some, ltb, leb, ◌&&◌, Bool-cases, by_true, by_false, ltb→lt, if◌then◌else◌, length,
  get_or,
}

-- The part of the buffer from `from` to `to` has the bytes of the file behind `offset`, the rest is as
-- it was, and no blob waits.
pub record Fills (e : StorageEngine) (k : Bytes) (offset from to : ℕ) (r r' : Reading)
    : Type 0 where
  pub long : length r'.out ≡ length r.out
  pub none_left : r'.pending ≡ r.pending
  pub same :
      (i : ℕ)
      → get_or r'.out i 0
        ≡ (if leb from i && ltb i to then file_byte e k (offset + i) else get_or r.out i 0)

-- Bytes of the file, spliced in.
fill-Fills :
    (e : StorageEngine) (k : Bytes) (offset done : ℕ) (bytes : Bytes) (r : Reading)
    → done + length bytes ≤ length r.out
    → ((i : ℕ) → i < length bytes → get_or bytes i 0 ≡ file_byte e k (offset + done + i))
    → Fills e k offset done (done + length bytes) r (fill done bytes r)
fill-Fills e k offset done bytes r fits same = record {
  long = length-splice done bytes r.out fits;
  none_left = refl;
  same = λ i. get_or-splice done bytes r.out fits i ∙ by_bytes i;
}
  where
    inner :
        (i : ℕ)
        → done ≤ i
        → i < done + length bytes
        → get_or bytes (i - done) 0 ≡ file_byte e k (offset + i)
    inner i ge lt = same (i - done) (omega arith) ∙ ap (file_byte e k) (omega arith)

    by_bytes :
        (i : ℕ)
        → (if leb done i && ltb i (done + length bytes)
            then get_or bytes (i - done) 0
            else get_or r.out i 0)
          ≡ (if leb done i && ltb i (done + length bytes)
              then file_byte e k (offset + i)
              else get_or r.out i 0)
    by_bytes i = ground (arith, inner i)

module _ (e : StorageEngine) (v : IsPlain e) (path : Bytes) (place : ℕ → Option Placement)
    (blob : OnBlob) (agree : (lc : ℕ) → place lc ≡ coord e path lc) (offset n : ℕ) where
  abbrev k : Bytes
  k = normalize_key path

  -- One span, and the bytes it served.
  abbrev Spanned : ℕ → Reading → Span → Type 0
  Spanned done r o =
      (took : ℕ) × (r' : Reading) × (o ≡ (r', ok took))
      × (0 < took)
      × (done + took ≤ n)
      × Fills e (normalize_key path) offset done (done + took) r r'

  filled_lem :
      (done : ℕ) (r : Reading) (bytes : Bytes) (o : EResult Bytes)
      → o ≡ ok bytes
      → n ≤ length r.out
      → 0 < length bytes
      → done + length bytes ≤ n
      → ((i : ℕ)
          → i < length bytes
          → get_or bytes i 0 ≡ file_byte e (normalize_key path) (offset + done + i))
      → Spanned done r (filled done r o)
  filled_lem done r bytes o q room pos fits same = (
    length bytes,
    fill done bytes r,
    ap (filled done r) q,
    pos,
    fits,
    fill-Fills e k offset done bytes r (omega arith) same,
  )

  hole_lem :
      (done : ℕ) (r : Reading)
      → done < n
      → n ≤ length r.out
      → placement_at e.table (normalize_key path) ((offset + done) / chunk_size) ≡ none
      → (m : ℕ) → m ≡ min (chunk_size - (offset + done) % chunk_size) (n - done)
      → Spanned done r (filled done r (ok (zeros m)))
  unfolding file_byte content
  hole_lem done r lt room hole m def =
      filled_lem done r (zeros m) (ok (zeros m)) refl room (ground (arith, def, length-zeros m))
        (ground (arith, def, length-zeros m))
        (λ i low.
          get_or-zeros m i
          ∙ sym (
              ap (λ o. byte_of e.vram o ((offset + done + i) % chunk_size))
                (ap (placement_at e.table k) (same_chunk i low) ∙ hole)))
    where
      same_chunk :
          (i : ℕ)
          → i < length (zeros m)
          → (offset + done + i) / chunk_size ≡ (offset + done) / chunk_size
      same_chunk i low = ground (arith, def, length-zeros m)

  raw_lem :
      (done : ℕ) (r : Reading)
      → done < n
      → n ≤ length r.out
      → (c : ℕ) → coord e path ((offset + done) / chunk_size) ≡ some (raw c)
      → (m : ℕ) → m ≡ min (chunk_size - (offset + done) % chunk_size) (n - done)
      → Spanned done r (
          filled done r (
            read_at e.vram
              (c * chunk_size + (offset + done) % chunk_size)
              (raw_run_bytes e path (offset + done) m (n - done) c)))
  raw_lem done r lt room c q m def =
      let base = c * chunk_size + (offset + done) % chunk_size in
      let run = raw_run_bytes e path (offset + done) m (n - done) c in
      let whole =
        raw_run_bytes-IsMaximal e v path (offset + done) (n - done) c q (omega arith) m def in
      let r' = whole.run in
      let size = length-bytes_at e.vram.byte run base in
      filled_lem done r (bytes_at e.vram.byte run base) (read_at e.vram base run)
        (read_at_inside e.vram base run (omega (arith, r'.inside, r'.below, v.accounts.fits))) room
        (ground (arith, size, whole.from, def)) (omega (arith, size, r'.short))
        (λ i low.
          get_or-bytes_at e.vram.byte run base i (omega (arith, size))
          ∙ sym (r'.same i (omega (arith, size))))

  span_lem :
      (done : ℕ) (r : Reading)
      → done < n
      → n ≤ length r.out
      → Spanned done r (span e path place blob offset n done r)
  unfolding span
  span_lem done r lt room =
      let lc = (offset + done) / chunk_size in
      elim (placement_cases e v (normalize_key path) lc) [
        | inl hole ↦
            rw (agree lc, coord_lem e path lc, hole, span) (hole_lem done r lt room hole _ refl)
        | inr (c, q, below, live) ↦
            rw (agree lc, coord_lem e path lc, q, span)
              (raw_lem done r lt room c (coord_lem e path lc ∙ q) _ refl)
      ]

  over_Fills : (done : ℕ) (r : Reading) → n ≤ done → Fills e k offset done n r r
  over_Fills done r over = record { long = refl; none_left = refl; same = λ i. ground arith }

  Fills-trans :
      (done mid : ℕ) (r r' r'' : Reading)
      → done ≤ mid
      → mid ≤ n
      → Fills e k offset done mid r r'
      → Fills e k offset mid n r' r''
      → Fills e k offset done n r r''
  Fills-trans done mid r r' r'' le le' now later = record {
    long = later.long ∙ now.long;
    none_left = later.none_left ∙ now.none_left;
    same = λ i. ground (arith, later.same i, now.same i);
  }

  -- All spans from `done` on.
  pub spans_lem :
      (fuel done : ℕ) (r : Reading)
      → n ≤ done + fuel
      → done ≤ n
      → n ≤ length r.out
      → (r' : Reading) × (spans e path place blob offset n fuel done r ≡ (r', ok tt))
        × Fills e (normalize_key path) offset done n r r'
  unfolding spans
  spans_lem zero done r enough le room = (r, ground arith, over_Fills done r (omega arith))
  spans_lem (suc fuel) done r enough le room = elim (Bool-cases (ltb done n)) [
    | inl more ↦
        let (took, r', q, pos, fits, now) = span_lem done r (ltb→lt done n more) room in
        let (r'', rest, later) =
          spans_lem fuel (done + took) r' (omega arith) fits (omega (arith, now.long)) in
        (
          r'',
          by_true (λ o. o ≡ (r'', ok tt)) _ _ _ more
              (ap (λ o. after_span o (λ t. spans e path place blob offset n fuel (done + t))) q
                ∙ rest),
          Fills-trans done (done + took) r r' r'' (omega arith) fits now later,
        )
    | inr over ↦ (
      r,
      by_false (λ o. o ≡ (r, ok tt)) _ _ _ over refl,
      over_Fills done r (ground (arith, over)),
    )
  ]
