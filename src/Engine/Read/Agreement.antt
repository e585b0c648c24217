-- ===== src/Engine/Read/Agreement.antt =====
-- src/engine.rs: `read_into_shared` against `read_into`, on every engine, blobs and errors included.
use vramdisk.Lookup.Key.{Bytes, normalize_key}
use vramdisk.Lookup.Table.{Node, node_at}
use vramdisk.Lookup.Table
use vramdisk.Placement.{Placement, Codec, raw, compressed}
use vramdisk.Units.{chunk_size}
use vramdisk.Engine.Result.{EResult, ok, err}
use vramdisk.Engine.State.{External, StorageEngine, coord, coord_of}
use vramdisk.Engine.Store.{Done}
use vramdisk.Engine.Read.{
  Reading, Span, OnBlob, span, spans, after_span, filled, is_direct, all_direct, missed_blob,
  blob_span, decompress_pending, served, finished, as_some, wanted, nothing_wanted, shared_from,
  read_from, read_into_shared, read_into,
}
use vramdisk.Common.{
  ℕ, zero, suc, ◌+◌, ◌-◌, ◌/◌, ◌≤◌, ◌<◌, ◌≡◌, ◌≢◌, inl, inr, refl, sym, ap, ◌∙◌, subst, arith, [],
  Option, none, some, Bool, true, false, ◌==◌, ltb, ◌&&◌, ◌⊎◌, Bool-cases, Option-cases, by_true,
  by_false, both_true, both_false,
}

-- A logical chunk from `lc` on, below `stop`, that is stored as a blob.
pub record HasBlob (place : ℕ → Option Placement) (lc stop : ℕ) : Type 0 where
  pub chunk : ℕ
  pub from : lc ≤ chunk
  pub below : chunk < stop
  pub offset : ℕ
  pub len : ℕ
  pub codec : Codec
  pub is : place chunk ≡ some (compressed offset len codec)

abbrev IsDirect : Option Placement → Type 0
IsDirect p = (offset len : ℕ) (codec : Codec) → p ≢ some (compressed offset len codec)

is_direct_cases :
    (p : Option Placement)
    → ((is_direct p ≡ true) × IsDirect p)
      ⊎ ((is_direct p ≡ false)
          × ((offset : ℕ) × (len : ℕ) × (codec : Codec) × (p ≡ some (compressed offset len codec))))
is_direct_cases none = inl (refl, λ offset len codec q. cc q)
is_direct_cases (some (raw chunk)) = inl (refl, λ offset len codec q. cc q)
is_direct_cases (some (compressed offset len codec)) = inr (refl, (offset, len, codec, refl))

-- What the pre-scan finds.
all_direct_lem :
    (place : ℕ → Option Placement) (count lc : ℕ)
    → ((all_direct place count lc ≡ true)
        × ((l : ℕ) → lc ≤ l → l < lc + count → IsDirect (place l)))
      ⊎ ((all_direct place count lc ≡ false) × HasBlob place lc (lc + count))
unfolding all_direct
all_direct_lem place zero lc = inl (refl, λ l from below. absurd (omega arith))
all_direct_lem place (suc count) lc = elim (is_direct_cases (place lc)) [
  | inl (direct, here) ↦ elim (all_direct_lem place count (lc + 1)) [
    | inl (rest, others) ↦ inl (
      ap (λ (b : Bool). b && all_direct place count (lc + 1)) direct ∙ rest,
      λ l from below. elim (Bool-cases (l == lc)) [
        | inl same ↦ subst (λ (m : ℕ). IsDirect (place m)) (ground (arith, same)) here
        | inr other ↦ others l (ground (arith, other)) (omega arith)
      ],
    )
    | inr (rest, b) ↦ inr (
      ap (λ (b : Bool). b && all_direct place count (lc + 1)) direct ∙ rest,
      record {
        chunk = b.chunk;
        from = omega (arith, b.from);
        below = omega (arith, b.below);
        offset = b.offset;
        len = b.len;
        codec = b.codec;
        is = b.is;
      },
    )
  ]
  | inr (stored, (offset, len, codec, q)) ↦ inr (
    ap (λ (b : Bool). b && all_direct place count (lc + 1)) stored,
    record {
      chunk = lc;
      from = omega arith;
      below = omega arith;
      offset = offset;
      len = len;
      codec = codec;
      is = q;
    },
  )
]

filled_pending :
    (done : ℕ) (r : Reading) (o : EResult Bytes) → (filled done r o).0.pending ≡ r.pending
filled_pending done r (ok bytes) = refl
filled_pending done r (err failed) = refl

-- The same outcome, and no more blobs wait than before.
abbrev Alike : Reading → Reading × EResult Done → Reading × EResult Done → Type 0
Alike r o o' = (o ≡ o') × (o.0.pending ≡ r.pending)

after_span-Alike :
    (r : Reading) (s : Span) (f g : ℕ → Reading → Reading × EResult Done)
    → s.0.pending ≡ r.pending
    → ((took : ℕ) (r' : Reading) → Alike r' (f took r') (g took r'))
    → Alike r (after_span s f) (after_span s g)
after_span-Alike r (r', ok took) f g kept h = ((h took r').0, (h took r').1 ∙ kept)
after_span-Alike r (r', err failed) f g kept h = (refl, kept)

module _ (e : StorageEngine) (path : Bytes) (place : ℕ → Option Placement) (one two : OnBlob)
    (offset n : ℕ) where
  -- A span that is no blob is the same for both, and leaves the blobs that wait.
  span_agree :
      (done : ℕ) (r : Reading) (p : Option Placement)
      → place ((offset + done) / chunk_size) ≡ p
      → IsDirect p
      → (span e path place one offset n done r ≡ span e path place two offset n done r)
        × ((span e path place one offset n done r).0.pending ≡ r.pending)
  unfolding span
  span_agree done r none q d = (rw (q, span) refl, rw (q, span) refl)
  span_agree done r (some (raw chunk)) q d =
      (rw (q, span) refl, rw (q, span) (filled_pending done r _))
  span_agree done r (some (compressed off len codec)) q d = absurd (d off len codec refl)

  -- So are all spans where none is a blob.
  spans_agree :
      ((l : ℕ) → offset / chunk_size ≤ l → l ≤ (offset + n - 1) / chunk_size → IsDirect (place l))
      → (fuel done : ℕ) (r : Reading)
      → Alike r
          (spans e path place one offset n fuel done r)
          (spans e path place two offset n fuel done r)
  unfolding spans
  spans_agree direct zero done r = (refl, refl)
  spans_agree direct (suc fuel) done r = elim (Bool-cases (ltb done n)) [
    | inl more ↦
        let (same, kept) =
          span_agree done r _ refl
            (direct ((offset + done) / chunk_size) (omega arith) (ground (arith, more))) in
        by_true (λ o. Alike r o (spans e path place two offset n (suc fuel) done r)) _ _ _ more
          (by_true
            (λ o.
              Alike r
                (after_span (span e path place one offset n done r)
                  (λ took. spans e path place one offset n fuel (done + took)))
                o)
            _ _ _ more
            (subst
              (λ s.
                Alike r
                  (after_span (span e path place one offset n done r)
                    (λ took. spans e path place one offset n fuel (done + took)))
                  (after_span s (λ took. spans e path place two offset n fuel (done + took))))
              same
              (after_span-Alike r (span e path place one offset n done r) _ _ kept
                (λ took. spans_agree direct fuel (done + took)))))
    | inr over ↦
        by_false (λ o. Alike r o (spans e path place two offset n (suc fuel) done r)) _ _ _ over
          (by_false (λ o. Alike r (r, ok tt) o) _ _ _ over (refl, refl))
  ]

module _ (x : External) (e : StorageEngine) (path : Bytes) (offset : ℕ) (buf : Bytes) where
  finished-served :
      (n : ℕ) (s : Reading × EResult Done) → s.0.pending ≡ [] → finished x e n s ≡ served n s
  unfolding decompress_pending
  finished-served n (r, ok done) q = ap (decompress_pending x e n r.out) q
  finished-served n (r, err failed) q = refl

  -- The reading of both starts here.
  abbrev start : Reading
  start = record { out = buf; pending = [] }

  -- Where the pre-scan finds no blob.
  direct_agree :
      (n : Node)
      → ((lc : ℕ) → coord_of n.coords lc ≡ coord e path lc)
      → (m : ℕ)
      → ((l : ℕ)
          → offset / chunk_size ≤ l
          → l ≤ (offset + m - 1) / chunk_size
          → IsDirect (coord_of n.coords l))
      → as_some (served m (spans e path (coord_of n.coords) missed_blob offset m m 0 start))
        ≡ as_some (finished x e m (spans e path (coord e path) (blob_span x e) offset m m 0 start))
  direct_agree n agree m direct =
      let (q, kept) =
        spans_agree e path (coord_of n.coords) missed_blob (blob_span x e) offset m direct m 0
          start in
      ap as_some (
        sym
          (finished-served m (spans e path (coord_of n.coords) missed_blob offset m m 0 start) kept)
        ∙ ap (finished x e m)
            (q ∙ ap (λ pl. spans e path pl (blob_span x e) offset m m 0 start) same))
    where
      same : (λ lc. coord_of n.coords lc) ≡ coord e path
      same = λ i lc. agree lc i

  -- What a reader with the shared lock gets, for what a reader with the exclusive lock gets.
  abbrev Agrees : Node → Bytes × EResult (Option ℕ) → Bytes × EResult ℕ → Type 0
  Agrees n o o' =
      (o ≡ as_some o')
      ⊎ ((o ≡ (buf, ok none))
          × HasBlob (coord_of n.coords) (offset / chunk_size)
              ((offset + wanted n offset buf - 1) / chunk_size + 1))

  some_agree :
      (n : Node)
      → ((lc : ℕ) → coord_of n.coords lc ≡ coord e path lc)
      → Agrees n (shared_from e path offset buf n) (read_from x e path offset buf n)
  unfolding shared_from read_from
  some_agree n agree =
      let m = wanted n offset buf in
      let first = offset / chunk_size in
      let last = (offset + m - 1) / chunk_size in
      let exclusive : Bytes × EResult ℕ =
        finished x e m (spans e path (coord e path) (blob_span x e) offset m m 0 start) in
      elim (Bool-cases n.is_dir) [
        | inl dir ↦ both_true (Agrees n) _ _ _ _ _ dir (inl refl)
        | inr file ↦
            both_false (Agrees n) _ _ _ _ _ file (elim (Bool-cases (nothing_wanted n offset buf)) [
              | inl nothing ↦ both_true (Agrees n) _ _ _ _ _ nothing (inl refl)
              | inr some_bytes ↦
                  both_false (Agrees n) _ _ _ _ _ some_bytes
                    (elim (all_direct_lem (coord_of n.coords) (last + 1 - first) first) [
                      | inl (direct, each) ↦
                          by_true (λ o. Agrees n o exclusive) _ _ _ direct
                            (inl
                              (direct_agree n agree m (λ l from below. each l from (omega arith))))
                      | inr (stored, b) ↦
                          by_false (λ o. Agrees n o exclusive) _ _ _ stored
                            (inr (
                              refl,
                              subst (HasBlob (coord_of n.coords) first) (ground (arith, some_bytes))
                                  b,
                            ))
                    ])
            ])
      ]

  -- A read under the shared lock either does what the read under the exclusive lock does, with the
  -- same bytes in the buffer and the same result or error, or it gives the buffer back as it was and
  -- asks for the exclusive lock, where a logical chunk of the request is stored as a blob.
  pub read_into_shared-read_into :
      (read_into_shared e path offset buf ≡ as_some (read_into x e path offset buf))
      ⊎ ((n : Node) × (node_at e.table (normalize_key path) ≡ some n)
          × (read_into_shared e path offset buf ≡ (buf, ok none))
          × HasBlob
              (coord_of n.coords)
              (offset / chunk_size)
              ((offset + wanted n offset buf - 1) / chunk_size + 1))
  unfolding read_into_shared read_into Table.get coord
  read_into_shared-read_into = elim (Option-cases (node_at e.table (normalize_key path))) [
    | inl gone ↦ inl (rw (gone, read_into_shared, read_into) refl)
    | inr (n, found) ↦ elim (some_agree n (λ lc. rw (found, coord) refl)) [
      | inl q ↦ inl (rw (found, read_into_shared, read_into) q)
      | inr (q, b) ↦ inr (n, found, rw (found, read_into_shared) q, b)
    ]
  ]
