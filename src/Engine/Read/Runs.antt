-- ===== src/Engine/Read/Runs.antt =====
-- src/engine.rs, `raw_run_bytes`: a run of raw chunks that lie one behind the other, against the view
-- of `Engine.Contents`.
use vramdisk.Lookup.Key.{Bytes, normalize_key}
use vramdisk.Placement.{Placement, raw, compressed}
use vramdisk.Units.{chunk_size}
use vramdisk.Engine.State.{StorageEngine, coord, is_raw}
use vramdisk.Engine.Refs.{placement_at}
use vramdisk.Engine.Contents.{content, byte_of, IsPlain, coord_lem, placement_cases}
use vramdisk.Engine.Read.{continues, raw_run, raw_run_bytes}
use vramdisk.Common.{
  ℕ, zero, suc, ◌+◌, ◌-◌, ◌*◌, ◌/◌, ◌%◌, ◌≤◌, ◌<◌, ◌≡◌, min, inl, inr, sym, ap, ◌∙◌, arith, Option,
  none, some, true, false, ◌==◌, ltb, Bool-cases, by_true, by_false, &&_parts, ==_iff, ltb→lt,
}

-- The byte `p` of the file of the key.
unfoldable pub file_byte : StorageEngine → Bytes → ℕ → ℕ
unfolding content
file_byte e k p = content e k (p / chunk_size) (p % chunk_size)

pub raw_is : (c : ℕ) (p : Option Placement) → is_raw c p ≡ true → p ≡ some (raw c)
raw_is c none h = cc h
raw_is c (some (raw d)) h = ap (λ n. some (raw n)) (sym ((==_iff c d).0 h))
raw_is c (some (compressed offset len codec)) h = cc h

abbrev chunk_of : ℕ → Placement → ℕ
chunk_of c (raw d) = d
chunk_of c (compressed offset len codec) = c

-- The byte of a raw chunk.
pub file_byte-raw :
    (e : StorageEngine) (k : Bytes) (c p : ℕ)
    → placement_at e.table k (p / chunk_size) ≡ some (raw c)
    → file_byte e k p ≡ e.vram.byte (c * chunk_size + p % chunk_size)
unfolding file_byte
file_byte-raw e k c p q = ap (λ o. byte_of e.vram o (p % chunk_size)) q

-- `run` bytes of the file from `pos` on lie from `base` on in the buffer, up to the chunk `prev`.
pub record IsRun (e : StorageEngine) (k : Bytes) (pos base remaining run prev : ℕ) : Type 0 where
  pub short : run ≤ remaining
  pub below : prev < e.alloc.total
  pub inside : base + run ≤ (prev + 1) * chunk_size
  pub edge : (pos + run) % chunk_size ≡ 0 → base + run ≡ (prev + 1) * chunk_size
  pub same : (i : ℕ) → i < run → file_byte e k (pos + i) ≡ e.vram.byte (base + i)

-- A run that starts with `first` bytes and does not go further.
pub record IsMaximal (e : StorageEngine) (path : Bytes) (pos base remaining first r : ℕ)
    : Type 0 where
  pub last : ℕ
  pub run : IsRun e (normalize_key path) pos base remaining r last
  pub from : first ≤ r
  pub stops : continues e path pos remaining r last ≡ false

module _ (e : StorageEngine) (v : IsPlain e) (path : Bytes) (pos base remaining : ℕ) where
  abbrev Run : ℕ → ℕ → Type 0
  Run = IsRun e (normalize_key path) pos base remaining

  raw_below : (lc c : ℕ) → coord e path lc ≡ some (raw c) → c < e.alloc.total
  raw_below lc c q = elim (placement_cases e v (normalize_key path) lc) [
    | inl hole ↦ cc (hole, coord_lem e path lc, q)
    | inr (d, found, lt, live) ↦
        let same : raw d ≡ raw c = cc (found, coord_lem e path lc, q) in
        omega (arith, ap (chunk_of c) same)
  ]

  -- One more chunk.
  Run-next :
      (run prev : ℕ)
      → Run run prev
      → run < remaining
      → (pos + run) % chunk_size ≡ 0
      → coord e path ((pos + run) / chunk_size) ≡ some (raw (prev + 1))
      → Run (run + min chunk_size (remaining - run)) (prev + 1)
  Run-next run prev r more whole next = record {
    short = ground arith;
    below = raw_below ((pos + run) / chunk_size) (prev + 1) next;
    inside = ground (arith, r.edge whole);
    edge = λ h. ground (arith, r.edge whole);
    same = λ i lt. elim (Bool-cases (ltb i run)) [
      | inl old ↦ r.same i (ltb→lt i run old)
      | inr new ↦
          file_byte-raw e (normalize_key path) (prev + 1) (pos + i) (
            ap (placement_at e.table (normalize_key path)) (there i lt new)
            ∙ sym (coord_lem e path ((pos + run) / chunk_size))
            ∙ next)
          ∙ ap (λ (m : ℕ). e.vram.byte m) (ground (arith, r.edge whole))
    ];
  }
    where
      there :
          (i : ℕ)
          → i < run + min chunk_size (remaining - run)
          → ltb i run ≡ false
          → (pos + i) / chunk_size ≡ (pos + run) / chunk_size
      there i lt new = ground arith

  raw_run-IsMaximal :
      (fuel run prev : ℕ)
      → remaining ≤ run + fuel
      → Run run prev
      → IsMaximal e path pos base remaining run (raw_run e path pos remaining fuel run prev)
  unfolding raw_run
  raw_run-IsMaximal zero run prev enough r = record {
    last = prev;
    run = r;
    from = omega arith;
    stops = ground arith;
  }
  raw_run-IsMaximal (suc fuel) run prev enough r =
      elim (Bool-cases (continues e path pos remaining run prev)) [
        | inl more ↦
            let (below, rest) = &&_parts (ltb run remaining) _ more in
            let (whole, next) = &&_parts ((pos + run) % chunk_size == 0) _ rest in
            let longer =
              raw_run-IsMaximal fuel (run + min chunk_size (remaining - run)) (prev + 1)
                (ground (arith, below))
                (Run-next run prev r (ltb→lt run remaining below)
                  ((==_iff ((pos + run) % chunk_size) 0).0 whole) (raw_is (prev + 1) _ next)) in
            by_true (IsMaximal e path pos base remaining run) _ _ _ more (record {
              last = longer.last;
              run = longer.run;
              from = omega (arith, longer.from);
              stops = longer.stops;
            })
        | inr stop ↦
            by_false (IsMaximal e path pos base remaining run) _ _ _ stop
              (record { last = prev; run = r; from = omega arith; stops = stop })
      ]

-- On a plain engine the run from a byte of a raw chunk, for at least one byte, starts with the bytes of
-- that chunk that the request wants, has no more than the request, lies whole within allocated chunks
-- of the buffer and holds the bytes of the file in their order, and the loop ends because no further
-- chunk continues it.
pub raw_run_bytes-IsMaximal :
    (e : StorageEngine)
    → IsPlain e
    → (path : Bytes) (pos remaining c : ℕ) → coord e path (pos / chunk_size) ≡ some (raw c)
    → 0 < remaining
    → (first : ℕ) → first ≡ min (chunk_size - pos % chunk_size) remaining
    → IsMaximal e path pos
        (c * chunk_size + pos % chunk_size)
        remaining
        first
        (raw_run_bytes e path pos first remaining c)
unfolding raw_run_bytes
raw_run_bytes-IsMaximal e v path pos remaining c q some_left first def =
    raw_run-IsMaximal e v path pos (c * chunk_size + pos % chunk_size) remaining remaining first c
      (omega arith)
      (record {
        short = ground (arith, def);
        below = raw_below e v path pos 0 0 (pos / chunk_size) c q;
        inside = ground (arith, def);
        edge = λ h. ground (arith, def);
        same = λ i lt.
            file_byte-raw e (normalize_key path) c (pos + i) (
              ap (placement_at e.table (normalize_key path)) (there i lt)
              ∙ sym (coord_lem e path (pos / chunk_size))
              ∙ q)
            ∙ ap (λ (m : ℕ). e.vram.byte m) (ground (arith, def));
      })
  where
    there : (i : ℕ) → i < first → (pos + i) / chunk_size ≡ pos / chunk_size
    there i lt = ground (arith, def)
