-- ===== src/Engine/RawRuns.antt =====
-- src/engine.rs, `alloc_contiguous_run` and the loop of `write_raw_unshared`, on engines without dedup:
-- a run of chunks is given out, or written over, against the view of `Engine.Contents`.
use vramdisk.Units.{chunk_size}
use vramdisk.Placement.{Placement}
use vramdisk.Chunk.{ChunkAllocator, alloc_contiguous, alloc_one, free}
use vramdisk.Chunk.Single.{alloc_one_lem}
use vramdisk.Chunk.Takes.{Takes}
use vramdisk.Chunk.Contiguous.{alloc_contiguous_lem}
use vramdisk.Chunk.Invariant.{IsValid}
use vramdisk.Engine.Result.{ok, err, no_space}
use vramdisk.Engine.State.{StorageEngine, Outcome}
use vramdisk.Engine.Accounts.{Refs, IsIndexed, Accounts, SameFiles}
use vramdisk.Engine.RawWrite.{alloc_run, alloc_contiguous_run, run_took}
use vramdisk.Common.{
  ℕ, zero, suc, ◌+◌, ◌*◌, ◌/◌, ◌≤◌, ◌<◌, ◌≡◌, ◌⊎◌, inl, inr, refl, ap, ◌∙◌, arith, Option, true,
  false, ◌==◌, ltb, leb, ◌&&◌, if◌then◌else◌, Bool-cases, by_true, by_false,
}

-- One reference more to each chunk of the run.
abbrev pub many : Refs → ℕ → ℕ → Refs
many r start n d = if leb start d && ltb d (start + n) then r d + 1 else r d

-- The chunks of the run had no reference, and each has one.
pub record AllotsRun (e : StorageEngine) (r : Refs) (e' : StorageEngine) (start n : ℕ)
    : Type 0 where
  pub accounts : Accounts e' (many r start n)
  pub same : SameFiles e e'
  pub was_free : (d : ℕ) → start ≤ d → d < start + n → r d ≡ 0
  pub within : start + n ≤ e.alloc.total

module _ (e : StorageEngine) (r : Refs) (acc : Accounts e r) (plain : e.dedup ≡ false) where
  Takes-AllotsRun :
      (b : ChunkAllocator) (start n : ℕ)
      → Takes e.alloc start n b
      → IsValid b
      → AllotsRun e r (record e { alloc = b }) start n
  Takes-AllotsRun b start n t v =
      let unused : (d : ℕ) → start ≤ d → d < start + n → r d ≡ 0 =
        λ d ge lt. ground (arith, acc.marked d (omega (arith, t.within)), t.was_free d ge lt) in
      record {
        accounts = record {
          bitmap = v;
          fits = omega (arith, acc.fits, ap (λ (m : ℕ). m * chunk_size) t.totals);
          marked = λ d lt. ground (arith, t.digits d, t.totals, acc.marked d);
          beyond = λ d ge. ground (arith, t.totals, acc.beyond d, t.within);
          single = λ s d. ground (arith, acc.single s d, unused d);
          counted = λ s. cc (s, plain);
          long = λ s. cc (s, plain);
          hashes = λ s. cc (s, plain);
          unindexed = acc.unindexed;
          indexed = λ h p g. keeps h p (acc.indexed h p g);
        };
        same = record {
          table = refl;
          vram = refl;
          total = t.totals;
          dedup = refl;
          compress = refl;
          verify = refl;
        };
        was_free = unused;
        within = t.within;
      }
    where
      keeps :
          (h : ℕ) (p : Placement)
          → IsIndexed e r h p
          → IsIndexed (record e { alloc = b }) (many r start n) h p
      keeps h p i = record {
        chunk = i.chunk;
        is = i.is;
        below = omega (arith, i.below, t.totals);
        live = ground (arith, i.live);
        hashed = i.hashed;
      }

  -- Either no chunk is free, or a run of at most so many is given out.
  abbrev pub RunGiven : ℕ → Outcome (ℕ × ℕ) → Type 0
  RunGiven n o =
      ((o ≡ (e, err no_space)) × (free e.alloc ≡ 0))
      ⊎ ((e' : StorageEngine) × (start : ℕ) × (got : ℕ) × (o ≡ (e', ok (start, got)))
          × (0 < got)
          × (got ≤ n)
          × AllotsRun e r e' start got)

  abbrev given : StorageEngine → ℕ → ℕ → Outcome (ℕ × ℕ)
  given u start n = (u, ok (start, n))

  abbrev refused : Outcome (ℕ × ℕ)
  refused = (e, err no_space)

  abbrev Gives : StorageEngine → ℕ → ℕ → StorageEngine → Type 0
  Gives b start n u = given u start n ≡ given b start n

  single_run : (a : ChunkAllocator) (n : ℕ) → (n == 1) ≡ true → alloc_contiguous a n ≡ alloc_one a
  unfolding alloc_contiguous
  single_run a n one = ground (arith, one)

  alloc_run_lem : (fuel n : ℕ) → 0 < n → n ≤ fuel → RunGiven n (alloc_run fuel e n)
  unfolding alloc_run alloc_contiguous
  alloc_run_lem zero n pos le = absurd (omega arith)
  alloc_run_lem (suc fuel) n pos le = elim (alloc_contiguous_lem e.alloc acc.bitmap n pos) [
    | inr (b, start, q, t, v) ↦ inr (
      record e { alloc = b },
      start,
      n,
      ap (answer fuel n) q ∙ by_false (Gives (record e { alloc = b }) start n) _ _ _ plain refl,
      pos,
      omega arith,
      Takes-AllotsRun b start n t v,
    )
    | inl (q, none_left) ↦ elim (Bool-cases (n == 1)) [
      | inl one ↦ elim (alloc_one_lem e.alloc acc.bitmap) [
        | inl (q', full) ↦
            inl (ap (answer fuel n) q ∙ by_true (λ o. o ≡ refused) _ _ _ one refl, full)
        | inr (b, c, q', t, v) ↦ cc (q, single_run e.alloc n one, q')
      ]
      | inr more ↦ elim (alloc_run_lem fuel ((n + 1) / 2) (omega arith) (ground (arith, more))) [
        | inl (rest, full) ↦
            inl (ap (answer fuel n) q ∙ by_false (λ o. o ≡ refused) _ _ _ more rest, full)
        | inr (e', start, got, rest, some_left, short, al) ↦ inr (
          e',
          start,
          got,
          ap (answer fuel n) q ∙ by_false (λ o. o ≡ given e' start got) _ _ _ more rest,
          some_left,
          omega arith,
          al,
        )
      ]
    ]
  ]
    where
      answer : ℕ → ℕ → ChunkAllocator × Option ℕ → Outcome (ℕ × ℕ)
      answer fuel n = run_took e n (λ a. alloc_run fuel a ((n + 1) / 2))

  -- Without dedup, where the books are right, `alloc_contiguous_run` of at least one chunk ends: it
  -- fails only where no chunk is free, and changes nothing then, and else gives a run of at least one
  -- chunk and at most as many as were asked for, none of which had a reference.
  pub alloc_contiguous_run_lem : (n : ℕ) → 0 < n → RunGiven n (alloc_contiguous_run e n)
  unfolding alloc_contiguous_run
  alloc_contiguous_run_lem n pos = alloc_run_lem n n pos (omega arith)
