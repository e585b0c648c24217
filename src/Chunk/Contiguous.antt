-- ===== src/Chunk/Contiguous.antt =====
-- `alloc_contiguous`: a run that it gives is free, and where it gives none there is none.

use vramdisk.Bits.Words.{set_bit-lt}
use vramdisk.Chunk.View.{digit, digit-le-one, digit-mark_one, length-mark_one}
use vramdisk.Chunk.Invariant.{IsValid, below_total}
use vramdisk.Chunk.Takes.{Takes, Takes-IsValid, words_fit-set, count_run}
use vramdisk.Chunk.Single.{alloc_one_lem}
use vramdisk.Chunk.Scanning.{scan_words-first_run}
use vramdisk.Chunk.Runs.{first_run, RunSoFar, first_run-found, first_run-going}
use vramdisk.Chunk.{
  ChunkAllocator, Scan, found, going, word_of, bit_of, mark_one, scan_words, mark_run, mark_used,
  claim, alloc_contiguous, free,
}
use vramdisk.Common.{
  ℕ, zero, suc, ◌+◌, ◌-◌, ◌*◌, ◌^◌, ◌≤◌, ◌<◌, ◌≡◌, ◌≢◌, ◌⊎◌, inl, inr, refl, sym, ap, ◌∙◌, arith,
  List, some, none, leb, ltb, ◌&&◌, if◌then◌else◌, length, get_or, ℕ_discrete, dec_lt,
  sum_below-le-mul, subst,
}

at_start : (count : ℕ) (used : ℕ → ℕ) → 0 < count → RunSoFar count used 0 0 0
at_start count used h = record {
  short = h;
  back = omega arith;
  start = inl refl;
  is_free = λ c lo hi. absurd (omega arith);
}

digit-mark_run :
    (n start : ℕ) (words : List ℕ) (d : ℕ)
    → start + n ≤ 64 * length words
    → digit (mark_run n start words) d
      ≡ (if leb start d && ltb d (start + n) then 1 else digit words d)
unfolding mark_run
digit-mark_run zero start words d h = ground arith
digit-mark_run (suc n) start words d h = ground (
  arith,
  digit-mark_run n (start + 1) (mark_one words start) d
      (omega (arith, length-mark_one words start)),
  digit-mark_one words start d (omega arith),
)

length-mark_run : (n start : ℕ) (words : List ℕ) → length (mark_run n start words) ≡ length words
unfolding mark_run
length-mark_run zero start words = refl
length-mark_run (suc n) start words =
    length-mark_run n (start + 1) (mark_one words start) ∙ length-mark_one words start

mark_one-fits :
    (words : List ℕ) (c : ℕ)
    → c < 64 * length words
    → ((w : ℕ) → w < length words → get_or words w 0 < 2 ^ 64)
    → (w : ℕ) → w < length (mark_one words c)
    → get_or (mark_one words c) w 0 < 2 ^ 64
unfolding mark_one
mark_one-fits words c h fit w =
    words_fit-set words (word_of c) _ w
      (set_bit-lt (get_or words (word_of c) 0) (bit_of c) (fit (word_of c) (omega arith))
        (omega arith))
      (fit w)

mark_run-fits :
    (n start : ℕ) (words : List ℕ)
    → start + n ≤ 64 * length words
    → ((w : ℕ) → w < length words → get_or words w 0 < 2 ^ 64)
    → (w : ℕ) → w < length (mark_run n start words)
    → get_or (mark_run n start words) w 0 < 2 ^ 64
unfolding mark_run
mark_run-fits zero start words h fit = fit
mark_run-fits (suc n) start words h fit =
    mark_run-fits n (start + 1) (mark_one words start) (omega (arith, length-mark_one words start))
      (mark_one-fits words start (omega arith) fit)

module _ (a : ChunkAllocator) (v : IsValid a) (count : ℕ) where
  scan-search :
      0 < count
      → scan_words count 0 a.words 0 0 ≡ first_run count (digit a.words) (64 * length a.words) 0 0 0
  scan-search h =
      scan_words-first_run count 0 a.words (digit a.words) 0 0 0 h refl
        (λ j lt. ap (digit a.words) (omega arith))

  -- No stretch of `count` chunks of the disk is free.
  abbrev pub NoRun : Type 0
  NoRun = (r : ℕ) → r + count ≤ a.total → ¬ ((c : ℕ) → r ≤ c → c < r + count → digit a.words c ≡ 0)

  scan-going : 0 < count → {s l : ℕ} → scan_words count 0 a.words 0 0 ≡ going s l → NoRun
  scan-going h {s} {l} e r within all_free =
      first_run-going count (digit a.words) (64 * length a.words) 0 0 0 s l r (at_start count _ h)
        (sym (scan-search h) ∙ e) (omega arith) (omega (arith, v.sized))
        (λ c lo hi. λ q. absurd (omega (arith, all_free c lo hi)))

  pub mark_used-Takes :
      0 < count
      → (start : ℕ) → scan_words count 0 a.words 0 0 ≡ found start
      → Takes a start count (mark_used a start count) × IsValid (mark_used a start count)
  unfolding mark_used
  mark_used-Takes h start e =
      let (bound, is_free) =
        first_run-found count (digit a.words) (64 * length a.words) 0 0 0 start (at_start count _ h)
          (sym (scan-search h) ∙ e) in
      let free_run : (c : ℕ) → start ≤ c → c < start + count → digit a.words c ≡ 0 =
        λ c lo hi. zero_digit c (is_free c lo hi) in
      let t : Takes a start count (mark_used a start count) = record {
        within = omega (
          arith,
          below_total a (start + count - 1) v (omega arith)
              (free_run (start + count - 1) (omega arith) (omega arith)),
        );
        was_free = free_run;
        digits = λ c. digit-mark_run count start a.words c (omega arith);
        counts = refl;
        totals = refl;
      } in
      (
        t,
        Takes-IsValid a (mark_used a start count) start count v t
            (length-mark_run count start a.words)
            (mark_run-fits count start a.words (omega arith) v.words_fit),
      )
    where
      zero_digit : (c : ℕ) → digit a.words c ≢ 1 → digit a.words c ≡ 0
      zero_digit c ne = omega (arith, digit-le-one a.words c)

  -- A free run needs that many free chunks.
  run-le-free :
      (r : ℕ)
      → r + count ≤ a.total
      → ((c : ℕ) → r ≤ c → c < r + count → digit a.words c ≡ 0)
      → a.used + count ≤ a.total
  run-le-free r within all_free =
      let after : ℕ → ℕ = λ c. if leb r c && ltb c (r + count) then 1 else digit a.words c in
      omega (
        arith,
        v.counted,
        count_run a.total count r (digit a.words) after within all_free (λ c. refl),
        sum_below-le-mul a.total after (λ c lt. ground (arith, digit-le-one a.words c)),
      )

  -- For a positive count on a valid bitmap: either no free run of that length exists, and nothing
  -- changes, or exactly such a run is taken and the bitmap stays valid.
  pub alloc_contiguous_lem :
      0 < count
      → ((alloc_contiguous a count ≡ (a, none)) × NoRun)
        ⊎ ((b : ChunkAllocator) × (start : ℕ) × (alloc_contiguous a count ≡ (b, some start))
            × Takes a start count b
            × IsValid b)
  unfolding alloc_contiguous
  alloc_contiguous_lem h = elim (ℕ_discrete count 1) [
    | yes one ↦ elim (alloc_one_lem a v) [
      | inl (e, full) ↦ inl (
        ground (arith, e),
        λ r within all_free.
            absurd (omega (arith, run-le-free r within all_free, full, is_full full)),
      )
      | inr (b, c, e, t, vb) ↦
          inr (b, c, ground (arith, e), subst (λ n. Takes a c n b) (sym one) t, vb)
    ]
    | no many ↦ elim (dec_lt (free a) count) [
      | yes short ↦ inl (
        short_eq h many short,
        λ r within all_free. absurd (omega (arith, run-le-free r within all_free, is_short short)),
      )
      | no enough ↦ scanned h many enough (scan_words count 0 a.words 0 0) refl
    ]
  ]
    where
      is_full : free a ≡ 0 → a.total ≤ a.used
      is_full z = omega arith

      is_short : free a < count → a.total < a.used + count
      is_short z = omega arith

      short_eq : 0 < count → count ≢ 1 → free a < count → alloc_contiguous a count ≡ (a, none)
      short_eq h many short = ground arith

      in_order :
          0 < count
          → count ≢ 1
          → ¬ (free a < count)
          → alloc_contiguous a count ≡ claim a count (scan_words count 0 a.words 0 0)
      in_order h many enough = ground arith

      scanned :
          0 < count
          → count ≢ 1
          → ¬ (free a < count)
          → (r : Scan) → scan_words count 0 a.words 0 0 ≡ r
          → ((alloc_contiguous a count ≡ (a, none)) × NoRun)
            ⊎ ((b : ChunkAllocator) × (start : ℕ) × (alloc_contiguous a count ≡ (b, some start))
                × Takes a start count b
                × IsValid b)
      scanned h many enough (found start) e =
          let (t, vb) = mark_used-Takes h start e in
          inr (mark_used a start count, start, in_order h many enough ∙ ap (claim a count) e, t, vb)
      scanned h many enough (going s l) e =
          inl (in_order h many enough ∙ ap (claim a count) e, scan-going h e)
