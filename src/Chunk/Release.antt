-- ===== src/Chunk/Release.antt =====
-- `free_one` and `free_contiguous`: the chunk becomes free, and a free chunk stays as it is.
use vramdisk.Chunk.Takes.{Takes, words_fit-set}
use vramdisk.Bits.Words.{clear_bit, test_bit-bit_at, clear_bit-lt}
use vramdisk.Chunk.View.{digit, digit-clear_one, get_elem?-in_range, digit-le-one}
use vramdisk.Chunk.Invariant.{IsValid, in_bounds}
use vramdisk.Chunk.{ChunkAllocator, word_of, bit_of, free_one, free_contiguous}
use vramdisk.Common.{
  ℕ, ◌+◌, ◌-◌, ◌<◌, ◌≡◌, refl, arith, some, ◌==◌, if◌then◌else◌, get_or, set, sum_below-change,
  zero, suc, ◌≤◌, ◌≢◌, ◌⊎◌, inl, inr, ap, leb, ltb, ◌&&◌, length-set, ℕ_discrete, sum_below,
}

abbrev pub after_free : ChunkAllocator → ℕ → ChunkAllocator
after_free a c = record a {
  words = set a.words (word_of c) (clear_bit (get_or a.words (word_of c) 0) (bit_of c));
  used = a.used - 1;
}

-- `b` is `a` with the used chunk `c` free.
pub record Drops (a : ChunkAllocator) (c : ℕ) (b : ChunkAllocator) : Type 0 where
  pub was_used : digit a.words c ≡ 1
  pub digits : (d : ℕ) → digit b.words d ≡ (if c == d then 0 else digit a.words d)
  pub counts : b.used + 1 ≡ a.used
  pub totals : b.total ≡ a.total

module _ (a : ChunkAllocator) (v : IsValid a) (c : ℕ) (h : c < a.total) where
  free_one-eq : free_one a c ≡ some (if digit a.words c == 1 then after_free a c else a)
  unfolding free_one digit
  free_one-eq =
      rw
        (
          get_elem?-in_range a.words (word_of c) (omega (arith, v.sized)),
          free_one,
          test_bit-bit_at (get_or a.words (word_of c) 0) (bit_of c),
        )
        refl

  pub free_one_free : digit a.words c ≡ 0 → free_one a c ≡ some a
  free_one_free z = rw (free_one-eq, z) refl

  pub after_free-Drops : digit a.words c ≡ 1 → Drops a c (after_free a c)
  after_free-Drops o =
      let cleared = digit-clear_one a.words c in
      record {
        was_used = o;
        digits = λ d. digit-clear_one a.words c d (in_bounds a c v h);
        counts = omega (arith, some_used);
        totals = refl;
      }
    where
      none_left : ℕ → ℕ
      none_left d = if c == d then 0 else digit a.words d

      some_used : 0 < a.used
      some_used = omega (
        arith,
        v.counted,
        o,
        sum_below-change a.total c (digit a.words) none_left h (λ d ne. ground arith),
        none_at_c,
      )
        where
          none_at_c : none_left c ≡ 0
          none_at_c = ground arith

Drops-count :
    (a b : ChunkAllocator) (c : ℕ)
    → c < a.total
    → a.used ≡ sum_below a.total (digit a.words)
    → Drops a c b
    → b.used ≡ sum_below b.total (digit b.words)
Drops-count a b c h counted d = omega (
  arith,
  d.counts,
  counted,
  d.was_used,
  ap (λ n. sum_below n (digit b.words)) d.totals,
  sum_below-change a.total c (digit a.words) (digit b.words) h (λ i ne. ground (arith, d.digits i)),
  now_free,
)
  where
    now_free : digit b.words c ≡ 0
    now_free = ground (arith, d.digits c)

module _ (a : ChunkAllocator) (v : IsValid a) (c : ℕ) (h : c < a.total) where
  after_free-IsValid : digit a.words c ≡ 1 → IsValid (after_free a c)
  after_free-IsValid o =
      let d = after_free-Drops a v c h o in
      let same =
        length-set a.words (word_of c) (clear_bit (get_or a.words (word_of c) 0) (bit_of c)) in
      record {
        sized = omega (arith, v.sized, same);
        fits = v.fits;
        words_fit = λ w.
            words_fit-set a.words (word_of c) _ w
              (clear_bit-lt (get_or a.words (word_of c) 0) (bit_of c)
                (v.words_fit (word_of c) (omega (arith, v.sized))))
              (v.words_fit w);
        padded = λ i ge lt. ground (arith, d.digits i, v.padded i ge (omega (arith, same)));
        counted = Drops-count a (after_free a c) c h v.counted d;
      }

  -- Freeing a chunk of a valid bitmap does not panic: a used chunk becomes free, and nothing else
  -- changes; a free chunk is left as it is.
  pub free_one_lem :
      ((digit a.words c ≡ 0) × (free_one a c ≡ some a))
      ⊎ ((b : ChunkAllocator) × (free_one a c ≡ some b) × Drops a c b × IsValid b)
  free_one_lem = elim (ℕ_discrete (digit a.words c) 1) [
    | yes o ↦ inr (
      after_free a c,
      rw (free_one-eq a v c h, o) refl,
      after_free-Drops a v c h o,
      after_free-IsValid o,
    )
    | no z ↦ inl (zero_digit z, free_one_free a v c h (zero_digit z))
  ]
    where
      zero_digit : digit a.words c ≢ 1 → digit a.words c ≡ 0
      zero_digit z = omega (arith, digit-le-one a.words c)

  free_one_used :
      digit a.words c ≡ 1 → (b : ChunkAllocator) × (free_one a c ≡ some b) × Drops a c b × IsValid b
  free_one_used o = elim free_one_lem [ inl (z, _) ↦ absurd (omega arith) | inr found ↦ found ]

-- `a` and `b` have the same chunks in use and count them alike; their cursors may differ.
pub record SameChunks (a b : ChunkAllocator) : Type 0 where
  pub digits : (d : ℕ) → digit a.words d ≡ digit b.words d
  pub counts : a.used ≡ b.used
  pub totals : a.total ≡ b.total

-- A run of used chunks is freed as a whole, and nothing else changes.
pub free_contiguous_lem :
    (count start : ℕ) (a : ChunkAllocator)
    → IsValid a
    → start + count ≤ a.total
    → ((c : ℕ) → start ≤ c → c < start + count → digit a.words c ≡ 1)
    → (b : ChunkAllocator) × (free_contiguous count start a ≡ some b)
      × IsValid b
      × (b.total ≡ a.total)
      × (b.used + count ≡ a.used)
      × ((d : ℕ)
          → digit b.words d ≡ (if leb start d && ltb d (start + count) then 0 else digit a.words d))
unfolding free_contiguous
free_contiguous_lem zero start a v within used = (a, refl, v, refl, omega arith, λ d. ground arith)
free_contiguous_lem (suc count) start a v within used =
    let (b, e, d, vb) =
      free_one_used a v start (omega arith) (used start (omega arith) (omega arith)) in
    let (c, e', vc, t, n, ds) =
      free_contiguous_lem count (start + 1) b vb (omega (arith, d.totals))
        (λ i lo hi. ground (arith, d.digits i, used i (omega arith) (omega arith))) in
    (
      c,
      rw (e, free_contiguous) e',
      vc,
      omega (arith, d.totals),
      omega (arith, d.counts),
      λ i. ground (arith, ds i, d.digits i),
    )

-- Freeing the chunks that were just taken gives the bitmap back.
pub free-Takes :
    (a b : ChunkAllocator) (start count : ℕ)
    → Takes a start count b
    → IsValid b
    → (c : ChunkAllocator) × (free_contiguous count start b ≡ some c) × IsValid c × SameChunks c a
free-Takes a b start count t v =
    let (c, e, vc, tot, n, ds) =
      free_contiguous_lem count start b v (omega (arith, t.within, t.totals))
        (λ i lo hi. ground (arith, t.digits i)) in
    (
      c,
      e,
      vc,
      record {
        digits = λ d. ground (arith, ds d, t.digits d, t.was_free d);
        counts = omega (arith, t.counts);
        totals = omega (arith, t.totals);
      },
    )
