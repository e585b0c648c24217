-- ===== src/Chunk/Takes.antt =====
-- Taking a run of chunks, as one change of the digits, and that it keeps the invariant.

use vramdisk.Chunk.View.{digit}
use vramdisk.Chunk.Invariant.{IsValid}
use vramdisk.Chunk.{ChunkAllocator, word_count}
use vramdisk.Common.{
  ℕ, zero, suc, ◌+◌, ◌^◌, ◌≤◌, ◌<◌, ◌≡◌, refl, ap, arith, List, leb, ltb, ◌&&◌, if◌then◌else◌,
  length, get_or, set, length-set, get_or-set_self, get_or-set_ne, ℕ_discrete, sum_below-cong,
  sum_below, sum_below-change,
}

-- `b` is `a` with the free run of `count` chunks from `start` on marked used, and nothing else.
pub record Takes (a : ChunkAllocator) (start count : ℕ) (b : ChunkAllocator) : Type 0 where
  pub within : start + count ≤ a.total
  pub was_free : (c : ℕ) → start ≤ c → c < start + count → digit a.words c ≡ 0
  pub digits :
      (c : ℕ)
      → digit b.words c ≡ (if leb start c && ltb c (start + count) then 1 else digit a.words c)
  pub counts : b.used ≡ a.used + count
  pub totals : b.total ≡ a.total

-- What a taking step leaves of the invariant's count.
pub count_run :
    (total n start : ℕ) (f g : ℕ → ℕ)
    → start + n ≤ total
    → ((c : ℕ) → start ≤ c → c < start + n → f c ≡ 0)
    → ((c : ℕ) → g c ≡ (if leb start c && ltb c (start + n) then 1 else f c))
    → sum_below total g ≡ sum_below total f + n
count_run total zero start f g h free_run e =
    omega (arith, sum_below-cong total g f (λ c lt. ground (arith, e c)))
count_run total (suc n) start f g h free_run e =
    let mid : ℕ → ℕ = λ c. if leb start c && ltb c (start + n) then 1 else f c in
    let ih =
      count_run total n start f mid (omega arith) (λ c lo hi. free_run c lo (omega arith))
        (λ c. refl) in
    omega (
      arith,
      ih,
      sum_below-change total (start + n) g mid (omega arith) (λ c ne. ground (arith, e c)),
      top,
      mid_top,
    )
  where
    top : g (start + n) ≡ 1
    top = ground (arith, e (start + n))

    mid_top :
        (if leb start (start + n) && ltb (start + n) (start + n) then 1 else f (start + n)) ≡ 0
    mid_top = ground (arith, free_run (start + n) (omega arith) (omega arith))

pub Takes-IsValid :
    (a b : ChunkAllocator) (start count : ℕ)
    → IsValid a
    → Takes a start count b
    → length b.words ≡ length a.words
    → ((w : ℕ) → w < length b.words → get_or b.words w 0 < 2 ^ 64)
    → IsValid b
Takes-IsValid a b start count v t same fit = record {
  sized = omega (arith, v.sized, same, ap word_count t.totals);
  fits = omega (arith, v.fits, t.totals);
  words_fit = fit;
  padded = λ c ge lt.
      ground (arith, t.digits c, v.padded c (omega (arith, t.totals)) (omega (arith, same)));
  counted = omega (
    arith,
    t.counts,
    v.counted,
    ap (λ n. sum_below n (digit b.words)) t.totals,
    count_run a.total count start (digit a.words) (digit b.words) t.within t.was_free t.digits,
  );
}

pub words_fit-set :
    (words : List ℕ) (i x w : ℕ)
    → x < 2 ^ 64
    → (w < length words → get_or words w 0 < 2 ^ 64)
    → w < length (set words i x)
    → get_or (set words i x) w 0 < 2 ^ 64
words_fit-set words i x w hx h lt = elim (ℕ_discrete i w) [
  | yes e ↦ ground (arith, e, length-set words w x, get_or-set_self words w x 0)
  | no ne ↦ ground (arith, length-set words i x, get_or-set_ne words i w x 0 ne)
]
