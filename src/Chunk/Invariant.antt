-- ===== src/Chunk/Invariant.antt =====
-- What holds of every bitmap that the allocator makes.
use native.Mathlib.Nat.{one-le-pow}
use vramdisk.Bits.{bit_at_high, pow-le}
use vramdisk.Common.{sym, ltb, dec_lt}
use vramdisk.Bits.{bit_at, bit_at-zero, bit_at-complement}
use vramdisk.Bits.Words.{word_max}
use vramdisk.Chunk.View.{digit, digit-set}
use vramdisk.Chunk.{ChunkAllocator, word_count, word_of, bit_of, new}
use vramdisk.Common.{
  ℕ, ◌-◌, ◌*◌, ◌%◌, ◌^◌, ◌≤◌, ◌<◌, ◌≡◌, arith, List, ◌==◌, if◌then◌else◌, length, get_or, replicate,
  length-set, length-replicate, get_or-replicate, get_or-set_ne, get_or-set_self, Bool-cases, inl,
  inr, ==_iff, sum_below, sum_below_none, ℕ_discrete,
}

pub record IsValid (a : ChunkAllocator) : Type 0 where
  pub sized : length a.words ≡ word_count a.total
  pub fits : a.total < 2 ^ 32
  pub words_fit : (w : ℕ) → w < length a.words → get_or a.words w 0 < 2 ^ 64
  pub padded : (c : ℕ) → a.total ≤ c → c < 64 * length a.words → digit a.words c ≡ 1
  pub counted : a.used ≡ sum_below a.total (digit a.words)

pow-le-word : (r : ℕ) → r < 64 → 2 ^ r ≤ 2 ^ 64
pow-le-word r h = pow-le r 64 (omega arith)

last_word :
    (r b : ℕ) → r < 64 → b < 64 → bit_at (word_max - (2 ^ r - 1)) b ≡ (if ltb b r then 0 else 1)
last_word r b hr hb =
    let small : 2 ^ r - 1 < 2 ^ 64 = omega (arith, pow-le-word r hr, one-le-pow r 2) in
    elim (dec_lt b r) [
      | yes lt ↦ ground (
        arith,
        bit_at-complement 64 (2 ^ r - 1) b small hb,
        bit_at-complement r 0 b (omega (arith, one-le-pow r 2)) lt,
        bit_at-zero b,
      )
      | no ge ↦ ground (
        arith,
        bit_at-complement 64 (2 ^ r - 1) b small hb,
        bit_at_high r (2 ^ r - 1) b (omega (arith, one-le-pow r 2)) (omega arith),
      )
    ]

length-new : (total : ℕ) → length (new total).words ≡ word_count total
unfolding new
length-new total = ground (
  arith,
  length-replicate {A = ℕ} (word_count total) 0,
  length-set (replicate (word_count total) 0) (word_count total - 1)
      (word_max - (2 ^ (total % 64) - 1)),
)

digit-blank : (n c : ℕ) → word_of c < n → digit (replicate n 0) c ≡ 0
unfolding digit
digit-blank n c h = rw (get_or-replicate {A = ℕ} n (word_of c) 0 0 h) (bit_at-zero (bit_of c))

-- In a new bitmap the chunks of the disk are free and the padding is used.
pub digit-new :
    (total c : ℕ)
    → c < 64 * word_count total
    → digit (new total).words c ≡ (if ltb c total then 0 else 1)
unfolding new
digit-new total c h = elim (Bool-cases (total % 64 == 0)) [
  | inl exact ↦
      rw exact
        (ground (arith, digit-blank (word_count total) c (omega arith), (==_iff _ _).0 exact))
  | inr ragged ↦ rw ragged (
      ground (
        arith,
        length-replicate {A = ℕ} (word_count total) 0,
        digit-blank (word_count total) c (omega arith),
        digit-set (replicate (word_count total) 0) (word_count total - 1)
            (word_max - (2 ^ (total % 64) - 1)) c
            (ground (arith, length-replicate {A = ℕ} (word_count total) 0)),
        last_word (total % 64) (bit_of c) (omega arith) (omega arith),
      ))
]

new-words_fit : (total w : ℕ) → w < length (new total).words → get_or (new total).words w 0 < 2 ^ 64
unfolding new
new-words_fit total w h =
    let blank : List ℕ = replicate (word_count total) 0 in
    let last = word_max - (2 ^ (total % 64) - 1) in
    elim (ℕ_discrete (word_count total - 1) w) [
      | yes e ↦ ground (
        arith,
        e,
        length-new total,
        length-replicate {A = ℕ} (word_count total) 0,
        get_or-replicate {A = ℕ} (word_count total) w 0 0 (omega (arith, length-new total, h)),
        get_or-set_self blank w last 0,
      )
      | no ne ↦ ground (
        arith,
        get_or-set_ne blank (word_count total - 1) w last 0 ne,
        get_or-replicate {A = ℕ} (word_count total) w 0 0 (omega (arith, length-new total, h)),
      )
    ]

new-counted : (total : ℕ) → 0 ≡ sum_below total (digit (new total).words)
new-counted total = sym (
    sum_below_none total (digit (new total).words)
      (λ c lt. ground (arith, digit-new total c (omega arith))))

-- A bitmap that is made for fewer than 2 ^ 32 chunks is valid.
pub new-IsValid : (total : ℕ) → total < 2 ^ 32 → IsValid (new total)
unfolding new
new-IsValid total fits = record {
  sized = length-new total;
  fits = fits;
  words_fit = new-words_fit total;
  padded = λ c ge lt.
      ground (arith, length-new total, digit-new total c (omega (arith, length-new total)));
  counted = new-counted total;
}

-- A chunk of the disk has its word.
pub in_bounds : (a : ChunkAllocator) (c : ℕ) → IsValid a → c < a.total → c < 64 * length a.words
in_bounds a c v h = omega (arith, v.sized)

-- A zero digit is a chunk of the disk, since the padding is marked.
pub below_total :
    (a : ChunkAllocator) (c : ℕ)
    → IsValid a
    → c < 64 * length a.words
    → digit a.words c ≡ 0
    → c < a.total
below_total a c v h z = elim (dec_lt c a.total) [
  | yes lt ↦ lt
  | no ge ↦ absurd (omega (arith, v.padded c (omega arith) h))
]
