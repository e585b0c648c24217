-- ===== src/Chunk/Single.antt =====
-- `alloc_one` and `free_one`: which chunk, what becomes of the bitmap, and when there is none.
use native.Mathlib.Nat.{add-mod-mod, mod-add-mod, add-mod_right, mod-eq_of_lt}
use vramdisk.Bits.{bit_at}
use vramdisk.Bits.Words.{
  word_max, set_bit, trailing_ones, trailing_ones_lem, set_bit-lt, bit_at-word_max,
}
use vramdisk.Chunk.View.{digit, digit_in_word, digit-mark_one}
use vramdisk.Chunk.Invariant.{IsValid, below_total}
use vramdisk.Chunk.Takes.{Takes, Takes-IsValid, words_fit-set}
use vramdisk.Chunk.{ChunkAllocator, word_of, bit_of, mark_one, find_word, alloc_one, free}
use vramdisk.Common.{
  ℕ, zero, suc, ◌+◌, ◌-◌, ◌*◌, ◌%◌, ◌≤◌, ◌<◌, ◌≡◌, ◌≢◌, ◌⊎◌, inl, inr, refl, ap, ◌∙◌, [], ◌∷◌,
  arith, List, some, none, ◌==◌, length, get_or, set, length-set, ℕ_discrete, Bool-cases,
  Option-cases, ==_iff, sum_below_all,
}

find_word-some :
    (rounds i : ℕ) (words : List ℕ) (cursor w : ℕ)
    → 0 < length words
    → find_word rounds i words cursor ≡ some w
    → (w < length words) × (get_or words w 0 ≢ word_max)
unfolding find_word
find_word-some zero i words cursor w pos e = cc
find_word-some (suc rounds) i words cursor w pos e =
    elim (Bool-cases (get_or words ((cursor + i) % length words) 0 == word_max)) [
      | inl full ↦ find_word-some rounds (i + 1) words cursor w pos (rw full at e)
      | inr room ↦
          let here : (cursor + i) % length words ≡ w = cc (rw room at e) in
          rw (← here) (omega arith, λ q. ground arith)
    ]

find_word-none :
    (rounds i : ℕ) (words : List ℕ) (cursor : ℕ)
    → find_word rounds i words cursor ≡ none
    → (j : ℕ) → i ≤ j
    → j < i + rounds
    → get_or words ((cursor + j) % length words) 0 ≡ word_max
unfolding find_word
find_word-none zero i words cursor e j lo hi = absurd (omega arith)
find_word-none (suc rounds) i words cursor e j lo hi =
    elim (Bool-cases (get_or words ((cursor + i) % length words) 0 == word_max)) [
      | inl full ↦ elim (ℕ_discrete i j) [
        | yes q ↦ rw (← q) ((==_iff _ _).0 full)
        | no ne ↦
            find_word-none rounds (i + 1) words cursor (rw full at e) j (omega arith) (omega arith)
      ]
      | inr room ↦ cc (rw room at e)
    ]

-- From any cursor, n steps round a list of n words visit every word.
round_trip_steps : ℕ → ℕ → ℕ → ℕ
round_trip_steps n cursor w = (w + (n - cursor % n)) % n

steps-reach : (n cursor w : ℕ) → w < n → (cursor + round_trip_steps n cursor w) % n ≡ w
unfolding round_trip_steps
steps-reach n cursor w h = omega (
  arith,
  add-mod-mod cursor (w + (n - cursor % n)) n,
  mod-add-mod cursor n (w + (n - cursor % n)),
  ap (λ (t : ℕ). t % n) regroup,
  add-mod_right w n,
  mod-eq_of_lt h,
)
  where
    regroup : cursor % n + (w + (n - cursor % n)) ≡ w + n
    regroup = omega arith

find_word-none_full :
    (words : List ℕ) (cursor w : ℕ)
    → find_word (length words) 0 words cursor ≡ none
    → w < length words
    → get_or words w 0 ≡ word_max
find_word-none_full words cursor w e h =
    let reached = steps-reach (length words) cursor w h in
    let there : get_or words ((cursor + round_trip_steps (length words) cursor w) % length words) 0
        ≡ word_max =
      find_word-none (length words) 0 words cursor e (round_trip_steps (length words) cursor w)
        (omega arith) (unfold round_trip_steps in omega arith) in
    rw reached at there

nonempty :
    (words : List ℕ) (cursor w : ℕ)
    → find_word (length words) 0 words cursor ≡ some w
    → 0 < length words
unfolding find_word
nonempty [] cursor w e = cc
nonempty (x ∷ words) cursor w e = omega arith

-- The chunk that the word `w` gives.
abbrev pub chunk_in : ChunkAllocator → ℕ → ℕ
chunk_in a w = w * 64 + trailing_ones 64 (get_or a.words w 0)

abbrev pub after_one : ChunkAllocator → ℕ → ChunkAllocator
after_one a w = record a {
  words = set a.words w (set_bit (get_or a.words w 0) (trailing_ones 64 (get_or a.words w 0)));
  used = a.used + 1;
  cursor = w;
}

pub alloc_one_cases :
    (a : ChunkAllocator)
    → ((alloc_one a ≡ (a, none)) × ((w : ℕ) → w < length a.words → get_or a.words w 0 ≡ word_max))
      ⊎ ((w : ℕ) × (w < length a.words)
          × (get_or a.words w 0 ≢ word_max)
          × (alloc_one a ≡ (after_one a w, some (chunk_in a w))))
unfolding alloc_one
alloc_one_cases a = elim (Option-cases (find_word (length a.words) 0 a.words a.cursor)) [
  | inl e ↦ inl (rw (e, alloc_one) refl, λ w h. find_word-none_full a.words a.cursor w e h)
  | inr (w, e) ↦
      let (lt, room) = find_word-some (length a.words) 0 a.words a.cursor w (some_rounds e) e in
      inr (w, lt, room, rw (e, alloc_one) refl)
]
  where
    some_rounds :
        {w : ℕ} → find_word (length a.words) 0 a.words a.cursor ≡ some w → 0 < length a.words
    some_rounds {w} e = nonempty a.words a.cursor w e

module _ (a : ChunkAllocator) (v : IsValid a) (w : ℕ) (lt : w < length a.words)
    (room : get_or a.words w 0 ≢ word_max) where
  found_at :
      (word_of (chunk_in a w) ≡ w)
      × (bit_of (chunk_in a w) ≡ trailing_ones 64 (get_or a.words w 0))
      × (digit a.words (chunk_in a w) ≡ 0)
  found_at =
      let (small, zero_digit) = trailing_ones_lem 64 (get_or a.words w 0) (v.words_fit w lt) room in
      let place : word_of (chunk_in a w) ≡ w = omega arith in
      let offset : bit_of (chunk_in a w) ≡ trailing_ones 64 (get_or a.words w 0) = omega arith in
      (
        place,
        offset,
        digit_in_word a.words w (chunk_in a w) place
            ∙ ap (bit_at (get_or a.words w 0)) offset
            ∙ zero_digit,
      )

  words_marked : (after_one a w).words ≡ mark_one a.words (chunk_in a w)
  unfolding mark_one
  words_marked = rw (found_at.0, found_at.1) refl

  after_one-Takes : Takes a (chunk_in a w) 1 (after_one a w)
  after_one-Takes =
      let bounded : chunk_in a w < 64 * length a.words = omega (arith, found_at.0) in
      let below = below_total a (chunk_in a w) v bounded found_at.2 in
      record {
        within = omega arith;
        was_free = λ c lo hi. ground (arith, found_at.2, same c lo hi);
        digits =
            λ c. rw words_marked (ground (arith, digit-mark_one a.words (chunk_in a w) c bounded));
        counts = refl;
        totals = refl;
      }
    where
      same :
          (c : ℕ)
          → chunk_in a w ≤ c
          → c < chunk_in a w + 1
          → digit a.words c ≡ digit a.words (chunk_in a w)
      same c lo hi = ap (digit a.words) (omega arith)

module _ (a : ChunkAllocator) (v : IsValid a) where
  after_one-IsValid :
      (w : ℕ) → w < length a.words → get_or a.words w 0 ≢ word_max → IsValid (after_one a w)
  after_one-IsValid w lt room =
      let t = trailing_ones_lem 64 (get_or a.words w 0) (v.words_fit w lt) room in
      Takes-IsValid a (after_one a w) (chunk_in a w) 1 v (after_one-Takes a v w lt room)
        (length-set a.words w _)
        (λ i.
          words_fit-set a.words w _ i (set_bit-lt (get_or a.words w 0) _ (v.words_fit w lt) t.0)
            (v.words_fit i))

  -- On a valid bitmap `alloc_one` fails only when no chunk is free, and then changes nothing;
  -- else it takes one free chunk of the disk, and the bitmap stays valid.
  pub alloc_one_lem :
      ((alloc_one a ≡ (a, none)) × (free a ≡ 0))
      ⊎ ((b : ChunkAllocator) × (c : ℕ) × (alloc_one a ≡ (b, some c)) × Takes a c 1 b × IsValid b)
  unfolding free
  alloc_one_lem = elim (alloc_one_cases a) [
    | inl (e, full) ↦ inl (e, omega (arith, all_used full))
    | inr (w, lt, room, e) ↦
        inr (
          after_one a w,
          chunk_in a w,
          e,
          after_one-Takes a v w lt room,
          after_one-IsValid w lt room,
        )
  ]
    where
      all_used : ((w : ℕ) → w < length a.words → get_or a.words w 0 ≡ word_max) → a.used ≡ a.total
      all_used full =
          v.counted
          ∙ sum_below_all a.total (digit a.words) (λ c lt.
            let here : word_of c < length a.words = omega (arith, v.sized) in
            digit_in_word a.words (word_of c) c refl
            ∙ ap (λ (x : ℕ). bit_at x (bit_of c)) (full (word_of c) here)
            ∙ bit_at-word_max (bit_of c) (omega arith))
