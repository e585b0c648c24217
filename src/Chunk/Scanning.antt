-- ===== src/Chunk/Scanning.antt =====
-- The scan of `alloc_contiguous` over whole words is the search chunk by chunk.
use native.Mathlib.Nat.{add_assoc}
use vramdisk.Bits.{bit_at, bit_at-zero}
use vramdisk.Bits.Words.{word_max, test_bit-bit_at, bit_at-word_max}
use vramdisk.Chunk.View.{digit}
use vramdisk.Chunk.Runs.{
  first_run, resume, first_run-add, first_run-short, first_run-used, first_run-free,
}
use vramdisk.Chunk.{Scan, found, going, scan_bits, scan_words}
use vramdisk.Common.{
  ℕ, zero, suc, ◌+◌, ◌-◌, ◌*◌, ◌/◌, ◌%◌, ◌≤◌, ◌<◌, ◌≡◌, inl, inr, refl, sym, ap, ◌∙◌, arith, List,
  [], ◌∷◌, ◌==◌, leb, if◌then◌else◌, length, Bool-cases, ==_iff, true, false,
}

scan_bits-first_run :
    (count : ℕ) (used : ℕ → ℕ) (rounds bit word base p s l : ℕ)
    → p ≡ base + bit
    → ((j : ℕ) → bit ≤ j → j < bit + rounds → used (base + j) ≡ bit_at word j)
    → scan_bits count rounds bit word base s l ≡ first_run count used rounds p s l
unfolding scan_bits first_run
scan_bits-first_run count used zero bit word base p s l e same = refl
scan_bits-first_run count used (suc rounds) bit word base p s l e same =
    let here : used p ≡ bit_at word bit = ap used e ∙ same bit (omega arith) (omega arith) in
    let same' : (j : ℕ) → bit + 1 ≤ j → j < bit + 1 + rounds → used (base + j) ≡ bit_at word j =
      λ j lo hi. same j (omega arith) (omega arith) in
    ground (
      arith,
      here,
      e,
      test_bit-bit_at word bit,
      scan_bits-first_run count used rounds (bit + 1) word base (p + 1) s 0 (omega arith) same',
      scan_bits-first_run count used rounds (bit + 1) word base (p + 1) (if l == 0 then p else s)
          (l + 1) (omega arith) same',
    )

digit-cons_low : (x : ℕ) (words : List ℕ) (j : ℕ) → j < 64 → digit (x ∷ words) j ≡ bit_at x j
unfolding digit
digit-cons_low x words j h =
    let first : j / 64 ≡ 0 = omega arith in
    let same : j % 64 ≡ j = omega arith in rw (first, same) refl

digit-cons_high : (x : ℕ) (words : List ℕ) (j : ℕ) → digit (x ∷ words) (64 + j) ≡ digit words j
unfolding digit
digit-cons_high x words j =
    let next : (64 + j) / 64 ≡ suc (j / 64) = omega arith in
    let same : (64 + j) % 64 ≡ j % 64 = omega arith in rw (next, same) refl

-- What one word makes of the run so far.
scan_word : ℕ → ℕ → ℕ → ℕ → ℕ → Scan
scan_word count w x s l =
    if x == word_max
    then going s 0
    else if x == 0
    then (if leb count (l + 64)
        then found (if l == 0 then w * 64 else s)
        else going (if l == 0 then w * 64 else s) (l + 64))
    else scan_bits count 64 0 x (w * 64) s l

resume_words : ℕ → ℕ → List ℕ → Scan → Scan
resume_words count w words (found s) = found s
resume_words count w words (going s l) = scan_words count w words s l

scan_words-cons :
    (count w x : ℕ) (words : List ℕ) (s l : ℕ)
    → scan_words count w (x ∷ words) s l
      ≡ resume_words count (w + 1) words (scan_word count w x s l)
unfolding scan_words scan_word resume_words
scan_words-cons count w x words s l = ground arith

-- 64 chunks of the search are one word of the scan.
scan_word-first_run :
    (count w x : ℕ) (used : ℕ → ℕ) (s l p : ℕ)
    → l < count
    → p ≡ w * 64
    → ((j : ℕ) → j < 64 → used (p + j) ≡ bit_at x j)
    → scan_word count w x s l ≡ first_run count used 64 p s l
unfolding scan_word
scan_word-first_run count w x used s l p h e same = elim (Bool-cases (x == word_max)) [
  | inl full ↦
      if_full full
      ∙ sym (
          first_run-used count used 63 p s l (λ c lo hi.
            at_word c lo hi
            ∙ ap (λ (y : ℕ). bit_at y (c - p)) ((==_iff _ _).0 full)
            ∙ bit_at-word_max (c - p) (omega arith)))
  | inr room ↦ elim (Bool-cases (x == 0)) [
    | inl blank ↦
        if_blank room blank
        ∙ sym (
            first_run-free count used 63 p s l h (λ c lo hi.
              at_word c lo hi
              ∙ ap (λ (y : ℕ). bit_at y (c - p)) ((==_iff _ _).0 blank)
              ∙ bit_at-zero (c - p)))
    | inr mixed ↦
        if_mixed room mixed
        ∙ scan_bits-first_run count used 64 0 x (w * 64) p s l (omega arith)
            (λ j lo hi. rw (← e) (same j hi))
  ]
]
  where
    at_word : (c : ℕ) → p ≤ c → c < p + 64 → used c ≡ bit_at x (c - p)
    at_word c lo hi = ap used (omega arith) ∙ same (c - p) (omega arith)

    if_full : (x == word_max) ≡ true → scan_word count w x s l ≡ going s 0
    if_full full = rw full refl

    if_blank :
        (x == word_max) ≡ false
        → (x == 0) ≡ true
        → scan_word count w x s l ≡ (
            if leb count (l + 64)
            then found (if l == 0 then p else s)
            else going (if l == 0 then p else s) (l + 64))
    if_blank room blank = rw (room, blank, e) refl

    if_mixed :
        (x == word_max) ≡ false
        → (x == 0) ≡ false
        → scan_word count w x s l ≡ scan_bits count 64 0 x (w * 64) s l
    if_mixed room mixed = rw (room, mixed) refl

-- The scan over words is the search chunk by chunk, where `used` reads the words from `p` on.
pub scan_words-first_run :
    (count w : ℕ) (words : List ℕ) (used : ℕ → ℕ) (s l p : ℕ)
    → l < count
    → p ≡ w * 64
    → ((j : ℕ) → j < 64 * length words → used (p + j) ≡ digit words j)
    → scan_words count w words s l ≡ first_run count used (64 * length words) p s l
unfolding resume_words resume
scan_words-first_run count w [] used s l p h e same = unfold scan_words first_run in refl
scan_words-first_run count w (x ∷ words) used s l p h e same =
    scan_words-cons count w x words s l
    ∙ ap (resume_words count (w + 1) words) (scan_word-first_run count w x used s l p h e here)
    ∙ go
        (λ s' l' lt.
          scan_words-first_run count (w + 1) words used s' l' (p + 64) lt (omega arith) later)
        (first_run count used 64 p s l) (λ s' l' q. first_run-short count used 64 p s l s' l' h q)
    ∙ sym (
        first_run-add count used 64 (64 * length words) p s l (64 * length (x ∷ words)) (p + 64)
          (omega arith) refl)
  where
    here : (j : ℕ) → j < 64 → used (p + j) ≡ bit_at x j
    here j lt = same j (omega arith) ∙ digit-cons_low x words j lt

    later : (j : ℕ) → j < 64 * length words → used (p + 64 + j) ≡ digit words j
    later j lt =
        ap used (add_assoc p 64 j) ∙ same (64 + j) (omega arith) ∙ digit-cons_high x words j

    go :
        ((s' l' : ℕ)
          → l' < count
          → scan_words count (w + 1) words s' l'
            ≡ first_run count used (64 * length words) (p + 64) s' l')
        → (r : Scan) → ((s' l' : ℕ) → r ≡ going s' l' → l' < count)
        → resume_words count (w + 1) words r ≡ resume count used (64 * length words) (p + 64) r
    go ih (found r) short = refl
    go ih (going s' l') short = ih s' l' (short s' l' refl)
