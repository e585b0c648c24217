-- ===== src/Chunk/View.antt =====
-- The bitmap read as one digit for each chunk: what marking and clearing do to it.
use vramdisk.Bits.{bit_at, bit_at-le-one}
use vramdisk.Bits.Words.{set_bit, clear_bit, bit_at-set_bit, bit_at-clear_bit}
use vramdisk.Chunk.{word_of, bit_of, mark_one}
use vramdisk.Common.{
  ℕ, zero, suc, ◌*◌, ◌≤◌, ◌<◌, ◌≡◌, refl, ap, arith, List, some, ◌==◌, if◌then◌else◌, length,
  get_or, get_elem?, set, length-set, get_or-set_self, get_or-set_ne, ℕ_discrete, [], ◌∷◌,
}

-- The digit of a chunk; 0 where there is no such word.
unfoldable pub digit : List ℕ → ℕ → ℕ
digit words c = bit_at (get_or words (word_of c) 0) (bit_of c)

pub digit-le-one : (words : List ℕ) (c : ℕ) → digit words c ≤ 1
unfolding digit
digit-le-one words c = bit_at-le-one (get_or words (word_of c) 0) (bit_of c)

-- A word that is replaced changes the digits of its own chunks alone.
pub digit-set :
    (words : List ℕ) (w v c : ℕ)
    → w < length words
    → digit (set words w v) c ≡ (if word_of c == w then bit_at v (bit_of c) else digit words c)
unfolding digit
digit-set words w v c h = elim (ℕ_discrete w (word_of c)) [
  | yes e ↦ ground (arith, e, get_or-set_self words (word_of c) v 0 (ground (arith, e)))
  | no ne ↦ ground (arith, get_or-set_ne words w (word_of c) v 0 ne)
]

same_chunk : (c d : ℕ) → word_of c ≡ word_of d → bit_of c ≡ bit_of d → c ≡ d
same_chunk c d p q = omega arith

pub digit_in_word :
    (words : List ℕ) (w c : ℕ)
    → word_of c ≡ w
    → digit words c ≡ bit_at (get_or words w 0) (bit_of c)
unfolding digit
digit_in_word words w c e = ap (λ (i : ℕ). bit_at (get_or words i 0) (bit_of c)) e

pub digit-mark_one :
    (words : List ℕ) (c d : ℕ)
    → c < 64 * length words
    → digit (mark_one words c) d ≡ (if c == d then 1 else digit words d)
unfolding mark_one
digit-mark_one words c d h =
    let old = get_or words (word_of c) 0 in
    ground (
      arith,
      digit-set words (word_of c) (set_bit old (bit_of c)) d (omega arith),
      bit_at-set_bit old (bit_of c) (bit_of d),
      same_chunk c d,
      digit_in_word words (word_of c) d,
    )

pub digit-clear_one :
    (words : List ℕ) (c d : ℕ)
    → c < 64 * length words
    → digit (set words (word_of c) (clear_bit (get_or words (word_of c) 0) (bit_of c))) d
      ≡ (if c == d then 0 else digit words d)
digit-clear_one words c d h =
    let old = get_or words (word_of c) 0 in
    ground (
      arith,
      digit-set words (word_of c) (clear_bit old (bit_of c)) d (omega arith),
      bit_at-clear_bit old (bit_of c) (bit_of d) (omega arith) (omega arith),
      same_chunk c d,
      digit_in_word words (word_of c) d,
    )

pub length-mark_one : (words : List ℕ) (c : ℕ) → length (mark_one words c) ≡ length words
unfolding mark_one
length-mark_one words c = length-set words _ _

pub get_elem?-in_range :
    (words : List ℕ) (w : ℕ) → w < length words → get_elem? words w ≡ some (get_or words w 0)
get_elem?-in_range [] w h = elim h [ ]
get_elem?-in_range (x ∷ words) zero h = refl
get_elem?-in_range (x ∷ words) (suc w) h = get_elem?-in_range words w (omega arith)
