-- ===== src/Bits/Words.antt =====
-- 64-bit words: testing, setting and clearing one bit, as the shifts and masks of `u64` do it.

use native.Mathlib.Nat.{pow-suc, one-le-pow}
use vramdisk.Bits.{
  bit_and-lt, bit_or-lt, bit_at-zero, bit_and-zero, bit_at, bit_at-le-one, bit_at-bit_and,
  bit_at-bit_or, bit_at-pow, bit_at-complement,
}
use vramdisk.Bits.Step.{bit_and_step}
use vramdisk.Common.{
  ◌*◌, ap, ◌≢◌, Bool-cases, inl, inr, ==_iff, ℕ, zero, suc, ◌-◌, ◌/◌, ◌%◌, ◌^◌, ◌<◌, bit_and,
  bit_or, ◌≡◌, arith, ◌==◌, if◌then◌else◌, Bool, not,
}

-- `u64::MAX`
abbrev pub word_max : ℕ
word_max = 2 ^ 64 - 1

-- `word & (1u64 << b) != 0`
unfoldable pub test_bit : ℕ → ℕ → Bool
test_bit word b = not (bit_and word (2 ^ b) == 0)

-- `word | (1u64 << b)`
unfoldable pub set_bit : ℕ → ℕ → ℕ
set_bit word b = bit_or word (2 ^ b)

-- `word & !(1u64 << b)`
unfoldable pub clear_bit : ℕ → ℕ → ℕ
clear_bit word b = bit_and word (word_max - 2 ^ b)

-- `word.trailing_ones()`, over the digits that are left.
unfoldable pub trailing_ones : ℕ → ℕ → ℕ
trailing_ones zero word = 0
trailing_ones (suc n) word =
    let rest = trailing_ones n (word / 2) in if word % 2 == 0 then 0 else suc rest

pow-lt : (b n : ℕ) → b < n → 2 ^ b < 2 ^ n
pow-lt b zero h = elim h [ ]
pow-lt zero (suc n) h = omega (arith, pow-suc 2 n, one-le-pow n 2)
pow-lt (suc b) (suc n) h = omega (arith, pow-suc 2 n, pow-suc 2 b, pow-lt b n (omega arith))

pub bit_at-set_bit : (w b c : ℕ) → bit_at (set_bit w b) c ≡ (if b == c then 1 else bit_at w c)
unfolding set_bit
bit_at-set_bit w b c = ground (arith, bit_at-bit_or w (2 ^ b) c, bit_at-pow b c, bit_at-le-one w c)

pub bit_at-clear_bit :
    (w b c : ℕ) → b < 64 → c < 64 → bit_at (clear_bit w b) c ≡ (if b == c then 0 else bit_at w c)
unfolding clear_bit
bit_at-clear_bit w b c hb hc = ground (
  arith,
  bit_at-bit_and w (word_max - 2 ^ b) c,
  bit_at-complement 64 (2 ^ b) c (pow-lt b 64 hb) hc,
  bit_at-pow b c,
  bit_at-le-one w c,
)

pub set_bit-lt : (w b : ℕ) → w < 2 ^ 64 → b < 64 → set_bit w b < 2 ^ 64
unfolding set_bit
set_bit-lt w b hw hb = bit_or-lt 64 w (2 ^ b) hw (pow-lt b 64 hb)

pub clear_bit-lt : (w b : ℕ) → w < 2 ^ 64 → clear_bit w b < 2 ^ 64
unfolding clear_bit
clear_bit-lt w b hw = bit_and-lt 64 w (word_max - 2 ^ b) hw

bit_and-pow-zero : (b w : ℕ) → bit_and w (2 ^ b) ≡ bit_at w b * 2 ^ b
unfolding bit_at
bit_and-pow-zero zero w = omega (arith, bit_and_step w 1, bit_and-zero (w / 2))
bit_and-pow-zero (suc b) w =
    let half : 2 ^ suc b / 2 ≡ 2 ^ b = omega (arith, pow-suc 2 b) in
    let step : bit_and w (2 ^ suc b) ≡ bit_and (w / 2) (2 ^ suc b / 2) * 2 =
      omega (arith, pow-suc 2 b, bit_and_step w (2 ^ suc b)) in
    omega (
      arith,
      step,
      ap (bit_and (w / 2)) half,
      bit_and-pow-zero b (w / 2),
      ap (λ (t : ℕ). bit_at (w / 2) b * t) (pow-suc 2 b),
    )

-- The mask test reads the digit.
pub test_bit-bit_at : (w b : ℕ) → test_bit w b ≡ (bit_at w b == 1)
unfolding test_bit
test_bit-bit_at w b = ground (arith, bit_and-pow-zero b w, bit_at-le-one w b, one-le-pow b 2)

-- In a word that is not full the run of ones from the bottom ends at a zero digit of the word.
pub trailing_ones_lem :
    (n w : ℕ)
    → w < 2 ^ n
    → w ≢ 2 ^ n - 1
    → (trailing_ones n w < n) × (bit_at w (trailing_ones n w) ≡ 0)
unfolding trailing_ones bit_at
trailing_ones_lem zero w h ne = absurd (ne (omega arith))
trailing_ones_lem (suc n) w h ne = elim (Bool-cases (w % 2 == 0)) [
  | inl even ↦ rw even (omega arith, (==_iff _ _).0 even)
  | inr odd ↦ rw odd (
      let (lt, z) =
        trailing_ones_lem n (w / 2) (omega (arith, pow-suc 2 n))
          (λ e. ne (ground (arith, pow-suc 2 n, one-le-pow n 2))) in
      (omega arith, z))
]

pub bit_at-word_max : (c : ℕ) → c < 64 → bit_at word_max c ≡ 1
bit_at-word_max c h = omega (arith, bit_at-complement 64 0 c (omega arith) h, bit_at-zero c)
