-- ===== src/Bits.antt =====
-- The binary digits of a number, and what the native bit operations do to each of them.
pub mod Step
pub mod Words
use Prim.Native.Nat.{bit_and-bitwise}
use native.Mathlib.Nat.{pow-suc, one-le-pow}
use Step.{bit_and_step, bit_or_step}
use vramdisk.Common.{
  ℕ, zero, suc, ◌+◌, ◌-◌, ◌*◌, ◌/◌, ◌%◌, ◌^◌, ◌≤◌, ◌<◌, min, max, bit_and, bit_or, ◌≡◌, refl, ap,
  ◌≢◌, arith, ◌==◌, if◌then◌else◌,
}

-- Digit `b` of `w`, lowest first.
unfoldable pub bit_at : ℕ → ℕ → ℕ
bit_at w zero = w % 2
bit_at w (suc b) = bit_at (w / 2) b

pub bit_at-le-one : (w b : ℕ) → bit_at w b ≤ 1
unfolding bit_at
bit_at-le-one w zero = omega arith
bit_at-le-one w (suc b) = bit_at-le-one (w / 2) b

pub bit_at-bit_and : (a b c : ℕ) → bit_at (bit_and a b) c ≡ min (bit_at a c) (bit_at b c)
unfolding bit_at
bit_at-bit_and a b zero = omega (arith, bit_and_step a b)
bit_at-bit_and a b (suc c) =
    let e : bit_and a b / 2 ≡ bit_and (a / 2) (b / 2) = omega (arith, bit_and_step a b) in
    rw e (bit_at-bit_and (a / 2) (b / 2) c)

pub bit_at-bit_or : (a b c : ℕ) → bit_at (bit_or a b) c ≡ max (bit_at a c) (bit_at b c)
unfolding bit_at
bit_at-bit_or a b zero = omega (arith, bit_or_step a b)
bit_at-bit_or a b (suc c) =
    let e : bit_or a b / 2 ≡ bit_or (a / 2) (b / 2) = omega (arith, bit_or_step a b) in
    rw e (bit_at-bit_or (a / 2) (b / 2) c)

pub bit_at-zero : (c : ℕ) → bit_at 0 c ≡ 0
unfolding bit_at
bit_at-zero zero = refl
bit_at-zero (suc c) = bit_at-zero c

pub bit_at-pow : (b c : ℕ) → bit_at (2 ^ b) c ≡ (if b == c then 1 else 0)
unfolding bit_at
bit_at-pow zero zero = refl
bit_at-pow zero (suc c) = ground (arith, bit_at-zero c)
bit_at-pow (suc b) zero = ground (arith, pow-suc 2 b)
bit_at-pow (suc b) (suc c) =
    let e : 2 ^ suc b / 2 ≡ 2 ^ b = omega (arith, pow-suc 2 b) in
    rw e (ground (arith, bit_at-pow b c))

-- All the digits below `n` are one exactly in `2 ^ n - 1`.
pub bit_at-complement : (n m c : ℕ) → m < 2 ^ n → c < n → bit_at (2 ^ n - 1 - m) c ≡ 1 - bit_at m c
unfolding bit_at
bit_at-complement zero m c h lt = elim lt [ ]
bit_at-complement (suc n) m zero h lt = omega (arith, pow-suc 2 n)
bit_at-complement (suc n) m (suc c) h lt =
    let e : (2 ^ suc n - 1 - m) / 2 ≡ 2 ^ n - 1 - m / 2 = omega (arith, pow-suc 2 n) in
    rw e (bit_at-complement n (m / 2) c (omega (arith, pow-suc 2 n)) (omega arith))

pub eq-of-digits :
    (n a b : ℕ) → a < 2 ^ n → b < 2 ^ n → ((c : ℕ) → c < n → bit_at a c ≡ bit_at b c) → a ≡ b
unfolding bit_at
eq-of-digits zero a b ha hb h = omega arith
eq-of-digits (suc n) a b ha hb h =
    let low : a % 2 ≡ b % 2 = h 0 (omega arith) in
    let high : a / 2 ≡ b / 2 =
      eq-of-digits n (a / 2) (b / 2) (omega (arith, pow-suc 2 n)) (omega (arith, pow-suc 2 n))
        (λ c lt. h (suc c) (omega arith)) in
    omega arith

pub bit_and-lt : (n a b : ℕ) → a < 2 ^ n → bit_and a b < 2 ^ n
bit_and-lt zero zero b h = simp bit_and-bitwise (omega arith)
bit_and-lt zero (suc a) b h = absurd (omega arith)
bit_and-lt (suc n) a b h = omega (
  arith,
  pow-suc 2 n,
  bit_and_step a b,
  bit_and-lt n (a / 2) (b / 2) (omega (arith, pow-suc 2 n)),
)

pub bit_or-lt : (n a b : ℕ) → a < 2 ^ n → b < 2 ^ n → bit_or a b < 2 ^ n
bit_or-lt zero zero zero h k = omega arith
bit_or-lt zero zero (suc b) h k = absurd (omega arith)
bit_or-lt zero (suc a) b h k = absurd (omega arith)
bit_or-lt (suc n) a b h k = omega (
  arith,
  pow-suc 2 n,
  bit_or_step a b,
  bit_or-lt n (a / 2) (b / 2) (omega (arith, pow-suc 2 n)) (omega (arith, pow-suc 2 n)),
)

lt-pow : (a : ℕ) → a < 2 ^ a
lt-pow zero = omega arith
lt-pow (suc a) = omega (arith, pow-suc 2 a, lt-pow a)

pub bit_and-zero : (a : ℕ) → bit_and a 0 ≡ 0
bit_and-zero a =
    let small : bit_and a 0 < 2 ^ a = bit_and-lt a a 0 (lt-pow a) in
    eq-of-digits a (bit_and a 0) 0 small (omega (arith, one-le-pow a 2))
      (λ c lt. omega (arith, bit_at-bit_and a 0 c, bit_at-zero c))

-- A number below `2 ^ n` has no digit from `n` on.
pub bit_at_high : (n m c : ℕ) → m < 2 ^ n → n ≤ c → bit_at m c ≡ 0
unfolding bit_at
bit_at_high zero m c h le = rw m_zero (bit_at-zero c)
  where
    m_zero : m ≡ 0
    m_zero = omega arith
bit_at_high (suc n) m zero h le = elim le [ ]
bit_at_high (suc n) m (suc c) h le =
    bit_at_high n (m / 2) c (omega (arith, pow-suc 2 n)) (omega arith)

pub pow-le : (b n : ℕ) → b ≤ n → 2 ^ b ≤ 2 ^ n
pow-le zero n h = omega (arith, one-le-pow n 2)
pow-le (suc b) zero h = elim h [ ]
pow-le (suc b) (suc n) h = omega (arith, pow-suc 2 n, pow-suc 2 b, pow-le b n (omega arith))
