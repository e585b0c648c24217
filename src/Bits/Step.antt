-- ===== src/Bits/Step.antt =====
-- What a native bit operation makes of the lowest digit and of the digits above it.
use Prim.Native.Nat.{digits, bitwise, bit_and-bitwise, bit_or-bitwise}
use vramdisk.Common.{
  ℕ, zero, suc, ◌+◌, ◌*◌, ◌/◌, ◌%◌, ◌≤◌, min, max, bit_and, bit_or, ◌≡◌, refl, arith,
}

module _ (alone : ℕ → ℕ) (op : ℕ → ℕ → ℕ) where
  -- The digits do not depend on the rounds, once they cover the number.
  rounds_enough : (x n m y : ℕ) → x ≤ n → x ≤ m → digits alone op n x y ≡ digits alone op m x y
  rounds_enough zero zero zero y p q = refl
  rounds_enough zero zero (suc m) y p q = refl
  rounds_enough zero (suc n) zero y p q = refl
  rounds_enough zero (suc n) (suc m) y p q = refl
  rounds_enough (suc x) zero m y p q = elim p [ ]
  rounds_enough (suc x) (suc n) zero y p q = elim q [ ]
  rounds_enough (suc x) (suc n) (suc m) y p q =
      rw (rounds_enough (suc x / 2) n m (y / 2) (omega arith) (omega arith))

  lowest_digit :
      (x y : ℕ)
      → bitwise alone op (suc x) y
        ≡ op (suc x % 2) (y % 2) + 2 * bitwise alone op (suc x / 2) (y / 2)
  lowest_digit x y =
      omega (arith, rounds_enough (suc x / 2) x (suc x / 2) (y / 2) (omega arith) (omega arith))

pub bit_and_step : (x y : ℕ) → bit_and x y ≡ min (x % 2) (y % 2) + 2 * bit_and (x / 2) (y / 2)
bit_and_step zero y = simp bit_and-bitwise (omega arith)
bit_and_step (suc x) y = simp bit_and-bitwise (lowest_digit (λ d. 0) min x y)

pub bit_or_step : (x y : ℕ) → bit_or x y ≡ max (x % 2) (y % 2) + 2 * bit_or (x / 2) (y / 2)
bit_or_step zero y = simp bit_or-bitwise (omega arith)
bit_or_step (suc x) y = simp bit_or-bitwise (lowest_digit (λ d. d) max x y)
