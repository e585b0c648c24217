-- ===== src/Common/Sums.antt =====
-- Sums of a function over the numbers below a bound, and what a change at one place does to them.
use Prim.Native.Nat.{ℕ, zero, suc, ◌+◌, ◌≤◌, ◌<◌}
use mathlib.Core.Path.{◌≡◌, refl}
use mathlib.Core.Logic.{◌≢◌}
use native.Mathlib.Omega.{arith}
use native.Mathlib.Decide.{ℕ_discrete}

pub sum_below : ℕ → (ℕ → ℕ) → ℕ
sum_below zero f = 0
sum_below (suc n) f = f n + sum_below n f

pub sum_below-cong :
    (n : ℕ) (f g : ℕ → ℕ) → ((i : ℕ) → i < n → f i ≡ g i) → sum_below n f ≡ sum_below n g
unfolding sum_below
sum_below-cong zero f g h = refl
sum_below-cong (suc n) f g h =
    omega (arith, h n (omega arith), sum_below-cong n f g (λ i lt. h i (omega arith)))

-- Two functions that agree but at `k` have sums that differ as they do there.
pub sum_below-change :
    (n k : ℕ) (f g : ℕ → ℕ)
    → k < n
    → ((i : ℕ) → i ≢ k → f i ≡ g i)
    → sum_below n f + g k ≡ sum_below n g + f k
unfolding sum_below
sum_below-change zero k f g lt h = elim lt [ ]
sum_below-change (suc n) k f g lt h = elim (ℕ_discrete n k) [
  | yes e ↦ ground (arith, e, sum_below-cong n f g (λ i lt'. h i (λ q. absurd (omega arith))))
  | no ne ↦ omega (arith, h n ne, sum_below-change n k f g (omega arith) h)
]

pub sum_below-le-mul : (n : ℕ) (f : ℕ → ℕ) → ((i : ℕ) → i < n → f i ≤ 1) → sum_below n f ≤ n
unfolding sum_below
sum_below-le-mul zero f h = omega arith
sum_below-le-mul (suc n) f h =
    omega (arith, h n (omega arith), sum_below-le-mul n f (λ i lt. h i (omega arith)))

pub sum_below_all : (n : ℕ) (f : ℕ → ℕ) → ((i : ℕ) → i < n → f i ≡ 1) → sum_below n f ≡ n
unfolding sum_below
sum_below_all zero f h = refl
sum_below_all (suc n) f h =
    omega (arith, h n (omega arith), sum_below_all n f (λ i l. h i (omega arith)))

pub sum_below_none : (n : ℕ) (f : ℕ → ℕ) → ((i : ℕ) → i < n → f i ≡ 0) → sum_below n f ≡ 0
unfolding sum_below
sum_below_none zero f h = refl
sum_below_none (suc n) f h =
    omega (arith, h n (omega arith), sum_below_none n f (λ i l. h i (omega arith)))
