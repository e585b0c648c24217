-- ===== src/Common/Weights.antt =====
-- Sums over a list, which do not depend on the order of its entries.
use Prim.Native.Nat.{ℕ, zero, suc, ◌+◌, ◌<◌, ◌≤◌}
use mathlib.Core.Path.{◌≡◌, refl, ap}
use mathlib.Core.Logic.{◌≢◌}
use mathlib.Core.List.{List, [], ◌∷◌, ◌++◌}
use native.Mathlib.Omega.{arith}
use vramdisk.Common.Lists.{length, get_or, set}

module _ {ℓ} {A : Type ℓ} where
  abbrev pub weigh : (A → ℕ) → List A → ℕ
  weigh f [] = 0
  weigh f (x ∷ xs) = f x + weigh f xs

  pub weigh-append : (f : A → ℕ) (xs ys : List A) → weigh f (xs ++ ys) ≡ weigh f xs + weigh f ys
  weigh-append f [] ys = omega arith
  weigh-append f (x ∷ xs) ys = omega (arith, weigh-append f xs ys)

  pub weigh-set :
      (f : A → ℕ) (xs : List A) (i : ℕ) (v d : A)
      → i < length xs
      → weigh f (set xs i v) + f (get_or xs i d) ≡ weigh f xs + f v
  weigh-set f [] i v d h = elim h [ ]
  weigh-set f (x ∷ xs) zero v d h = omega arith
  weigh-set f (x ∷ xs) (suc i) v d h = omega (arith, weigh-set f xs i v d (omega arith))

  -- An entry weighs no more than the list.
  pub le-weigh :
      (f : A → ℕ) (xs : List A) (i : ℕ) (d : A) → i < length xs → f (get_or xs i d) ≤ weigh f xs
  le-weigh f [] i d h = elim h [ ]
  le-weigh f (x ∷ xs) zero d h = omega arith
  le-weigh f (x ∷ xs) (suc i) d h = omega (arith, le-weigh f xs i d (omega arith))

  -- Two entries weigh no more than the list.
  pub two_entries_le :
      (f : A → ℕ) (xs : List A) (i j : ℕ) (d : A)
      → i < length xs
      → j < length xs
      → i ≢ j
      → f (get_or xs i d) + f (get_or xs j d) ≤ weigh f xs
  two_entries_le f [] i j d hi hj ne = elim hi [ ]
  two_entries_le f (x ∷ xs) zero zero d hi hj ne = absurd (ne refl)
  two_entries_le f (x ∷ xs) zero (suc j) d hi hj ne = omega (arith, le-weigh f xs j d (omega arith))
  two_entries_le f (x ∷ xs) (suc i) zero d hi hj ne = omega (arith, le-weigh f xs i d (omega arith))
  two_entries_le f (x ∷ xs) (suc i) (suc j) d hi hj ne =
      omega (arith, two_entries_le f xs i j d (omega arith) (omega arith) (λ q. ne (ap suc q)))
