-- ===== src/Arena/Cover.antt =====
-- `swap_remove` and `push` as changes of a sum over the list, and the search for a slot.
use vramdisk.Arena.{last_to_front, swap_remove, push_last, first_fit}
use vramdisk.Common.{
  ℕ, zero, suc, ◌+◌, ◌≤◌, ◌<◌, ◌≡◌, refl, arith, Option, some, none, List, [], ◌∷◌, leb, ltb, ◌&&◌,
  if◌then◌else◌, length, get_or, weigh, Bool-cases, inl, inr,
}

module _ {ℓ} {A : Type ℓ} where
  weigh-last_to_front : (f : A → ℕ) (xs : List A) → weigh f (last_to_front xs) ≡ weigh f xs
  unfolding last_to_front
  weigh-last_to_front f [] = refl
  weigh-last_to_front f (x ∷ []) = refl
  weigh-last_to_front f (x ∷ y ∷ xs) = ground (arith, weigh-last_to_front f (y ∷ xs))

  pub weigh-swap_remove :
      (f : A → ℕ) (xs : List A) (i : ℕ) (d : A)
      → i < length xs
      → weigh f (swap_remove xs i) + f (get_or xs i d) ≡ weigh f xs
  unfolding swap_remove
  weigh-swap_remove f [] i d h = elim h [ ]
  weigh-swap_remove f (x ∷ xs) zero d h = omega (arith, weigh-last_to_front f xs)
  weigh-swap_remove f (x ∷ xs) (suc i) d h = omega (arith, weigh-swap_remove f xs i d (omega arith))

  pub weigh-push_last :
      (f : A → ℕ) (xs : List A) (x : A) → weigh f (push_last xs x) ≡ weigh f xs + f x
  unfolding push_last
  weigh-push_last f [] x = omega arith
  weigh-push_last f (y ∷ ys) x = omega (arith, weigh-push_last f ys x)

-- 1 where the byte `x` lies in the slot.
abbrev pub covers : ℕ → ℕ × ℕ → ℕ
covers x (off, len) = if leb off x && ltb x (off + len) then 1 else 0

abbrev pub slot_len_of : ℕ × ℕ → ℕ
slot_len_of (off, len) = len

abbrev pub no_slot : ℕ × ℕ
no_slot = (0, 0)

-- The slot that is found stands at its index and is long enough.
pub first_fit-some :
    (len i : ℕ) (slots : List (ℕ × ℕ)) (k off slot_len : ℕ)
    → first_fit len i slots ≡ some (k, off, slot_len)
    → (j : ℕ) × (k ≡ i + j)
      × (j < length slots)
      × (get_or slots j no_slot ≡ (off, slot_len))
      × (len ≤ slot_len)
unfolding first_fit
first_fit-some len i [] k off slot_len e = cc
first_fit-some len i ((o, l) ∷ slots) k off slot_len e = elim (Bool-cases (leb len l)) [
  | inl fits ↦
      let e' : ◌≡◌ {A = Option (ℕ × ℕ × ℕ)} (some (i, o, l)) (some (k, off, slot_len)) =
        rw fits at e in
      (0, ground arith, omega arith, ground arith, ground arith)
  | inr short ↦
      let (j, q, lt, at_j, fit) = first_fit-some len (i + 1) slots k off slot_len (rw short at e) in
      (suc j, omega arith, omega arith, at_j, fit)
]

-- When no slot is found, every slot is too short.
pub first_fit-none :
    (len i : ℕ) (slots : List (ℕ × ℕ))
    → first_fit len i slots ≡ none
    → (j : ℕ) → j < length slots
    → slot_len_of (get_or slots j no_slot) < len
unfolding first_fit
first_fit-none len i [] e j lt = elim lt [ ]
first_fit-none len i ((o, l) ∷ slots) e zero lt = ground arith
first_fit-none len i ((o, l) ∷ slots) e (suc j) lt = elim (Bool-cases (leb len l)) [
  | inl fits ↦ cc (rw fits at e)
  | inr short ↦ first_fit-none len (i + 1) slots (rw short at e) j (omega arith)
]
