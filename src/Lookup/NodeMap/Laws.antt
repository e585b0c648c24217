-- ===== src/Lookup/NodeMap/Laws.antt =====
-- The laws of the map and of the set of names, in `if` form.
use mathlib.Core.Path.{ap₂}
use vramdisk.Lookup.Key.{Bytes}
use vramdisk.Lookup.NodeMap.{bytes_eq, get, insert, remove}
use vramdisk.Common.{
  ℕ, ◌≡◌, ◌↔◌, refl, arith, true, none, some, List, [], ◌∷◌, ◌==◌, if◌then◌else◌, ==_iff, &&_parts,
}

pub bytes_eq_refl : (a : Bytes) → bytes_eq a a ≡ true
unfolding bytes_eq
bytes_eq_refl [] = refl
bytes_eq_refl (c ∷ cs) = ground (arith, bytes_eq_refl cs)

pub eq_of_bytes_eq : (a b : Bytes) → bytes_eq a b ≡ true → a ≡ b
unfolding bytes_eq
eq_of_bytes_eq [] [] e = refl
eq_of_bytes_eq [] (d ∷ ds) e = cc
eq_of_bytes_eq (c ∷ cs) [] e = cc
eq_of_bytes_eq (c ∷ cs) (d ∷ ds) e =
    let (p, q) = &&_parts (c == d) (bytes_eq cs ds) e in
    ap₂ (λ (x : ℕ) (xs : Bytes). x ∷ xs) ((==_iff c d).0 p) (eq_of_bytes_eq cs ds q)

pub bytes_eq_iff : (a b : Bytes) → (bytes_eq a b ≡ true) ↔ (a ≡ b)
bytes_eq_iff a b = (eq_of_bytes_eq a b, λ e. rw e (bytes_eq_refl b))

module _ {ℓ} {V : Type ℓ} where
  pub get-insert :
      (k j : Bytes) (v : V) (m : List (Bytes × V))
      → get j (insert k v m) ≡ (if bytes_eq k j then some v else get j m)
  unfolding get insert
  get-insert k j v [] = refl
  get-insert k j v ((i, w) ∷ m) =
      ground (arith, get-insert k j v m, bytes_eq_iff i k, bytes_eq_iff i j, bytes_eq_iff k j)

  pub get-remove :
      (k j : Bytes) (m : List (Bytes × V))
      → get j (remove k m) ≡ (if bytes_eq k j then none else get j m)
  unfolding get remove
  get-remove k j [] = ground arith
  get-remove k j ((i, w) ∷ m) =
      ground (arith, get-remove k j m, bytes_eq_iff i k, bytes_eq_iff i j, bytes_eq_iff k j)
