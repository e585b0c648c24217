-- ===== src/Lookup/NodeMap.antt =====
-- `HashMap<String, Node>` and `BTreeSet<String>`, as far as the namespace uses them: an association
-- list in some order, and a list in byte order without repetition.
pub mod Laws
pub mod Distinct
use Prim.Native.Nat.{compare, Ordering}
use vramdisk.Lookup.Key.{Bytes}
use vramdisk.Common.{
  ℕ, Bool, true, false, ◌&&◌, Option, none, some, List, [], ◌∷◌, ◌==◌, if◌then◌else◌,
}

unfoldable pub bytes_eq : Bytes → Bytes → Bool
bytes_eq [] [] = true
bytes_eq [] (d ∷ ds) = false
bytes_eq (c ∷ cs) [] = false
bytes_eq (c ∷ cs) (d ∷ ds) = c == d && bytes_eq cs ds

-- The order of `str`, byte by byte.
unfoldable pub bytes_compare : Bytes → Bytes → Ordering
bytes_compare [] [] = Ordering.eq
bytes_compare [] (d ∷ ds) = Ordering.lt
bytes_compare (c ∷ cs) [] = Ordering.gt
bytes_compare (c ∷ cs) (d ∷ ds) =
    let rest = bytes_compare cs ds in
    elim (compare c d) [
      | Ordering.eq ↦ rest
      | Ordering.lt ↦ Ordering.lt
      | Ordering.gt ↦ Ordering.gt
    ]

unfoldable pub set_insert : Bytes → List Bytes → List Bytes
set_insert x [] = x ∷ []
set_insert x (y ∷ ys) =
    let later = y ∷ set_insert x ys in
    elim (bytes_compare x y) [
      | Ordering.lt ↦ x ∷ y ∷ ys
      | Ordering.eq ↦ y ∷ ys
      | Ordering.gt ↦ later
    ]

unfoldable pub set_remove : Bytes → List Bytes → List Bytes
set_remove x [] = []
set_remove x (y ∷ ys) = let rest = set_remove x ys in if bytes_eq x y then rest else y ∷ rest

unfoldable pub set_contains : Bytes → List Bytes → Bool
set_contains x [] = false
set_contains x (y ∷ ys) = let later = set_contains x ys in if bytes_eq x y then true else later

module _ {ℓ} {V : Type ℓ} where
  unfoldable pub get : Bytes → List (Bytes × V) → Option V
  get k [] = none
  get k ((j, v) ∷ m) = if bytes_eq j k then some v else get k m

  unfoldable pub insert : Bytes → V → List (Bytes × V) → List (Bytes × V)
  insert k v [] = (k, v) ∷ []
  insert k v ((j, w) ∷ m) = if bytes_eq j k then (j, v) ∷ m else (j, w) ∷ insert k v m

  unfoldable pub remove : Bytes → List (Bytes × V) → List (Bytes × V)
  remove k [] = []
  remove k ((j, w) ∷ m) = let rest = remove k m in if bytes_eq j k then rest else (j, w) ∷ rest

  abbrev pub is_some : Option V → Bool
  is_some none = false
  is_some (some v) = true
