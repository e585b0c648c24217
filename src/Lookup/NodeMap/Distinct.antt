-- ===== src/Lookup/NodeMap/Distinct.antt =====
-- `HashMap<String, V>`: a key has one entry, also after an insertion or a removal.
use vramdisk.Lookup.Key.{Bytes}
use vramdisk.Lookup.NodeMap.{bytes_eq}
use vramdisk.Lookup.NodeMap
use vramdisk.Lookup.NodeMap.Laws.{get-insert, get-remove, bytes_eq_iff}
use vramdisk.Common.{◌≡◌, inl, inr, refl, ◌∙◌, arith, List, [], ◌∷◌, none, false, Bool-cases}

module _ {ℓ} {V : Type ℓ} where
  -- Every key stands once in the map.
  abbrev pub Distinct : List (Bytes × V) → Type ℓ
  Distinct [] = Unit
  Distinct ((k, v) ∷ m) = (NodeMap.get k m ≡ none) × Distinct m

  pub Distinct-insert :
      (k : Bytes) (v : V) (m : List (Bytes × V)) → Distinct m → Distinct (NodeMap.insert k v m)
  unfolding NodeMap.insert NodeMap.get
  Distinct-insert k v [] d = (refl, tt)
  Distinct-insert k v ((i, j) ∷ m) d = elim (Bool-cases (bytes_eq i k)) [
    | inl here ↦ rw here d
    | inr other ↦
        rw other (get-insert k i v m ∙ rw (flipped other) (d.0), Distinct-insert k v m d.1)
  ]
    where
      flipped : bytes_eq i k ≡ false → bytes_eq k i ≡ false
      flipped e = ground (arith, bytes_eq_iff i k, bytes_eq_iff k i, e)

  pub Distinct-remove :
      (k : Bytes) (m : List (Bytes × V)) → Distinct m → Distinct (NodeMap.remove k m)
  unfolding NodeMap.remove
  Distinct-remove k [] d = tt
  Distinct-remove k ((i, j) ∷ m) d = elim (Bool-cases (bytes_eq i k)) [
    | inl here ↦ rw here (Distinct-remove k m d.1)
    | inr other ↦ rw other (get-remove k i m ∙ ground (arith, d.0), Distinct-remove k m d.1)
  ]
