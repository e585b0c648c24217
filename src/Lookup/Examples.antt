-- ===== src/Lookup/Examples.antt =====
-- Paths and a table with one directory, and the theorems applied to them.
use vramdisk.Lookup.NodeMap
use vramdisk.Lookup.Key.{Bytes, split_parent, normalize, normalize_key, is_normalized}
use vramdisk.Lookup.Key.Canonical.{
  normalize-is_normalized, is_normalized_iff, normalize_key-diverges,
}
use vramdisk.Lookup.Table.{LookupTable, LookupError, Node, ok, err, new, get, create, remove}
use vramdisk.Lookup.Table.Frame.{Creates, create_lem, get-create, get-create-high}
use vramdisk.Lookup.Rename.{rename}
use vramdisk.Lookup.Rename.Refusals.{IsFree, rename_kept}
use vramdisk.Lookup.Table.Rooted.{Removes, remove_lem}
use vramdisk.Common.{◌≡◌, ◌≢◌, ◌⊎◌, ◌↔◌, refl, arith, some, none, true, false, [], ◌∷◌}

-- `\Ab`, `\ab` and `\é`.
abbrev mixed_case : Bytes
mixed_case = b'\\' ∷ b'A' ∷ b'b' ∷ []

abbrev lower_case : Bytes
lower_case = b'\\' ∷ b'a' ∷ b'b' ∷ []

abbrev e_acute : Bytes
e_acute = b'\\' ∷ 195 ∷ 169 ∷ []

normalize-is_normalized_example :
    (is_normalized (normalize mixed_case) ≡ true)
    × (normalize (normalize mixed_case) ≡ normalize mixed_case)
normalize-is_normalized_example =
    normalize-is_normalized mixed_case (omega arith, (omega arith, (omega arith, tt)))

is_normalized_iff_example : (is_normalized lower_case ≡ true) ↔ (normalize lower_case ≡ lower_case)
is_normalized_iff_example =
    is_normalized_iff lower_case (omega arith, (omega arith, (omega arith, tt)))

e_acute_accepted : is_normalized e_acute ≡ true
unfolding is_normalized
e_acute_accepted = refl

normalize_key-diverges_example : normalize_key e_acute ≢ normalize e_acute
normalize_key-diverges_example = normalize_key-diverges e_acute e_acute_accepted (omega arith)

abbrev after_create : Bytes → LookupTable
after_create path = (create 5 (new 5) path true 16).0

abbrev created : Bytes → Node
created path = elim ((create 5 (new 5) path true 16).1) [
  | ok node ↦ node
  | err e ↦ (record {
    name = [];
    is_dir = false;
    attributes = 0;
    size = 0;
    created = 0;
    accessed = 0;
    modified = 0;
    changed = 0;
    index_number = 0;
    children = [];
    security_descriptor = [];
    coords = [];
  })
]

create_lem_example :
    ((e : LookupError) × (create 5 (new 5) mixed_case true 16 ≡ (new 5, err e)))
    ⊎ ((t' : LookupTable) × (node : Node) × (create 5 (new 5) mixed_case true 16 ≡ (t', ok node))
        × Creates 5 (new 5) mixed_case true 16 t' node)
create_lem_example = create_lem 5 (new 5) mixed_case true 16

get-create_example : get (after_create mixed_case) mixed_case ≡ some (created mixed_case)
unfolding create new normalize NodeMap.get NodeMap.bytes_eq split_parent
get-create_example =
    get-create 5 (new 5) (after_create mixed_case) mixed_case true 16 (created mixed_case)
      (omega arith, (omega arith, (omega arith, tt))) refl

get-create-high_example : get (after_create e_acute) e_acute ≡ none
unfolding create new get NodeMap.get NodeMap.bytes_eq normalize_key split_parent
get-create-high_example =
    get-create-high 5 (new 5) (after_create e_acute) e_acute true 16 (created e_acute)
      e_acute_accepted (omega arith) refl refl

remove_lem_example :
    ((e : LookupError) × (remove (after_create mixed_case) lower_case
        ≡ (after_create mixed_case, err e)))
    ⊎ ((t' : LookupTable) × (node : Node) × (remove (after_create mixed_case) lower_case
          ≡ (t', ok node))
        × Removes (after_create mixed_case) (normalize lower_case) t' node)
remove_lem_example = remove_lem (after_create mixed_case) lower_case

rename_kept_example :
    ((e : LookupError) × (rename (after_create mixed_case) lower_case e_acute false
        ≡ (after_create mixed_case, err e)))
    ⊎ ((t' : LookupTable) × (rename (after_create mixed_case) lower_case e_acute false
          ≡ (t', ok none))
        × IsFree (after_create mixed_case) lower_case e_acute)
rename_kept_example = rename_kept (after_create mixed_case) lower_case e_acute
