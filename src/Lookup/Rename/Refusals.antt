-- ===== src/Lookup/Rename/Refusals.antt =====
-- `rename` without permission to replace: a refusal changes nothing, and nothing is replaced.
use vramdisk.Lookup.Key.{Bytes, is_root, normalize, display_name, split_parent}
use vramdisk.Lookup.NodeMap.{bytes_eq}
use vramdisk.Lookup.NodeMap.Laws.{bytes_eq_iff}
use vramdisk.Lookup.Table.{
  Node, LookupTable, LookupError, LResult, ok, err, not_found, already_exists, not_a_directory,
  invalid_name, node_at,
}
use vramdisk.Lookup.Rename.{is_below, rename_case, relocate, rename_into, rename}
use vramdisk.Common.{
  ◌≡◌, ◌⊎◌, inl, inr, refl, false, ◌&&◌, Option, none, some, Bool-cases, Option-cases,
}

abbrev Refused : LookupTable → LookupTable × LResult (Option Node) → Type 0
Refused t r = ((e : LookupError) × (r ≡ (t, err e))) ⊎ ((t' : LookupTable) × (r ≡ (t', ok none)))

rename_into-Refused :
    (t : LookupTable) (from_key to_key new_name : Bytes) (node : Node)
    → Refused t (rename_into t from_key to_key new_name node none)
unfolding rename_into
rename_into-Refused t from_key to_key new_name node = elim (Option-cases (split_parent to_key)) [
  | inl no_parent ↦ inl (invalid_name, rw (no_parent, rename_into) refl)
  | inr ((to_parent, name), s) ↦ elim (Option-cases (node_at t to_parent)) [
    | inl missing ↦ inl (not_found, rw (s, rename_into) (rw missing refl))
    | inr (p, at) ↦ elim (Bool-cases p.is_dir) [
      | inr file ↦ inl (not_a_directory, rw (s, rename_into) (rw at (simp file refl)))
      | inl dir ↦ inr (
        relocate t from_key to_key to_parent new_name node,
        rw (s, rename_into) (rw at (simp dir refl)),
      )
    ]
  ]
]

-- What a renaming needs: its source is there and is not the root, and no node has the key of the
-- target but the source.
pub record IsFree (t : LookupTable) (from to : Bytes) : Type 0 where
  pub node : Node
  pub there : node_at t (normalize from) ≡ some node
  pub not_root : is_root (normalize from) ≡ false
  pub free : (node_at t (normalize to) ≡ none) ⊎ (normalize from ≡ normalize to)

-- Without permission to replace, `rename` either fails and leaves the table as it was, or succeeds,
-- tells of no node that it replaced, and has replaced none: the source was there and was not the root,
-- and no node had the key of the target, or it is the key of the source.
pub rename_kept :
    (t : LookupTable) (from to : Bytes)
    → ((e : LookupError) × (rename t from to false ≡ (t, err e)))
      ⊎ ((t' : LookupTable) × (rename t from to false ≡ (t', ok none)) × IsFree t from to)
unfolding rename
rename_kept t from to = elim (Bool-cases (is_root (normalize from))) [
  | inl at_root ↦ inl (invalid_name, rw (at_root, rename) refl)
  | inr not_root ↦ elim (Option-cases (node_at t (normalize from))) [
    | inl missing ↦ inl (not_found, rw (not_root, rename) (rw missing refl))
    | inr (node, at) ↦ elim (Bool-cases (bytes_eq (normalize from) (normalize to))) [
      | inl same ↦ inr (
        rename_case t (normalize from) (display_name to) node,
        rw (not_root, rename) (rw at (rw same refl)),
        record {
          node = node;
          there = at;
          not_root = not_root;
          free = inr ((bytes_eq_iff (normalize from) (normalize to)).0 same);
        },
      )
      | inr apart ↦ elim (Bool-cases (node.is_dir && is_below (normalize from) (normalize to))) [
        | inl below ↦ inl (invalid_name, rw (not_root, rename) (rw at (rw (apart, below) refl)))
        | inr outside ↦ elim (Option-cases (node_at t (normalize to))) [
          | inr (existing, taken) ↦
              inl (
                already_exists,
                rw (not_root, rename) (rw at (rw (apart, outside) (rw taken refl))),
              )
          | inl free ↦
              moved (record { node = node; there = at; not_root = not_root; free = inl free })
                (rw (not_root, rename)
                  (rw at (
                    rw (apart, outside)
                      (rw free (
                        rename_into-Refused t (normalize from) (normalize to) (display_name to)
                          node)))))
        ]
      ]
    ]
  ]
]
  where
    moved :
        IsFree t from to
        → Refused t (rename t from to false)
        → ((e : LookupError) × (rename t from to false ≡ (t, err e)))
          ⊎ ((t' : LookupTable) × (rename t from to false ≡ (t', ok none)) × IsFree t from to)
    moved free (inl refused) = inl refused
    moved free (inr (t', q)) = inr (t', q, free)
