-- ===== src/Lookup/Rename/Free.antt =====
-- src/lookup.rs, `rename`, from its guards on, where the target is free.
use vramdisk.Lookup.Key.{Bytes, is_root, normalize, display_name, split_parent}
use vramdisk.Lookup.NodeMap.{bytes_eq}
use vramdisk.Lookup.NodeMap.Distinct.{Distinct}
use vramdisk.Lookup.NodeMap.Laws.{bytes_eq_refl, bytes_eq_iff}
use vramdisk.Lookup.Table.{Node, LookupTable, ok, node_at}
use vramdisk.Lookup.Rename.{is_below, relocate, rename_into, rename}
use vramdisk.Lookup.Rename.Keys.{covers, is_tail, append_nil}
use vramdisk.Lookup.Rename.Success.{Renamed, relocate-Renamed}
use vramdisk.Common.{
  ◌≡◌, inl, inr, refl, sym, ap, ◌∙◌, arith, Bool, true, false, ◌&&◌, none, some, [], ◌++◌,
  Bool-cases,
}

module _ (t : LookupTable) (d : Distinct t.nodes) (from to : Bytes) (replace : Bool)
    (node parent : Node) (from_parent from_name to_parent to_name : Bytes)
    (not_root : is_root (normalize from) ≡ false) (found : node_at t (normalize from) ≡ some node)
    (from_split : split_parent (normalize from) ≡ some (from_parent, from_name))
    (to_split : split_parent (normalize to) ≡ some (to_parent, to_name))
    (parent_at : node_at t to_parent ≡ some parent) (parent_dir : parent.is_dir ≡ true)
    (apart : (s : Bytes) → is_tail s ≡ true → covers (normalize from) (normalize to ++ s) ≡ false)
    (free : (s : Bytes) → is_tail s ≡ true → node_at t (normalize to ++ s) ≡ none) where
  abbrev from_key : Bytes
  from_key = normalize from

  abbrev to_key : Bytes
  to_key = normalize to

  uncovered : covers from_key to_key ≡ false
  uncovered = sym (ap (covers from_key) (append_nil to_key)) ∙ apart [] refl

  other : bytes_eq from_key to_key ≡ false
  other = elim (Bool-cases (bytes_eq from_key to_key)) [
    | inl same ↦
        let equal = (bytes_eq_iff from_key to_key).0 same in
        let itself : covers to_key to_key ≡ true = rw (bytes_eq_refl to_key) refl in
        cc (uncovered, ap (λ (u : Bytes). covers u to_key) equal, itself)
    | inr ne ↦ ne
  ]

  not_below : (node.is_dir && is_below from_key to_key) ≡ false
  not_below = ground (arith, uncovered)

  into :
      rename_into t from_key to_key (display_name to) node none
      ≡ (relocate t from_key to_key to_parent (display_name to) node, ok none)
  unfolding rename_into
  into = rw (to_split, rename_into) (rw parent_at (simp parent_dir refl))

  -- In a table that has each key once, `rename` of a node other than the root to a key with a
  -- directory above it succeeds, where the target is not at or below the source, nor the source below
  -- the target, and nothing is at or below the target: the node and all below it stand at the target
  -- and below it, the node with its new name; nothing is left at or below the source; the parents list
  -- the change; and all other nodes are as they were.
  pub rename_lem :
      (t' : LookupTable) × (rename t from to replace ≡ (t', ok none))
      × Renamed t
          (normalize from)
          (normalize to)
          from_parent
          to_parent
          node.name
          (display_name to)
          t'
  unfolding rename rename_into
  rename_lem = (
    relocate t from_key to_key to_parent (display_name to) node,
    rw (not_root, rename)
        (rw (found, other, not_below)
          (rw (sym (ap (node_at t) (append_nil to_key)) ∙ free [] refl) into)),
    relocate-Renamed t d from_key to_key (display_name to) node from_parent from_name to_parent
        from_split apart free,
  )
