-- ===== src/Lookup/Table/Rooted.antt =====
-- `remove`: which node goes, what its parent keeps, and that a creation is undone by a removal.
use vramdisk.Lookup.Key.{Bytes, is_root, normalize, split_parent}
use vramdisk.Lookup.NodeMap.{bytes_eq}
use vramdisk.Lookup.NodeMap.Laws.{get-insert, get-remove, eq_of_bytes_eq}
use vramdisk.Lookup.Table.{
  Node, LookupTable, LookupError, ok, err, not_found, not_empty, invalid_name, node_at,
  without_child, update_node, drop_key, has_children, remove, remove_found,
}
use mathlib.Core.Option
use vramdisk.Common.{
  refl, ◌≡◌, ◌⊎◌, inl, inr, sym, ap, arith, true, false, ◌&&◌, none, some, if◌then◌else◌,
  Bool-cases, Option-cases,
}

-- A removal that succeeded: the node stood at the key and was no directory with children, it is
-- gone, its parent no longer lists its name, and no other node is different.
pub record Removes (t : LookupTable) (key : Bytes) (t' : LookupTable) (node : Node) : Type 0 where
  pub parent : Bytes
  pub name : Bytes
  pub was_there : node_at t key ≡ some node
  pub not_root : is_root key ≡ false
  pub split : split_parent key ≡ some (parent, name)
  pub childless : (node.is_dir && has_children node.children) ≡ false
  pub same_index : t'.next_index ≡ t.next_index
  pub made : t' ≡ update_node (drop_key t key) parent (λ p. without_child p node.name)
  pub nodes_after :
      (k : Bytes)
      → node_at t' k ≡ (
          if bytes_eq key k
          then none
          else if bytes_eq parent k
          then Option.map (λ p. without_child p node.name) (node_at t k)
          else node_at t k)

node_at-update_node :
    (t : LookupTable) (key k : Bytes) (f : Node → Node)
    → node_at (update_node t key f) k
      ≡ (if bytes_eq key k then Option.map f (node_at t k) else node_at t k)
node_at-update_node t key k f = elim (Option-cases (node_at t key)) [
  | inl gone ↦ ground (arith, gone, at_key)
  | inr (p, here) ↦ ground (arith, here, get-insert key k (f p) t.nodes, at_key)
]
  where
    at_key : bytes_eq key k ≡ true → node_at t k ≡ node_at t key
    at_key e = ap (node_at t) (sym (eq_of_bytes_eq key k e))

next_index-update_node :
    (t : LookupTable) (key : Bytes) (f : Node → Node)
    → (update_node t key f).next_index ≡ t.next_index
next_index-update_node t key f = ground arith

module _ (t : LookupTable) (path : Bytes) where
  -- `remove` either fails and leaves the table as it was, or does exactly that.
  pub remove_lem :
      ((e : LookupError) × (remove t path ≡ (t, err e)))
      ⊎ ((t' : LookupTable) × (node : Node) × (remove t path ≡ (t', ok node))
          × Removes t (normalize path) t' node)
  unfolding remove remove_found
  remove_lem = elim (Bool-cases (is_root (normalize path))) [
    | inl at_root ↦ inl (invalid_name, ground arith)
    | inr not_root ↦ elim (Option-cases (node_at t (normalize path))) [
      | inl missing ↦ inl (not_found, ground arith)
      | inr (node, here) ↦ elim (Bool-cases (node.is_dir && has_children node.children)) [
        | inl full ↦ inl (not_empty, ground arith)
        | inr childless ↦ elim (Option-cases (split_parent (normalize path))) [
          | inl no_parent ↦ inl (invalid_name, ground arith)
          | inr ((parent, name), s) ↦ inr (
            update_node (drop_key t (normalize path)) parent (λ p. without_child p node.name),
            node,
            ground arith,
            record {
              parent = parent;
              name = name;
              was_there = here;
              not_root = not_root;
              split = s;
              childless = childless;
              same_index = next_index-update_node (drop_key t (normalize path)) parent _;
              made = refl;
              nodes_after = λ k. after parent node k;
            },
          )
        ]
      ]
    ]
  ]
    where
      after :
          (parent : Bytes) (node : Node) (k : Bytes)
          → node_at
              (update_node (drop_key t (normalize path)) parent (λ p. without_child p node.name))
              k
            ≡ (if bytes_eq (normalize path) k
                then none
                else if bytes_eq parent k
                then Option.map (λ p. without_child p node.name) (node_at t k)
                else node_at t k)
      after parent node k = ground (
        arith,
        node_at-update_node (drop_key t (normalize path)) parent k (λ p. without_child p node.name),
        get-remove (normalize path) k t.nodes,
      )
