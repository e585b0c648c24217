-- ===== src/Lookup/Rename.antt =====
-- src/lookup.rs, `readdir` and `rename`.
pub mod Refusals
pub mod Keys
pub mod Moves
pub mod Success
pub mod Free
use vramdisk.Lookup.Key.{
  Bytes, root, is_root, is_blank, normalize, display_name, split_parent, to_ascii_lowercase,
}
use vramdisk.Lookup.NodeMap.{bytes_eq, set_insert, set_remove}
use vramdisk.Lookup.Table.{
  Node, LookupTable, LResult, ok, err, not_found, already_exists, not_a_directory, is_a_directory,
  invalid_name, node_at, put, drop_key, update_node, remove,
}
use vramdisk.Common.{
  Bool, true, false, not, ◌&&◌, ◌||◌, Option, none, some, List, [], ◌∷◌, ◌++◌, map, ◌==◌,
  if◌then◌else◌, length, drop,
}

-- `format!("{base}\\{}", child.to_ascii_lowercase())`
abbrev pub child_key : Bytes → Bytes → Bytes
child_key base child = base ++ b'\\' ∷ map to_ascii_lowercase child

unfoldable pub list_children : LookupTable → Bytes → List Bytes → List (Bytes × Node)
list_children t base [] = []
list_children t base (child ∷ children) =
    let rest = list_children t base children in
    elim (node_at t (child_key base child)) [ none ↦ rest | some n ↦ (child, n) ∷ rest ]

unfoldable pub readdir : LookupTable → Bytes → LResult (List (Bytes × Node))
unfolding list_children
readdir t path =
    let key = normalize path in
    elim (node_at t key) [
      | none ↦ err not_found
      | some dir ↦
          if not dir.is_dir
          then err not_a_directory
          else ok (list_children t (if is_root key then [] else key) dir.children)
    ]

unfoldable pub starts_with : Bytes → Bytes → Bool
starts_with [] text = true
starts_with (c ∷ cs) [] = false
starts_with (c ∷ cs) (d ∷ ds) = c == d && starts_with cs ds

-- `k.starts_with(&format!("{from_key}\\"))`
abbrev pub is_below : Bytes → Bytes → Bool
is_below from_key k = starts_with (from_key ++ root) k

-- The branch of `rename` where both paths have the same key: only the display name may change.
unfoldable pub rename_case : LookupTable → Bytes → Bytes → Node → LookupTable
rename_case t from_key new_name node =
    if not (bytes_eq new_name node.name) && not (is_blank new_name)
    then (let relisted : LookupTable = elim (split_parent from_key) [
      | none ↦ t
      | some (parent, _) ↦
          update_node t parent
            (λ p. record p { children = set_insert new_name (set_remove node.name p.children) })
    ] in
        update_node relisted from_key (λ n. record n { name = new_name }))
    else t

unfoldable pub subtree : Bytes → List (Bytes × Node) → List Bytes
unfolding starts_with
subtree from_key [] = []
subtree from_key ((k, n) ∷ nodes) =
    let rest = subtree from_key nodes in
    if bytes_eq k from_key || is_below from_key k then k ∷ rest else rest

unfoldable pub rekey : Bytes → Bytes → Bytes → Bytes
rekey from_key to_key old =
    if bytes_eq old from_key then to_key else to_key ++ drop (length from_key) old

-- One round of the loop that moves the subtree. A key that is gone panics in the source; here the
-- round changes nothing.
unfoldable pub move_node : Bytes → Bytes → Bytes → Bytes → LookupTable → LookupTable
unfolding rekey
move_node from_key to_key new_name old t = elim (node_at t old) [
  | none ↦ t
  | some node ↦
      put (drop_key t old) (rekey from_key to_key old)
        (if bytes_eq old from_key then record node { name = new_name } else node)
]

unfoldable pub move_nodes : Bytes → Bytes → Bytes → List Bytes → LookupTable → LookupTable
unfolding move_node
move_nodes from_key to_key new_name [] t = t
move_nodes from_key to_key new_name (old ∷ olds) t =
    move_nodes from_key to_key new_name olds (move_node from_key to_key new_name old t)

-- `if let Some(p) = self.nodes.get_mut(&from_parent)` with `split_parent(&from_key).unwrap()`
unfoldable pub detach : LookupTable → Bytes → Bytes → LookupTable
detach t from_key old_name = elim (split_parent from_key) [
  | none ↦ t
  | some (from_parent, _) ↦
      update_node t from_parent (λ p. record p { children = set_remove old_name p.children })
]

-- The move itself, once the target's parent is known to be a directory.
unfoldable pub relocate : LookupTable → Bytes → Bytes → Bytes → Bytes → Node → LookupTable
unfolding subtree move_nodes detach
relocate t from_key to_key to_parent new_name node =
    let olds = subtree from_key t.nodes in
    let detached = detach t from_key node.name in
    let attached =
      update_node detached to_parent
        (λ p. record p { children = set_insert new_name p.children }) in
    move_nodes from_key to_key new_name olds attached

-- The part of `rename` after the target was cleared.
unfoldable pub rename_into :
    LookupTable → Bytes → Bytes → Bytes → Node → Option Node → LookupTable × LResult (Option Node)
unfolding relocate
rename_into t from_key to_key new_name node replaced = elim (split_parent to_key) [
  | none ↦ (t, err invalid_name)
  | some (to_parent, _) ↦ elim (node_at t to_parent) [
    | none ↦ (t, err not_found)
    | some p ↦
        if not p.is_dir
        then (t, err not_a_directory)
        else (relocate t from_key to_key to_parent new_name node, ok replaced)
  ]
]

-- `replaced = Some(self.remove(to)?)`
unfoldable pub after_removal :
    LookupTable × LResult Node → Bytes → Bytes → Bytes → Node → LookupTable × LResult (Option Node)
unfolding rename_into
after_removal (t, err e) from_key to_key new_name node = (t, err e)
after_removal (t, ok old) from_key to_key new_name node =
    rename_into t from_key to_key new_name node (some old)

unfoldable pub rename : LookupTable → Bytes → Bytes → Bool → LookupTable × LResult (Option Node)
unfolding rename_case rename_into after_removal
rename t from to replace =
    let from_key = normalize from in
    let to_key = normalize to in
    if is_root from_key then (t, err invalid_name) else elim (node_at t from_key) [
      | none ↦ (t, err not_found)
      | some node ↦
          if bytes_eq from_key to_key
          then (rename_case t from_key (display_name to) node, ok none)
          else if node.is_dir && is_below from_key to_key
          then (t, err invalid_name)
          else elim (node_at t to_key) [
            | none ↦ rename_into t from_key to_key (display_name to) node none
            | some existing ↦
                if not replace
                then (t, err already_exists)
                else if existing.is_dir
                then (t, err is_a_directory)
                else after_removal (remove t to) from_key to_key (display_name to) node
          ]
    ]
