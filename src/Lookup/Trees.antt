-- ===== src/Lookup/Trees.antt =====
-- A directory `\a` with a file `\a\x` becomes `\b`.
use vramdisk.Lookup.Key.{Bytes, root, is_root, normalize, display_name, split_parent}
use vramdisk.Lookup.NodeMap
use vramdisk.Lookup.Table.{Node, LookupTable, ok, new_node, node_at}
use vramdisk.Lookup.Rename.{rename, starts_with}
use vramdisk.Lookup.Rename.Keys.{covers, is_tail}
use vramdisk.Lookup.Rename.Success.{Renamed}
use vramdisk.Lookup.Rename.Free.{rename_lem}
use vramdisk.Lookup.NodeMap.Distinct.{Distinct}
use vramdisk.Common.{◌≡◌, refl, some, none, true, false, [], ◌∷◌, ◌++◌}

abbrev a : Bytes
a = b'\\' ∷ b'a' ∷ []

abbrev b : Bytes
b = b'\\' ∷ b'b' ∷ []

abbrev top : Node
top = record (new_node 0 [] true 16 1) { children = (b'a' ∷ []) ∷ [] }

abbrev dir : Node
dir = record (new_node 0 (b'a' ∷ []) true 16 2) { children = (b'x' ∷ []) ∷ [] }

abbrev tree : LookupTable
tree = record {
  nodes = (root, top) ∷ (a, dir) ∷ (a ++ b'\\' ∷ b'x' ∷ [], new_node 0 (b'x' ∷ []) false 0 3) ∷ [];
  next_index = 4;
}

tree_keyed : Distinct tree.nodes
unfolding NodeMap.get NodeMap.bytes_eq
tree_keyed = (refl, (refl, (refl, tt)))

a_not_root : is_root (normalize a) ≡ false
unfolding normalize
a_not_root = refl

a_there : node_at tree (normalize a) ≡ some dir
unfolding normalize NodeMap.get NodeMap.bytes_eq
a_there = refl

a_split : split_parent (normalize a) ≡ some (root, b'a' ∷ [])
unfolding normalize split_parent
a_split = refl

b_split : split_parent (normalize b) ≡ some (root, b'b' ∷ [])
unfolding normalize split_parent
b_split = refl

top_there : node_at tree root ≡ some top
unfolding NodeMap.get NodeMap.bytes_eq
top_there = refl

top_is_dir : top.is_dir ≡ true
unfolding new_node
top_is_dir = refl

b_apart : (s : Bytes) → is_tail s ≡ true → covers (normalize a) (normalize b ++ s) ≡ false
unfolding normalize NodeMap.bytes_eq starts_with
b_apart s tail = refl

b_free : (s : Bytes) → is_tail s ≡ true → node_at tree (normalize b ++ s) ≡ none
unfolding normalize NodeMap.get NodeMap.bytes_eq
b_free s tail = refl

rename_lem_example :
    (t' : LookupTable) × (rename tree a b false ≡ (t', ok none))
    × Renamed tree (normalize a) (normalize b) root root dir.name (display_name b) t'
rename_lem_example =
    rename_lem tree tree_keyed a b false dir top root (b'a' ∷ []) root (b'b' ∷ []) a_not_root
      a_there a_split b_split top_there top_is_dir b_apart b_free
