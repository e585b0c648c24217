-- ===== src/Lookup/Table.antt =====
-- src/lookup.rs, `LookupTable`: creating, removing, listing and renaming nodes. The time is an
-- argument. An operation returns the table and its result, since `rename` may fail after a change.
pub mod Frame
pub mod Rooted
use vramdisk.Lookup.Key.{
  Bytes, root, is_root, is_blank, normalize, normalize_key, display_name, split_parent,
  to_ascii_lowercase,
}
use vramdisk.Lookup.NodeMap
use vramdisk.Lookup.NodeMap.{bytes_eq, set_insert, set_remove, is_some}
use vramdisk.Placement.{Placement}
use vramdisk.Common.{
  ℕ, suc, ◌+◌, ◌-◌, bit_or, Bool, true, false, not, ◌&&◌, ◌||◌, Option, none, some, List, [], ◌∷◌,
  ◌++◌, map, ◌==◌, if◌then◌else◌, length, drop,
}

pub record Node : Type 0 where
  pub name : Bytes
  pub is_dir : Bool
  pub attributes : ℕ
  pub size : ℕ
  pub created : ℕ
  pub accessed : ℕ
  pub modified : ℕ
  pub changed : ℕ
  pub index_number : ℕ
  pub children : List Bytes
  pub security_descriptor : Bytes
  pub coords : List (Option Placement)

unfoldable pub new_node : ℕ → Bytes → Bool → ℕ → ℕ → Node
new_node now name is_dir attributes index_number = record {
  name = name;
  is_dir = is_dir;
  attributes = attributes;
  size = 0;
  created = now;
  accessed = now;
  modified = now;
  changed = now;
  index_number = index_number;
  children = [];
  security_descriptor = [];
  coords = [];
}

pub data LookupError : Type 0 where
  not_found already_exists not_a_directory is_a_directory not_empty invalid_name : LookupError

pub data LResult {ℓ} (A : Type ℓ) : Type ℓ where
  ok : A → LResult A
  err : LookupError → LResult A

pub record LookupTable : Type 0 where
  pub nodes : List (Bytes × Node)
  pub next_index : ℕ

unfoldable pub new : ℕ → LookupTable
unfolding new_node
new now = record { nodes = (root, new_node now [] true 16 1) ∷ []; next_index = 2 }

-- `self.nodes.get(key)`
abbrev pub node_at : LookupTable → Bytes → Option Node
node_at t key = NodeMap.get key t.nodes

unfoldable pub get : LookupTable → Bytes → Option Node
get t path = node_at t (normalize_key path)

abbrev pub put : LookupTable → Bytes → Node → LookupTable
put t key node = record t { nodes = NodeMap.insert key node t.nodes }

abbrev pub with_child : Node → Bytes → Node
with_child p name = record p { children = set_insert name p.children }

abbrev pub without_child : Node → Bytes → Node
without_child p name = record p { children = set_remove name p.children }

-- `create`, from the parent that was found on.
unfoldable pub create_in :
    ℕ → LookupTable → Bytes → Bytes → Bytes → Node → Bool → ℕ → LookupTable × LResult Node
unfolding new_node
create_in now t path key parent p is_dir attributes =
    if not p.is_dir
    then (t, err not_a_directory)
    else let node = new_node now (display_name path) is_dir attributes t.next_index in
      let listed = put t parent (with_child p (display_name path)) in
      (record (put listed key node) { next_index = t.next_index + 1 }, ok node)

unfoldable pub create : ℕ → LookupTable → Bytes → Bool → ℕ → LookupTable × LResult Node
unfolding create_in
create now t path is_dir attributes =
    let key = normalize path in
    if is_root key
    then (t, err already_exists)
    else if is_some (node_at t key)
    then (t, err already_exists)
    else elim (split_parent key) [
      | none ↦ (t, err invalid_name)
      | some (parent, name) ↦
          if is_blank name then (t, err invalid_name) else elim (node_at t parent) [
            | none ↦ (t, err not_found)
            | some p ↦ create_in now t path key parent p is_dir attributes
          ]
    ]

unfoldable pub create_file : ℕ → LookupTable → Bytes → ℕ → LookupTable × LResult Node
unfolding create
create_file now t path attributes = create now t path false attributes

unfoldable pub create_dir : ℕ → LookupTable → Bytes → ℕ → LookupTable × LResult Node
unfolding create
create_dir now t path attributes = create now t path true (bit_or attributes 16)

-- `if let Some(p) = self.nodes.get_mut(&parent) { .. }`
abbrev pub update_node : LookupTable → Bytes → (Node → Node) → LookupTable
update_node t key f = elim (node_at t key) [ none ↦ t | some p ↦ put t key (f p) ]

abbrev pub drop_key : LookupTable → Bytes → LookupTable
drop_key t key = record t { nodes = NodeMap.remove key t.nodes }

abbrev pub has_children : List Bytes → Bool
has_children [] = false
has_children (c ∷ cs) = true

-- `remove`, for a node that was found and may go.
unfoldable pub remove_found : LookupTable → Bytes → Node → LookupTable × LResult Node
remove_found t key node = elim (split_parent key) [
  | none ↦ (t, err invalid_name)
  | some (parent, _) ↦
      (update_node (drop_key t key) parent (λ p. without_child p node.name), ok node)
]

unfoldable pub remove : LookupTable → Bytes → LookupTable × LResult Node
unfolding remove_found
remove t path =
    let key = normalize path in
    if is_root key then (t, err invalid_name) else elim (node_at t key) [
      | none ↦ (t, err not_found)
      | some node ↦
          if node.is_dir && has_children node.children
          then (t, err not_empty)
          else remove_found t key node
    ]
