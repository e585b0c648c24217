-- ===== src/Engine/Nodes.antt =====
-- src/engine.rs: a node but for its placements, which is what storing bytes leaves as it was.
use mathlib.Core.Option.{some-injective}
use vramdisk.Lookup.Key.{Bytes}
use vramdisk.Lookup.NodeMap.{bytes_eq}
use vramdisk.Lookup.NodeMap.Laws.{bytes_eq_iff}
use vramdisk.Lookup.NodeMap.Laws
use vramdisk.Lookup.Table.{Node, LookupTable, node_at, update_node}
use vramdisk.Placement.{Placement}
use vramdisk.Engine.Refs.{with_coord, update_node-found}
use vramdisk.Common.{
  ℕ, ◌≤◌, if◌then◌else◌, arith, ◌≡◌, inl, inr, refl, sym, ap, ◌∙◌, Option, none, some, length,
  replicate, length-set, length-replicate, Bool-cases, Option-cases,
}

-- Holes in place of the placements.
abbrev pub bare : Node → Node
bare n = record n { coords = replicate (length n.coords) none }

abbrev pub bare_of : Option Node → Option Node
bare_of none = none
bare_of (some n) = some (bare n)

unfoldable pub bare_at : LookupTable → Bytes → Option Node
bare_at t k = bare_of (node_at t k)

-- Setting a coordinate leaves it.
pub bare_at-update_node :
    (t : LookupTable) (k : Bytes) (n : Node)
    → node_at t k ≡ some n
    → (lc : ℕ) (p : Option Placement) (j : Bytes)
    → bare_at (update_node t k (with_coord lc p)) j ≡ bare_at t j
unfolding bare_at
bare_at-update_node t k n found lc p j =
    rw
      (
        update_node-found t k n found (with_coord lc p),
        Laws.get-insert k j (with_coord lc p n) t.nodes,
      )
      (elim (Bool-cases (bytes_eq k j)) [
        | inl same ↦ rw same (
            ap (λ (m : ℕ). some (record n { coords = replicate m none })) (length-set n.coords lc p)
            ∙ ap bare_of (sym found ∙ ap (node_at t) ((bytes_eq_iff k j).0 same)))
        | inr other ↦ rw other refl
      ])

-- What is known of a node of the one table holds of a node of the other.
pub bare_at-found :
    (t u : LookupTable) (k : Bytes) (n : Node)
    → bare_at u k ≡ bare_at t k
    → node_at t k ≡ some n
    → (m : Node) × (node_at u k ≡ some m) × (bare m ≡ bare n)
unfolding bare_at
bare_at-found t u k n same found = elim (Option-cases (node_at u k)) [
  | inl gone ↦ cc (same, ap bare_of gone, ap bare_of found)
  | inr (m, there) ↦ (
    m,
    there,
    some-injective (bare m) (bare n) (sym (ap bare_of there) ∙ same ∙ ap bare_of found),
  )
]

pub length-bare : (m n : Node) → bare m ≡ bare n → length m.coords ≡ length n.coords
length-bare m n q =
    sym (length-replicate (length m.coords) none)
    ∙ ap (λ (b : Node). length b.coords) q
    ∙ length-replicate (length n.coords) none

-- The node is in the table, of the same kind, and no smaller.
pub record Kept (n : Node) (u : LookupTable) (k : Bytes) : Type 0 where
  pub node : Node
  pub there : node_at u k ≡ some node
  pub kind : node.is_dir ≡ n.is_dir
  pub size : n.size ≤ node.size
  pub room : length n.coords ≤ length node.coords

-- So is every node of the one table in the other.
abbrev pub Keeps : LookupTable → LookupTable → Type 0
Keeps t u = (j : Bytes) (n : Node) → node_at t j ≡ some n → Kept n u j

pub bare-Keeps : (t u : LookupTable) → ((j : Bytes) → bare_at u j ≡ bare_at t j) → Keeps t u
bare-Keeps t u same j n found =
    let (m, there, alike) = bare_at-found t u j n (same j) found in
    record {
      node = m;
      there = there;
      kind = ap (λ (b : Node). b.is_dir) alike;
      size = omega (arith, ap (λ (b : Node). b.size) alike);
      room = omega (arith, length-bare m n alike);
    }

pub Keeps-trans : (t u w : LookupTable) → Keeps t u → Keeps u w → Keeps t w
Keeps-trans t u w f g j n found =
    let a = f j n found in
    let b = g j a.node a.there in
    record {
      node = b.node;
      there = b.there;
      kind = b.kind ∙ a.kind;
      size = omega (arith, a.size, b.size);
      room = omega (arith, a.room, b.room);
    }

-- A change of one node.
pub update_node-Keeps :
    (t : LookupTable) (k : Bytes) (n : Node)
    → node_at t k ≡ some n
    → (f : Node → Node) → (f n).is_dir ≡ n.is_dir
    → n.size ≤ (f n).size
    → length n.coords ≤ length (f n).coords
    → Keeps t (update_node t k f)
update_node-Keeps t k n found f kind size room j m there = elim (Bool-cases (bytes_eq k j)) [
  | inl same ↦
      let both : n ≡ m =
        some-injective n m (sym found ∙ ap (node_at t) ((bytes_eq_iff k j).0 same) ∙ there) in
      record {
        node = f n;
        there = new_at ∙ rw same refl;
        kind = kind ∙ ap (λ (b : Node). b.is_dir) both;
        size = omega (arith, size, ap (λ (b : Node). b.size) both);
        room = omega (arith, room, ap (λ (b : Node). length b.coords) both);
      }
  | inr other ↦ record {
    node = m;
    there = new_at ∙ rw other there;
    kind = refl;
    size = omega arith;
    room = omega arith;
  }
]
  where
    new_at : node_at (update_node t k f) j ≡ (if bytes_eq k j then some (f n) else node_at t j)
    new_at =
        ap (λ (u : LookupTable). node_at u j) (update_node-found t k n found f)
        ∙ Laws.get-insert k j (f n) t.nodes
