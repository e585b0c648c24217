-- ===== src/Lookup/Rename/Success.antt =====
-- src/lookup.rs, `rename` to a place that is free: the node and all below it move, and the two parents
-- list the change.
use vramdisk.Lookup.Key.{Bytes, split_parent}
use vramdisk.Lookup.NodeMap.{bytes_eq, is_some}
use vramdisk.Lookup.NodeMap.Distinct.{Distinct}
use vramdisk.Lookup.NodeMap.Laws.{bytes_eq_refl, bytes_eq_iff, get-insert}
use vramdisk.Lookup.Table.{Node, LookupTable, node_at, put, update_node, with_child, without_child}
use vramdisk.Lookup.Rename.{subtree, detach, relocate}
use vramdisk.Lookup.Rename.Keys.{covers, is_tail, covers-append}
use vramdisk.Lookup.Rename.Moves.{mem, named_at, Present, mem-subtree, Once-subtree, move_nodes_lem}
use vramdisk.Common.{
  ◌≡◌, inl, inr, refl, sym, ap, ◌∙◌, arith, true, false, Option, none, some, List, [], ◌∷◌, ◌++◌,
  if◌then◌else◌, All, Bool-cases, Option-cases, &&_parts,
}

abbrev pub changed : (Node → Node) → Option Node → Option Node
changed f none = none
changed f (some n) = some (f n)

update_node_at :
    (t : LookupTable) (p : Bytes) (f : Node → Node) (k : Bytes)
    → node_at (update_node t p f) k ≡ changed (λ n. if bytes_eq p k then f n else n) (node_at t k)
update_node_at t p f k = elim (Option-cases (node_at t p)) [
  | inl gone ↦ ap (λ u. node_at u k) (by_cases none gone) ∙ elim (Bool-cases (bytes_eq p k)) [
    | inl same ↦ rw (← (bytes_eq_iff p k).0 same, gone) refl
    | inr other ↦ sym (rw other (kept (node_at t k)))
  ]
  | inr (n, found) ↦
      ap (λ u. node_at u k) (by_cases (some n) found)
      ∙ get-insert p k (f n) t.nodes
      ∙ elim (Bool-cases (bytes_eq p k)) [
        | inl same ↦
            rw same
              (sym (ap (changed f) (ap (node_at t) (sym ((bytes_eq_iff p k).0 same)) ∙ found)))
        | inr other ↦ rw other (sym (kept (node_at t k)))
      ]
]
  where
    by_cases :
        (o : Option Node)
        → node_at t p ≡ o
        → update_node t p f ≡ elim o as (λ u. LookupTable) [ none ↦ t | some m ↦ put t p (f m) ]
    by_cases o q = ap (λ u. elim u as (λ w. LookupTable) [ none ↦ t | some m ↦ put t p (f m) ]) q

    kept : (o : Option Node) → changed (λ n. n) o ≡ o
    kept none = refl
    kept (some n) = refl

All-mem :
    (P : Bytes → Type 0) (olds : List Bytes) → ((k : Bytes) → mem k olds ≡ true → P k) → All P olds
All-mem P [] h = tt
All-mem P (old ∷ olds) h =
    (h old (rw (bytes_eq_refl old) refl), All-mem P olds (λ k m. h k (ground (arith, m))))

-- The old parent loses the name, and the new one gets it.
abbrev pub relisted : Bytes → Bytes → Bytes → Bytes → Bytes → Node → Node
relisted from_parent to_parent old_name new_name k n =
    let left = if bytes_eq from_parent k then without_child n old_name else n in
    if bytes_eq to_parent k then with_child left new_name else left

module _ (t : LookupTable) (from to new_name : Bytes) (node : Node)
    (from_parent from_name to_parent : Bytes)
    (split : split_parent from ≡ some (from_parent, from_name)) where
  abbrev attached : LookupTable
  unfolding detach
  attached = update_node (detach t from node.name) to_parent (λ p. with_child p new_name)

  abbrev relist : Bytes → Node → Node
  relist = relisted from_parent to_parent node.name new_name

  attached_at : (k : Bytes) → node_at attached k ≡ changed (relist k) (node_at t k)
  unfolding detach
  attached_at k =
      update_node_at (detach t from node.name) to_parent (λ p. with_child p new_name) k
      ∙ ap (changed (λ n. if bytes_eq to_parent k then with_child n new_name else n)) detached
      ∙ twice (node_at t k)
    where
      detached :
          node_at (detach t from node.name) k
          ≡ changed
              (λ n. if bytes_eq from_parent k then without_child n node.name else n)
              (node_at t k)
      detached =
          rw (split, detach) (update_node_at t from_parent (λ p. without_child p node.name) k)

      twice :
          (o : Option Node)
          → changed
              (λ n. if bytes_eq to_parent k then with_child n new_name else n)
              (changed (λ n. if bytes_eq from_parent k then without_child n node.name else n) o)
            ≡ changed (relist k) o
      twice none = refl
      twice (some n) = refl

-- The node of the source and all below it have moved to the target, and the parents list the change.
pub record Renamed (t : LookupTable) (from to from_parent to_parent old_name new_name : Bytes)
    (t' : LookupTable) : Type 0 where
  pub moved :
      (s : Bytes)
      → is_tail s ≡ true
      → node_at t' (to ++ s)
        ≡ changed
            (λ n.
              named_at from new_name
                (from ++ s)
                (relisted from_parent to_parent old_name new_name (from ++ s) n))
            (node_at t (from ++ s))
  pub gone : (s : Bytes) → is_tail s ≡ true → node_at t' (from ++ s) ≡ none
  pub others :
      (k : Bytes)
      → covers from k ≡ false
      → covers to k ≡ false
      → node_at t' k ≡ changed (relisted from_parent to_parent old_name new_name k) (node_at t k)

module _ (t : LookupTable) (d : Distinct t.nodes) (from to new_name : Bytes) (node : Node)
    (from_parent from_name to_parent : Bytes)
    (split : split_parent from ≡ some (from_parent, from_name))
    (apart : (s : Bytes) → is_tail s ≡ true → covers from (to ++ s) ≡ false)
    (free : (s : Bytes) → is_tail s ≡ true → node_at t (to ++ s) ≡ none) where
  abbrev olds : List Bytes
  olds = subtree from t.nodes

  abbrev start : LookupTable
  start = attached t from to new_name node from_parent from_name to_parent split

  at :
      (k : Bytes)
      → node_at start k
        ≡ changed (relisted from_parent to_parent node.name new_name k) (node_at t k)
  at = attached_at t from to new_name node from_parent from_name to_parent split

  present : All (Present from to new_name apart start) olds
  present = All-mem (Present from to new_name apart start) olds (λ k m.
      let (mine, some_node) =
        &&_parts (covers from k) (is_some (node_at t k)) (sym (mem-subtree from k t.nodes) ∙ m) in
      elim (Option-cases (node_at t k)) [
        | inl missing ↦ cc (some_node, ap is_some missing)
        | inr (n, found) ↦ (
          mine,
          (_, at k ∙ ap (changed (relisted from_parent to_parent node.name new_name k)) found),
        )
      ])

  listed : (s : Bytes) → is_tail s ≡ true → mem (from ++ s) olds ≡ is_some (node_at t (from ++ s))
  listed s tail = mem-subtree from (from ++ s) t.nodes ∙ rw (covers-append from s tail) refl

  pub relocate-Renamed :
      Renamed t from to from_parent to_parent node.name new_name
        (relocate t from to to_parent new_name node)
  unfolding relocate
  relocate-Renamed =
      let r =
        move_nodes_lem from to new_name apart olds start (Once-subtree from t.nodes d) present in
      record {
        moved = λ s tail. elim (Option-cases (node_at t (from ++ s))) [
          | inl missing ↦
              r.empty s tail (listed s tail ∙ ap is_some missing)
              ∙ at (to ++ s)
              ∙ ap (changed _) (free s tail)
              ∙ sym (ap (changed _) missing)
          | inr (n, found) ↦
              r.there s _ tail (listed s tail ∙ ap is_some found)
                (at (from ++ s) ∙ ap (changed _) found)
              ∙ sym (ap (changed _) found)
        ];
        gone = λ s tail.
            r.gone (from ++ s) (covers-append from s tail)
            ∙ elim (Option-cases (node_at t (from ++ s))) [
              | inl missing ↦
                  rw (listed s tail ∙ ap is_some missing) (at (from ++ s) ∙ ap (changed _) missing)
              | inr (n, found) ↦ rw (listed s tail ∙ ap is_some found) refl
            ];
        others = λ k off away. r.others k off away ∙ at k;
      }
