-- ===== src/Engine/Creation.antt =====
-- src/lookup.rs, `create`, as the engine sees it: a new node refers to no chunk.
use vramdisk.Engine.Growth.{SameRefs}
use vramdisk.Lookup.Key.{Bytes, normalize, display_name}
use vramdisk.Lookup.NodeMap.Distinct.{Distinct, Distinct-insert}
use vramdisk.Lookup.NodeMap
use vramdisk.Lookup.NodeMap.Laws
use vramdisk.Lookup.NodeMap.{bytes_eq}
use vramdisk.Lookup.NodeMap.Laws.{bytes_eq_iff, bytes_eq_refl}
use vramdisk.Lookup.Table.{Node, LookupTable, node_at, with_child, new_node}
use vramdisk.Lookup.Table.Frame.{Creates}
use vramdisk.Engine.State.{coord_of}
use vramdisk.Engine.Refs.{refs, node_refs, weigh-insert, weigh-insert_new, coords_of, placement_at}
use vramdisk.Common.{
  subst, ℕ, ◌≡◌, inl, inr, refl, sym, ap, ◌∙◌, arith, Option, none, Bool, Bool-cases,
}

module _ (now : ℕ) (t : LookupTable) (path : Bytes) (is_dir : Bool) (attributes : ℕ)
    (t' : LookupTable) (n : Node) (m : Creates now t path is_dir attributes t' n)
    (d : Distinct t.nodes) where
  listed : Node
  listed = with_child m.parent_node (display_name path)

  listed_free : NodeMap.get (normalize path) (NodeMap.insert m.parent listed t.nodes) ≡ none
  unfolding listed
  listed_free =
      Laws.get-insert m.parent (normalize path) listed t.nodes
      ∙ elim (Bool-cases (bytes_eq m.parent (normalize path))) [
        | inl same ↦ cc (m.parent_at, m.was_free, (bytes_eq_iff m.parent (normalize path)).0 same)
        | inr other ↦ rw other m.was_free
      ]

  weightless : (c : ℕ) → node_refs c n ≡ 0
  unfolding new_node
  weightless c = ap (node_refs c) m.made

  no_coords : (l : ℕ) → coord_of n.coords l ≡ none
  unfolding new_node
  no_coords l = ap (λ (u : Node). coord_of u.coords l) m.made

  -- A node that was created refers to no chunk.
  pub Creates-SameRefs : SameRefs t t'
  unfolding refs listed placement_at
  Creates-SameRefs = record {
    counts = λ c. omega (
      arith,
      ap (λ (u : LookupTable). refs u c) m.table_made,
      weightless c,
      weigh-insert_new (node_refs c) (normalize path) n (NodeMap.insert m.parent listed t.nodes)
          listed_free,
      weigh-insert (node_refs c) m.parent listed m.parent_node t.nodes m.parent_at,
    );
    places = λ k l.
        ap (λ (o : Option Node). coord_of (coords_of o) l) (m.nodes_after k)
        ∙ elim (Bool-cases (bytes_eq (normalize path) k)) [
          | inl same ↦ rw same (
              no_coords l
              ∙ sym (
                  ap (λ (o : Option Node). coord_of (coords_of o) l)
                    (ap (node_at t) (sym ((bytes_eq_iff (normalize path) k).0 same)) ∙ m.was_free)))
          | inr other ↦ elim (Bool-cases (bytes_eq m.parent k)) [
            | inl above ↦
                rw (other, above)
                  (sym (
                    ap (λ (o : Option Node). coord_of (coords_of o) l)
                      (ap (node_at t) (sym ((bytes_eq_iff m.parent k).0 above)) ∙ m.parent_at)))
            | inr apart ↦ rw (other, apart) refl
          ]
        ];
    keys =
        subst (λ (u : LookupTable). Distinct u.nodes) (sym m.table_made)
          (Distinct-insert (normalize path) n (NodeMap.insert m.parent listed t.nodes)
            (Distinct-insert m.parent listed t.nodes d));
  }
