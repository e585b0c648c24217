-- ===== src/Engine/Refs.antt =====
-- The references from the files to the chunks: how many coordinates of the table are each raw chunk.
use mathlib.Core.Option.{some-injective}
use vramdisk.Lookup.Key.{Bytes}
use vramdisk.Lookup.NodeMap.{bytes_eq}
use vramdisk.Lookup.NodeMap
use vramdisk.Lookup.NodeMap.Laws.{bytes_eq_iff, bytes_eq_refl}
use vramdisk.Lookup.NodeMap.Laws
use vramdisk.Lookup.NodeMap.Distinct.{Distinct, Distinct-insert}
use vramdisk.Lookup.Table.{Node, LookupTable, node_at, update_node, put}
use vramdisk.Placement.{Placement, raw}
use vramdisk.Engine.State.{coord_of, is_raw}
use vramdisk.Engine.Accounts.{Refs}
use vramdisk.Common.{
  subst, ℕ, zero, suc, ◌+◌, ◌≤◌, ◌<◌, ◌≡◌, ◌≢◌, inl, inr, refl, sym, ap, ◌∙◌, arith, List, [], ◌∷◌,
  Option, none, some, true, false, ◌==◌, ◌&&◌, if◌then◌else◌, length, set, get_or-set_self,
  get_or-set_ne, ℕ_discrete, Bool-cases, Option-cases, ==_refl, weigh, weigh-set, le-weigh,
  two_entries_le,
}

-- The weight of a map of nodes, by the value.
module _ {ℓ} {V : Type ℓ} (f : V → ℕ) where
  abbrev pub weigh_values : List (Bytes × V) → ℕ
  weigh_values [] = 0
  weigh_values ((k, v) ∷ m) = f v + weigh_values m

  pub weigh-insert :
      (k : Bytes) (v old : V) (m : List (Bytes × V))
      → NodeMap.get k m ≡ some old
      → weigh_values (NodeMap.insert k v m) + f old ≡ weigh_values m + f v
  unfolding NodeMap.get NodeMap.insert
  weigh-insert k v old [] g = cc
  weigh-insert k v old ((j, w) ∷ m) g = elim (Bool-cases (bytes_eq j k)) [
    | inl same ↦
        let here : w ≡ old = some-injective w old (rw same at g) in
        rw same (omega (arith, ap f here))
    | inr ne ↦ rw ne (omega (arith, weigh-insert k v old m (rw ne at g)))
  ]

  pub weigh-insert_new :
      (k : Bytes) (v : V) (m : List (Bytes × V))
      → NodeMap.get k m ≡ none
      → weigh_values (NodeMap.insert k v m) ≡ weigh_values m + f v
  unfolding NodeMap.get NodeMap.insert
  weigh-insert_new k v [] g = omega arith
  weigh-insert_new k v ((j, w) ∷ m) g = elim (Bool-cases (bytes_eq j k)) [
    | inl same ↦ cc (rw same at g)
    | inr ne ↦ rw ne (omega (arith, weigh-insert_new k v m (rw ne at g)))
  ]

  pub le-weigh_values :
      (k : Bytes) (v : V) (m : List (Bytes × V)) → NodeMap.get k m ≡ some v → f v ≤ weigh_values m
  unfolding NodeMap.get
  le-weigh_values k v [] g = cc
  le-weigh_values k v ((j, w) ∷ m) g = elim (Bool-cases (bytes_eq j k)) [
    | inl same ↦ let here : w ≡ v = some-injective w v (rw same at g) in omega (arith, ap f here)
    | inr ne ↦ omega (arith, le-weigh_values k v m (rw ne at g))
  ]

  pub two_values_le :
      (k j : Bytes) (v w : V) (m : List (Bytes × V))
      → bytes_eq k j ≡ false
      → NodeMap.get k m ≡ some v
      → NodeMap.get j m ≡ some w
      → f v + f w ≤ weigh_values m
  unfolding NodeMap.get
  two_values_le k j v w [] ne g h = cc
  two_values_le k j v w ((i, u) ∷ m) ne g h = elim (Bool-cases (bytes_eq i k)) [
    | inl here ↦
        let mine : u ≡ v = some-injective u v (rw here at g) in
        let other : bytes_eq i j ≡ false = rw ((bytes_eq_iff i k).0 here) ne in
        omega (arith, ap f mine, le-weigh_values j w m (rw other at h))
    | inr later ↦ elim (Bool-cases (bytes_eq i j)) [
      | inl there ↦
          let its : u ≡ w = some-injective u w (rw there at h) in
          omega (arith, ap f its, le-weigh_values k v m (rw later at g))
      | inr too ↦ omega (arith, two_values_le k j v w m ne (rw later at g) (rw too at h))
    ]
  ]

-- What the coordinate counts for the chunk.
abbrev pub refers : ℕ → Option Placement → ℕ
refers c p = if is_raw c p then 1 else 0

abbrev pub node_refs : ℕ → Node → ℕ
node_refs c n = weigh (refers c) n.coords

-- The references to each chunk in the table.
unfoldable pub refs : LookupTable → Refs
refs t c = weigh_values (node_refs c) t.nodes

abbrev pub coords_of : Option Node → List (Option Placement)
coords_of none = []
coords_of (some n) = n.coords

-- The coordinate `lc` of the node of the key.
unfoldable pub placement_at : LookupTable → Bytes → ℕ → Option Placement
placement_at t k lc = coord_of (coords_of (node_at t k)) lc

abbrev pub with_coord : ℕ → Option Placement → Node → Node
with_coord lc p n = record n { coords = set n.coords lc p }

pub Distinct-update_node :
    (t : LookupTable) (k : Bytes) (f : Node → Node)
    → Distinct t.nodes
    → Distinct (update_node t k f).nodes
Distinct-update_node t k f d = elim (Option-cases (node_at t k)) [
  | inl gone ↦ subst (λ (o : Option Node). Distinct (updated o).nodes) (sym gone) d
  | inr (n, found) ↦
      subst (λ (o : Option Node). Distinct (updated o).nodes) (sym found)
        (Distinct-insert k (f n) t.nodes d)
]
  where
    updated : Option Node → LookupTable
    updated o = elim o as (λ u. LookupTable) [ none ↦ t | some m ↦ put t k (f m) ]

module _ (t : LookupTable) (k : Bytes) (n : Node) (found : node_at t k ≡ some n) where
  pub update_node-found : (f : Node → Node) → update_node t k f ≡ put t k (f n)
  update_node-found f =
      ap (λ (o : Option Node). elim o as (λ u. LookupTable) [ none ↦ t | some m ↦ put t k (f m) ])
        found

  -- Setting one coordinate of a file moves one reference.
  pub refs-update_node :
      (lc : ℕ) (p : Option Placement) (c : ℕ)
      → lc < length n.coords
      → refs (update_node t k (with_coord lc p)) c + refers c (coord_of n.coords lc)
        ≡ refs t c + refers c p
  unfolding refs
  refs-update_node lc p c lt = omega (
    arith,
    ap (λ (u : LookupTable). refs u c) (update_node-found (with_coord lc p)),
    weigh-insert (node_refs c) k (with_coord lc p n) n t.nodes found,
    weigh-set (refers c) n.coords lc p none lt,
  )

  pub placement_at-update_node :
      (lc : ℕ) (p : Option Placement) (j : Bytes) (i : ℕ)
      → lc < length n.coords
      → placement_at (update_node t k (with_coord lc p)) j i
        ≡ (if bytes_eq k j && lc == i then p else placement_at t j i)
  unfolding placement_at
  placement_at-update_node lc p j i lt =
      rw (update_node-found (with_coord lc p), Laws.get-insert k j (with_coord lc p n) t.nodes)
        (elim (Bool-cases (bytes_eq k j)) [
          | inl same ↦ elim (ℕ_discrete lc i) [
            | yes here ↦ rw (same, ← here, ==_refl lc) (get_or-set_self n.coords lc p none lt)
            | no ne ↦
                let off : (lc == i) ≡ false = ground arith in
                rw (same, off)
                  (get_or-set_ne n.coords lc i p none ne
                    ∙ ap (λ (o : Option Node). coord_of (coords_of o) i)
                        (sym found ∙ ap (node_at t) ((bytes_eq_iff k j).0 same)))
          ]
          | inr other ↦ rw other refl
        ])

module _ (t : LookupTable) (c : ℕ) where
  pub in_range :
      (l : List (Option Placement)) (lc : ℕ) → coord_of l lc ≡ some (raw c) → lc < length l
  in_range [] lc q = cc
  in_range (p ∷ l) zero q = omega arith
  in_range (p ∷ l) (suc lc) q = omega (arith, in_range l lc q)

  counts_one : (p : Option Placement) → p ≡ some (raw c) → refers c p ≡ 1
  counts_one p q = rw (q, ==_refl c) refl

  -- A coordinate that is the chunk is one of its references.
  pub le-refs : (k : Bytes) (lc : ℕ) → placement_at t k lc ≡ some (raw c) → 1 ≤ refs t c
  unfolding placement_at refs
  le-refs k lc q = elim (Option-cases (node_at t k)) [
    | inl gone ↦ cc (rw gone at q)
    | inr (n, found) ↦
        let here : coord_of n.coords lc ≡ some (raw c) = rw found at q in
        omega (
          arith,
          counts_one (coord_of n.coords lc) here,
          le-weigh (refers c) n.coords lc none (in_range n.coords lc here),
          le-weigh_values (node_refs c) k n t.nodes found,
        )
  ]

  -- Two coordinates that are the chunk are two of its references.
  pub two_refs :
      (k j : Bytes) (lc i : ℕ)
      → placement_at t k lc ≡ some (raw c)
      → placement_at t j i ≡ some (raw c)
      → (bytes_eq k j && lc == i) ≡ false
      → 2 ≤ refs t c
  unfolding placement_at refs
  two_refs k j lc i p q ne = elim (Option-cases (node_at t k)) [
    | inl gone ↦ cc (rw gone at p)
    | inr (n, found) ↦ elim (Option-cases (node_at t j)) [
      | inl gone ↦ cc (rw gone at q)
      | inr (m, there) ↦
          let one : coord_of n.coords lc ≡ some (raw c) = rw found at p in
          let two : coord_of m.coords i ≡ some (raw c) = rw there at q in
          elim (Bool-cases (bytes_eq k j)) [
            | inl same ↦
                let both : n ≡ m =
                  some-injective n m
                    (sym found ∙ ap (node_at t) ((bytes_eq_iff k j).0 same) ∙ there) in
                let second : coord_of n.coords i ≡ some (raw c) =
                  ap (λ (u : Node). coord_of u.coords i) both ∙ two in
                omega (
                  arith,
                  counts_one (coord_of n.coords lc) one,
                  counts_one (coord_of n.coords i) second,
                  two_entries_le (refers c) n.coords lc i none (in_range n.coords lc one)
                      (in_range n.coords i second) (apart same),
                  le-weigh_values (node_refs c) k n t.nodes found,
                )
            | inr other ↦ omega (
              arith,
              counts_one (coord_of n.coords lc) one,
              counts_one (coord_of m.coords i) two,
              le-weigh (refers c) n.coords lc none (in_range n.coords lc one),
              le-weigh (refers c) m.coords i none (in_range m.coords i two),
              two_values_le (node_refs c) k j n m t.nodes other found there,
            )
          ]
    ]
  ]
    where
      apart : bytes_eq k j ≡ true → lc ≢ i
      apart same q = ground (arith, ne, same, q)
