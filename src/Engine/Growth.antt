-- ===== src/Engine/Growth.antt =====
-- src/engine.rs, `ensure_logical_len`: a file gets coordinates for more bytes, all of them holes.
use mathlib.Core.Option.{some-injective}
use vramdisk.Lookup.Key.{Bytes, normalize_key}
use vramdisk.Lookup.NodeMap.Distinct.{Distinct}
use vramdisk.Lookup.NodeMap.Laws
use vramdisk.Lookup.NodeMap.{bytes_eq}
use vramdisk.Lookup.NodeMap.Laws.{bytes_eq_iff, bytes_eq_refl}
use vramdisk.Lookup.Table.{Node, LookupTable, node_at, update_node, not_found, with_child, new_node}
use vramdisk.Lookup.Table
use vramdisk.Placement.{Placement}
use vramdisk.Engine.Result.{ok, err, lookup, no_space}
use vramdisk.Engine.State.{StorageEngine, Outcome, coord_of}
use vramdisk.Engine.Store.{Done}
use vramdisk.Engine.Files.{
  logical_chunks, padded, with_room, grown, change_node, ensure_logical_len,
}
use vramdisk.Engine.Refs.{
  refs, refers, node_refs, weigh-insert, coords_of, placement_at, Distinct-update_node,
  update_node-found,
}
use vramdisk.Engine.Nodes.{Keeps, update_node-Keeps}
use vramdisk.Engine.Contents.{content, byte_of, IsPlain}
use vramdisk.Engine.Contents.Storing.{Accounts-cong, Accounts-files, SameMode}
use vramdisk.Common.{
  ℕ, zero, suc, ◌≤◌, ◌<◌, ◌≡◌, ◌⊎◌, inl, inr, refl, sym, ap, ◌∙◌, arith, List, [], ◌∷◌, Option,
  none, some, ltb, if◌then◌else◌, weigh, length, Bool-cases, Option-cases, by_true, by_false,
}

-- The same references and placements.
pub record SameRefs (t t' : LookupTable) : Type 0 where
  pub counts : (c : ℕ) → refs t' c ≡ refs t c
  pub places : (k : Bytes) (l : ℕ) → placement_at t' k l ≡ placement_at t k l
  pub keys : Distinct t'.nodes

module _ (e : StorageEngine) (v : IsPlain e) (t : LookupTable) (s : SameRefs e.table t) where
  pub SameRefs-IsPlain : IsPlain (record e { table = t })
  SameRefs-IsPlain = record {
    accounts =
        Accounts-cong (record e { table = t }) (refs e.table) (refs t) (λ c. sym (s.counts c))
          (Accounts-files e (refs e.table) t e.vram refl v.accounts);
    keyed = s.keys;
    raw_only = λ k l offset len codec q. v.raw_only k l offset len codec (sym (s.places k l) ∙ q);
  }

  pub SameRefs-content :
      (k : Bytes) (l i : ℕ) → content (record e { table = t }) k l i ≡ content e k l i
  unfolding content
  SameRefs-content k l i = ap (λ p. byte_of e.vram p i) (s.places k l)

length-padded : (n : ℕ) (coords : List (Option Placement)) → n ≤ length (padded n coords)
unfolding padded
length-padded zero coords = omega arith
length-padded (suc n) [] = omega (arith, length-padded n [])
length-padded (suc n) (c ∷ coords) = omega (arith, length-padded n coords)

le-padded : (n : ℕ) (coords : List (Option Placement)) → length coords ≤ length (padded n coords)
unfolding padded
le-padded zero coords = omega arith
le-padded (suc n) [] = omega arith
le-padded (suc n) (c ∷ coords) = omega (arith, le-padded n coords)

coord_of-padded :
    (n l : ℕ) (coords : List (Option Placement)) → coord_of (padded n coords) l ≡ coord_of coords l
unfolding padded
coord_of-padded zero l coords = refl
coord_of-padded (suc n) zero [] = refl
coord_of-padded (suc n) (suc l) [] = coord_of-padded n l []
coord_of-padded (suc n) zero (c ∷ coords) = refl
coord_of-padded (suc n) (suc l) (c ∷ coords) = coord_of-padded n l coords

weigh-padded :
    (n c : ℕ) (coords : List (Option Placement))
    → weigh (refers c) (padded n coords) ≡ weigh (refers c) coords
unfolding padded
weigh-padded zero c coords = refl
weigh-padded (suc n) c [] = omega (arith, weigh-padded n c [])
weigh-padded (suc n) c (p ∷ coords) = omega (arith, weigh-padded n c coords)

module _ (t : LookupTable) (k : Bytes) (n : Node) (found : node_at t k ≡ some n)
    (d : Distinct t.nodes) (f : Node → Node) where
  -- A change of the node that keeps its coordinates, but for holes at their end.
  pub update_node-SameRefs :
      ((l : ℕ) → coord_of (f n).coords l ≡ coord_of n.coords l)
      → ((c : ℕ) → node_refs c (f n) ≡ node_refs c n)
      → SameRefs t (update_node t k f)
  unfolding placement_at refs
  update_node-SameRefs same_coord same_weight = record {
    counts = λ c. omega (
      arith,
      ap (λ (u : LookupTable). refs u c) (update_node-found t k n found f),
      weigh-insert (node_refs c) k (f n) n t.nodes found,
      same_weight c,
    );
    places = λ j l.
        rw (update_node-found t k n found f, Laws.get-insert k j (f n) t.nodes)
          (elim (Bool-cases (bytes_eq k j)) [
            | inl same ↦ rw same (
                same_coord l
                ∙ sym (
                    ap (λ (o : Option Node). coord_of (coords_of o) l)
                      (ap (node_at t) (sym ((bytes_eq_iff k j).0 same)) ∙ found)))
            | inr other ↦ rw other refl
          ]);
    keys = Distinct-update_node t k f d;
  }

-- The file has coordinates for the bytes, and every file reads as before.
pub record Grows (e : StorageEngine) (k : Bytes) (byte_len : ℕ) (e' : StorageEngine) : Type 0 where
  pub plain : IsPlain e'
  pub mode : SameMode e e'
  pub node : Node
  pub there : node_at e'.table k ≡ some node
  pub long : logical_chunks byte_len ≤ length node.coords
  pub same_size : (m : Node) → node_at e.table k ≡ some m → node.size ≡ m.size
  pub same_kind : (m : Node) → node_at e.table k ≡ some m → node.is_dir ≡ m.is_dir
  pub files : Keeps e.table e'.table
  pub contents : (j : Bytes) (l i : ℕ) → content e' j l i ≡ content e j l i

module _ (e : StorageEngine) (v : IsPlain e) (path : Bytes) (byte_len : ℕ) where
  -- What can come of it.
  abbrev Grown : Outcome Done → Type 0
  Grown o =
      ((o ≡ (e, err no_space)) × (e.alloc.total < logical_chunks byte_len))
      ⊎ ((o ≡ (e, err (lookup not_found))) × (node_at e.table (normalize_key path) ≡ none))
      ⊎ ((e' : StorageEngine) × (o ≡ (e', ok tt)) × Grows e (normalize_key path) byte_len e')

  pub found-Grows :
      (n : Node)
      → node_at e.table (normalize_key path) ≡ some n
      → Grows e
          (normalize_key path)
          byte_len
          (change_node e path (with_room (logical_chunks byte_len)))
  found-Grows n found =
      let f = with_room (logical_chunks byte_len) in
      let s =
        update_node-SameRefs e.table (normalize_key path) n found v.keyed f
          (λ l. coord_of-padded (logical_chunks byte_len) l n.coords)
          (λ c. weigh-padded (logical_chunks byte_len) c n.coords) in
      record {
        plain = SameRefs-IsPlain e v (update_node e.table (normalize_key path) f) s;
        mode = record { total = refl; dedup = refl; compress = refl; verify = refl };
        node = f n;
        there =
            ap (λ (u : LookupTable). node_at u (normalize_key path))
              (update_node-found e.table (normalize_key path) n found f)
            ∙ Laws.get-insert (normalize_key path) (normalize_key path) (f n) e.table.nodes
            ∙ itself (f n);
        long = length-padded (logical_chunks byte_len) n.coords;
        same_size = λ m q. ap (λ (u : Node). u.size) (some-injective n m (sym found ∙ q));
        same_kind = λ m q. ap (λ (u : Node). u.is_dir) (some-injective n m (sym found ∙ q));
        files =
            update_node-Keeps e.table (normalize_key path) n found f refl (omega arith)
              (le-padded (logical_chunks byte_len) n.coords);
        contents = SameRefs-content e v (update_node e.table (normalize_key path) f) s;
      }
    where
      itself :
          (m : Node)
          → (if bytes_eq (normalize_key path) (normalize_key path)
              then some m
              else node_at e.table (normalize_key path))
            ≡ some m
      itself m = rw (bytes_eq_refl (normalize_key path)) refl

  -- On a plain engine `ensure_logical_len` fails where the bytes need more chunks than the disk has,
  -- or the file is unknown, and leaves the engine as it was; else the file has coordinates for that
  -- many bytes, every file reads as before, and the engine is plain.
  pub ensure_logical_len-Grows :
      ((ensure_logical_len e path byte_len ≡ (e, err no_space))
        × (e.alloc.total < logical_chunks byte_len))
      ⊎ ((ensure_logical_len e path byte_len ≡ (e, err (lookup not_found)))
          × (node_at e.table (normalize_key path) ≡ none))
      ⊎ ((e' : StorageEngine) × (ensure_logical_len e path byte_len ≡ (e', ok tt))
          × Grows e (normalize_key path) byte_len e')
  unfolding ensure_logical_len Table.get
  ensure_logical_len-Grows = elim (Bool-cases (ltb e.alloc.total (logical_chunks byte_len))) [
    | inl small ↦ by_true Grown _ _ _ small (inl (refl, ground (arith, small)))
    | inr fits ↦
        by_false Grown _ _ _ fits (elim (Option-cases (node_at e.table (normalize_key path))) [
          | inl unknown ↦ inr (inl (ap (grown e path (logical_chunks byte_len)) unknown, unknown))
          | inr (n, found) ↦
              inr (inr (_, ap (grown e path (logical_chunks byte_len)) found, found-Grows n found))
        ])
  ]
