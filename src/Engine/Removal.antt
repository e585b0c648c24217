-- ===== src/Engine/Removal.antt =====
-- src/engine.rs, `remove`: the file goes, and with it its references to the chunks.
use mathlib.Core.Option
use mathlib.Core.Option.{some-injective}
use vramdisk.Lookup.Key.{Bytes, normalize}
use vramdisk.Lookup.NodeMap.{bytes_eq}
use vramdisk.Lookup.NodeMap
use vramdisk.Lookup.NodeMap.Laws.{bytes_eq_iff, bytes_eq_refl}
use vramdisk.Lookup.NodeMap.Distinct.{Distinct, Distinct-remove}
use vramdisk.Lookup.Table.{
  Node, LookupTable, LookupError, node_at, update_node, drop_key, put, without_child,
}
use vramdisk.Lookup.Table.Rooted.{Removes, remove_lem}
use vramdisk.Placement.{Placement, Codec, raw, compressed}
use vramdisk.Engine.Result.{ok, err, lookup}
use vramdisk.Engine.Vram.{Vram}
use vramdisk.Engine.State.{StorageEngine, coord_of}
use vramdisk.Engine.Chunks.{free_coords, free_placement}
use vramdisk.Engine.Files.{removed_from}
use vramdisk.Engine.Files
use vramdisk.Engine.Accounts.{Refs, fewer, Accounts, SameFiles, SameFiles-refl, SameFiles-trans}
use vramdisk.Engine.Accounts.Release.{release_chunk-Accounts}
use vramdisk.Engine.Refs.{
  refs, refers, node_refs, weigh_values, weigh-insert, coords_of, placement_at,
  Distinct-update_node, update_node-found,
}
use vramdisk.Engine.Contents.{content, byte_of, IsPlain}
use vramdisk.Engine.Contents.Storing.{Accounts-cong, Accounts-files, SameMode}
use vramdisk.Common.{
  ℕ, suc, ◌+◌, ◌-◌, ◌≤◌, ◌<◌, ◌≡◌, ◌≢◌, ◌⊎◌, inl, inr, refl, sym, ap, ◌∙◌, subst, arith, List, [],
  ◌∷◌, Option, none, some, if◌then◌else◌, weigh, Bool-cases, Option-cases,
}

module _ {ℓ} {V : Type ℓ} (f : V → ℕ) where
  weigh-remove-none :
      (k : Bytes) (m : List (Bytes × V))
      → NodeMap.get k m ≡ none
      → weigh_values f (NodeMap.remove k m) ≡ weigh_values f m
  unfolding NodeMap.get NodeMap.remove
  weigh-remove-none k [] g = refl
  weigh-remove-none k ((j, w) ∷ m) g = elim (Bool-cases (bytes_eq j k)) [
    | inl same ↦ cc (rw same at g)
    | inr ne ↦ rw ne (omega (arith, weigh-remove-none k m (rw ne at g)))
  ]

  -- A key that is removed takes its weight with it.
  weigh-remove :
      (k : Bytes) (old : V) (m : List (Bytes × V))
      → Distinct m
      → NodeMap.get k m ≡ some old
      → weigh_values f (NodeMap.remove k m) + f old ≡ weigh_values f m
  unfolding NodeMap.get NodeMap.remove
  weigh-remove k old [] d g = cc
  weigh-remove k old ((j, w) ∷ m) d g = elim (Bool-cases (bytes_eq j k)) [
    | inl same ↦
        let here : w ≡ old = some-injective w old (rw same at g) in
        let later : NodeMap.get k m ≡ none =
          ap (λ (b : Bytes). NodeMap.get b m) (sym ((bytes_eq_iff j k).0 same)) ∙ d.0 in
        rw same (omega (arith, ap f here, weigh-remove-none k m later))
    | inr ne ↦ rw ne (omega (arith, weigh-remove k old m d.1 (rw ne at g)))
  ]

-- Renaming the children of a node moves no reference.
refs-without_child :
    (t : LookupTable) (k name : Bytes) (c : ℕ)
    → refs (update_node t k (λ p. without_child p name)) c ≡ refs t c
unfolding refs
refs-without_child t k name c = elim (Option-cases (node_at t k)) [
  | inl gone ↦ ap (λ (o : Option Node). refs (changed o) c) gone
  | inr (n, found) ↦ omega (
    arith,
    ap (λ (u : LookupTable). refs u c) (update_node-found t k n found (λ p. without_child p name)),
    weigh-insert (node_refs c) k (without_child n name) n t.nodes found,
  )
]
  where
    changed : Option Node → LookupTable
    changed o = elim o as (λ u. LookupTable) [ none ↦ t | some m ↦ put t k (without_child m name) ]

same_coords :
    (name : Bytes) (o : Option Node)
    → coords_of (Option.map (λ p. without_child p name) o) ≡ coords_of o
same_coords name none = refl
same_coords name (some m) = refl

module _ (t : LookupTable) (k : Bytes) (t' : LookupTable) (n : Node) (r : Removes t k t' n) where
  refs-Removes : Distinct t.nodes → (c : ℕ) → refs t' c + node_refs c n ≡ refs t c
  unfolding refs
  refs-Removes d c = omega (
    arith,
    ap (λ (u : LookupTable). refs u c) r.made,
    refs-without_child (drop_key t k) r.parent n.name c,
    weigh-remove (node_refs c) k n t.nodes d r.was_there,
  )

  Distinct-Removes : Distinct t.nodes → Distinct t'.nodes
  Distinct-Removes d =
      subst (λ (u : LookupTable). Distinct u.nodes) (sym r.made)
        (Distinct-update_node (drop_key t k) r.parent (λ p. without_child p n.name)
          (Distinct-remove k t.nodes d))

  placement_at-Removes :
      (j : Bytes) (l : ℕ)
      → placement_at t' j l ≡ (if bytes_eq k j then none else placement_at t j l)
  unfolding placement_at
  placement_at-Removes j l =
      ap (λ (o : Option Node). coord_of (coords_of o) l) (r.nodes_after j)
      ∙ elim (Bool-cases (bytes_eq k j)) [
        | inl gone ↦ rw gone refl
        | inr other ↦ elim (Bool-cases (bytes_eq r.parent j)) [
          | inl above ↦
              rw (other, above)
                (ap (λ (l2 : List (Option Placement)). coord_of l2 l)
                  (same_coords n.name (node_at t j)))
          | inr apart ↦ rw (other, apart) refl
        ]
      ]

-- The coordinates lose their references.
pub all_freed :
    (e : StorageEngine) (r : Refs)
    → Accounts e r
    → (coords : List (Option Placement))
    → ((l offset len : ℕ) (codec : Codec) → coord_of coords l ≢ some (compressed offset len codec))
    → ((c : ℕ) → weigh (refers c) coords ≤ r c)
    → Accounts (free_coords e coords) (λ c. r c - weigh (refers c) coords)
      × SameFiles e (free_coords e coords)
unfolding free_coords free_placement
all_freed e r acc [] raw_only enough =
    (Accounts-cong e r _ (λ d. omega arith) acc, SameFiles-refl e)
all_freed e r acc (none ∷ coords) raw_only enough =
    let (a, s) = all_freed e r acc coords (λ l. raw_only (suc l)) (λ c. omega (arith, enough c)) in
    (Accounts-cong (free_coords e coords) _ _ (λ d. omega arith) a, s)
all_freed e r acc (some (compressed offset len codec) ∷ coords) raw_only enough =
    absurd (raw_only 0 offset len codec refl)
all_freed e r acc (some (raw c) ∷ coords) raw_only enough =
    let one = enough c in
    let live : 0 < r c = ground (arith, one) in
    let (b, s) = release_chunk-Accounts e r acc c (ground (arith, acc.beyond c)) live in
    let (a, s2) =
      all_freed (free_placement e (raw c)) (fewer r c) b coords (λ l. raw_only (suc l))
        (λ d. ground (arith, enough d)) in
    (
      Accounts-cong (free_coords (free_placement e (raw c)) coords) _ _ (λ d. ground arith) a,
      SameFiles-trans e (free_placement e (raw c)) _ s s2,
    )

-- The file is gone with its references, the engine is plain, and no other file reads differently.
pub record Removed (e : StorageEngine) (k : Bytes) (n : Node) (e' : StorageEngine) : Type 0 where
  pub plain : IsPlain e'
  pub mode : SameMode e e'
  pub was_there : node_at e.table k ≡ some n
  pub gone : node_at e'.table k ≡ none
  pub freed : (c : ℕ) → refs e'.table c + node_refs c n ≡ refs e.table c
  pub contents :
      (j : Bytes) (l i : ℕ) → content e' j l i ≡ (if bytes_eq k j then 0 else content e j l i)

module _ (e : StorageEngine) (v : IsPlain e) (k : Bytes) (t : LookupTable) (n : Node)
    (r : Removes e.table k t n) where
  abbrev cut : StorageEngine
  cut = record e { table = t }

  own_raw :
      (l offset len : ℕ) (codec : Codec) → coord_of n.coords l ≢ some (compressed offset len codec)
  unfolding placement_at
  own_raw l offset len codec q =
      v.raw_only k l offset len codec
        (ap (λ (o : Option Node). coord_of (coords_of o) l) r.was_there ∙ q)

  emptied : Accounts (free_coords cut n.coords) (refs t) × SameFiles cut (free_coords cut n.coords)
  emptied =
      let (a, s) =
        all_freed cut (refs e.table) (Accounts-files e (refs e.table) t e.vram refl v.accounts)
          n.coords own_raw (λ c. omega (arith, refs-Removes e.table k t n r v.keyed c)) in
      (
        Accounts-cong (free_coords cut n.coords) _ _
            (λ c. omega (arith, refs-Removes e.table k t n r v.keyed c)) a,
        s,
      )

  module _ (f : StorageEngine) (acc : Accounts f (refs t)) (same : SameFiles cut f) where
    left :
        (j : Bytes) (l : ℕ)
        → placement_at f.table j l ≡ (if bytes_eq k j then none else placement_at e.table j l)
    left j l =
        ap (λ (u : LookupTable). placement_at u j l) same.table
        ∙ placement_at-Removes e.table k t n r j l

    left_raw :
        (j : Bytes) (l offset len : ℕ) (codec : Codec)
        → placement_at f.table j l ≢ some (compressed offset len codec)
    left_raw j l offset len codec q = elim (Bool-cases (bytes_eq k j)) [
      | inl here ↦ cc (q, rw here at (left j l))
      | inr off ↦ v.raw_only j l offset len codec (sym (rw off at (left j l)) ∙ q)
    ]

    left_content :
        (j : Bytes) (l i : ℕ) → content f j l i ≡ (if bytes_eq k j then 0 else content e j l i)
    unfolding content
    left_content j l i =
        ap (λ (u : Vram). byte_of u (placement_at f.table j l) i) same.vram
        ∙ ap (λ p. byte_of e.vram p i) (left j l)
        ∙ elim (Bool-cases (bytes_eq k j)) [ inl here ↦ rw here refl | inr off ↦ rw off refl ]

    cut-Removed : Removed e k n f
    cut-Removed = record {
      plain = record {
        accounts =
            Accounts-cong f (refs t) _ (λ c. ap (λ (u : LookupTable). refs u c) (sym same.table))
              acc;
        keyed =
            subst (λ (u : LookupTable). Distinct u.nodes) (sym same.table)
              (Distinct-Removes e.table k t n r v.keyed);
        raw_only = left_raw;
      };
      mode = record {
        total = same.total;
        dedup = same.dedup;
        compress = same.compress;
        verify = same.verify;
      };
      was_there = r.was_there;
      gone = ap (λ (u : LookupTable). node_at u k) same.table ∙ r.nodes_after k ∙ itself;
      freed = λ c. omega (
        arith,
        ap (λ (u : LookupTable). refs u c) same.table,
        refs-Removes e.table k t n r v.keyed c,
      );
      contents = left_content;
    }
      where
        itself :
            (if bytes_eq k k
              then none
              else if bytes_eq r.parent k
              then Option.map (λ p. without_child p n.name) (node_at e.table k)
              else node_at e.table k)
            ≡ none
        itself = rw (bytes_eq_refl k) refl

-- On a plain engine `remove` either fails and leaves the engine as it was, or takes the file away:
-- its references leave the books, so that chunks of no other file are free again, every other file
-- reads as before, and the engine is plain.
pub remove-Removed :
    (e : StorageEngine)
    → IsPlain e
    → (path : Bytes)
    → ((x : LookupError) × (Files.remove e path ≡ (e, err (lookup x))))
      ⊎ ((e' : StorageEngine) × (n : Node) × (Files.remove e path ≡ (e', ok tt))
          × Removed e (normalize path) n e')
unfolding Files.remove removed_from
remove-Removed e v path = elim (remove_lem e.table path) [
  | inl (x, q) ↦ inl (x, ap (removed_from e) q)
  | inr (t, n, q, r) ↦
      let (a, s) = emptied e v (normalize path) t n r in
      inr (
        free_coords (record e { table = t }) n.coords,
        n,
        ap (removed_from e) q,
        cut-Removed e v (normalize path) t n r _ a s,
      )
]
