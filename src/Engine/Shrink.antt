-- ===== src/Engine/Shrink.antt =====
-- src/engine.rs, `set_size` to a smaller size: chunks beyond the end are freed.
use vramdisk.Lookup.Key.{Bytes}
use vramdisk.Lookup.NodeMap.{bytes_eq}
use vramdisk.Lookup.NodeMap.Laws
use vramdisk.Lookup.NodeMap.Laws.{bytes_eq_iff, bytes_eq_refl}
use vramdisk.Lookup.NodeMap.Distinct.{Distinct}
use vramdisk.Lookup.Table.{Node, LookupTable, node_at, update_node}
use vramdisk.Placement.{Placement, Codec, compressed}
use vramdisk.Units.{chunk_size}
use vramdisk.Engine.Vram.{Vram}
use vramdisk.Engine.State.{StorageEngine, coord_of}
use vramdisk.Engine.Chunks.{free_coords}
use vramdisk.Engine.Accounts.{Accounts, SameFiles}
use vramdisk.Engine.Refs.{
  refs, refers, node_refs, weigh-insert, coords_of, placement_at, Distinct-update_node,
  update_node-found,
}
use vramdisk.Engine.Contents.{content, byte_of, IsPlain}
use vramdisk.Engine.Contents.Storing.{Accounts-cong, Accounts-files, SameMode}
use vramdisk.Engine.Removal.{all_freed}
use vramdisk.Common.{
  ℕ, zero, suc, ◌+◌, ◌*◌, ◌<◌, ◌≡◌, ◌≢◌, inl, inr, refl, sym, ap, ◌∙◌, subst, arith, List, [], ◌∷◌,
  Option, none, some, Bool, ltb, leb, ◌&&◌, if◌then◌else◌, weigh, take, drop, Bool-cases,
}

coord_of-take :
    (n i : ℕ) (l : List (Option Placement))
    → coord_of (take n l) i ≡ (if ltb i n then coord_of l i else none)
coord_of-take zero i l = ground arith
coord_of-take (suc n) i [] = ground arith
coord_of-take (suc n) zero (p ∷ l) = ground arith
coord_of-take (suc n) (suc i) (p ∷ l) = coord_of-take n i l ∙ ground arith

coord_of-drop : (n i : ℕ) (l : List (Option Placement)) → coord_of (drop n l) i ≡ coord_of l (n + i)
coord_of-drop zero i l = ap (coord_of l) (omega arith)
coord_of-drop (suc n) i [] = refl
coord_of-drop (suc n) i (p ∷ l) = coord_of-drop n i l ∙ ap (coord_of (p ∷ l)) next
  where
    next : suc (n + i) ≡ suc n + i
    next = omega arith

weigh-take-drop :
    (f : Option Placement → ℕ) (n : ℕ) (l : List (Option Placement))
    → weigh f (take n l) + weigh f (drop n l) ≡ weigh f l
weigh-take-drop f zero l = omega arith
weigh-take-drop f (suc n) [] = refl
weigh-take-drop f (suc n) (p ∷ l) = omega (arith, weigh-take-drop f n l)

-- The engine is plain, and of the one file the bytes from `size` on are gone.
pub record Cuts (e : StorageEngine) (k : Bytes) (size : ℕ) (e' : StorageEngine) : Type 0 where
  pub plain : IsPlain e'
  pub mode : SameMode e e'
  pub contents :
      (j : Bytes) (l i : ℕ)
      → i < chunk_size
      → content e' j l i
        ≡ (if bytes_eq k j && leb size (l * chunk_size + i) then 0 else content e j l i)

abbrev pub shorter : ℕ → Node → Node
shorter chunks m = record m { coords = take chunks m.coords }

module _ (e : StorageEngine) (v : IsPlain e) (k : Bytes) (n : Node)
    (found : node_at e.table k ≡ some n) (chunks : ℕ) where
  abbrev cut_table : LookupTable
  cut_table = update_node e.table k (shorter chunks)

  refs_left : (c : ℕ) → refs cut_table c + weigh (refers c) (drop chunks n.coords) ≡ refs e.table c
  unfolding refs
  refs_left c = omega (
    arith,
    ap (λ (u : LookupTable). refs u c) (update_node-found e.table k n found (shorter chunks)),
    weigh-insert (node_refs c) k (shorter chunks n) n e.table.nodes found,
    weigh-take-drop (refers c) chunks n.coords,
  )

  places_left :
      (j : Bytes) (l : ℕ)
      → placement_at cut_table j l
        ≡ (if bytes_eq k j && leb chunks l then none else placement_at e.table j l)
  unfolding placement_at
  places_left j l =
      rw
        (
          update_node-found e.table k n found (shorter chunks),
          Laws.get-insert k j (shorter chunks n) e.table.nodes,
        )
        (elim (Bool-cases (bytes_eq k j)) [
          | inl same ↦ rw same (
              coord_of-take chunks l n.coords
              ∙ flip l (coord_of n.coords l) (placement_at e.table j l)
                  (old j l ((bytes_eq_iff k j).0 same)))
          | inr other ↦ rw other refl
        ])
    where
      flip :
          (l : ℕ) (a b : Option Placement)
          → a ≡ b
          → (if ltb l chunks then a else none) ≡ (if leb chunks l then none else b)
      flip l a b q = ground (arith, q)

      old : (j : Bytes) (l : ℕ) → k ≡ j → coord_of n.coords l ≡ placement_at e.table j l
      old j l same = sym (
          ap (λ (o : Option Node). coord_of (coords_of o) l)
            (ap (node_at e.table) (sym same) ∙ found))

  own_raw :
      (l offset len : ℕ) (codec : Codec)
      → coord_of (drop chunks n.coords) l ≢ some (compressed offset len codec)
  unfolding placement_at
  own_raw l offset len codec q = v.raw_only k (chunks + l) offset len codec (
      ap (λ (o : Option Node). coord_of (coords_of o) (chunks + l)) found
      ∙ sym (coord_of-drop chunks l n.coords)
      ∙ q)

  abbrev cut : StorageEngine
  cut = record e { table = cut_table }

  pub freed :
      Accounts (free_coords cut (drop chunks n.coords)) (refs cut_table)
      × SameFiles cut (free_coords cut (drop chunks n.coords))
  freed =
      let (a, s) =
        all_freed cut (refs e.table)
          (Accounts-files e (refs e.table) cut_table e.vram refl v.accounts) (drop chunks n.coords)
          own_raw (λ c. omega (arith, refs_left c)) in
      (
        Accounts-cong (free_coords cut (drop chunks n.coords)) _ _ (λ c. omega (arith, refs_left c))
            a,
        s,
      )

  module _ (f : StorageEngine) (acc : Accounts f (refs cut_table)) (same : SameFiles cut f) where
    left :
        (j : Bytes) (l : ℕ)
        → placement_at f.table j l
          ≡ (if bytes_eq k j && leb chunks l then none else placement_at e.table j l)
    left j l = ap (λ (u : LookupTable). placement_at u j l) same.table ∙ places_left j l

    left_raw :
        (j : Bytes) (l offset len : ℕ) (codec : Codec)
        → placement_at f.table j l ≢ some (compressed offset len codec)
    left_raw j l offset len codec q = elim (Bool-cases (bytes_eq k j && leb chunks l)) [
      | inl here ↦ cc (q, rw here at (left j l))
      | inr off ↦ v.raw_only j l offset len codec (sym (rw off at (left j l)) ∙ q)
    ]

    left_content :
        (j : Bytes) (l i : ℕ)
        → i < chunk_size
        → content f j l i ≡ (
            if bytes_eq k j && leb (chunks * chunk_size) (l * chunk_size + i)
            then 0
            else content e j l i)
    unfolding content
    left_content j l i low =
        ap (λ (u : Vram). byte_of u (placement_at f.table j l) i) same.vram
        ∙ ap (λ p. byte_of e.vram p i) (left j l)
        ∙ ap
            (λ (b : Bool).
              byte_of e.vram (if bytes_eq k j && b then none else placement_at e.table j l) i)
            (scaled l i low)
        ∙ elim (Bool-cases (bytes_eq k j && leb (chunks * chunk_size) (l * chunk_size + i))) [
          | inl here ↦ rw here refl
          | inr off ↦ rw off refl
        ]
      where
        scaled :
            (l i : ℕ)
            → i < chunk_size
            → leb chunks l ≡ leb (chunks * chunk_size) (l * chunk_size + i)
        scaled l i low = ground arith

    pub freed-Cuts : Cuts e k (chunks * chunk_size) f
    freed-Cuts = record {
      plain = record {
        accounts =
            Accounts-cong f (refs cut_table) _
              (λ c. ap (λ (u : LookupTable). refs u c) (sym same.table)) acc;
        keyed =
            subst (λ (u : LookupTable). Distinct u.nodes) (sym same.table)
              (Distinct-update_node e.table k (shorter chunks) v.keyed);
        raw_only = left_raw;
      };
      mode = record {
        total = same.total;
        dedup = same.dedup;
        compress = same.compress;
        verify = same.verify;
      };
      contents = left_content;
    }
