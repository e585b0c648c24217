-- ===== src/Engine/Contents/Commit.antt =====
-- src/engine.rs: the end of every way of storing a chunk, `free_placement` of the old placement and
-- `set_coord` of the new one, against the view of `Engine.Contents`.
use vramdisk.Engine.Contents.Storing.{Accounts-cong, Accounts-files, IsReady, Stores}
use vramdisk.Lookup.Key.{Bytes, normalize_key}
use vramdisk.Lookup.NodeMap.{bytes_eq}
use vramdisk.Lookup.NodeMap.Distinct.{Distinct}
use vramdisk.Lookup.Table.{Node, LookupTable, node_at, update_node}
use vramdisk.Placement.{Placement, Codec, raw, compressed}
use vramdisk.Units.{chunk_size}
use vramdisk.Engine.Vram.{Vram}
use vramdisk.Engine.State.{StorageEngine, coord, set_coord, coord_of}
use vramdisk.Engine.Chunks.{free_old, free_placement}
use vramdisk.Engine.Accounts.{Refs, more, fewer, Accounts, SameFiles, SameFiles-refl}
use vramdisk.Engine.Accounts.Release.{release_chunk-Accounts}
use vramdisk.Engine.Refs.{
  Distinct-update_node, refs, refers, placement_at, with_coord, coords_of, refs-update_node,
  placement_at-update_node,
}
use vramdisk.Engine.Nodes.{bare_at, bare_at-update_node}
use vramdisk.Engine.Contents.{content, byte_of, IsPlain, coord_lem, placement_cases}
use vramdisk.Lookup.NodeMap.Laws.{bytes_eq_refl}
use vramdisk.Common.{
  ==_refl, ℕ, ◌+◌, ◌-◌, ◌*◌, ◌<◌, ◌≡◌, ◌≢◌, ◌⊎◌, inl, inr, refl, sym, ap, ◌∙◌, subst, arith, Option,
  none, some, ◌==◌, ◌&&◌, if◌then◌else◌, length, Bool-cases,
}

abbrev pub less_one : Refs → Option Placement → Refs
less_one r p d = r d - refers d p

module _ (e : StorageEngine) (r : Refs) (acc : Accounts e r) where
  -- The old placement loses its reference.
  pub free_old-Accounts :
      (p : Option Placement)
      → (p ≡ none) ⊎ ((c : ℕ) × (p ≡ some (raw c)) × (c < e.alloc.total) × (0 < r c))
      → Accounts (free_old e p) (less_one r p) × SameFiles e (free_old e p)
  unfolding free_placement
  free_old-Accounts p (inl hole) =
      rw hole (Accounts-cong e r _ (λ d. omega arith) acc, SameFiles-refl e)
  free_old-Accounts p (inr (c, q, lt, live)) =
      let (a, s) = release_chunk-Accounts e r acc c lt live in
      rw q (Accounts-cong _ (fewer r c) _ (λ d. ground arith) a, s)

module _ (e : StorageEngine) (v : IsPlain e) (path : Bytes) (lc : ℕ) (n : Node)
    (found : node_at e.table (normalize_key path) ≡ some n) (lt : lc < length n.coords) (c : ℕ)
    (e1 : StorageEngine) (ready : IsReady e c e1) where
  abbrev k : Bytes
  k = normalize_key path

  old_cases :
      (coord e path lc ≡ none)
      ⊎ ((d : ℕ) × (coord e path lc ≡ some (raw d))
          × (d < e1.alloc.total)
          × (0 < more (refs e.table) c d))
  old_cases = elim (placement_cases e v (normalize_key path) lc) [
    | inl hole ↦ inl (coord_lem e path lc ∙ hole)
    | inr (d, q, lt, live) ↦
        inr (d, coord_lem e path lc ∙ q, omega (arith, ready.mode.total), ground arith)
  ]

  abbrev freed : StorageEngine
  freed = free_old e1 (coord e path lc)

  freed-Accounts :
      Accounts freed (less_one (more (refs e.table) c) (coord e path lc)) × SameFiles e1 freed
  freed-Accounts =
      free_old-Accounts e1 (more (refs e.table) c) ready.accounts (coord e path lc) old_cases

  abbrev listed : LookupTable
  listed = update_node e.table k (with_coord lc (some (raw c)))

  old_coord : coord_of n.coords lc ≡ coord e path lc
  unfolding placement_at
  old_coord = sym (coord_lem e path lc ∙ ap (λ (o : Option Node). coord_of (coords_of o) lc) found)

  one_more : (d : ℕ) → refs e.table d + refers d (some (raw c)) ≡ more (refs e.table) c d
  one_more d = ground arith

  -- The books count the new table.
  recount : (d : ℕ) → less_one (more (refs e.table) c) (coord e path lc) d ≡ refs listed d
  recount d = omega (
    arith,
    refs-update_node e.table k n found lc (some (raw c)) d lt,
    one_more d,
    ap (refers d) old_coord,
  )

  -- The bytes of the other logical chunks.
  others :
      (j : Bytes) (l i : ℕ)
      → i < chunk_size
      → byte_of e1.vram (placement_at e.table j l) i ≡ content e j l i
  unfolding content
  others j l i low = elim (placement_cases e v j l) [
    | inl hole ↦ ap (λ p. byte_of e1.vram p i) hole ∙ sym (ap (λ p. byte_of e.vram p i) hole)
    | inr (d, q, below, live) ↦
        ap (λ p. byte_of e1.vram p i) q
        ∙ ready.kept d i below live low
        ∙ sym (ap (λ p. byte_of e.vram p i) q)
  ]

  module _ (f : StorageEngine) (same : SameFiles e1 f) (acc : Accounts f (refs listed)) where
    new_table : f.table ≡ e.table
    new_table = same.table ∙ ready.table

    placed :
        (j : Bytes) (l : ℕ)
        → placement_at (set_coord f path lc (some (raw c))).table j l
          ≡ (if bytes_eq k j && lc == l then some (raw c) else placement_at e.table j l)
    unfolding set_coord
    placed j l =
        ap (λ (t : LookupTable). placement_at (update_node t k (with_coord lc (some (raw c)))) j l)
          new_table
        ∙ placement_at-update_node e.table k n found lc (some (raw c)) j l lt

    stored_raw :
        (j : Bytes) (l offset len : ℕ) (codec : Codec)
        → placement_at (set_coord f path lc (some (raw c))).table j l
          ≢ some (compressed offset len codec)
    stored_raw j l offset len codec q = elim (Bool-cases (bytes_eq k j && lc == l)) [
      | inl here ↦ cc (q, rw here at (placed j l))
      | inr off ↦ v.raw_only j l offset len codec (sym (rw off at (placed j l)) ∙ q)
    ]

    stored_content :
        (j : Bytes) (l i : ℕ)
        → i < chunk_size
        → content (set_coord f path lc (some (raw c))) j l i
          ≡ (if bytes_eq k j && lc == l then e1.vram.byte (c * chunk_size + i) else content e j l i)
    unfolding set_coord content
    stored_content j l i low =
        ap (λ (w : Vram). byte_of w (placement_at (set_coord f path lc (some (raw c))).table j l) i)
          same.vram
        ∙ ap (λ p. byte_of e1.vram p i) (placed j l)
        ∙ elim (Bool-cases (bytes_eq k j && lc == l)) [
          | inl here ↦ rw here refl
          | inr off ↦ rw off (others j l i low)
        ]

    finish :
        Stores e
          (normalize_key path)
          lc
          (λ i. e1.vram.byte (c * chunk_size + i))
          (set_coord f path lc (some (raw c)))
    unfolding set_coord
    finish = record {
      plain = record {
        accounts =
            Accounts-files f _ (update_node f.table k (with_coord lc (some (raw c)))) f.vram refl (
              Accounts-cong f (refs listed) _
                (λ d.
                  ap (λ (t : LookupTable). refs (update_node t k (with_coord lc (some (raw c)))) d)
                    (sym new_table))
                acc);
        keyed =
            Distinct-update_node f.table k (with_coord lc (some (raw c)))
              (subst (λ (t : LookupTable). Distinct t.nodes) (sym new_table) v.keyed);
        raw_only = stored_raw;
      };
      mode = record {
        total = same.total ∙ ready.mode.total;
        dedup = same.dedup ∙ ready.mode.dedup;
        compress = same.compress ∙ ready.mode.compress;
        verify = same.verify ∙ ready.mode.verify;
      };
      nodes = λ j.
          ap (λ (t : LookupTable). bare_at (update_node t k (with_coord lc (some (raw c)))) j)
            new_table
          ∙ bare_at-update_node e.table k n found lc (some (raw c)) j;
      contents = stored_content;
    }

  -- Freeing the old placement and setting the new one stores the bytes of the chunk.
  pub set_coord-Stores :
      Stores e
        (normalize_key path)
        lc
        (λ i. e1.vram.byte (c * chunk_size + i))
        (set_coord (free_old e1 (coord e path lc)) path lc (some (raw c)))
  set_coord-Stores =
      let (a, s) = freed-Accounts in finish freed s (Accounts-cong freed _ (refs listed) recount a)

  -- The same, where the old placement is known.
  pub known-Stores :
      (p : Option Placement)
      → coord e path lc ≡ p
      → Stores e
          (normalize_key path)
          lc
          (λ i. e1.vram.byte (c * chunk_size + i))
          (set_coord (free_old e1 p) path lc (some (raw c)))
  known-Stores p q =
      subst
        (λ (o : Option Placement).
          Stores e (normalize_key path) lc (λ i. e1.vram.byte (c * chunk_size + i))
            (set_coord (free_old e1 o) path lc (some (raw c))))
        q set_coord-Stores

  -- The coordinate is the chunk, and where the table did not refer to it before, the only one.
  pub known-coord :
      (p : Option Placement)
      → coord e path lc ≡ p
      → coord (set_coord (free_old e1 p) path lc (some (raw c))) path lc ≡ some (raw c)
  known-coord p q =
      let (a, s) = freed-Accounts in
      subst
        (λ (o : Option Placement).
          coord (set_coord (free_old e1 o) path lc (some (raw c))) path lc ≡ some (raw c))
        q
        (coord_lem (set_coord freed path lc (some (raw c))) path lc
          ∙ placed freed s (Accounts-cong freed _ (refs listed) recount a) k lc
          ∙ both)
    where
      both :
          (if bytes_eq k k && lc == lc then some (raw c) else placement_at e.table k lc)
          ≡ some (raw c)
      both = rw (bytes_eq_refl k, ==_refl lc) refl

  pub known-refs :
      (p : Option Placement)
      → coord e path lc ≡ p
      → refs e.table c ≡ 0
      → refs (set_coord (free_old e1 p) path lc (some (raw c))).table c ≡ 1
  unfolding set_coord
  known-refs p q unused =
      let (a, s) = freed-Accounts in
      subst
        (λ (o : Option Placement).
          refs (set_coord (free_old e1 o) path lc (some (raw c))).table c ≡ 1)
        q
        (ap (λ (t : LookupTable). refs (update_node t k (with_coord lc (some (raw c)))) c)
            (new_table freed s (Accounts-cong freed _ (refs listed) recount a))
          ∙ sym (recount c)
          ∙ one_left)
    where
      other : refers c (coord e path lc) ≡ 0
      other = elim (placement_cases e v (normalize_key path) lc) [
        | inl hole ↦ rw (coord_lem e path lc ∙ hole) refl
        | inr (d, q, lt, live) ↦ rw (coord_lem e path lc ∙ q) (ground (arith, live, unused))
      ]

      one_left : less_one (more (refs e.table) c) (coord e path lc) c ≡ 1
      one_left = ground (arith, other, unused)
