-- ===== src/Engine/Writes/Exclusive.antt =====
-- src/engine.rs, `make_exclusive`: the chunk of a logical chunk becomes its own, with the same bytes.
use vramdisk.Lookup.Key.{Bytes, normalize_key}
use vramdisk.Lookup.Table.{Node, LookupTable, node_at}
use vramdisk.Placement.{Placement, raw}
use vramdisk.Units.{chunk_size}
use vramdisk.Chunk.{free}
use vramdisk.Engine.Result.{ok, err, no_space}
use vramdisk.Engine.Vram.{Vram, zeroed, moved, zero_at_inside, copy_within_inside, write_at_inside}
use vramdisk.Engine.State.{External, StorageEngine, coord, set_coord, index_remove, release_chunk}
use vramdisk.Engine.Chunks.{make_exclusive, free_old, free_placement}
use vramdisk.Engine.Store.{write_exclusive}
use vramdisk.Engine.Accounts.{Accounts, SameFiles, SameFiles-refl, Allots}
use vramdisk.Engine.Accounts.Alloc.{alloc_chunk_lem}
use vramdisk.Engine.Accounts.Index.{index_remove_lem}
use vramdisk.Engine.Refs.{refs, placement_at}
use vramdisk.Engine.Contents.{content, byte_of, IsPlain, coord_lem, placement_cases}
use vramdisk.Engine.Contents.Storing.{
  Stores, Stores-cong, Stores-trans, Stores_here, Written, fresh-IsReady, unchanged-Stores,
}
use vramdisk.Engine.Contents.Commit.{known-Stores, known-coord, known-refs}
use vramdisk.Engine.Contents.Overlay.{
  overlay, overlay_cong, zeroed_elsewhere, zeroed_here, moved_elsewhere, moved_here,
}
use vramdisk.Engine.Writes.InPlace.{poked-Stores, chunk_in_file}
use vramdisk.Common.{
  ℕ, ◌+◌, ◌*◌, ◌≤◌, ◌<◌, ◌≡◌, ◌≢◌, ◌⊎◌, inl, inr, refl, sym, ap, ◌∙◌, arith, Option, none, some,
  false, ltb, ◌&&◌, if◌then◌else◌, length, Bool-cases, get_or, by_true, by_false,
}

-- The logical chunk has the chunk `c` for its own, and the contents are the same.
pub record Owns (e : StorageEngine) (path : Bytes) (lc : ℕ) (a : StorageEngine) (c : ℕ)
    : Type 0 where
  pub stores : Stores e (normalize_key path) lc (content e (normalize_key path) lc) a
  pub here : coord a path lc ≡ some (raw c)
  pub own : refs a.table c ≡ 1

module _ (e : StorageEngine) (v : IsPlain e) (path : Bytes) (lc : ℕ) (n : Node)
    (found : node_at e.table (normalize_key path) ≡ some n) (lt : lc < length n.coords) where
  abbrev k : Bytes
  k = normalize_key path

  -- A fresh chunk with the old contents.
  Owns-fresh :
      (a : StorageEngine) (c : ℕ) (bytes : ℕ → ℕ) (p : Option Placement)
      → Allots e (refs e.table) a c
      → coord e path lc ≡ p
      → ((d i : ℕ)
          → i < chunk_size
          → d ≢ c
          → bytes (d * chunk_size + i) ≡ a.vram.byte (d * chunk_size + i))
      → ((i : ℕ) → i < chunk_size → bytes (c * chunk_size + i) ≡ content e k lc i)
      → Owns e path lc
          (set_coord
            (free_old (record a { vram = record { size = a.vram.size; byte = bytes } }) p)
            path
            lc
            (some (raw c)))
          c
  Owns-fresh a c bytes p al old other same =
      let ready =
        fresh-IsReady e c a (record { size = a.vram.size; byte = bytes }) al
          (ap (λ (u : Vram). u.size) al.same.vram)
          (λ d i low ne.
            other d i low ne ∙ ap (λ (u : Vram). u.byte (d * chunk_size + i)) al.same.vram) in
      record {
        stores =
            Stores-cong e k lc _ _ _ same (known-Stores e v path lc n found lt c _ ready p old);
        here = known-coord e v path lc n found lt c _ ready p old;
        own = known-refs e v path lc n found lt c _ ready p old al.was_free;
      }

  module _ (a : StorageEngine) (c : ℕ) (al : Allots e (refs e.table) a c) where
    room : (d : ℕ) → d < e.alloc.total → d * chunk_size + chunk_size ≤ a.vram.size
    room d below = omega (arith, below, v.accounts.fits, ap (λ (u : Vram). u.size) al.same.vram)

    Owns-zeroed :
        coord e path lc ≡ none
        → Owns e path lc
            (set_coord
              (record a {
                vram = record {
                  size = a.vram.size;
                  byte = zeroed a.vram.byte (c * chunk_size) chunk_size;
                };
              })
              path
              lc
              (some (raw c)))
            c
    unfolding content
    Owns-zeroed hole =
        Owns-fresh a c (zeroed a.vram.byte (c * chunk_size) chunk_size) none al hole
          (λ d i low ne. zeroed_elsewhere a.vram.byte c d i low ne)
          (λ i low.
            zeroed_here a.vram.byte c i low
            ∙ sym (ap (λ p. byte_of e.vram p i) (sym (coord_lem e path lc) ∙ hole)))

    Owns-copied :
        (d : ℕ)
        → coord e path lc ≡ some (raw d)
        → Owns e path lc
            (set_coord
              (release_chunk
                (record a {
                  vram = record {
                    size = a.vram.size;
                    byte = moved a.vram.byte (d * chunk_size) (c * chunk_size) chunk_size;
                  };
                })
                d)
              path
              lc
              (some (raw c)))
            c
    unfolding content free_placement
    Owns-copied d here =
        Owns-fresh a c (moved a.vram.byte (d * chunk_size) (c * chunk_size) chunk_size)
          (some (raw d)) al here (λ j i low ne. moved_elsewhere a.vram.byte c j i low ne d)
          (λ i low.
            moved_here a.vram.byte c i low d
            ∙ ap (λ (u : Vram). u.byte (d * chunk_size + i)) al.same.vram
            ∙ sym (ap (λ p. byte_of e.vram p i) (sym (coord_lem e path lc) ∙ here)))

  -- A chunk that is not shared leaves the index only.
  Owns-kept :
      (f : StorageEngine) (c : ℕ)
      → SameFiles e f
      → Accounts f (refs e.table)
      → coord e path lc ≡ some (raw c)
      → refs e.table c ≡ 1
      → Owns e path lc f c
  Owns-kept f c same acc here own = record {
    stores = unchanged-Stores e k lc f v same acc;
    here =
        coord_lem f path lc
        ∙ ap (λ (t : LookupTable). placement_at t k lc) same.table
        ∙ sym (coord_lem e path lc)
        ∙ here;
    own = ap (λ (t : LookupTable). refs t c) same.table ∙ own;
  }

  kept_case :
      (c : ℕ)
      → coord e path lc ≡ some (raw c)
      → (e.dedup && ltb 1 (get_or e.refcount c 0)) ≡ false
      → Owns e path lc (if e.dedup then index_remove e c else e) c
  kept_case c here alone =
      let (below, live) = chunk_in_file e v path lc c here in
      elim (Bool-cases e.dedup) [
        | inl shared ↦
            let (acc, out, s, _, _) = index_remove_lem e (refs e.table) v.accounts c in
            by_true (λ (f : StorageEngine). Owns e path lc f c) _ _ _ shared
              (Owns-kept (index_remove e c) c s acc here
                (ground (arith, shared, live, v.accounts.counted shared c below)))
        | inr plain ↦
            by_false (λ (f : StorageEngine). Owns e path lc f c) _ _ _ plain
              (Owns-kept e c (SameFiles-refl e) v.accounts here
                (omega (arith, live, v.accounts.single plain c)))
      ]

  -- On a plain engine, for a logical chunk that the file has, `make_exclusive` either fails because
  -- no chunk is free and leaves the engine as it was, or gives a chunk to which that coordinate is the
  -- only reference, and every logical chunk of every file reads as before.
  pub make_exclusive_lem :
      (x : External)
      → ((make_exclusive x e path lc ≡ (e, err no_space)) × (free e.alloc ≡ 0))
        ⊎ ((a : StorageEngine) × (c : ℕ) × (make_exclusive x e path lc ≡ (a, ok c))
            × Owns e path lc a c)
  unfolding make_exclusive
  make_exclusive_lem x = elim (placement_cases e v k lc) [
    | inl hole ↦
        rw (coord_lem e path lc ∙ hole, make_exclusive)
          (elim (alloc_chunk_lem e (refs e.table) v.accounts) [
            | inl (q, full) ↦ rw q (inl (refl, full))
            | inr (a, c, q, al) ↦
                rw
                  (
                    q,
                    zero_at_inside a.vram (c * chunk_size) chunk_size (omega arith)
                        (room a c al c al.below),
                  )
                  (inr (_, c, refl, Owns-zeroed a c al (coord_lem e path lc ∙ hole)))
          ])
    | inr (d, here, below, live) ↦
        rw (coord_lem e path lc ∙ here, make_exclusive)
          (elim (Bool-cases (e.dedup && ltb 1 (get_or e.refcount d 0))) [
            | inl shared ↦ rw shared (elim (alloc_chunk_lem e (refs e.table) v.accounts) [
              | inl (q, full) ↦ rw q (inl (refl, full))
              | inr (a, c, q, al) ↦
                  rw
                    (
                      q,
                      copy_within_inside a.vram (d * chunk_size) (c * chunk_size) chunk_size
                          (omega arith) (room a c al d below) (room a c al c al.below),
                    )
                    (inr (_, c, refl, Owns-copied a c al d (coord_lem e path lc ∙ here)))
            ])
            | inr alone ↦
                rw alone (inr (_, d, refl, kept_case d (coord_lem e path lc ∙ here) alone))
          ])
  ]

  -- Writing into the chunk that the file owns.
  pub write_exclusive_lem :
      (x : External) (off : ℕ) (sub : Bytes)
      → 0 < length sub
      → off + length sub ≤ chunk_size
      → Written e
          (normalize_key path)
          lc
          (overlay off sub (content e (normalize_key path) lc))
          (write_exclusive x e path lc off sub)
  unfolding write_exclusive
  write_exclusive_lem x off sub some_bytes fits = elim (make_exclusive_lem x) [
    | inl (q, full) ↦ rw (q, write_exclusive) (inl (refl, full))
    | inr (a, c, q, o) ↦
        let plain = o.stores.plain in
        let (below, live) = chunk_in_file a plain path lc c o.here in
        rw (q, write_exclusive)
          (rw
            (write_at_inside a.vram (c * chunk_size + off) sub some_bytes
              (omega (arith, below, plain.accounts.fits)))
            (inr (
              _,
              refl,
              Stores-trans e k lc _ _ a _ o.stores (
                  Stores-cong a k lc _ _ _
                    (λ i low. overlay_cong off sub _ _ i (Stores_here e k lc _ a o.stores i low))
                    (poked-Stores a plain path lc c o.here o.own a (SameFiles-refl a) plain.accounts
                      off sub fits)),
            )))
  ]
