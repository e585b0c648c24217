-- ===== src/Engine/Accounts/Index.antt =====
-- src/engine.rs, `index_remove`: chunks leave the dedup index.
use vramdisk.Engine.Accounts.{Refs, IsIndexed, Accounts, SameFiles, SameFiles-refl}
use vramdisk.Placement.{Placement, raw, compressed}
use vramdisk.Engine.Dict.{get-insert, get-remove}
use vramdisk.Engine.Dict
use vramdisk.Engine.State.{StorageEngine, set_refcount, index_remove, is_raw}
use vramdisk.Common.{
  ℕ, ◌≡◌, ◌≢◌, inl, inr, refl, sym, ap, ◌∙◌, arith, List, Option, none, some, true, false, ◌==◌,
  if◌then◌else◌, length, get_or, set, length-set, get_or-set_ne, Bool-cases, Option-cases, ==_refl,
  by_true, by_false,
}

-- No entry of the index is the chunk.
abbrev pub NotIndexed : StorageEngine → ℕ → Type 0
NotIndexed e c = (h : ℕ) → Dict.get h e.hash_index ≢ some (raw c)

chunk_of : Placement → ℕ
chunk_of (raw d) = d
chunk_of (compressed offset len codec) = 0

raw_injective : (a b : ℕ) → raw a ≡ raw b → a ≡ b
unfolding chunk_of
raw_injective a b q = ap chunk_of q

hash_of : Option ℕ → ℕ
hash_of none = 0
hash_of (some h) = h

module _ (e : StorageEngine) (r : Refs) (acc : Accounts e r) where
  -- A chunk without references is not in the index.
  pub unreferenced-NotIndexed : (c : ℕ) → r c ≡ 0 → NotIndexed e c
  unreferenced-NotIndexed c z h g =
      let i = acc.indexed h (raw c) g in
      absurd (omega (arith, i.live, z, ap r (raw_injective c i.chunk i.is)))

  -- An entry for the chunk has the hash that the chunk knows.
  pub entry_hash :
      (c h : ℕ) → Dict.get h e.hash_index ≡ some (raw c) → get_or e.chunk_hash c none ≡ some h
  entry_hash c h g =
      let i = acc.indexed h (raw c) g in
      ap (λ (d : ℕ). get_or e.chunk_hash d none) (raw_injective c i.chunk i.is) ∙ i.hashed

  -- Books in which only the index is different.
  reindexed :
      (ch : List (Option ℕ)) (hi : Dict.Dict Placement)
      → length ch ≡ length e.chunk_hash
      → (e.dedup ≡ false → (c : ℕ) → get_or ch c none ≡ none)
      → ((h : ℕ) (p : Placement)
          → Dict.get h hi ≡ some p
          → IsIndexed (record e { chunk_hash = ch; hash_index = hi }) r h p)
      → Accounts (record e { chunk_hash = ch; hash_index = hi }) r
  reindexed ch hi same plain ix = record {
    bitmap = acc.bitmap;
    fits = acc.fits;
    marked = acc.marked;
    beyond = acc.beyond;
    single = acc.single;
    counted = acc.counted;
    long = acc.long;
    hashes = λ s. omega (arith, acc.hashes s);
    unindexed = plain;
    indexed = ix;
  }

  hashed_dedup : (c h : ℕ) → get_or e.chunk_hash c none ≡ some h → e.dedup ≡ true
  hashed_dedup c h hashed = elim (Bool-cases e.dedup) [
    | inl shared ↦ shared
    | inr plain ↦ cc (acc.unindexed plain c, hashed)
  ]

  module _ (c h : ℕ) (hashed : get_or e.chunk_hash c none ≡ some h) where
    abbrev cleared : List (Option ℕ)
    cleared = set e.chunk_hash c none

    -- An entry for another chunk stays good.
    survives :
        (hi : Dict.Dict Placement) (h2 : ℕ) (p : Placement)
        → p ≢ raw c
        → Dict.get h2 e.hash_index ≡ some p
        → IsIndexed (record e { chunk_hash = cleared; hash_index = hi }) r h2 p
    survives hi h2 p ne g =
        let i = acc.indexed h2 p g in
        record {
          chunk = i.chunk;
          is = i.is;
          below = i.below;
          live = i.live;
          hashed =
              get_or-set_ne e.chunk_hash c i.chunk none none (λ q. ne (i.is ∙ ap raw (sym q)))
              ∙ i.hashed;
        }

    cleared-Accounts :
        (hi : Dict.Dict Placement)
        → ((h2 : ℕ) (p : Placement)
            → Dict.get h2 hi ≡ some p
            → (p ≢ raw c) × (Dict.get h2 e.hash_index ≡ some p))
        → Accounts (record e { chunk_hash = cleared; hash_index = hi }) r
          × ((h2 : ℕ) → Dict.get h2 hi ≢ some (raw c))
    cleared-Accounts hi old = (
      reindexed cleared hi (length-set e.chunk_hash c none)
          (λ plain d. cc (hashed_dedup c h hashed, plain))
          (λ h2 p g. let (ne, g2) = old h2 p g in survives hi h2 p ne g2),
      λ h2 g. let (ne, g2) = old h2 (raw c) g in ne refl,
    )

    own_hash : (h2 : ℕ) (p : Placement) → p ≡ raw c → Dict.get h2 e.hash_index ≡ some p → h ≡ h2
    unfolding hash_of
    own_hash h2 p q g = ap hash_of (sym hashed ∙ entry_hash c h2 (g ∙ ap some q))

    removed_old :
        (h2 : ℕ) (p : Placement)
        → Dict.get h2 (Dict.remove h e.hash_index) ≡ some p
        → (p ≢ raw c) × (Dict.get h2 e.hash_index ≡ some p)
    removed_old h2 p g = elim (Bool-cases (h == h2)) [
      | inl same ↦ cc (g, rw same at removed)
      | inr ne ↦
          let found : Dict.get h2 e.hash_index ≡ some p = sym (rw ne at removed) ∙ g in
          (λ q. differ (own_hash h2 p q found) ne, found)
    ]
      where
        removed :
            Dict.get h2 (Dict.remove h e.hash_index)
            ≡ (if h == h2 then none else Dict.get h2 e.hash_index)
        removed = get-remove h h2 e.hash_index

        differ : h ≡ h2 → (h == h2) ≡ false → ⊥
        differ same ne = ground (arith, same, ne)

    kept_old :
        is_raw c (Dict.get h e.hash_index) ≡ false
        → (h2 : ℕ) (p : Placement) → Dict.get h2 e.hash_index ≡ some p
        → (p ≢ raw c) × (Dict.get h2 e.hash_index ≡ some p)
    kept_old other h2 p g = (λ q. differs q (own_hash h2 p q g), g)
      where
        differs : p ≡ raw c → h ≡ h2 → ⊥
        differs q same = cc (
            sym other
            ∙ ap (λ (k : ℕ). is_raw c (Dict.get k e.hash_index)) same
            ∙ ap (is_raw c) (g ∙ ap some q)
            ∙ ==_refl c)

  -- The same books, without the chunk in the index.
  abbrev Out : StorageEngine → ℕ → Type 0
  Out e' c =
      Accounts e' r
      × NotIndexed e' c
      × SameFiles e e'
      × (e'.alloc ≡ e.alloc)
      × (e'.refcount ≡ e.refcount)

  -- Where the books are right, they stay right under `index_remove`, no entry of the index is the
  -- chunk any more, and the bitmap, the counts, files, buffer and modes are not touched.
  pub index_remove_lem :
      (c : ℕ)
      → Accounts (index_remove e c) r
        × NotIndexed (index_remove e c) c
        × SameFiles e (index_remove e c)
        × ((index_remove e c).alloc ≡ e.alloc)
        × ((index_remove e c).refcount ≡ e.refcount)
  unfolding index_remove
  index_remove_lem c = elim (Option-cases (get_or e.chunk_hash c none)) [
    | inl unhashed ↦
        rw (unhashed, index_remove) (acc, λ h g. gone c h unhashed g, SameFiles-refl e, refl, refl)
    | inr (h, hashed) ↦
        rw (hashed, index_remove)
          (elim (Bool-cases (is_raw c (Dict.get h e.hash_index))) [
            | inl own ↦
                let (a, n) =
                  cleared-Accounts c h hashed (Dict.remove h e.hash_index)
                    (removed_old c h hashed) in
                by_true
                  (λ (hi : Dict.Dict Placement).
                    Out (record e { chunk_hash = set e.chunk_hash c none; hash_index = hi }) c)
                  _ _ _ own (a, n, same_files c (Dict.remove h e.hash_index), refl, refl)
            | inr other ↦
                let (a, n) = cleared-Accounts c h hashed e.hash_index (kept_old c h hashed other) in
                by_false
                  (λ (hi : Dict.Dict Placement).
                    Out (record e { chunk_hash = set e.chunk_hash c none; hash_index = hi }) c)
                  _ _ _ other (a, n, same_files c e.hash_index, refl, refl)
          ])
  ]
    where
      gone : (c h : ℕ) → get_or e.chunk_hash c none ≡ none → Dict.get h e.hash_index ≢ some (raw c)
      gone c h unhashed g = cc (unhashed, entry_hash c h g)

      same_files :
          (c : ℕ) (hi : Dict.Dict Placement)
          → SameFiles e (record e { chunk_hash = set e.chunk_hash c none; hash_index = hi })
      same_files c hi = record {
        table = refl;
        vram = refl;
        total = refl;
        dedup = refl;
        compress = refl;
        verify = refl;
      }

-- Taking a chunk out of the index does not look at the counts.
pub index_remove-set_refcount :
    (e : StorageEngine) (c n : ℕ)
    → index_remove (set_refcount e c n) c ≡ set_refcount (index_remove e c) c n
unfolding index_remove
index_remove-set_refcount e c n = elim (Option-cases (get_or e.chunk_hash c none)) [
  | inl unhashed ↦ rw (unhashed, index_remove) refl
  | inr (h, hashed) ↦ rw (hashed, index_remove) refl
]
