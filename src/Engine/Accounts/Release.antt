-- ===== src/Engine/Accounts/Release.antt =====
-- src/engine.rs, `release_chunk`: a reference goes, and with the last one the chunk.
use vramdisk.Engine.Accounts.{Refs, more, fewer, IsIndexed, Accounts, SameFiles, SameFiles-trans}
use vramdisk.Engine.Accounts.Index.{
  NotIndexed, index_remove_lem, entry_hash, index_remove-set_refcount,
}
use vramdisk.Units.{chunk_size}
use vramdisk.Placement.{Placement, raw}
use vramdisk.Chunk.{ChunkAllocator}
use vramdisk.Chunk.Release.{free_one_lem}
use vramdisk.Engine.Dict.{get-insert, get-remove}
use vramdisk.Engine.Dict
use vramdisk.Engine.State.{
  StorageEngine, release_chunk, one_less, index_remove, give_chunk, with_bitmap, set_refcount,
}
use vramdisk.Common.{
  ℕ, ◌*◌, ◌<◌, ◌≡◌, ◌≢◌, inl, inr, refl, sym, ap, ◌∙◌, subst, arith, List, Option, some, true,
  false, ◌==◌, length, get_or, set, length-set, get_or-set_self, get_or-set_ne, ℕ_discrete,
  Bool-cases, by_true, by_false,
}

module _ (e : StorageEngine) (r : Refs) (acc : Accounts e r) (c : ℕ)
    (below : c < e.alloc.total) where
  -- What releasing leaves.
  abbrev Released : StorageEngine → Type 0
  Released e' = Accounts e' (fewer r c) × SameFiles e e'

  still-IsIndexed :
      (b : ChunkAllocator) (rc : List ℕ)
      → b.total ≡ e.alloc.total
      → NotIndexed e c
      → (h : ℕ) (p : Placement) → Dict.get h e.hash_index ≡ some p
      → IsIndexed (record e { alloc = b; refcount = rc }) (fewer r c) h p
  still-IsIndexed b rc same out h p g =
      let i = acc.indexed h p g in
      record {
        chunk = i.chunk;
        is = i.is;
        below = omega (arith, i.below);
        live = elim (ℕ_discrete c i.chunk) [
          | yes q ↦ absurd (out h (g ∙ ap some (i.is ∙ ap raw (sym q))))
          | no ne ↦ ground (arith, i.live)
        ];
        hashed = i.hashed;
      }

  -- A chunk that is not in the index and loses its only reference goes back to the bitmap.
  give_chunk-Accounts :
      (rc : List ℕ)
      → r c ≡ 1
      → NotIndexed e c
      → length rc ≡ length e.refcount
      → (e.dedup ≡ true → (d : ℕ) → d < e.alloc.total → get_or rc d 0 ≡ fewer r c d)
      → Released (give_chunk (record e { refcount = rc }) c)
  give_chunk-Accounts rc one out same count = elim (free_one_lem e.alloc acc.bitmap c below) [
    | inl (z, q) ↦ absurd (ground (arith, z, acc.marked c below, one))
    | inr (b, q, t, v) ↦
        subst (λ (o : Option ChunkAllocator). Released (with_bitmap (record e { refcount = rc }) o))
          (sym q)
          (
            record {
              bitmap = v;
              fits = omega (arith, acc.fits, ap (λ (n : ℕ). n * chunk_size) t.totals);
              marked = λ d lt. ground (arith, t.digits d, t.totals, acc.marked d, one);
              beyond = λ d ge. ground (arith, t.totals, acc.beyond d);
              single = λ s d. ground (arith, acc.single s d);
              counted = λ s d lt. count s d (omega (arith, t.totals));
              long = λ s. omega (arith, acc.long s, t.totals);
              hashes = λ s. omega (arith, acc.hashes s, t.totals);
              unindexed = acc.unindexed;
              indexed = λ h p g. still-IsIndexed b rc t.totals out h p g;
            },
            record {
              table = refl;
              vram = refl;
              total = t.totals;
              dedup = refl;
              compress = refl;
              verify = refl;
            },
          )
  ]

module _ (e : StorageEngine) (r : Refs) (acc : Accounts e r) (c : ℕ) (below : c < e.alloc.total)
    (live : 0 < r c) where
  lowered :
      e.dedup ≡ true
      → (d : ℕ) → d < e.alloc.total
      → get_or (set e.refcount c (one_less (get_or e.refcount c 0))) d 0 ≡ fewer r c d
  lowered s d lt = elim (ℕ_discrete c d) [
    | yes same ↦ ground (
      arith,
      same,
      acc.counted s d lt,
      acc.long s,
      get_or-set_self e.refcount d (one_less (get_or e.refcount d 0)) 0 (omega (arith, acc.long s)),
    )
    | no ne ↦ ground (
      arith,
      acc.counted s d lt,
      get_or-set_ne e.refcount c d (one_less (get_or e.refcount c 0)) 0 ne,
    )
  ]

  -- A shared chunk keeps its place.
  still_shared :
      e.dedup ≡ true
      → 1 < r c
      → Released e r acc c below (set_refcount e c (one_less (get_or e.refcount c 0)))
  still_shared shared two = (
    record {
      bitmap = acc.bitmap;
      fits = acc.fits;
      marked = λ d lt. ground (arith, acc.marked d);
      beyond = λ d ge. ground (arith, acc.beyond d);
      single = λ s. cc;
      counted = lowered;
      long = λ s.
          omega (arith, acc.long s, length-set e.refcount c (one_less (get_or e.refcount c 0)));
      hashes = acc.hashes;
      unindexed = λ s. cc;
      indexed = λ h p g.
          let i = acc.indexed h p g in
          record {
            chunk = i.chunk;
            is = i.is;
            below = i.below;
            live = ground (arith, i.live);
            hashed = i.hashed;
          };
    },
    record {
      table = refl;
      vram = refl;
      total = refl;
      dedup = refl;
      compress = refl;
      verify = refl;
    },
  )

  last_shared :
      e.dedup ≡ true
      → r c ≡ 1
      → Released e r acc c below
          (give_chunk (index_remove (set_refcount e c (one_less (get_or e.refcount c 0))) c) c)
  last_shared shared one =
      let (a, out, s, alloc_same, rc_same) = index_remove_lem e r acc c in
      let (a2, s2) =
        give_chunk-Accounts (index_remove e c) r a c (omega (arith, below, s.total))
          (set (index_remove e c).refcount c (one_less (get_or e.refcount c 0))) one out
          (length-set (index_remove e c).refcount c (one_less (get_or e.refcount c 0)))
          (λ sh d lt.
            ap (λ (l : List ℕ). get_or (set l c (one_less (get_or e.refcount c 0))) d 0) rc_same
            ∙ lowered shared d (omega (arith, s.total))) in
      subst (λ (u : StorageEngine). Released e r acc c below (give_chunk u c))
        (sym (index_remove-set_refcount e c (one_less (get_or e.refcount c 0))))
        (a2, SameFiles-trans e (index_remove e c) _ s s2)

  -- Where the books are right, `release_chunk` of a chunk that has a reference leaves them right for
  -- one reference less: the count drops, and with the last reference the chunk leaves the index and
  -- the bitmap. Files, buffer and modes are not touched.
  pub release_chunk-Accounts :
      Accounts (release_chunk e c) (fewer r c) × SameFiles e (release_chunk e c)
  unfolding release_chunk
  release_chunk-Accounts = elim (Bool-cases e.dedup) [
    | inl shared ↦ by_true (Released e r acc c below) _ _ _ shared (elim (ℕ_discrete (r c) 1) [
      | yes one ↦
          by_true (Released e r acc c below) _ _ _ (none_left shared one) (last_shared shared one)
      | no more ↦
          by_false (Released e r acc c below) _ _ _ (some_left shared more)
            (still_shared shared (omega arith))
    ])
    | inr plain ↦ by_false (Released e r acc c below) _ _ _ plain (
        give_chunk-Accounts e r acc c below e.refcount (omega (arith, acc.single plain c, live))
          (λ h g. cc (acc.unindexed plain c, entry_hash e r acc c h g)) refl (λ s. cc))
  ]
    where
      none_left :
          e.dedup ≡ true
          → r c ≡ 1
          → (get_or (set e.refcount c (one_less (get_or e.refcount c 0))) c 0 == 0) ≡ true
      none_left s one = ground (arith, lowered s c below)

      some_left :
          e.dedup ≡ true
          → r c ≢ 1
          → (get_or (set e.refcount c (one_less (get_or e.refcount c 0))) c 0 == 0) ≡ false
      some_left s ne = ground (arith, lowered s c below)
