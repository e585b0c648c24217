-- ===== src/Engine/Accounts/Alloc.antt =====
-- src/engine.rs, `alloc_chunk` and `ref_inc`: a chunk is given out, and a chunk is shared.
use vramdisk.Engine.Accounts.{SameFiles, SameFiles-refl, Refs, more, IsIndexed, Accounts, Allots}
use vramdisk.Units.{chunk_size}
use vramdisk.Placement.{Placement}
use vramdisk.Chunk.{ChunkAllocator, free}
use vramdisk.Chunk.Single.{alloc_one_lem}
use vramdisk.Engine.Result.{ok, err, no_space}
use vramdisk.Engine.State.{StorageEngine, took, alloc_chunk, ref_inc, set_refcount}
use vramdisk.Common.{
  ◌^◌, ◌%◌, ℕ, ◌+◌, ◌*◌, ◌<◌, ◌≡◌, ◌⊎◌, inl, inr, refl, ap, ◌∙◌, arith, true, length, get_or, set,
  length-set, get_or-set_self, get_or-set_ne, ℕ_discrete, Bool-cases, by_true, by_false,
}

module _ (e : StorageEngine) (r : Refs) (acc : Accounts e r) where
  -- Where the books are right, `alloc_chunk` either fails because no chunk is free and leaves the
  -- engine as it was, or gives a chunk that had no reference, and the books are right for one more.
  pub alloc_chunk_lem :
      ((alloc_chunk e ≡ (e, err no_space)) × (free e.alloc ≡ 0))
      ⊎ ((e' : StorageEngine) × (c : ℕ) × (alloc_chunk e ≡ (e', ok c)) × Allots e r e' c)
  unfolding alloc_chunk
  alloc_chunk_lem = elim (alloc_one_lem e.alloc acc.bitmap) [
    | inl (q, full) ↦ inl (ap (took e) q, full)
    | inr (b, c, q, t, v) ↦
        let below : c < e.alloc.total = omega (arith, t.within) in
        let unused : r c ≡ 0 = ground (arith, acc.marked c below, t.was_free c) in
        elim (Bool-cases e.dedup) [
          | inl shared ↦ inr (
            set_refcount (record e { alloc = b }) c 1,
            c,
            ap (took e) q ∙ simp shared refl,
            record {
              accounts = record {
                bitmap = v;
                fits = omega (arith, acc.fits, ap (λ (n : ℕ). n * chunk_size) t.totals);
                marked = λ d lt. ground (arith, t.digits d, t.totals, acc.marked d);
                beyond = λ d ge. ground (arith, t.totals, acc.beyond d);
                single = λ s. cc;
                counted = λ s d lt.
                    counts c d (omega (arith, acc.long s))
                      (acc.counted s d (omega (arith, t.totals))) unused;
                long = λ s. omega (arith, acc.long s, t.totals, length-set e.refcount c 1);
                hashes = λ s. omega (arith, acc.hashes s, t.totals);
                unindexed = λ s. cc;
                indexed = λ h p g. keeps b c t.totals h p (acc.indexed h p g);
              };
              same = record {
                table = refl;
                vram = refl;
                total = t.totals;
                dedup = refl;
                compress = refl;
                verify = refl;
              };
              index = refl;
              was_free = unused;
              below = below;
            },
          )
          | inr plain ↦ inr (
            record e { alloc = b },
            c,
            ap (took e) q ∙ simp plain refl,
            record {
              accounts = record {
                bitmap = v;
                fits = omega (arith, acc.fits, ap (λ (n : ℕ). n * chunk_size) t.totals);
                marked = λ d lt. ground (arith, t.digits d, t.totals, acc.marked d);
                beyond = λ d ge. ground (arith, t.totals, acc.beyond d);
                single = λ s d. ground (arith, acc.single s d);
                counted = λ s. cc;
                long = λ s. cc;
                hashes = λ s. cc;
                unindexed = acc.unindexed;
                indexed = λ h p g. keeps_plain b c t.totals h p (acc.indexed h p g);
              };
              same = record {
                table = refl;
                vram = refl;
                total = t.totals;
                dedup = refl;
                compress = refl;
                verify = refl;
              };
              index = refl;
              was_free = unused;
              below = below;
            },
          )
        ]
  ]
    where
      counts :
          (c d : ℕ)
          → c < length e.refcount
          → get_or e.refcount d 0 ≡ r d
          → r c ≡ 0
          → get_or (set e.refcount c 1) d 0 ≡ more r c d
      counts c d lt old unused = elim (ℕ_discrete c d) [
        | yes same ↦ ground (arith, same, get_or-set_self e.refcount d 1 0 (ground (arith, same)))
        | no ne ↦ ground (arith, get_or-set_ne e.refcount c d 1 0 ne)
      ]

      keeps :
          (b : ChunkAllocator) (c : ℕ)
          → b.total ≡ e.alloc.total
          → (h : ℕ) (p : Placement) → IsIndexed e r h p
          → IsIndexed (set_refcount (record e { alloc = b }) c 1) (more r c) h p
      keeps b c same h p i = record {
        chunk = i.chunk;
        is = i.is;
        below = omega (arith, i.below);
        live = ground (arith, i.live);
        hashed = i.hashed;
      }

      keeps_plain :
          (b : ChunkAllocator) (c : ℕ)
          → b.total ≡ e.alloc.total
          → (h : ℕ) (p : Placement) → IsIndexed e r h p
          → IsIndexed (record e { alloc = b }) (more r c) h p
      keeps_plain b c same h p i = record {
        chunk = i.chunk;
        is = i.is;
        below = omega (arith, i.below);
        live = ground (arith, i.live);
        hashed = i.hashed;
      }

module _ (e : StorageEngine) (r : Refs) (acc : Accounts e r) (c : ℕ) (below : c < e.alloc.total)
    (live : 0 < r c) where
  -- One reference more to a chunk that has one.
  pub ref_inc-Accounts : e.dedup ≡ true → r c + 1 < 2 ^ 32 → Accounts (ref_inc e c) (more r c)
  unfolding ref_inc
  ref_inc-Accounts shared few =
      by_true (λ (u : StorageEngine). Accounts u (more r c)) _ _ _ shared
        (record {
          bitmap = acc.bitmap;
          fits = acc.fits;
          marked = λ d lt. ground (arith, acc.marked d);
          beyond = λ d ge. ground (arith, acc.beyond d);
          single = λ s. cc;
          counted = λ s d lt. elim (ℕ_discrete c d) [
            | yes same ↦ ground (
              arith,
              same,
              acc.counted s d lt,
              acc.long s,
              few,
              get_or-set_self e.refcount d ((get_or e.refcount d 0 + 1) % 2 ^ 32) 0
                  (omega (arith, acc.long s)),
            )
            | no ne ↦ ground (
              arith,
              acc.counted s d lt,
              get_or-set_ne e.refcount c d ((get_or e.refcount c 0 + 1) % 2 ^ 32) 0 ne,
            )
          ];
          long = λ s.
              omega
                (arith, acc.long s, length-set e.refcount c ((get_or e.refcount c 0 + 1) % 2 ^ 32));
          hashes = acc.hashes;
          unindexed = λ s. cc;
          indexed = λ h p g.
              let i = acc.indexed h p g in
              record {
                chunk = i.chunk;
                is = i.is;
                below = i.below;
                live = ground (arith, i.live);
                hashed = i.hashed;
              };
        })

pub ref_inc-SameFiles : (e : StorageEngine) (c : ℕ) → SameFiles e (ref_inc e c)
unfolding ref_inc
ref_inc-SameFiles e c = elim (Bool-cases e.dedup) [
  | inl shared ↦ by_true (SameFiles e) _ _ _ shared (record {
    table = refl;
    vram = refl;
    total = refl;
    dedup = refl;
    compress = refl;
    verify = refl;
  })
  | inr plain ↦ by_false (SameFiles e) _ _ _ plain (SameFiles-refl e)
]
