-- ===== src/Engine/Accounts/Enter.antt =====
-- src/engine.rs, `index_insert`: a chunk enters the dedup index.
use vramdisk.Engine.Accounts.Index.{NotIndexed}
use vramdisk.Engine.Accounts.{Refs, IsIndexed, Accounts, SameFiles}
use vramdisk.Placement.{Placement, raw}
use vramdisk.Engine.Dict.{get-insert, get-remove}
use vramdisk.Engine.Dict
use vramdisk.Engine.State.{StorageEngine, index_insert}
use vramdisk.Common.{
  get_or-set_self, subst, ◌<◌, ℕ, ◌≡◌, inl, inr, refl, sym, ap, ◌∙◌, arith, none, some, true, ◌==◌,
  if◌then◌else◌, length-set, get_or-set_ne, Bool-cases,
}

module _ (e : StorageEngine) (r : Refs) (acc : Accounts e r) (c h : ℕ)
    (shared : e.dedup ≡ true) where
  entered : c < e.alloc.total → 0 < r c → IsIndexed (index_insert e c h) r h (raw c)
  unfolding index_insert
  entered below live = record {
    chunk = c;
    is = refl;
    below = below;
    live = live;
    hashed = get_or-set_self e.chunk_hash c (some h) none (omega (arith, acc.hashes shared));
  }

  stays :
      (h2 : ℕ) (p : Placement)
      → NotIndexed e c
      → Dict.get h2 e.hash_index ≡ some p
      → IsIndexed (index_insert e c h) r h2 p
  unfolding index_insert
  stays h2 p out g =
      let i = acc.indexed h2 p g in
      record {
        chunk = i.chunk;
        is = i.is;
        below = i.below;
        live = i.live;
        hashed =
            get_or-set_ne e.chunk_hash c i.chunk (some h) none
              (λ q. out h2 (g ∙ ap some (i.is ∙ ap raw (sym q))))
            ∙ i.hashed;
      }

  -- Where the books of an engine with dedup are right, `index_insert` of a chunk of the disk that has
  -- a reference and is not in the index, under any hash, leaves them right, and files, buffer and
  -- modes alone.
  pub index_insert-Accounts :
      c < e.alloc.total
      → 0 < r c
      → NotIndexed e c
      → Accounts (index_insert e c h) r × SameFiles e (index_insert e c h)
  unfolding index_insert
  index_insert-Accounts below live out = (
    record {
      bitmap = acc.bitmap;
      fits = acc.fits;
      marked = acc.marked;
      beyond = acc.beyond;
      single = acc.single;
      counted = acc.counted;
      long = acc.long;
      hashes = λ s. omega (arith, acc.hashes s, length-set e.chunk_hash c (some h));
      unindexed = λ s. cc;
      indexed = λ h2 p g. found h2 p g (get-insert h h2 (raw c) e.hash_index);
    },
    record {
      table = refl;
      vram = refl;
      total = refl;
      dedup = refl;
      compress = refl;
      verify = refl;
    },
  )
    where
      found :
          (h2 : ℕ) (p : Placement)
          → Dict.get h2 (Dict.insert h (raw c) e.hash_index) ≡ some p
          → Dict.get h2 (Dict.insert h (raw c) e.hash_index)
            ≡ (if h == h2 then some (raw c) else Dict.get h2 e.hash_index)
          → IsIndexed (index_insert e c h) r h2 p
      found h2 p g step = elim (Bool-cases (h == h2)) [
        | inl same ↦
            let here : raw c ≡ p = cc (rw same at step, g) in
            subst (λ (k : ℕ). IsIndexed (index_insert e c h) r k p) (ground (arith, same))
              (subst (λ (q : Placement). IsIndexed (index_insert e c h) r h q) here
                (entered below live))
        | inr ne ↦ stays h2 p out (sym (rw ne at step) ∙ g)
      ]
