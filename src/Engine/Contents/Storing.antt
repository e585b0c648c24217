-- ===== src/Engine/Contents/Storing.antt =====
-- src/engine.rs: what it is to store the contents of one logical chunk, as `write_chunk` and the
-- operations under it do, against the view of `Engine.Contents`.
use vramdisk.Lookup.Key.{Bytes}
use vramdisk.Lookup.NodeMap.{bytes_eq}
use vramdisk.Lookup.NodeMap.Distinct.{Distinct}
use vramdisk.Lookup.Table.{LookupTable}
use vramdisk.Units.{chunk_size}
use vramdisk.Engine.Vram.{Vram}
use vramdisk.Engine.Result.{ok, err, no_space}
use vramdisk.Engine.Store.{Done}
use vramdisk.Chunk.{free}
use vramdisk.Engine.State.{StorageEngine, Outcome}
use vramdisk.Engine.Accounts.{Refs, more, Accounts, SameFiles, Allots}
use vramdisk.Engine.Refs.{refs, placement_at}
use vramdisk.Engine.Nodes.{bare_at}
use vramdisk.Engine.Contents.{content, byte_of, IsPlain}
use vramdisk.Lookup.NodeMap.Laws.{bytes_eq_refl, bytes_eq_iff}
use vramdisk.Common.{
  ==_refl, ==_iff, &&_parts, ℕ, ◌+◌, ◌*◌, ◌<◌, ◌≡◌, ◌≢◌, ◌⊎◌, inl, inr, refl, sym, ap, ◌∙◌, subst,
  arith, ◌==◌, ◌&&◌, if◌then◌else◌, Bool-cases,
}

pub Accounts-cong :
    (e : StorageEngine) (r s : Refs) → ((d : ℕ) → r d ≡ s d) → Accounts e r → Accounts e s
Accounts-cong e r s h acc = subst (Accounts e) (λ i d. h d i) acc

-- The books do not look at the files, and of the buffer only at its size.
pub Accounts-files :
    (e : StorageEngine) (r : Refs) (t : LookupTable) (v : Vram)
    → v.size ≡ e.vram.size
    → Accounts e r
    → Accounts (record e { table = t; vram = v }) r
Accounts-files e r t v same acc = record {
  bitmap = acc.bitmap;
  fits = omega (arith, acc.fits);
  marked = acc.marked;
  beyond = acc.beyond;
  single = acc.single;
  counted = acc.counted;
  long = acc.long;
  hashes = acc.hashes;
  unindexed = acc.unindexed;
  indexed = λ h p g.
      let i = acc.indexed h p g in
      record { chunk = i.chunk; is = i.is; below = i.below; live = i.live; hashed = i.hashed };
}

-- What no operation changes.
pub record SameMode (e e' : StorageEngine) : Type 0 where
  pub total : e'.alloc.total ≡ e.alloc.total
  pub dedup : e'.dedup ≡ e.dedup
  pub compress : e'.compress ≡ e.compress
  pub verify : e'.dedup_verify_bytes ≡ e.dedup_verify_bytes

-- The chunk `c` has one reference more than the table says, and the bytes of the chunks that the
-- table refers to are the same.
pub record IsReady (e : StorageEngine) (c : ℕ) (e1 : StorageEngine) : Type 0 where
  pub accounts : Accounts e1 (more (refs e.table) c)
  pub table : e1.table ≡ e.table
  pub mode : SameMode e e1
  pub below : c < e.alloc.total
  pub kept :
      (d i : ℕ)
      → d < e.alloc.total
      → 0 < refs e.table d
      → i < chunk_size
      → e1.vram.byte (d * chunk_size + i) ≡ e.vram.byte (d * chunk_size + i)

-- The engine is plain, only the logical chunk of the file has new contents, and the nodes are the same
-- but for their placements.
pub record Stores (e : StorageEngine) (k : Bytes) (lc : ℕ) (new : ℕ → ℕ) (e' : StorageEngine)
    : Type 0 where
  pub plain : IsPlain e'
  pub mode : SameMode e e'
  pub nodes : (j : Bytes) → bare_at e'.table j ≡ bare_at e.table j
  pub contents :
      (j : Bytes) (l i : ℕ)
      → i < chunk_size
      → content e' j l i ≡ (if bytes_eq k j && lc == l then new i else content e j l i)

-- An operation on a full disk fails and leaves the engine; else it stores the contents.
abbrev pub Written : StorageEngine → Bytes → ℕ → (ℕ → ℕ) → Outcome Done → Type 0
Written e k lc new o =
    ((o ≡ (e, err no_space)) × (free e.alloc ≡ 0))
    ⊎ ((e' : StorageEngine) × (o ≡ (e', ok tt)) × Stores e k lc new e')

pub Stores-cong :
    (e : StorageEngine) (k : Bytes) (lc : ℕ) (f g : ℕ → ℕ) (e' : StorageEngine)
    → ((i : ℕ) → i < chunk_size → f i ≡ g i)
    → Stores e k lc f e'
    → Stores e k lc g e'
Stores-cong e k lc f g e' h s = record {
  plain = s.plain;
  mode = s.mode;
  nodes = s.nodes;
  contents = λ j l i low. ground (arith, s.contents j l i low, h i low);
}

-- A chunk that was just given out, with any bytes in it, is ready.
pub fresh-IsReady :
    (e : StorageEngine) (c : ℕ) (a : StorageEngine) (w : Vram)
    → Allots e (refs e.table) a c
    → w.size ≡ e.vram.size
    → ((d i : ℕ)
        → i < chunk_size
        → d ≢ c
        → w.byte (d * chunk_size + i) ≡ e.vram.byte (d * chunk_size + i))
    → IsReady e c (record a { vram = w })
fresh-IsReady e c a w al same other = record {
  accounts =
      Accounts-files a (more (refs e.table) c) a.table w
        (same ∙ ap (λ (u : Vram). u.size) (sym al.same.vram)) al.accounts;
  table = al.same.table;
  mode = record {
    total = al.same.total;
    dedup = al.same.dedup;
    compress = al.same.compress;
    verify = al.same.verify;
  };
  below = al.below;
  kept = λ d i lt live low.
      other d i low (λ q. absurd (omega (arith, live, al.was_free, ap (refs e.table) q)));
}

-- What was stored is there.
pub Stores_here :
    (e : StorageEngine) (k : Bytes) (lc : ℕ) (new : ℕ → ℕ) (e' : StorageEngine)
    → Stores e k lc new e'
    → (i : ℕ) → i < chunk_size
    → content e' k lc i ≡ new i
Stores_here e k lc new e' s i low = s.contents k lc i low ∙ here
  where
    here : (if bytes_eq k k && lc == lc then new i else content e k lc i) ≡ new i
    here = rw (bytes_eq_refl k, ==_refl lc) refl

-- Files and buffer as they were.
pub unchanged-Stores :
    (e : StorageEngine) (k : Bytes) (lc : ℕ) (f : StorageEngine)
    → IsPlain e
    → SameFiles e f
    → Accounts f (refs e.table)
    → Stores e k lc (content e k lc) f
unfolding content
unchanged-Stores e k lc f v same acc = record {
  plain = record {
    accounts =
        Accounts-cong f (refs e.table) _ (λ d. ap (λ (t : LookupTable). refs t d) (sym same.table))
          acc;
    keyed = subst (λ (t : LookupTable). Distinct t.nodes) (sym same.table) v.keyed;
    raw_only = λ j l offset len codec q.
        v.raw_only j l offset len codec
          (ap (λ (t : LookupTable). placement_at t j l) (sym same.table) ∙ q);
  };
  mode = record {
    total = same.total;
    dedup = same.dedup;
    compress = same.compress;
    verify = same.verify;
  };
  nodes = λ j. ap (λ (t : LookupTable). bare_at t j) same.table;
  contents = λ j l i low. kept j l i ∙ old j l i;
}
  where
    kept : (j : Bytes) (l i : ℕ) → content f j l i ≡ content e j l i
    kept j l i =
        ap (λ (u : Vram). byte_of u (placement_at f.table j l) i) same.vram
        ∙ ap (λ (t : LookupTable). byte_of e.vram (placement_at t j l) i) same.table

    old :
        (j : Bytes) (l i : ℕ)
        → content e j l i ≡ (if bytes_eq k j && lc == l then content e k lc i else content e j l i)
    old j l i = elim (Bool-cases (bytes_eq k j && lc == l)) [
      | inl this ↦
          let (p, q) = &&_parts (bytes_eq k j) (lc == l) this in
          rw (this, ← (bytes_eq_iff k j).0 p, ← (==_iff lc l).0 q) refl
      | inr other ↦ rw other refl
    ]

-- One store after another into the same logical chunk.
pub Stores-trans :
    (e : StorageEngine) (k : Bytes) (lc : ℕ) (f g : ℕ → ℕ) (a b : StorageEngine)
    → Stores e k lc f a
    → Stores a k lc g b
    → Stores e k lc g b
Stores-trans e k lc f g a b s t = record {
  plain = t.plain;
  mode = record {
    total = t.mode.total ∙ s.mode.total;
    dedup = t.mode.dedup ∙ s.mode.dedup;
    compress = t.mode.compress ∙ s.mode.compress;
    verify = t.mode.verify ∙ s.mode.verify;
  };
  nodes = λ j. t.nodes j ∙ s.nodes j;
  contents = λ j l i low. ground (arith, t.contents j l i low, s.contents j l i low);
}
