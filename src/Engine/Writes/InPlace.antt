-- ===== src/Engine/Writes/InPlace.antt =====
-- src/engine.rs, `write_chunk`: a chunk that only one coordinate refers to is overwritten where it is.
use vramdisk.Lookup.Key.{Bytes, normalize_key}
use vramdisk.Lookup.NodeMap.{bytes_eq}
use vramdisk.Lookup.NodeMap.Laws.{bytes_eq_iff}
use vramdisk.Lookup.NodeMap.Distinct.{Distinct}
use vramdisk.Lookup.Table.{LookupTable}
use vramdisk.Placement.{raw}
use vramdisk.Units.{chunk_size}
use vramdisk.Engine.Vram.{Vram, written, write_at_inside}
use vramdisk.Engine.State.{StorageEngine, coord}
use vramdisk.Engine.Store.{write_plain}
use vramdisk.Engine.Accounts.{Accounts, SameFiles, SameFiles-refl}
use vramdisk.Engine.Refs.{refs, placement_at, two_refs, le-refs}
use vramdisk.Engine.Nodes.{bare_at}
use vramdisk.Engine.Contents.{content, byte_of, IsPlain, coord_lem, placement_cases}
use vramdisk.Engine.Contents.Storing.{Stores, Accounts-cong, Accounts-files, Written}
use vramdisk.Engine.Contents.Overlay.{overlay, overlay_cong, written_elsewhere, written_here}
use vramdisk.Common.{
  subst, ℕ, ◌+◌, ◌*◌, ◌≤◌, ◌<◌, ◌≡◌, ◌≢◌, inl, inr, refl, sym, ap, ◌∙◌, arith, some, false, ◌==◌,
  ◌&&◌, if◌then◌else◌, length, Bool-cases, ==_iff, &&_parts,
}

-- `e` with other bytes in the buffer.
abbrev pub rewritten : StorageEngine → (ℕ → ℕ) → StorageEngine
rewritten e bytes = record e { vram = record { size = e.vram.size; byte = bytes } }

module _ (e : StorageEngine) (v : IsPlain e) (path : Bytes) (lc c : ℕ)
    (here : coord e path lc ≡ some (raw c)) (own : refs e.table c ≡ 1) (f : StorageEngine)
    (same : SameFiles e f) (acc : Accounts f (refs e.table)) where
  abbrev k : Bytes
  k = normalize_key path

  at_here : placement_at e.table k lc ≡ some (raw c)
  at_here = sym (coord_lem e path lc) ∙ here

  same_byte : (j : ℕ) → f.vram.byte j ≡ e.vram.byte j
  same_byte j = ap (λ (u : Vram). u.byte j) same.vram

  module _ (bytes new : ℕ → ℕ)
      (other : (d i : ℕ)
        → i < chunk_size
        → d ≢ c
        → bytes (d * chunk_size + i) ≡ f.vram.byte (d * chunk_size + i))
      (mine : (i : ℕ) → i < chunk_size → bytes (c * chunk_size + i) ≡ new i) where
    -- The bytes at a placement of the unchanged table.
    rewritten_byte :
        (j : Bytes) (l i : ℕ)
        → i < chunk_size
        → byte_of (rewritten f bytes).vram (placement_at e.table j l) i
          ≡ (if bytes_eq k j && lc == l then new i else content e j l i)
    unfolding content
    rewritten_byte j l i low = elim (Bool-cases (bytes_eq k j && lc == l)) [
      | inl this ↦
          let (p, q) = &&_parts (bytes_eq k j) (lc == l) this in
          rw (this, ← (bytes_eq_iff k j).0 p, ← (==_iff lc l).0 q)
            (ap (λ o. byte_of (rewritten f bytes).vram o i) at_here ∙ mine i low)
      | inr off ↦ rw off (elim (placement_cases e v j l) [
        | inl hole ↦
            ap (λ o. byte_of (rewritten f bytes).vram o i) hole
            ∙ sym (ap (λ o. byte_of e.vram o i) hole)
        | inr (d, q, below, live) ↦
            ap (λ o. byte_of (rewritten f bytes).vram o i) q
            ∙ other d i low (apart j l d q off)
            ∙ same_byte (d * chunk_size + i)
            ∙ sym (ap (λ o. byte_of e.vram o i) q)
      ])
    ]
      where
        apart :
            (j : Bytes) (l d : ℕ)
            → placement_at e.table j l ≡ some (raw d)
            → (bytes_eq k j && lc == l) ≡ false
            → d ≢ c
        apart j l d q off equal = absurd (
            omega (
              arith,
              own,
              two_refs e.table c k j lc l at_here (q ∙ ap (λ (m : ℕ). some (raw m)) equal) off,
            ))

    -- Overwriting the chunk changes the contents of the one logical chunk.
    pub rewritten-Stores : Stores e (normalize_key path) lc new (rewritten f bytes)
    unfolding content
    rewritten-Stores = record {
      plain = record {
        accounts = Accounts-files f _ f.table (rewritten f bytes).vram refl (
            Accounts-cong f (refs e.table) _
              (λ d. ap (λ (t : LookupTable). refs t d) (sym same.table)) acc);
        keyed = subst (λ (t : LookupTable). Distinct t.nodes) (sym same.table) v.keyed;
        raw_only = λ j l offset len codec q.
            v.raw_only j l offset len codec
              (ap (λ (t : LookupTable). placement_at t j l) (sym same.table) ∙ q);
      };
      mode = record {
        total = same.total;
        dedup = same.dedup;
        compress = same.compress;
        verify = same.verify;
      };
      nodes = λ j. ap (λ (t : LookupTable). bare_at t j) same.table;
      contents = λ j l i low.
          ap (λ (t : LookupTable). byte_of (rewritten f bytes).vram (placement_at t j l) i)
            same.table
          ∙ rewritten_byte j l i low;
    }

  -- The same for bytes that are written over part of the chunk.
  pub poked-Stores :
      (off : ℕ) (sub : Bytes)
      → off + length sub ≤ chunk_size
      → Stores e
          (normalize_key path)
          lc
          (overlay off sub (content e (normalize_key path) lc))
          (rewritten f (written f.vram.byte (c * chunk_size + off) sub))
  unfolding content
  poked-Stores off sub fits =
      rewritten-Stores (written f.vram.byte (c * chunk_size + off) sub) _
        (λ d i low ne. written_elsewhere f.vram.byte c d i low ne off sub fits)
        (λ i low.
          written_here f.vram.byte c i low off sub
          ∙ overlay_cong off sub _ _ i
              (same_byte (c * chunk_size + i) ∙ sym (ap (λ o. byte_of e.vram o i) at_here)))

module _ (e : StorageEngine) (v : IsPlain e) (path : Bytes) (lc c : ℕ)
    (here : coord e path lc ≡ some (raw c)) where
  -- A chunk of a file lies on the disk and is referred to.
  pub chunk_in_file : (c < e.alloc.total) × (0 < refs e.table c)
  chunk_in_file =
      let one = le-refs e.table c (normalize_key path) lc (sym (coord_lem e path lc) ∙ here) in
      (ground (arith, one, v.accounts.beyond c), omega (arith, one))

  -- Without dedup a chunk of the file is its own, and is overwritten.
  pub write_plain_raw :
      (off : ℕ) (sub : Bytes)
      → e.dedup ≡ false
      → 0 < length sub
      → off + length sub ≤ chunk_size
      → Written e
          (normalize_key path)
          lc
          (overlay off sub (content e (normalize_key path) lc))
          (write_plain e path lc off sub)
  unfolding write_plain
  write_plain_raw off sub plain some_bytes fits =
      let (below, live) = chunk_in_file in
      rw (here, write_plain)
        (rw
          (write_at_inside e.vram (c * chunk_size + off) sub some_bytes
            (omega (arith, v.accounts.fits)))
          (inr (
            _,
            refl,
            poked-Stores e v path lc c here (omega (arith, live, v.accounts.single plain c)) e
                (SameFiles-refl e) v.accounts off sub fits,
          )))
