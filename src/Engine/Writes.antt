-- ===== src/Engine/Writes.antt =====
-- src/engine.rs, `write_chunk` of an engine without compression: storing part of a logical chunk, with
-- dedup and without, against the view of `Engine.Contents`.
pub mod Fresh
pub mod InPlace
pub mod Share
pub mod Exclusive
use vramdisk.Lookup.Key.{Bytes, normalize_key}
use vramdisk.Lookup.Table.{Node, node_at}
use vramdisk.Units.{chunk_size}
use vramdisk.Engine.Result.{EResult, ok, err}
use vramdisk.Engine.Hash.{fnv1a}
use vramdisk.Engine.State.{External, StorageEngine, Outcome, and_then, coord}
use vramdisk.Engine.Chunks.{try_share_hashed}
use vramdisk.Engine.Store.{Done, write_chunk, write_plain, write_shared, shared_or, store_unique}
use vramdisk.Engine.Refs.{refs}
use vramdisk.Engine.Contents.{content, IsPlain, CountsFit, coord_lem, placement_cases}
use vramdisk.Engine.Contents.Storing.{Stores, Stores-cong, Written}
use vramdisk.Engine.Contents.Overlay.{overlay, overlay_whole}
use vramdisk.Engine.Writes.Fresh.{write_plain_hole}
use vramdisk.Engine.Writes.InPlace.{write_plain_raw}
use vramdisk.Engine.Writes.Share.{try_share_hashed_lem, store_unique_lem}
use vramdisk.Engine.Writes.Exclusive.{write_exclusive_lem}
use vramdisk.Common.{
  some, none, ℕ, ◌+◌, ◌≤◌, ◌<◌, ◌≡◌, ◌⊎◌, inl, inr, refl, sym, ap, ◌∙◌, subst, arith, Bool, true,
  false, not, ◌==◌, ◌&&◌, if◌then◌else◌, length, get_or, Bool-cases, by_true, by_false, &&_parts,
  ==_iff,
}

module _ (e : StorageEngine) (v : IsPlain e) (path : Bytes) (lc : ℕ) (n : Node)
    (found : node_at e.table (normalize_key path) ≡ some n) (lt : lc < length n.coords) where
  abbrev k : Bytes
  k = normalize_key path

  -- A whole chunk under dedup.
  write_shared_lem :
      (x : External) (sub : Bytes)
      → e.dedup ≡ true
      → e.compress ≡ false
      → e.dedup_verify_bytes ≡ true
      → length sub ≡ chunk_size
      → CountsFit 1 e
      → Written e (normalize_key path) lc (λ i. get_or sub i 0) (write_shared x e path lc sub)
  unfolding write_shared shared_or
  write_shared_lem x sub shared raw_only verify whole few =
      elim (try_share_hashed_lem e v path lc n found lt shared sub whole x verify few (fnv1a sub)) [
        | inl q ↦
            rw (q, write_shared)
              (by_false (Written e (normalize_key path) lc (λ i. get_or sub i 0)) _ _ _ raw_only
                (store_unique_lem e v path lc n found lt shared sub whole (fnv1a sub)))
        | inr (a, q, s) ↦ rw (q, write_shared) (inr (a, refl, s))
      ]

  pub write_plain_lem :
      (off : ℕ) (sub : Bytes)
      → e.dedup ≡ false
      → 0 < length sub
      → off + length sub ≤ chunk_size
      → Written e
          (normalize_key path)
          lc
          (overlay off sub (content e (normalize_key path) lc))
          (write_plain e path lc off sub)
  write_plain_lem off sub plain some_bytes fits = elim (placement_cases e v k lc) [
    | inl hole ↦
        write_plain_hole e v path lc n found lt off sub some_bytes fits (coord_lem e path lc ∙ hole)
    | inr (c, q, below, live) ↦
        write_plain_raw e v path lc c (coord_lem e path lc ∙ q) off sub plain some_bytes fits
  ]

  Written-cong :
      (f g : ℕ → ℕ) (o : Outcome Done)
      → ((i : ℕ) → i < chunk_size → f i ≡ g i)
      → Written e (normalize_key path) lc f o
      → Written e (normalize_key path) lc g o
  Written-cong f g o h (inl failed) = inl failed
  Written-cong f g o h (inr (a, q, s)) = inr (a, q, Stores-cong e k lc f g a h s)

  abbrev Stored : ℕ → Bytes → Outcome Done → Type 0
  Stored off sub =
      Written e (normalize_key path) lc (overlay off sub (content e (normalize_key path) lc))

  -- On a plain engine without compression that compares bytes, where, if a whole chunk is written
  -- under dedup, every chunk has fewer than 2 ^ 32 - 1 references: `write_chunk` of at least one byte
  -- within a logical chunk that the file has either fails because no chunk is free and leaves the
  -- engine as it was, or it succeeds: the bytes lie over the contents of that logical chunk, every
  -- other logical chunk of every file reads as before, and the engine is plain.
  pub write_chunk_lem :
      (x : External) (off : ℕ) (sub : Bytes)
      → e.compress ≡ false
      → e.dedup_verify_bytes ≡ true
      → 0 < length sub
      → off + length sub ≤ chunk_size
      → (e.dedup ≡ true → length sub ≡ chunk_size → CountsFit 1 e)
      → Written e
          (normalize_key path)
          lc
          (overlay off sub (content e (normalize_key path) lc))
          (write_chunk x e path lc off sub)
  unfolding write_chunk
  write_chunk_lem x off sub raw_only verify some_bytes fits few = elim (Bool-cases e.dedup) [
    | inl shared ↦ elim (Bool-cases (off == 0 && length sub == chunk_size)) [
      | inl full ↦
          let (z, size) = &&_parts (off == 0) (length sub == chunk_size) full in
          by_true (Stored off sub) _ _ _ (both shared full) (
            Written-cong _ _ _
              (λ i low.
                covered i ((==_iff off 0).0 z) ((==_iff (length sub) chunk_size).0 size) low)
              (write_shared_lem x sub shared raw_only verify
                ((==_iff (length sub) chunk_size).0 size)
                (few shared ((==_iff (length sub) chunk_size).0 size))))
      | inr part ↦
          by_false (Stored off sub) _ _ _
            (ap (λ (b : Bool). b && (off == 0 && length sub == chunk_size)) shared ∙ part)
            (by_false (Stored off sub) _ _ _ raw_only (
              by_false (Stored off sub) _ _ _ (ap not shared)
                (write_exclusive_lem e v path lc n found lt x off sub some_bytes fits)))
    ]
    | inr plain ↦
        by_false (Stored off sub) _ _ _
          (ap (λ (b : Bool). b && (off == 0 && length sub == chunk_size)) plain)
          (by_false (Stored off sub) _ _ _ raw_only (
            by_true (Stored off sub) _ _ _ (ap not plain)
              (write_plain_lem off sub plain some_bytes fits)))
  ]
    where
      both :
          e.dedup ≡ true
          → (off == 0 && length sub == chunk_size) ≡ true
          → (e.dedup && (off == 0 && length sub == chunk_size)) ≡ true
      both p q = ap (λ (b : Bool). b && (off == 0 && length sub == chunk_size)) p ∙ q

      covered :
          (i : ℕ)
          → off ≡ 0
          → length sub ≡ chunk_size
          → i < chunk_size
          → get_or sub i 0 ≡ overlay off sub (content e k lc) i
      covered i z size low = sym (
          ap (λ (m : ℕ). overlay m sub (content e k lc) i) z
          ∙ overlay_whole sub (content e k lc) i (omega (arith, size)))
