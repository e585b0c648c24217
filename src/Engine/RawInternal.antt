-- ===== src/Engine/RawInternal.antt =====
-- src/engine.rs, `write_raw_internal` without dedup, against the view of `Engine.Contents`, and a read
-- of what it wrote.
use vramdisk.Lookup.Key.{Bytes, normalize_key}
use vramdisk.Lookup.NodeMap.{bytes_eq}
use vramdisk.Lookup.NodeMap.Laws.{bytes_eq_refl}
use vramdisk.Lookup.Table.{Node, node_at}
use vramdisk.Lookup.Table
use vramdisk.Chunk.{alloc_one, free}
use vramdisk.Engine.Result.{ok, err, no_space}
use vramdisk.Engine.State.{External, StorageEngine, Outcome, and_then, took, alloc_chunk}
use vramdisk.Engine.Store.{write_plain}
use vramdisk.Engine.Contents.{content, IsPlain, coord_lem, placement_cases}
use vramdisk.Engine.Contents.Storing.{Written}
use vramdisk.Engine.Contents.Overlay.{overlay}
use vramdisk.Engine.Growth.{Grows}
use vramdisk.Engine.Laying.{Lays, put_pieces_lem}
use vramdisk.Engine.Pieces.{put_pieces}
use vramdisk.Engine.Read.{read}
use vramdisk.Engine.Read.Runs.{file_byte}
use vramdisk.Engine.Read.Reads.{read_lem}
use vramdisk.Engine.Writes.{write_plain_lem}
use vramdisk.Engine.Write.{write_to, fill_chunk, write_chunk_raw_internal, write_raw_internal}
use vramdisk.Engine.WriteTo.{Overwrites, HasSize, WroteTo, byte_from, write_to_lem}
use vramdisk.Common.{
  ℕ, suc, ◌+◌, ◌-◌, ◌≤◌, ◌<◌, ◌≡◌, ◌⊎◌, inl, inr, refl, sym, ap, ◌∙◌, subst, arith, [], ◌∷◌, false,
  some, ◌==◌, ltb, leb, ◌&&◌, by_true, by_false, if◌then◌else◌, length, get_or,
}

module _ (e : StorageEngine) (v : IsPlain e) (plain : e.dedup ≡ false) (path : Bytes) where
  one_alloc : (if e.dedup then alloc_chunk e else took e (alloc_one e.alloc)) ≡ alloc_chunk e
  unfolding alloc_chunk
  one_alloc = by_false (λ (o : Outcome ℕ). o ≡ took e (alloc_one e.alloc)) _ _ _ plain refl

  -- It does what `write_plain` does.
  write_chunk_raw_internal-write_plain :
      (lc off : ℕ) (sub : Bytes)
      → write_chunk_raw_internal e path lc off sub ≡ write_plain e path lc off sub
  unfolding write_chunk_raw_internal write_plain alloc_chunk
  write_chunk_raw_internal-write_plain lc off sub =
      elim (placement_cases e v (normalize_key path) lc) [
        | inl hole ↦
            rw (coord_lem e path lc ∙ hole, write_chunk_raw_internal, write_plain)
              (ap (λ (o : Outcome ℕ). and_then o (fill_chunk path lc off sub)) one_alloc)
        | inr (c, q, below, live) ↦
            rw (coord_lem e path lc ∙ q, write_chunk_raw_internal, write_plain) refl
      ]

-- Equal bytes at every place.
pub bytes_ext :
    (a b : Bytes)
    → length a ≡ length b
    → ((i : ℕ) → i < length a → get_or a i 0 ≡ get_or b i 0)
    → a ≡ b
bytes_ext [] [] h f = refl
bytes_ext [] (y ∷ b) h f = absurd (omega (arith, h))
bytes_ext (x ∷ a) [] h f = absurd (omega (arith, h))
bytes_ext (x ∷ a) (y ∷ b) h f =
    let head : x ≡ y = f 0 (omega arith) in
    let tail = bytes_ext a b (omega (arith, h)) (λ i low. f (suc i) (omega arith)) in
    λ i. head i ∷ tail i

-- A read of the bytes that were written gives them back.
pub Overwrites-read :
    (x : External) (e b : StorageEngine) (path : Bytes) (offset : ℕ) (bytes : Bytes) (size : ℕ)
    → Overwrites e (normalize_key path) offset (length bytes) bytes b
    → HasSize b (normalize_key path) size
    → offset + length bytes ≤ size
    → read x b path offset (length bytes) ≡ ok bytes
Overwrites-read x e b path offset bytes size o h fits =
    let (got, q, long, same) =
      read_lem x b o.plain path offset h.node h.there h.is_file (length bytes) in
    let all : length got ≡ length bytes = ground (arith, long, h.sized, fits) in
    q
    ∙ ap ok (
        bytes_ext got bytes all (λ i low.
          same i low
          ∙ o.bytes_of (normalize_key path) (offset + i)
          ∙ inside i (omega (arith, all))))
  where
    inside :
        (i : ℕ)
        → i < length bytes
        → (if bytes_eq (normalize_key path) (normalize_key path)
              && (leb offset (offset + i) && ltb (offset + i) (offset + length bytes))
            then get_or bytes (offset + i - offset) 0
            else file_byte e (normalize_key path) (offset + i))
          ≡ get_or bytes i 0
    inside i low =
        by_true (λ (m : ℕ). m ≡ get_or bytes i 0)
          (bytes_eq (normalize_key path) (normalize_key path)
            && (leb offset (offset + i) && ltb (offset + i) (offset + length bytes)))
          (get_or bytes (offset + i - offset) 0) _
          (ground (arith, bytes_eq_refl (normalize_key path)))
          (ap (λ (j : ℕ). get_or bytes j 0) (omega arith))

module _ (x : External) (e : StorageEngine) (v : IsPlain e) (plain : e.dedup ≡ false) (path : Bytes)
    (n : Node) (found : node_at e.table (normalize_key path) ≡ some n) (file : n.is_dir ≡ false)
    (offset : ℕ) (bytes : Bytes) (some_bytes : 0 < length bytes) where
  -- What is stored on an engine with room for it.
  pieces_lem :
      (a : StorageEngine)
      → Grows e (normalize_key path) (offset + length bytes) a
      → ((b : StorageEngine) × (m : ℕ) × (put_pieces write_chunk_raw_internal
              (length bytes)
              a
              path
              offset
              bytes
            ≡ (b, err no_space))
          × (m < length bytes)
          × (free b.alloc ≡ 0)
          × Lays a (normalize_key path) offset m (byte_from offset bytes) b)
        ⊎ ((b : StorageEngine) × (put_pieces write_chunk_raw_internal
                (length bytes)
                a
                path
                offset
                bytes
              ≡ (b, ok tt))
            × Lays a (normalize_key path) offset (length bytes) (byte_from offset bytes) b)
  pieces_lem a g =
      put_pieces_lem a write_chunk_raw_internal path (length bytes)
        (λ d w mode lc m there lt off sub pos fits short.
          subst
            (Written d (normalize_key path) lc
              (overlay off sub (content d (normalize_key path) lc)))
            (sym (
              write_chunk_raw_internal-write_plain d w (mode.dedup ∙ g.mode.dedup ∙ plain) path lc
                off sub))
            (write_plain_lem d w path lc m there lt off sub (mode.dedup ∙ g.mode.dedup ∙ plain) pos
              fits))
        (length bytes) a g.plain
        (record { total = refl; dedup = refl; compress = refl; verify = refl }) g.node g.there
        offset bytes (byte_from offset bytes) (omega arith) (omega arith) (omega (arith, g.long))
        (λ i low. ap (λ (j : ℕ). get_or bytes j 0) (omega arith))

  -- On a plain engine without dedup `write_raw_internal` of at least one byte to a file does
  -- nothing where the bytes do not fit on the disk or end at 2 ^ 64 or later; or it fails when no
  -- chunk is free and has stored the first bytes; or it succeeds: all bytes are in the file, which
  -- has the size that this makes it, every other byte of every file reads as before, and no file is
  -- gone or smaller. The engine is plain in all cases.
  pub write_raw_internal_lem :
      WroteTo e v path n found file offset bytes (write_raw_internal x e path offset bytes)
  unfolding write_raw_internal Table.get
  write_raw_internal_lem =
      by_false (WroteTo e v path n found file offset bytes) (length bytes == 0) (e, ok 0) _
        (ground arith)
        (subst
          (λ o. WroteTo e v path n found file offset bytes (
            write_to x.now e path offset bytes
              (λ a. put_pieces write_chunk_raw_internal (length bytes) a path offset bytes) o))
          (sym found) (write_to_lem e v path n found file offset bytes x.now _ pieces_lem))
