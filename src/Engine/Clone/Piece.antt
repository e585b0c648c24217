-- ===== src/Engine/Clone/Piece.antt =====
-- src/engine.rs, `write` under dedup of a part of one logical chunk, which has no whole chunk to share,
-- against the view of `Engine.Contents`.
use vramdisk.Lookup.Key.{Bytes, normalize_key}
use vramdisk.Lookup.Table.{Node, node_at}
use vramdisk.Lookup.Table
use vramdisk.Units.{chunk_size}
use vramdisk.Engine.Result.{ok}
use vramdisk.Engine.State.{External, StorageEngine}
use vramdisk.Engine.Store.{write_chunk}
use vramdisk.Engine.Contents.{IsPlain}
use vramdisk.Engine.Growth.{Grows}
use vramdisk.Engine.Laying.{put_pieces_lem}
use vramdisk.Engine.Stored.{Stored}
use vramdisk.Engine.Pieces.{write_pieces, write_parts, full_start}
use vramdisk.Engine.DedupWrite.{write_dedup_uncompressed}
use vramdisk.Engine.Write.{write_to, store_bytes, write}
use vramdisk.Engine.WriteTo.{WroteTo, byte_from, write_to_lem}
use vramdisk.Engine.Writes.{write_chunk_lem}
use vramdisk.Common.{
  ℕ, ◌+◌, ◌*◌, ◌/◌, ◌%◌, ◌≤◌, ◌<◌, ◌≡◌, refl, sym, ap, ◌∙◌, subst, arith, true, false, some, not,
  ◌==◌, leb, ◌&&◌, length, get_or, by_true, by_false,
}

-- An engine with dedup that compares bytes and does not compress.
pub record IsSharing (e : StorageEngine) : Type 0 where
  pub shared : e.dedup ≡ true
  pub raw_only : e.compress ≡ false
  pub verify : e.dedup_verify_bytes ≡ true

module _ (x : External) (path : Bytes) (offset : ℕ) (bytes : Bytes) (some_bytes : 0 < length bytes)
    (inside : offset % chunk_size + length bytes ≤ chunk_size)
    (short : length bytes < chunk_size) where
  part_lem :
      (a : StorageEngine)
      → IsPlain a
      → IsSharing a
      → (m : Node) → node_at a.table (normalize_key path) ≡ some m
      → offset + length bytes ≤ length m.coords * chunk_size
      → Stored a
          (normalize_key path)
          offset
          (length bytes)
          (byte_from offset bytes)
          (store_bytes x a path offset bytes)
  unfolding store_bytes write_dedup_uncompressed write_parts write_pieces
  part_lem a w s m there room =
      let S = Stored a (normalize_key path) offset (length bytes) (byte_from offset bytes) in
      by_true S (a.dedup && not a.compress) _ _ (rw (s.shared, s.raw_only) refl) (
        by_true S (leb ((offset + length bytes) / chunk_size * chunk_size) (full_start offset)) _ _
          (ground arith)
          (put_pieces_lem a (write_chunk x) path (length bytes)
            (λ d v mode lc n found lt off sub pos fits few.
              write_chunk_lem d v path lc n found lt x off sub (mode.compress ∙ s.raw_only)
                (mode.verify ∙ s.verify) pos fits
                (λ _ whole. absurd (omega (arith, whole, few, short))))
            (length bytes) a w
            (record { total = refl; dedup = refl; compress = refl; verify = refl }) m there offset
            bytes (byte_from offset bytes) (omega arith) (omega arith) room
            (λ i low. ap (λ (j : ℕ). get_or bytes j 0) (omega arith))))

  module _ (e : StorageEngine) (v : IsPlain e) (sharing : IsSharing e) (n : Node)
      (found : node_at e.table (normalize_key path) ≡ some n) (file : n.is_dir ≡ false) where
    grown_part_lem :
        (a : StorageEngine)
        → Grows e (normalize_key path) (offset + length bytes) a
        → Stored a
            (normalize_key path)
            offset
            (length bytes)
            (byte_from offset bytes)
            (store_bytes x a path offset bytes)
    grown_part_lem a g =
        part_lem a g.plain
          (record {
            shared = g.mode.dedup ∙ sharing.shared;
            raw_only = g.mode.compress ∙ sharing.raw_only;
            verify = g.mode.verify ∙ sharing.verify;
          })
          g.node g.there (omega (arith, g.long))

    -- It does nothing, or fills the disk, or is stored.
    pub write_part_lem : WroteTo e v path n found file offset bytes (write x e path offset bytes)
    unfolding write Table.get
    write_part_lem =
        by_false (WroteTo e v path n found file offset bytes) (length bytes == 0) (e, ok 0) _
          (ground arith)
          (subst
            (λ o.
              WroteTo e v path n found file offset bytes
                (write_to x.now e path offset bytes (λ a. store_bytes x a path offset bytes) o))
            (sym found) (write_to_lem e v path n found file offset bytes x.now _ grown_part_lem))
