-- ===== src/Engine/Writes/Fresh.antt =====
-- src/engine.rs, `write_chunk` without dedup and compression: a chunk is taken for a hole of the
-- file, and a chunk that the file has is overwritten.
use vramdisk.Lookup.Key.{Bytes, normalize_key}
use vramdisk.Lookup.Table.{Node, node_at}
use vramdisk.Placement.{raw}
use vramdisk.Units.{chunk_size}
use vramdisk.Engine.Vram.{Vram, written, zeroed, write_at_inside, zero_at_inside}
use vramdisk.Engine.State.{StorageEngine, coord, set_coord}
use vramdisk.Engine.Store.{write_plain}
use vramdisk.Engine.Accounts.{Allots}
use vramdisk.Engine.Accounts.Alloc.{alloc_chunk_lem}
use vramdisk.Engine.Refs.{refs}
use vramdisk.Engine.Contents.{content, byte_of, IsPlain, coord_lem}
use vramdisk.Engine.Contents.Storing.{Stores, Stores-cong, Written, fresh-IsReady}
use vramdisk.Engine.Contents.Commit.{known-Stores}
use vramdisk.Engine.Contents.Overlay.{
  overlay, overlay_cong, overlay_covered, written_elsewhere, written_here, zeroed_elsewhere,
  zeroed_here,
}
use vramdisk.Common.{
  &&_parts, ==_iff, ℕ, ◌+◌, ◌*◌, ◌≤◌, ◌<◌, ◌≡◌, ◌≢◌, inl, inr, refl, sym, ap, ◌∙◌, arith, none,
  some, ◌==◌, ◌&&◌, length, Bool-cases,
}

module _ (e : StorageEngine) (v : IsPlain e) (path : Bytes) (lc : ℕ) (n : Node)
    (found : node_at e.table (normalize_key path) ≡ some n) (lt : lc < length n.coords) (off : ℕ)
    (sub : Bytes) (some_bytes : 0 < length sub) (fits : off + length sub ≤ chunk_size) where
  abbrev k : Bytes
  k = normalize_key path

  hole_content : (i : ℕ) → coord e path lc ≡ none → content e k lc i ≡ 0
  unfolding content
  hole_content i hole = ap (λ p. byte_of e.vram p i) (sym (coord_lem e path lc) ∙ hole)

  module _ (hole : coord e path lc ≡ none) (a : StorageEngine) (c : ℕ)
      (al : Allots e (refs e.table) a c) where
    room : c * chunk_size + chunk_size ≤ a.vram.size
    room = omega (arith, al.below, v.accounts.fits, ap (λ (u : Vram). u.size) al.same.vram)

    abbrev whole_bytes : ℕ → ℕ
    whole_bytes = written a.vram.byte (c * chunk_size + off) sub

    abbrev part_bytes : ℕ → ℕ
    part_bytes = written (zeroed a.vram.byte (c * chunk_size) chunk_size) (c * chunk_size + off) sub

    same_byte : (j : ℕ) → a.vram.byte j ≡ e.vram.byte j
    same_byte j = ap (λ (u : Vram). u.byte j) al.same.vram

    filled_hole :
        (bytes : ℕ → ℕ)
        → ((d i : ℕ)
            → i < chunk_size
            → d ≢ c
            → bytes (d * chunk_size + i) ≡ e.vram.byte (d * chunk_size + i))
        → ((i : ℕ)
            → i < chunk_size
            → bytes (c * chunk_size + i) ≡ overlay off sub (content e k lc) i)
        → Stores e (normalize_key path) lc (overlay off sub (content e k lc)) (
            set_coord
              (record a { vram = record { size = a.vram.size; byte = bytes } })
              path
              lc
              (some (raw c)))
    filled_hole bytes other here = Stores-cong e k lc _ _ _ here (
        known-Stores e v path lc n found lt c _
          (fresh-IsReady e c a (record { size = a.vram.size; byte = bytes }) al
            (ap (λ (u : Vram). u.size) al.same.vram) other)
          none hole)

    filled_whole :
        off ≡ 0
        → length sub ≡ chunk_size
        → Stores e (normalize_key path) lc (overlay off sub (content e k lc)) (
            set_coord
              (record a { vram = record { size = a.vram.size; byte = whole_bytes } })
              path
              lc
              (some (raw c)))
    filled_whole zero_off whole =
        filled_hole whole_bytes
          (λ d i low ne.
            written_elsewhere a.vram.byte c d i low ne off sub fits
            ∙ same_byte (d * chunk_size + i))
          (λ i low.
            written_here a.vram.byte c i low off sub
            ∙ overlay_covered off sub _ _ i zero_off (omega (arith, whole)))

    filled_part : Stores e (normalize_key path) lc (overlay off sub (content e k lc)) (
        set_coord
          (record a { vram = record { size = a.vram.size; byte = part_bytes } })
          path
          lc
          (some (raw c)))
    filled_part =
        filled_hole part_bytes
          (λ d i low ne.
            written_elsewhere (zeroed a.vram.byte (c * chunk_size) chunk_size) c d i low ne off sub
              fits
            ∙ zeroed_elsewhere a.vram.byte c d i low ne
            ∙ same_byte (d * chunk_size + i))
          (λ i low.
            written_here (zeroed a.vram.byte (c * chunk_size) chunk_size) c i low off sub
            ∙ overlay_cong off sub _ _ i
                (zeroed_here a.vram.byte c i low ∙ sym (hole_content i hole)))

  -- A hole of the file gets a chunk, whose bytes outside the written range are zero.
  pub write_plain_hole :
      coord e path lc ≡ none
      → Written e
          (normalize_key path)
          lc
          (overlay off sub (content e (normalize_key path) lc))
          (write_plain e path lc off sub)
  unfolding write_plain
  write_plain_hole hole =
      rw (hole, write_plain)
        (elim (alloc_chunk_lem e (refs e.table) v.accounts) [
          | inl (q, full) ↦ rw q (inl (refl, full))
          | inr (a, c, q, al) ↦ rw q (elim (Bool-cases (off == 0 && length sub == chunk_size)) [
            | inl whole ↦
                let (z, size) = &&_parts (off == 0) (length sub == chunk_size) whole in
                rw
                  (
                    whole,
                    write_at_inside a.vram (c * chunk_size + off) sub some_bytes
                        (omega (arith, room hole a c al)),
                  )
                  (inr (
                    _,
                    refl,
                    filled_whole hole a c al ((==_iff off 0).0 z)
                        ((==_iff (length sub) chunk_size).0 size),
                  ))
            | inr part ↦
                rw
                  (
                    part,
                    zero_at_inside a.vram (c * chunk_size) chunk_size (omega arith)
                        (room hole a c al),
                    write_at_inside
                        (record {
                          size = a.vram.size;
                          byte = zeroed a.vram.byte (c * chunk_size) chunk_size;
                        })
                        (c * chunk_size + off) sub some_bytes (omega (arith, room hole a c al)),
                  )
                  (inr (_, refl, filled_part hole a c al))
          ])
        ])
