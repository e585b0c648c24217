-- ===== src/Engine/RawParts.antt =====
-- src/engine.rs, `write` and `write_raw_unshared` without dedup and compression, against the view of
-- `Engine.Contents`, and a read of what was written.
use vramdisk.Lookup.Key.{Bytes, normalize_key}
use vramdisk.Lookup.Table.{Node, node_at}
use vramdisk.Lookup.Table
use vramdisk.Units.{chunk_size}
use vramdisk.Engine.Result.{ok}
use vramdisk.Engine.State.{External, StorageEngine, Outcome, and_then}
use vramdisk.Engine.Store.{Done, write_chunk}
use vramdisk.Engine.Nodes.{bare_at-found, length-bare}
use vramdisk.Engine.Contents.{IsPlain}
use vramdisk.Engine.Growth.{Grows}
use vramdisk.Engine.Laying.{Lays, nothing-Lays, put_pieces_lem}
use vramdisk.Engine.Pieces.{write_pieces, write_head, write_tail, write_parts, full_start, slice}
use vramdisk.Engine.RawWrite.{raw_rounds, write_raw_unshared}
use vramdisk.Engine.RawRounds.{raw_rounds_lem}
use vramdisk.Engine.Stored.{Stored, Stored-then, write_chunk-Written, Written-Stored}
use vramdisk.Engine.Read.{read}
use vramdisk.Engine.RawInternal.{Overwrites-read}
use vramdisk.Engine.Write.{write_to, store_bytes, write}
use vramdisk.Engine.WriteTo.{WroteTo, byte_from, write_to_lem}
use vramdisk.Common.{
  ℕ, ◌+◌, ◌-◌, ◌*◌, ◌/◌, ◌%◌, ◌≤◌, ◌<◌, ◌≡◌, max, inl, inr, refl, sym, ap, ◌∙◌, subst, arith, Bool,
  false, some, not, ◌==◌, ltb, leb, ◌&&◌, length, get_or, drop, length-take, length-drop,
  get_or-take, get_or-drop, Bool-cases, by_true, by_false,
}

module _ (x : External) (path : Bytes) where
  abbrev k : Bytes
  k = normalize_key path

  module _ (offset : ℕ) (bytes : Bytes) (some_bytes : 0 < length bytes) where
    abbrev new : ℕ → ℕ
    new = byte_from offset bytes

    abbrev full_end : ℕ
    full_end = (offset + length bytes) / chunk_size * chunk_size

    length-slice : (from n : ℕ) → from + n ≤ length bytes → length (slice from n bytes) ≡ n
    length-slice from n h = ground (arith, length-take n (drop from bytes), length-drop from bytes)

    slice_byte : (from n i : ℕ) → i < n → get_or (slice from n bytes) i 0 ≡ new (offset + from + i)
    slice_byte from n i low =
        get_or-take n (drop from bytes) i 0 low
        ∙ get_or-drop from bytes i (from + i) 0 refl
        ∙ ap (λ (j : ℕ). get_or bytes j 0) (omega arith)

    -- A plain engine without dedup and compression, whose file has coordinates for the bytes.
    record Ready (e : StorageEngine) : Type 0 where
      pub plain : IsPlain e
      pub unshared : e.dedup ≡ false
      pub raw_only : e.compress ≡ false
      pub node : Node
      pub there : node_at e.table (normalize_key path) ≡ some node
      pub room : offset + length bytes ≤ length node.coords * chunk_size

    Lays-Ready :
        (e e' : StorageEngine) (pos count : ℕ) → Ready e → Lays e k pos count new e' → Ready e'
    Lays-Ready e e' pos count r y =
        let (m, there, alike) = bare_at-found e.table e'.table k r.node (y.nodes k) r.there in
        record {
          plain = y.plain;
          unshared = y.mode.dedup ∙ r.unshared;
          raw_only = y.mode.compress ∙ r.raw_only;
          node = m;
          there = there;
          room = omega (arith, r.room, length-bare m r.node alike);
        }

    -- A part that lies in one logical chunk.
    piece_lem :
        (e : StorageEngine)
        → Ready e
        → (lc off from n : ℕ) → offset + from ≡ lc * chunk_size + off
        → 0 < n
        → off + n ≤ chunk_size
        → from + n ≤ length bytes
        → Stored e k (offset + from) n new (write_chunk x e path lc off (slice from n bytes))
    piece_lem e r lc off from n at pos fits within =
        let long = length-slice from n within in
        subst
          (λ c. Stored e k (offset + from) c new (write_chunk x e path lc off (slice from n bytes)))
          long
          (Written-Stored x path e r.plain lc off (offset + from) (slice from n bytes) new _ at
            (omega (arith, long)) (omega (arith, long))
            (λ i low. slice_byte from n i (omega (arith, long)))
            (write_chunk-Written x path e r.plain r.unshared r.raw_only lc r.node r.there
              (omega (arith, r.room)) off (slice from n bytes) (omega (arith, long))
              (omega (arith, long))))

    nothing-Stored :
        (e : StorageEngine) → Ready e → (pos n : ℕ) → n ≡ 0 → Stored e k pos n new (e, ok tt)
    nothing-Stored e r pos n z =
        inr (e, refl, subst (λ c. Lays e k pos c new e) (sym z) (nothing-Lays e k pos new r.plain))

    module _ (whole : full_start offset < full_end) where
      head_lem :
          (e : StorageEngine)
          → Ready e
          → Stored e k offset (full_start offset - offset) new (write_head x e path offset bytes)
      unfolding write_head
      head_lem e r = elim (Bool-cases (ltb offset (full_start offset))) [
        | inl some_head ↦
            by_true (Stored e k offset (full_start offset - offset) new) _ _ _ some_head (
              subst
                (λ p. Stored e k p (full_start offset - offset) new (
                  write_chunk x e path (offset / chunk_size) (offset % chunk_size)
                    (slice 0 (full_start offset - offset) bytes)))
                (omega arith)
                (piece_lem e r (offset / chunk_size) (offset % chunk_size) 0
                  (full_start offset - offset) (omega arith) (ground (arith, some_head))
                  (ground (arith, some_head)) (omega arith)))
        | inr aligned ↦
            by_false (Stored e k offset (full_start offset - offset) new) _ _ _ aligned
              (nothing-Stored e r offset _ (ground (arith, aligned)))
      ]

      tail_lem :
          (e : StorageEngine)
          → Ready e
          → Stored e k full_end
              (offset + length bytes - full_end)
              new
              (write_tail x e path offset bytes)
      unfolding write_tail
      tail_lem e r = elim (Bool-cases (ltb full_end (offset + length bytes))) [
        | inl some_tail ↦
            by_true (Stored e k full_end (offset + length bytes - full_end) new) _ _ _ some_tail (
              subst
                (λ p. Stored e k p (offset + length bytes - full_end) new (
                  write_chunk x e path (full_end / chunk_size) 0
                    (slice (full_end - offset) (offset + length bytes - full_end) bytes)))
                (omega arith)
                (piece_lem e r (full_end / chunk_size) 0 (full_end - offset)
                  (offset + length bytes - full_end) (omega arith) (ground (arith, some_tail))
                  (omega arith) (omega arith)))
        | inr ends ↦
            by_false (Stored e k full_end (offset + length bytes - full_end) new) _ _ _ ends
              (nothing-Stored e r full_end _ (ground (arith, ends)))
      ]

      abbrev middle : Bytes
      middle = slice (full_start offset - offset) (full_end - full_start offset) bytes

      middle_lem :
          (e : StorageEngine)
          → Ready e
          → Stored e k (full_start offset) (full_end - full_start offset) new (
              raw_rounds
                (length middle / chunk_size)
                e
                path
                (full_start offset / chunk_size)
                (length middle / chunk_size)
                middle)
      middle_lem e r =
          let long =
            length-slice (full_start offset - offset) (full_end - full_start offset)
              (omega arith) in
          let n = length middle / chunk_size in
          let lc = full_start offset / chunk_size in
          let o = raw_rounds n e path lc n middle in
          subst (λ p. Stored e k p (full_end - full_start offset) new o) (omega arith)
            (subst (λ c. Stored e k (lc * chunk_size) c new o) (omega (arith, long))
              (raw_rounds_lem path n e r.plain r.unshared lc n (omega arith) middle new
                (omega (arith, long))
                (λ i low.
                  slice_byte (full_start offset - offset) (full_end - full_start offset) i
                    (omega (arith, long))
                  ∙ ap new (omega arith))
                r.node r.there (omega (arith, long, r.room))))

    pieces_lem :
        (e : StorageEngine)
        → Ready e
        → Stored e k offset (length bytes) new (write_pieces x e path offset bytes)
    unfolding write_pieces
    pieces_lem e r =
        put_pieces_lem e (write_chunk x) path (length bytes)
          (λ d w mode lc m there lt off sub pos fits short.
            write_chunk-Written x path d w (mode.dedup ∙ r.unshared) (mode.compress ∙ r.raw_only) lc
              m there lt off sub pos fits)
          (length bytes) e r.plain
          (record { total = refl; dedup = refl; compress = refl; verify = refl }) r.node r.there
          offset bytes new (omega arith) (omega arith) r.room
          (λ i low. ap (λ (j : ℕ). get_or bytes j 0) (omega arith))

    whole_lem :
        (e : StorageEngine)
        → Ready e
        → Stored e k offset (length bytes) new (write_raw_unshared x e path offset bytes)
    unfolding write_raw_unshared write_parts
    whole_lem e r = elim (Bool-cases (leb full_end (full_start offset))) [
      | inl short ↦ by_true (Stored e k offset (length bytes) new) _ _ _ short (pieces_lem e r)
      | inr many ↦
          let whole : full_start offset < full_end = ground (arith, many) in
          let head = full_start offset - offset in
          let mid = full_end - full_start offset in
          let tail = offset + length bytes - full_end in
          let rounds : StorageEngine → Outcome Done = λ a.
            raw_rounds (length (middle whole) / chunk_size) a path (full_start offset / chunk_size)
              (length (middle whole) / chunk_size) (middle whole) in
          let rest : StorageEngine → Outcome Done =
            λ a. and_then (rounds a) (λ b done. write_tail x b path offset bytes) in
          let all : Outcome Done = and_then (write_head x e path offset bytes) (λ a done. rest a) in
          by_false (Stored e k offset (length bytes) new) _ _ _ many (
            subst (λ c. Stored e k offset c new all) (omega arith)
              (Stored-then e k offset head (mid + tail) new (write_head x e path offset bytes) rest
                (head_lem whole e r)
                (λ a y.
                  let ra = Lays-Ready e a offset head r y in
                  Stored-then a k (offset + head) mid tail new (rounds a)
                    (λ b. write_tail x b path offset bytes)
                    (subst (λ p. Stored a k p mid new (rounds a)) (omega arith)
                      (middle_lem whole a ra))
                    (λ b z.
                      subst (λ p. Stored b k p tail new (write_tail x b path offset bytes))
                        (omega arith)
                        (tail_lem whole b (Lays-Ready a b (offset + head) mid ra z))))))
    ]

    module _ (e : StorageEngine) (v : IsPlain e) (plain : e.dedup ≡ false)
        (raw_only : e.compress ≡ false) (n : Node)
        (found : node_at e.table (normalize_key path) ≡ some n) (file : n.is_dir ≡ false) where
      stored_lem :
          (a : StorageEngine)
          → Grows e (normalize_key path) (offset + length bytes) a
          → Stored a
              (normalize_key path)
              offset
              (length bytes)
              (byte_from offset bytes)
              (store_bytes x a path offset bytes)
      unfolding store_bytes
      stored_lem a g =
          let S = Stored a (normalize_key path) offset (length bytes) (byte_from offset bytes) in
          let p : a.dedup ≡ false = g.mode.dedup ∙ plain in
          let q : a.compress ≡ false = g.mode.compress ∙ raw_only in
          by_false S _ _ _ (ap (λ (b : Bool). b && not a.compress) p) (
            by_true S (not a.compress && not a.dedup) _ _ (rw (p, q) refl) (
              whole_lem a (record {
                plain = g.plain;
                unshared = p;
                raw_only = q;
                node = g.node;
                there = g.there;
                room = omega (arith, g.long);
              })))

      -- On a plain engine without dedup and compression `write` of at least one byte to a file does
      -- nothing where the bytes do not fit on the disk or end at 2 ^ 64 or later; or it fails when
      -- no chunk is free and has stored the first bytes; or it succeeds: all bytes are in the file,
      -- which has the size that this makes it, every other byte of every file reads as before, and
      -- no file is gone or smaller. The engine is plain in all cases.
      pub write_lem : WroteTo e v path n found file offset bytes (write x e path offset bytes)
      unfolding write Table.get
      write_lem =
          by_false (WroteTo e v path n found file offset bytes) (length bytes == 0) (e, ok 0) _
            (ground arith)
            (subst
              (λ o.
                WroteTo e v path n found file offset bytes
                  (write_to x.now e path offset bytes (λ a. store_bytes x a path offset bytes) o))
              (sym found) (write_to_lem e v path n found file offset bytes x.now _ stored_lem))

      -- On a plain engine without dedup and compression, where `write` of at least one byte to a file
      -- succeeds, a read of as many bytes at the same offset gives them back.
      pub read-write :
          (b : StorageEngine) (m : ℕ)
          → write x e path offset bytes ≡ (b, ok m)
          → read x b path offset (length bytes) ≡ ok bytes
      read-write b m wrote = elim write_lem [
        | inl (q, _) ↦ cc (q, wrote)
        | inr (inl (a, _, q, _, _, _)) ↦ cc (q, wrote)
        | inr (inr (a, q, o, h)) ↦
            subst (λ (u : StorageEngine). read x u path offset (length bytes) ≡ ok bytes)
              (ap (λ (r : Outcome ℕ). r.0) (sym q ∙ wrote))
              (Overwrites-read x e a path offset bytes (max n.size (offset + length bytes)) o h
                (omega arith))
      ]
