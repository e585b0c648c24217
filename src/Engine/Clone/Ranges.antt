-- ===== src/Engine/Clone/Ranges.antt =====
-- src/engine.rs, `clone_range` from its guards to its result, against the view of `Engine.Contents`.
use mathlib.Core.Option.{some-injective}
use vramdisk.Lookup.Key.{Bytes, normalize_key}
use vramdisk.Lookup.Table.{Node, node_at}
use vramdisk.Lookup.Table
use vramdisk.Chunk.{free}
use vramdisk.Engine.Result.{ok, err, no_space}
use vramdisk.Engine.State.{External, StorageEngine, Outcome, and_then}
use vramdisk.Engine.Files.{logical_chunks, ensure_logical_len}
use vramdisk.Engine.Contents.{IsPlain, CountsFit}
use vramdisk.Engine.Read.Runs.{file_byte}
use vramdisk.Engine.Read.Reads.{read_lem}
use vramdisk.Engine.Growth.{Grows, ensure_logical_len-Grows}
use vramdisk.Engine.Write.{write}
use vramdisk.Engine.WriteTo.{HasSize}
use vramdisk.Engine.RawParts.{write_lem}
use vramdisk.Engine.Clone.{
  ranges_overlap, eq_ignore_ascii_case, copy_bytes, copy_head, share_chunks, copy_tail,
  clone_shared, clone_nodes, clone_range,
}
use vramdisk.Engine.Clone.Piece.{IsSharing}
use vramdisk.Engine.Clone.Copies.{Copies, Apart, Grows-Copies, nothing-Copies, Overwrites-Copies}
use vramdisk.Engine.Clone.Copying.{CanClone, At, copy_head_lem}
use vramdisk.Engine.Clone.Ends.{shared_lem}
use vramdisk.Units.{chunk_size}
use vramdisk.Common.{
  ℕ, ◌+◌, ◌-◌, ◌/◌, ◌^◌, ◌≤◌, ◌<◌, ◌≡◌, ◌⊎◌, min, max, inl, inr, refl, sym, ap, ◌∙◌, subst, arith,
  some, true, false, not, ◌==◌, ltb, leb, ◌&&◌, ◌||◌, if◌then◌else◌, length, get_or, Bool-cases,
  by_true, by_false,
}

module _ (x : External) (src_path dst_path : Bytes) (from to : ℕ) (e : StorageEngine)
    (v : IsPlain e) (raw_only : e.compress ≡ false) (src dst : Node)
    (src_found : node_at e.table (normalize_key src_path) ≡ some src)
    (src_file : src.is_dir ≡ false)
    (dst_found : node_at e.table (normalize_key dst_path) ≡ some dst)
    (dst_file : dst.is_dir ≡ false) where
  abbrev ks : Bytes
  ks = normalize_key src_path

  abbrev kd : Bytes
  kd = normalize_key dst_path

  -- What comes of it: nothing is done; or the disk becomes full, with the first bytes copied; or all
  -- are copied.
  abbrev pub ClonesTo : ℕ → Outcome ℕ → Type 0
  ClonesTo n o =
      ((o ≡ (e, err no_space)) × ((2 ^ 64 ≤ to + n) ⊎ (e.alloc.total < logical_chunks (to + n))))
      ⊎ ((b : StorageEngine) × (got : ℕ) × (o ≡ (b, err no_space))
          × (got < n)
          × (free b.alloc ≡ 0)
          × Copies e (normalize_key src_path) (normalize_key dst_path) from to got b)
      ⊎ ((b : StorageEngine) × (o ≡ (b, ok n))
          × Copies e (normalize_key src_path) (normalize_key dst_path) from to n b
          × HasSize b (normalize_key dst_path) (max dst.size (to + n)))

  -- The engine at the place where the code starts to share whole chunks.
  abbrev pub before_sharing : ℕ → StorageEngine
  before_sharing n =
      (and_then (ensure_logical_len e dst_path (to + n))
        (λ a done. copy_head x src_path dst_path from to n a n 0)).0

  -- Under dedup the ranges are apart, and the code sees it, and no count of references wraps when the
  -- whole chunks are shared.
  abbrev pub SharesApart : ℕ → Type 0
  SharesApart n =
      IsSharing e
      × CountsFit (n / chunk_size) (before_sharing n)
      × Apart (normalize_key src_path) (normalize_key dst_path) from to n
      × ((eq_ignore_ascii_case src_path dst_path && ranges_overlap from (from + n) to (to + n))
          ≡ false)

  -- Bytes of the source, written.
  written_lem :
      (bytes : Bytes)
      → 0 < length bytes
      → e.dedup ≡ false
      → ((i : ℕ) → i < length bytes → get_or bytes i 0 ≡ file_byte e ks (from + i))
      → ClonesTo (length bytes) (write x e dst_path to bytes)
  written_lem bytes some_bytes plain same =
      elim (write_lem x dst_path to bytes some_bytes e v plain raw_only dst dst_found dst_file) [
        | inl (q, why) ↦ inl (q, why)
        | inr (inl (b, got, q, lt, full, o)) ↦ inr (
            inl (
              b,
              got,
              q,
              lt,
              full,
              Overwrites-Copies e ks kd from to got bytes b (omega arith) same o,
            ))
        | inr (inr (b, q, o, h)) ↦ inr (
            inr (
              b,
              q,
              Overwrites-Copies e ks kd from to (length bytes) bytes b (omega arith) same o,
              h,
            ))
      ]

  module _ (n : ℕ) (some_bytes : 0 < n) (long : from + n ≤ src.size) where
    -- Without dedup.
    copied_lem : e.dedup ≡ false → ClonesTo n (copy_bytes x src_path dst_path from to e 0 n)
    unfolding copy_bytes
    copied_lem plain =
        let (bytes, q, size, same) = read_lem x e v src_path (from + 0) src src_found src_file n in
        let all : length bytes ≡ n = ground (arith, size, long) in
        rw (q, copy_bytes)
          (subst (λ p. ClonesTo n (write x e dst_path p bytes)) (omega arith)
            (subst (λ m. ClonesTo m (write x e dst_path to bytes)) all
              (written_lem bytes (omega (arith, all)) plain
                (λ i low. same i low ∙ ap (λ (p : ℕ). file_byte e ks (p + i)) (omega arith)))))

    after_head : Outcome ℕ → Outcome ℕ
    after_head o = and_then o (λ b done.
        let (c, shared) = share_chunks x src_path dst_path from to b n done in
        copy_tail x src_path dst_path from to c n shared)

    after_room : Outcome (Unit {0}) → Outcome ℕ
    unfolding after_head
    after_room o = and_then o (λ a done. after_head (copy_head x src_path dst_path from to n a n 0))

    reached :
        (a : StorageEngine)
        → ensure_logical_len e dst_path (to + n) ≡ (a, ok tt)
        → (d : ℕ) (b : StorageEngine) → copy_head x src_path dst_path from to n a n 0 ≡ (b, ok d)
        → before_sharing n ≡ b
    reached a made d b q =
        ap
          (λ (o : Outcome (Unit {0})).
            (and_then o (λ u done. copy_head x src_path dst_path from to n u n 0)).0)
          made
        ∙ ap (λ (o : Outcome ℕ). o.0) q

    fewer :
        CountsFit (n / chunk_size) (before_sharing n)
        → (d : ℕ) (b : StorageEngine) → before_sharing n ≡ b
        → CountsFit ((n - d) / chunk_size) b
    fewer few d b here = subst (CountsFit ((n - d) / chunk_size)) here (λ r. omega (arith, few r))

    grown_lem :
        SharesApart n
        → to + n < 2 ^ 64
        → logical_chunks (to + n) ≤ e.alloc.total
        → (a : StorageEngine) → Grows e (normalize_key dst_path) (to + n) a
        → ensure_logical_len e dst_path (to + n) ≡ (a, ok tt)
        → ClonesTo n (after_head (copy_head x src_path dst_path from to n a n 0))
    unfolding after_head
    grown_lem (sharing, few, apart, seen) near fits a g made =
        let old = g.files ks src src_found in
        let c : CanClone a ks kd from to n = record {
          plain = g.plain;
          sharing = record {
            shared = g.mode.dedup ∙ sharing.shared;
            raw_only = g.mode.compress ∙ sharing.raw_only;
            verify = g.mode.verify ∙ sharing.verify;
          };
          source = old.node;
          source_there = old.there;
          source_file = old.kind ∙ src_file;
          source_long = omega (arith, long, old.size);
          target = g.node;
          target_there = g.there;
          target_file = g.same_kind dst dst_found ∙ dst_file;
          apart = apart;
          near = near;
          fits = omega (arith, fits, g.mode.total);
        } in
        let start : At x src_path dst_path from to n a c 0 a = record {
          copied = nothing-Copies a ks kd from to g.plain;
          no_larger = λ m there.
              omega
                (arith, ap (λ (u : Node). u.size) (some-injective m g.node (sym there ∙ g.there)));
        } in
        elim (copy_head_lem x src_path dst_path from to n a c n 0 a start (omega arith)
          (omega arith)) [
            | inl (b, got, q, lt, full, s) ↦ inr (
                inl (
                  b,
                  got,
                  ap after_head q,
                  lt,
                  full,
                  Grows-Copies e a b ks kd from to got (to + n) g s,
                ))
            | inr (b, d, q, s, within, meets) ↦
                subst (ClonesTo n) (sym (ap after_head q))
                  (elim (shared_lem x src_path dst_path from to n a c g.long d b s within meets
                    (fewer few d b (reached a made d b q))) [
                      | inl (f, got, r, lt, full, t) ↦ inr (
                          inl (
                            f,
                            got,
                            r,
                            lt,
                            full,
                            Grows-Copies e a f ks kd from to got (to + n) g t,
                          ))
                      | inr (f, r, (t, h)) ↦ inr (
                          inr (
                            f,
                            r,
                            Grows-Copies e a f ks kd from to n (to + n) g t,
                            subst (λ z. HasSize f kd (max z (to + n))) (g.same_size dst dst_found)
                                h,
                          ))
                    ])
          ]

    no_room :
        ltb e.alloc.total (logical_chunks (to + n)) ≡ true
        → ensure_logical_len e dst_path (to + n) ≡ (e, err no_space)
    unfolding ensure_logical_len
    no_room small = rw small refl

    -- Under dedup.
    shared_ranges_lem :
        SharesApart n → to + n < 2 ^ 64 → ClonesTo n (clone_shared x src_path dst_path from to e n)
    unfolding clone_shared after_room after_head
    shared_ranges_lem h near = elim (Bool-cases (ltb e.alloc.total (logical_chunks (to + n)))) [
      | inl small ↦ inl (ap after_room (no_room small), inr (ground (arith, small)))
      | inr fits ↦ elim (ensure_logical_len-Grows e v dst_path (to + n)) [
        | inl (q, small) ↦ absurd (ground (arith, small, fits))
        | inr (inl (q, gone)) ↦ cc (gone, dst_found)
        | inr (inr (a, q, g)) ↦
            subst (ClonesTo n) (sym (ap after_room q))
              (grown_lem h near (ground (arith, fits)) a g q)
      ]
    ]

    by_mode :
        to + n < 2 ^ 64
        → (e.dedup ≡ false) ⊎ SharesApart n
        → ClonesTo n (
            if not e.dedup
            then copy_bytes x src_path dst_path from to e 0 n
            else if eq_ignore_ascii_case src_path dst_path
                && ranges_overlap from (from + n) to (to + n)
            then copy_bytes x src_path dst_path from to e 0 n
            else clone_shared x src_path dst_path from to e n)
    by_mode near (inl plain) = by_true (ClonesTo n) _ _ _ (ap not plain) (copied_lem plain)
    by_mode near (inr (sharing, few, apart, seen)) =
        by_false (ClonesTo n) _ _ _ (ap not sharing.shared)
          (by_false (ClonesTo n) _ _ _ seen (shared_ranges_lem (sharing, few, apart, seen) near))

  module _ (len : ℕ) (some_bytes : 0 < len) (inside : from < src.size) where
    -- On a plain engine without compression, where dedup is off, or is on and compares bytes, the
    -- two ranges share no byte of a file, the test of the code for an overlap finds none, and every
    -- chunk has fewer than 2 ^ 32 references, less the whole chunks in the range, where the code
    -- starts to share whole chunks:
    -- `clone_range` of at least one byte between two files, from before the end of the source, does
    -- nothing where the bytes do not fit on the disk or end at 2 ^ 64 or later; or it fails when no
    -- chunk is free and has copied the first bytes; or it succeeds: the bytes of the source are in
    -- the target, up to the end of the source, the target has the size that this makes it, every
    -- other byte of every file reads as before, and no file is gone or smaller. The engine is plain
    -- in all cases.
    pub clone_range_lem :
        (e.dedup ≡ false) ⊎ SharesApart (min len (src.size - from))
        → ClonesTo (min len (src.size - from)) (clone_range x src_path dst_path from to e len)
    unfolding clone_range clone_nodes Table.get
    clone_range_lem how =
        let n = min len (src.size - from) in
        by_false (ClonesTo n) (len == 0) _ _ (ground arith) (
          rw (src_found, clone_range)
            (rw (dst_found, clone_range)
              (by_false (ClonesTo n) (src.is_dir || dst.is_dir) _ _ (rw (src_file, dst_file) refl) (
                by_false (ClonesTo n) (leb src.size from) _ _ (ground arith)
                  (elim (Bool-cases (leb (2 ^ 64) (to + n))) [
                    | inl far ↦
                        by_true (ClonesTo n) _ _ _ far (inl (refl, inl (ground (arith, far))))
                    | inr near ↦
                        by_false (ClonesTo n) _ _ _ near
                          (by_mode n (omega arith) (omega arith) (ground (arith, near)) how)
                  ])))))
