-- ===== src/Engine/Clone/Copying.antt =====
-- src/engine.rs, `clone_range` under dedup: the bytes that are copied before and after the whole chunks,
-- against the view of `Engine.Contents`.
use mathlib.Core.Option.{some-injective}
use vramdisk.Lookup.Key.{Bytes, normalize_key}
use vramdisk.Lookup.Table.{Node, node_at}
use vramdisk.Units.{chunk_size}
use vramdisk.Chunk.{free}
use vramdisk.Engine.Result.{ok, err, no_space}
use vramdisk.Engine.State.{External, StorageEngine, Outcome, and_then}
use vramdisk.Engine.Files.{logical_chunks}
use vramdisk.Engine.Contents.{IsPlain}
use vramdisk.Engine.Read.Reads.{read_lem}
use vramdisk.Engine.Write.{write}
use vramdisk.Engine.Read.Runs.{file_byte}
use vramdisk.Engine.WriteTo.{Overwrites}
use vramdisk.Engine.Clone.{copy_bytes, copy_head}
use vramdisk.Engine.Clone.Piece.{IsSharing, write_part_lem}
use vramdisk.Engine.Clone.Copies.{Copies, Apart, Copies-trans, Overwrites-Copies}
use vramdisk.Common.{
  ℕ, zero, suc, ◌+◌, ◌-◌, ◌%◌, ◌^◌, ◌≤◌, ◌<◌, ◌≡◌, ◌⊎◌, min, max, inl, inr, refl, sym, ap, ◌∙◌,
  subst, arith, Bool, false, some, not, ◌==◌, ltb, ◌&&◌, ◌||◌, length, get_or, Bool-cases, by_true,
  by_false,
}

-- Two files of a plain engine with dedup, and ranges of them that are apart.
pub record CanClone (e : StorageEngine) (ks kd : Bytes) (from to n : ℕ) : Type 0 where
  pub plain : IsPlain e
  pub sharing : IsSharing e
  pub source : Node
  pub source_there : node_at e.table ks ≡ some source
  pub source_file : source.is_dir ≡ false
  pub source_long : from + n ≤ source.size
  pub target : Node
  pub target_there : node_at e.table kd ≡ some target
  pub target_file : target.is_dir ≡ false
  pub apart : Apart ks kd from to n
  pub near : to + n < 2 ^ 64
  pub fits : logical_chunks (to + n) ≤ e.alloc.total

module _ (x : External) (src_path dst_path : Bytes) (from to n : ℕ) (e : StorageEngine)
    (c : CanClone e (normalize_key src_path) (normalize_key dst_path) from to n) where
  abbrev ks : Bytes
  ks = normalize_key src_path

  abbrev kd : Bytes
  kd = normalize_key dst_path

  -- The first bytes are copied.
  pub record At (done : ℕ) (a : StorageEngine) : Type 0 where
    pub copied : Copies e (normalize_key src_path) (normalize_key dst_path) from to done a
    pub no_larger :
        (m : Node)
        → node_at a.table (normalize_key dst_path) ≡ some m
        → m.size ≤ max c.target.size (to + done)

  -- The disk is full, with the first bytes copied.
  abbrev pub Fails : Outcome ℕ → Type 0
  Fails o =
      (b : StorageEngine) × (got : ℕ) × (o ≡ (b, err no_space))
      × (got < n)
      × (free b.alloc ≡ 0)
      × Copies e (normalize_key src_path) (normalize_key dst_path) from to got b

  sharing_at : (done : ℕ) (a : StorageEngine) → At done a → IsSharing a
  sharing_at done a s = record {
    shared = s.copied.mode.dedup ∙ c.sharing.shared;
    raw_only = s.copied.mode.compress ∙ c.sharing.raw_only;
    verify = s.copied.mode.verify ∙ c.sharing.verify;
  }

  abbrev pub Copied : ℕ → Outcome ℕ → Type 0
  Copied done o = Fails o ⊎ ((b : StorageEngine) × (r : ℕ) × (o ≡ (b, ok r)) × At done b)

  module _ (done m : ℕ) (a : StorageEngine) (s : At done a) (some_bytes : 0 < m)
      (within : done + m ≤ n) (short : m < chunk_size)
      (inside : (to + done) % chunk_size + m ≤ chunk_size) where
    written_lem :
        (bytes : Bytes)
        → length bytes ≡ m
        → ((i : ℕ) → i < length bytes → get_or bytes i 0 ≡ file_byte a ks (from + done + i))
        → Copied (done + m) (write x a dst_path (to + done) bytes)
    written_lem bytes size same =
        let dst = s.copied.files kd c.target c.target_there in
        let all : (to + done) + length bytes ≡ to + (done + m) = omega (arith, size) in
        elim (write_part_lem x dst_path (to + done) bytes (omega (arith, size))
          (omega (arith, size, inside)) (omega (arith, size)) a s.copied.plain (sharing_at done a s)
          dst.node dst.there (dst.kind ∙ c.target_file)) [
            | inl (q, inl far) ↦ absurd (omega (arith, all, c.near, far))
            | inl (q, inr small) ↦ absurd (omega (arith, all, c.fits, s.copied.mode.total, small))
            | inr (inl (b, got, q, lt, full, o)) ↦ inl (
              b,
              done + got,
              q,
              omega (arith, size),
              full,
              Copies-trans e a b ks kd from to n done got c.apart (omega (arith, size)) s.copied (
                  Overwrites-Copies a ks kd (from + done) (to + done) got bytes b (omega arith) same
                    o),
            )
            | inr (inr (b, q, o, h)) ↦ inr (
              b,
              length bytes,
              q,
              record {
                copied = Copies-trans e a b ks kd from to n done m c.apart within s.copied (
                    Overwrites-Copies a ks kd (from + done) (to + done) m bytes b
                      (omega (arith, size)) same
                      (subst (λ k. Overwrites a kd (to + done) k bytes b) size o));
                no_larger = λ u there. ground (
                  arith,
                  ap (λ (w : Node). w.size) (some-injective u h.node (sym there ∙ h.there)),
                  h.sized,
                  s.no_larger dst.node dst.there,
                  all,
                );
              },
            )
          ]

    pub copy_bytes_lem : Copied (done + m) (copy_bytes x src_path dst_path from to a done m)
    unfolding copy_bytes
    copy_bytes_lem =
        let src = s.copied.files ks c.source c.source_there in
        let (bytes, q, size, same) =
          read_lem x a s.copied.plain src_path (from + done) src.node src.there
            (src.kind ∙ c.source_file) m in
        rw (q, copy_bytes)
          (written_lem bytes (ground (arith, size, src.size, c.source_long, within)) same)

  -- What is left is no byte, or begins whole chunks in both files.
  abbrev pub Meets : ℕ → Type 0
  Meets d = (d ≡ n) ⊎ (((from + d) % chunk_size ≡ 0) × ((to + d) % chunk_size ≡ 0))

  abbrev Heads : Outcome ℕ → Type 0
  Heads o = Fails o ⊎ ((b : StorageEngine) × (d : ℕ) × (o ≡ (b, ok d)) × At d b × (d ≤ n) × Meets d)

  module _ (fuel done : ℕ) (a : StorageEngine) where
    abbrev src_next : ℕ
    src_next = chunk_size - (from + done) % chunk_size

    abbrev dst_next : ℕ
    dst_next = chunk_size - (to + done) % chunk_size

    abbrev step : ℕ
    step = min (n - done) (min src_next dst_next)

    abbrev unaligned : Bool
    unaligned = not ((from + done) % chunk_size == 0) || not ((to + done) % chunk_size == 0)

    abbrev further : Outcome ℕ → Outcome ℕ
    further o =
        and_then o (λ b written. copy_head x src_path dst_path from to fuel b n (done + step))

  -- The bytes before the place where both ranges are at the start of a chunk are copied.
  pub copy_head_lem :
      (fuel done : ℕ) (a : StorageEngine)
      → At done a
      → done ≤ n
      → n - done ≤ fuel
      → Heads (copy_head x src_path dst_path from to fuel a n done)
  unfolding copy_head
  copy_head_lem zero done a s within enough = inr (a, done, refl, s, within, inl (omega arith))
  copy_head_lem (suc fuel) done a s within enough =
      elim (Bool-cases (ltb done n && unaligned fuel done a)) [
        | inr stop ↦
            by_false Heads _ _ _ stop (inr (a, done, refl, s, within, ground (arith, stop)))
        | inl on ↦
            by_true Heads _ _ _ on
              (elim (copy_bytes_lem done (step fuel done a) a s (ground (arith, on)) (omega arith)
                (ground (arith, on)) (omega arith)) [
                  | inl (b, got, q, lt, full, t) ↦
                      inl (b, got, ap (further fuel done a) q, lt, full, t)
                  | inr (b, r, q, t) ↦ subst Heads (sym (ap (further fuel done a) q)) (
                      copy_head_lem fuel (done + step fuel done a) b t (omega arith)
                        (ground (arith, on)))
                ])
      ]
