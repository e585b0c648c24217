-- ===== src/Engine/Laying.antt =====
-- src/engine.rs: the loop over the logical chunks of a write, against the view of `Engine.Contents`: the
-- bytes are laid over those of the file.
use vramdisk.Lookup.Key.{Bytes, normalize_key}
use vramdisk.Lookup.NodeMap.{bytes_eq}
use vramdisk.Lookup.NodeMap.Laws.{bytes_eq_iff}
use vramdisk.Lookup.Table.{Node, node_at}
use vramdisk.Units.{chunk_size}
use vramdisk.Chunk.{free}
use vramdisk.Engine.Result.{ok, err, no_space}
use vramdisk.Engine.State.{StorageEngine, Outcome, and_then}
use vramdisk.Engine.Store.{Done}
use vramdisk.Engine.Nodes.{bare_at, bare_at-found, length-bare}
use vramdisk.Engine.Contents.{content, IsPlain}
use vramdisk.Engine.Contents.Storing.{SameMode, Stores, Written}
use vramdisk.Engine.Contents.Overlay.{overlay}
use vramdisk.Engine.Resize.{then_mode}
use vramdisk.Engine.Pieces.{Put, put_pieces}
use vramdisk.Common.{
  ℕ, zero, suc, ◌+◌, ◌-◌, ◌*◌, ◌/◌, ◌%◌, ◌≤◌, ◌<◌, ◌≡◌, ◌⊎◌, min, inl, inr, refl, sym, ap, ◌∙◌,
  subst, arith, false, some, ◌==◌, ltb, leb, ◌&&◌, Bool-cases, by_true, by_false, ==_iff,
  if◌then◌else◌, length, get_or, take, drop, length-take, length-drop, get_or-take, get_or-drop,
}

-- `count` bytes from `pos` on come from `new`, by their place in the file.
abbrev pub laid : ℕ → ℕ → (ℕ → ℕ) → ℕ → ℕ → ℕ
laid pos count new q old = if leb pos q && ltb q (pos + count) then new q else old

-- The engine is plain, the bytes of the file have come, and the nodes are the same but for placements.
pub record Lays (e : StorageEngine) (k : Bytes) (pos count : ℕ) (new : ℕ → ℕ) (e' : StorageEngine)
    : Type 0 where
  pub plain : IsPlain e'
  pub mode : SameMode e e'
  pub nodes : (j : Bytes) → bare_at e'.table j ≡ bare_at e.table j
  pub contents :
      (j : Bytes) (l i : ℕ)
      → i < chunk_size
      → content e' j l i ≡ (
          if bytes_eq k j
          then laid pos count new (l * chunk_size + i) (content e j l i)
          else content e j l i)

pub nothing-Lays :
    (e : StorageEngine) (k : Bytes) (pos : ℕ) (new : ℕ → ℕ) → IsPlain e → Lays e k pos 0 new e
nothing-Lays e k pos new v = record {
  plain = v;
  mode = record { total = refl; dedup = refl; compress = refl; verify = refl };
  nodes = λ j. refl;
  contents = λ j l i low. ground arith;
}

pub Lays-trans :
    (e a b : StorageEngine) (k : Bytes) (pos m n : ℕ) (new : ℕ → ℕ)
    → Lays e k pos m new a
    → Lays a k (pos + m) n new b
    → Lays e k pos (m + n) new b
Lays-trans e a b k pos m n new s t = record {
  plain = t.plain;
  mode = then_mode e a b s.mode t.mode;
  nodes = λ j. t.nodes j ∙ s.nodes j;
  contents = λ j l i low. ground (arith, t.contents j l i low, s.contents j l i low);
}

overlaid :
    (off : ℕ) (sub : Bytes) (old : ℕ → ℕ) (lc i : ℕ) (new : ℕ → ℕ)
    → (off ≤ i → i < off + length sub → get_or sub (i - off) 0 ≡ new (lc * chunk_size + i))
    → overlay off sub old i
      ≡ laid (lc * chunk_size + off) (length sub) new (lc * chunk_size + i) (old i)
unfolding overlay
overlaid off sub old lc i new same = ground arith

-- Bytes stored into one logical chunk.
pub Stores-Lays :
    (e : StorageEngine) (k : Bytes) (lc off : ℕ) (sub : Bytes) (new : ℕ → ℕ) (e' : StorageEngine)
    → off + length sub ≤ chunk_size
    → ((i : ℕ) → i < length sub → get_or sub i 0 ≡ new (lc * chunk_size + off + i))
    → Stores e k lc (overlay off sub (content e k lc)) e'
    → Lays e k (lc * chunk_size + off) (length sub) new e'
Stores-Lays e k lc off sub new e' fits same s = record {
  plain = s.plain;
  mode = s.mode;
  nodes = s.nodes;
  contents = λ j l i low. s.contents j l i low ∙ laid_here j l i low;
}
  where
    mine :
        (i : ℕ)
        → off ≤ i
        → i < off + length sub
        → get_or sub (i - off) 0 ≡ new (lc * chunk_size + i)
    mine i ge lt = same (i - off) (omega arith) ∙ ap new (omega arith)

    inner :
        (i : ℕ)
        → i < chunk_size
        → overlay off sub (content e k lc) i
          ≡ laid (lc * chunk_size + off) (length sub) new (lc * chunk_size + i) (content e k lc i)
    inner i low = overlaid off sub (content e k lc) lc i new (mine i)

    -- In the file that is written.
    in_file :
        (l i : ℕ)
        → i < chunk_size
        → (if lc == l then overlay off sub (content e k lc) i else content e k l i)
          ≡ laid (lc * chunk_size + off) (length sub) new (l * chunk_size + i) (content e k l i)
    in_file l i low = elim (Bool-cases (lc == l)) [
      | inl here ↦ rw (here, ← (==_iff lc l).0 here) (inner i low)
      | inr other ↦ rw other (ground (arith, other))
    ]

    laid_here :
        (j : Bytes) (l i : ℕ)
        → i < chunk_size
        → (if bytes_eq k j && lc == l then overlay off sub (content e k lc) i else content e j l i)
          ≡ (if bytes_eq k j
              then laid
                  (lc * chunk_size + off)
                  (length sub)
                  new
                  (l * chunk_size + i)
                  (content e j l i)
              else content e j l i)
    laid_here j l i low = elim (Bool-cases (bytes_eq k j)) [
      | inl file ↦ rw (file, ← (bytes_eq_iff k j).0 file) (in_file l i low)
      | inr other ↦ rw other refl
    ]

module _ (base : StorageEngine) (put : Put) (path : Bytes) (most : ℕ)
    (put_lem : (e : StorageEngine)
      → IsPlain e
      → SameMode base e
      → (lc : ℕ) (n : Node) → node_at e.table (normalize_key path) ≡ some n
      → lc < length n.coords
      → (off : ℕ) (sub : Bytes) → 0 < length sub
      → off + length sub ≤ chunk_size
      → length sub ≤ most
      → Written e
          (normalize_key path)
          lc
          (overlay off sub (content e (normalize_key path) lc))
          (put e path lc off sub)) where
  -- The bytes are laid, or the disk is full and those before some place are.
  abbrev pub LaidOut : StorageEngine → ℕ → ℕ → (ℕ → ℕ) → Outcome Done → Type 0
  LaidOut e pos count new o =
      ((e' : StorageEngine) × (m : ℕ) × (o ≡ (e', err no_space))
        × (m < count)
        × (free e'.alloc ≡ 0)
        × Lays e (normalize_key path) pos m new e')
      ⊎ ((e' : StorageEngine) × (o ≡ (e', ok tt)) × Lays e (normalize_key path) pos count new e')

  abbrev k : Bytes
  k = normalize_key path

  -- The bytes that the loop stores next.
  abbrev step : ℕ → Bytes → ℕ
  step pos rest = min (chunk_size - pos % chunk_size) (length rest)

  abbrev next : ℕ → ℕ → Bytes → Outcome Done → Outcome Done
  unfolding put_pieces
  next fuel pos rest o =
      and_then o
        (λ a done. put_pieces put fuel a path (pos + step pos rest) (drop (step pos rest) rest))

  more_bytes : (rest : Bytes) → (length rest == 0) ≡ false → 0 < length rest
  more_bytes rest h = ground arith

  no_more :
      (e : StorageEngine)
      → IsPlain e
      → (pos : ℕ) (rest : Bytes) (new : ℕ → ℕ) → length rest ≡ 0
      → Lays e k pos (length rest) new e
  no_more e v pos rest new over =
      subst (λ c. Lays e k pos c new e) (sym over) (nothing-Lays e k pos new v)

  first_piece :
      (e : StorageEngine) (pos : ℕ) (rest : Bytes) (new : ℕ → ℕ) (a : StorageEngine)
      → ((i : ℕ) → i < length rest → get_or rest i 0 ≡ new (pos + i))
      → Stores e k
          (pos / chunk_size)
          (overlay (pos % chunk_size) (take (step pos rest) rest) (content e k (pos / chunk_size)))
          a
      → Lays e k pos (step pos rest) new a
  first_piece e pos rest new a same s =
      subst (λ p. Lays e k p (step pos rest) new a) (omega arith)
        (subst (λ c. Lays e k (pos / chunk_size * chunk_size + pos % chunk_size) c new a)
          (ground (arith, length-take (step pos rest) rest))
          (Stores-Lays e k (pos / chunk_size) (pos % chunk_size) (take (step pos rest) rest) new a
            (ground (arith, length-take (step pos rest) rest))
            (λ i low.
              get_or-take (step pos rest) rest i 0
                (ground (arith, length-take (step pos rest) rest, low))
              ∙ same i (ground (arith, length-take (step pos rest) rest, low))
              ∙ ap new (omega arith))
            s))

  later :
      (pos : ℕ) (rest : Bytes) (new : ℕ → ℕ)
      → ((i : ℕ) → i < length rest → get_or rest i 0 ≡ new (pos + i))
      → (i : ℕ) → i < length rest - step pos rest
      → get_or (drop (step pos rest) rest) i 0 ≡ new (pos + step pos rest + i)
  later pos rest new same i low =
      get_or-drop (step pos rest) rest i (step pos rest + i) 0 refl
      ∙ same (step pos rest + i) (omega arith)
      ∙ ap new (omega arith)

  pub put_pieces_lem :
      (fuel : ℕ) (e : StorageEngine)
      → IsPlain e
      → SameMode base e
      → (n : Node) → node_at e.table (normalize_key path) ≡ some n
      → (pos : ℕ) (rest : Bytes) (new : ℕ → ℕ) → length rest ≤ fuel
      → length rest ≤ most
      → pos + length rest ≤ length n.coords * chunk_size
      → ((i : ℕ) → i < length rest → get_or rest i 0 ≡ new (pos + i))
      → LaidOut e pos (length rest) new (put_pieces put fuel e path pos rest)
  unfolding put_pieces
  put_pieces_lem zero e v mode n found pos rest new enough short room same =
      inr (e, refl, no_more e v pos rest new (omega arith))
  put_pieces_lem (suc fuel) e v mode n found pos rest new enough short room same =
      elim (Bool-cases (length rest == 0)) [
        | inl over ↦
            by_true (LaidOut e pos (length rest) new) _ _ _ over
              (inr (e, refl, no_more e v pos rest new (ground (arith, over))))
        | inr more ↦
            let piece = length-take (step pos rest) rest in
            let left = length-drop (step pos rest) rest in
            by_false (LaidOut e pos (length rest) new) _ _ _ more
              (elim (put_lem e v mode (pos / chunk_size) n found
                (omega (arith, more_bytes rest more)) (pos % chunk_size) (take (step pos rest) rest)
                (ground (arith, piece, more)) (ground (arith, piece))
                (ground (arith, piece, short))) [
                  | inl (q, full) ↦ inl (
                    e,
                    0,
                    ap (next fuel pos rest) q,
                    ground (arith, more),
                    full,
                    nothing-Lays e k pos new v,
                  )
                  | inr (a, q, s) ↦
                      let first = first_piece e pos rest new a same s in
                      let (m, there, alike) =
                        bare_at-found e.table a.table k n (first.nodes k) found in
                      elim (put_pieces_lem fuel a first.plain (then_mode base e a mode first.mode) m
                        there (pos + step pos rest) (drop (step pos rest) rest) new
                        (ground (arith, left, more)) (ground (arith, left, short))
                        (ground (arith, left, length-bare m n alike, room))
                        (λ i low. later pos rest new same i (ground (arith, left, low)))) [
                          | inl (b, got, stop, fewer, full, then_laid) ↦ inl (
                            b,
                            step pos rest + got,
                            ap (next fuel pos rest) q ∙ stop,
                            ground (arith, left, fewer),
                            full,
                            Lays-trans e a b k pos (step pos rest) got new first then_laid,
                          )
                          | inr (b, stop, then_laid) ↦ inr (
                            b,
                            ap (next fuel pos rest) q ∙ stop,
                            subst (λ c. Lays e k pos c new b) (ground (arith, left))
                                (Lays-trans e a b k pos (step pos rest) _ new first then_laid),
                          )
                        ]
                ])
      ]
