-- ===== src/Engine/Truncate.antt =====
-- src/engine.rs, `set_size` to a smaller size: the end of the last chunk becomes zero, and the whole.
use vramdisk.Engine.Shrink.{Cuts, shorter, freed, freed-Cuts}
use vramdisk.Lookup.Key.{Bytes, normalize_key}
use vramdisk.Lookup.NodeMap.{bytes_eq}
use vramdisk.Lookup.NodeMap.Laws.{bytes_eq_iff, bytes_eq_refl}
use vramdisk.Lookup.Table.{Node, node_at}
use vramdisk.Placement.{raw}
use vramdisk.Units.{chunk_size}
use vramdisk.Chunk.{free}
use vramdisk.Engine.Result.{ok, err, no_space, panicked}
use vramdisk.Engine.Vram.{zeroed, zero_at_inside}
use vramdisk.Engine.State.{External, StorageEngine, Outcome}
use vramdisk.Engine.Chunks.{free_coords}
use vramdisk.Engine.Store.{Done}
use vramdisk.Engine.Files.{logical_chunks, change_node, clear_tail, shrink}
use vramdisk.Engine.Accounts.{SameFiles-refl}
use vramdisk.Engine.Refs.{placement_at, in_range}
use vramdisk.Engine.Contents.{content, byte_of, IsPlain, coord_lem, placement_cases}
use vramdisk.Engine.Contents.Storing.{
  Stores-cong, Stores-trans, Stores_here, Stores, unchanged-Stores,
}
use vramdisk.Engine.Contents.Overlay.{tail_elsewhere, tail_here}
use vramdisk.Engine.Writes.InPlace.{rewritten, rewritten-Stores, chunk_in_file}
use vramdisk.Engine.Writes.Exclusive.{Owns, make_exclusive_lem}
use vramdisk.Common.{
  &&_parts, ==_iff, ℕ, ◌+◌, ◌-◌, ◌*◌, ◌%◌, ◌≤◌, ◌<◌, ◌≡◌, ◌⊎◌, ltb, inl, inr, refl, sym, ap, ◌∙◌,
  subst, arith, none, some, Bool, true, false, ◌==◌, leb, ◌&&◌, if◌then◌else◌, length, drop,
  Bool-cases, Option-cases, by_true, by_false,
}

module _ (x : External) (f : StorageEngine) (v : IsPlain f) (path : Bytes) (last tail : ℕ)
    (within : tail < chunk_size) where
  abbrev wiped : ℕ → ℕ
  wiped i = if leb tail i then 0 else content f (normalize_key path) last i

  -- What clearing the end of the last chunk can come to.
  abbrev Cleared : Outcome Done → Type 0
  Cleared o =
      ((o ≡ (f, err no_space)) × (free f.alloc ≡ 0))
      ⊎ ((b : StorageEngine) × (o ≡ (b, ok tt)) × Stores f (normalize_key path) last wiped b)

  has_node :
      (c : ℕ)
      → placement_at f.table (normalize_key path) last ≡ some (raw c)
      → (m : Node) × (node_at f.table (normalize_key path) ≡ some m) × (last < length m.coords)
  unfolding placement_at
  has_node c q = elim (Option-cases (node_at f.table (normalize_key path))) [
    | inl gone ↦ cc (rw gone at q)
    | inr (m, found) ↦ (m, found, in_range f.table c m.coords last (rw found at q))
  ]

  hole_wiped :
      placement_at f.table (normalize_key path) last ≡ none
      → Stores f (normalize_key path) last wiped f
  unfolding content
  hole_wiped hole =
      Stores-cong f (normalize_key path) last _ _ f
        (λ i low. ground (arith, ap (λ p. byte_of f.vram p i) hole))
        (unchanged-Stores f (normalize_key path) last f v (SameFiles-refl f) v.accounts)

  module _ (a : StorageEngine) (d : ℕ) (o : Owns f path last a d) where
    room : d * chunk_size + tail + (chunk_size - tail) ≤ a.vram.size
    room =
        let (below, live) = chunk_in_file a o.stores.plain path last d o.here in
        omega (arith, within, below, o.stores.plain.accounts.fits)

    -- The bytes of the chunk that the file owns.
    own_byte :
        (i : ℕ)
        → i < chunk_size
        → a.vram.byte (d * chunk_size + i) ≡ content f (normalize_key path) last i
    unfolding content
    own_byte i low =
        sym (ap (λ p. byte_of a.vram p i) (sym (coord_lem a path last) ∙ o.here))
        ∙ Stores_here f (normalize_key path) last _ a o.stores i low

    own_wiped :
        Stores f
          (normalize_key path)
          last
          wiped
          (rewritten a (zeroed a.vram.byte (d * chunk_size + tail) (chunk_size - tail)))
    own_wiped = Stores-trans f (normalize_key path) last _ _ a _ o.stores (
        rewritten-Stores a o.stores.plain path last d o.here o.own a (SameFiles-refl a)
          o.stores.plain.accounts (zeroed a.vram.byte (d * chunk_size + tail) (chunk_size - tail))
          wiped (λ e i low ne. tail_elsewhere a.vram.byte d i tail low (omega (arith, within)) e ne)
          (λ i low.
            tail_here a.vram.byte d i tail low (omega (arith, within))
            ∙ ap (λ (m : ℕ). if leb tail i then 0 else m) (own_byte i low)))

  clear_tail_lem : Cleared (clear_tail x f path last tail)
  unfolding clear_tail
  clear_tail_lem = elim (placement_cases f v (normalize_key path) last) [
    | inl hole ↦ rw (coord_lem f path last ∙ hole, clear_tail) (inr (f, refl, hole_wiped hole))
    | inr (c, q, below, live) ↦
        let (m, found, lt) = has_node c q in
        rw (coord_lem f path last ∙ q, clear_tail)
          (elim (make_exclusive_lem f v path last m found lt x) [
            | inl (full, none_free) ↦ rw full (inl (refl, none_free))
            | inr (a, d, made, o) ↦
                rw
                  (
                    made,
                    zero_at_inside a.vram (d * chunk_size + tail) (chunk_size - tail)
                        (omega (arith, within)) (room a d o),
                  )
                  (inr (_, refl, own_wiped a d o))
          ])
  ]

-- A cut at a chunk, and then the end of the chunk before it wiped, is a cut.
wiped-Cuts :
    (e : StorageEngine) (k : Bytes) (last tail : ℕ) (f b : StorageEngine)
    → tail < chunk_size
    → Cuts e k ((last + 1) * chunk_size) f
    → Stores f k last (λ i. if leb tail i then 0 else content f k last i) b
    → Cuts e k (last * chunk_size + tail) b
wiped-Cuts e k last tail f b within c s = record {
  plain = s.plain;
  mode = record {
    total = s.mode.total ∙ c.mode.total;
    dedup = s.mode.dedup ∙ c.mode.dedup;
    compress = s.mode.compress ∙ c.mode.compress;
    verify = s.mode.verify ∙ c.mode.verify;
  };
  contents = λ j l i low. s.contents j l i low ∙ both j l i low;
}
  where
    beyond :
        (same : Bool) (l i m : ℕ)
        → (same && last == l) ≡ false
        → i < chunk_size
        → (if same && leb ((last + 1) * chunk_size) (l * chunk_size + i) then 0 else m)
          ≡ (if same && leb (last * chunk_size + tail) (l * chunk_size + i) then 0 else m)
    beyond false l i m off low = refl
    beyond true l i m off low = ground (arith, within, off)

    both :
        (j : Bytes) (l i : ℕ)
        → i < chunk_size
        → (if bytes_eq k j && last == l
            then (if leb tail i then 0 else content f k last i)
            else content f j l i)
          ≡ (if bytes_eq k j && leb (last * chunk_size + tail) (l * chunk_size + i)
              then 0
              else content e j l i)
    both j l i low = elim (Bool-cases (bytes_eq k j && last == l)) [
      | inl here ↦
          let (p, q) = &&_parts (bytes_eq k j) (last == l) here in
          rw (here, ← (bytes_eq_iff k j).0 p, ← (==_iff last l).0 q, bytes_eq_refl k)
            (ground (arith, c.contents k last i low, bytes_eq_refl k))
      | inr off ↦
          rw off (c.contents j l i low ∙ beyond (bytes_eq k j) l i (content e j l i) off low)
    ]

chunks_exact :
    (size : ℕ) → (size % chunk_size == 0) ≡ true → logical_chunks size * chunk_size ≡ size
chunks_exact size exact = ground (arith, exact)

chunks_ragged :
    (size : ℕ)
    → (size % chunk_size == 0) ≡ false
    → (logical_chunks size - 1) * chunk_size + size % chunk_size ≡ size
chunks_ragged size ragged = ground (arith, ragged)

chunks_some :
    (size : ℕ)
    → (size % chunk_size == 0) ≡ false
    → logical_chunks size ≡ logical_chunks size - 1 + 1
chunks_some size ragged = ground (arith, ragged)

pub shrink_lem :
    (x : External) (e : StorageEngine)
    → IsPlain e
    → (path : Bytes) (n : Node) (new_size : ℕ) → node_at e.table (normalize_key path) ≡ some n
    → ((length n.coords < logical_chunks new_size)
        × (shrink x e path n new_size ≡ (e, err panicked)))
      ⊎ ((logical_chunks new_size ≤ length n.coords)
          × (((b : StorageEngine) × (shrink x e path n new_size ≡ (b, err no_space))
                × Cuts e (normalize_key path) (logical_chunks new_size * chunk_size) b)
              ⊎ ((b : StorageEngine) × (shrink x e path n new_size ≡ (b, ok tt))
                  × Cuts e (normalize_key path) new_size b)))
unfolding shrink
shrink_lem x e v path n new_size found =
    elim (Bool-cases (ltb (length n.coords) (logical_chunks new_size))) [
      | inl few ↦ inl (ground (arith, few), by_true Panics _ _ _ few refl)
      | inr enough ↦ inr (ground (arith, enough), by_false Answer _ _ _ enough cut_lem)
    ]
  where
    k : Bytes
    k = normalize_key path

    f : StorageEngine
    f =
        free_coords (change_node e path (shorter (logical_chunks new_size)))
          (drop (logical_chunks new_size) n.coords)

    Panics : Outcome Done → Type 0
    Panics o = o ≡ (e, err panicked)

    Answer : Outcome Done → Type 0
    Answer o =
        ((b : StorageEngine) × (o ≡ (b, err no_space))
          × Cuts e k (logical_chunks new_size * chunk_size) b)
        ⊎ ((b : StorageEngine) × (o ≡ (b, ok tt)) × Cuts e k new_size b)

    cuts : Cuts e k (logical_chunks new_size * chunk_size) f
    cuts =
        let (a, s) = freed e v k n found (logical_chunks new_size) in
        freed-Cuts e v k n found (logical_chunks new_size) f a s

    cut_lem : Answer (
        if new_size % chunk_size == 0
        then (f, ok tt)
        else clear_tail x f path (logical_chunks new_size - 1) (new_size % chunk_size))
    cut_lem = elim (Bool-cases (new_size % chunk_size == 0)) [
      | inl exact ↦
          by_true Answer _ _ _ exact
            (inr (f, refl, subst (λ (m : ℕ). Cuts e k m f) (chunks_exact new_size exact) cuts))
      | inr ragged ↦
          by_false Answer _ _ _ ragged
            (elim (clear_tail_lem x f cuts.plain path (logical_chunks new_size - 1)
              (new_size % chunk_size) (omega arith)) [
                | inl (q, none_free) ↦ inl (f, q, cuts)
                | inr (b, q, s) ↦ inr (
                  b,
                  q,
                  subst (λ (m : ℕ). Cuts e k m b) (chunks_ragged new_size ragged)
                      (wiped-Cuts e k (logical_chunks new_size - 1) (new_size % chunk_size) f b
                        (omega arith)
                        (subst (λ (m : ℕ). Cuts e k (m * chunk_size) f)
                          (chunks_some new_size ragged) cuts)
                        s),
                )
              ])
    ]
