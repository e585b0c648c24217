-- ===== src/Engine/Stored.antt =====
-- src/engine.rs: what storing part of a write can come to, on engines without dedup and compression,
-- and one part after another.
use vramdisk.Lookup.Key.{Bytes, normalize_key}
use vramdisk.Lookup.Table.{Node, node_at}
use vramdisk.Units.{chunk_size}
use vramdisk.Chunk.{free}
use vramdisk.Engine.Result.{ok, err, no_space}
use vramdisk.Engine.State.{External, StorageEngine, Outcome, and_then}
use vramdisk.Engine.Store.{Done, write_chunk}
use vramdisk.Engine.Contents.{content, IsPlain}
use vramdisk.Engine.Contents.Storing.{Written}
use vramdisk.Engine.Contents.Overlay.{overlay}
use vramdisk.Engine.Laying.{Lays, Lays-trans, nothing-Lays, Stores-Lays}
use vramdisk.Engine.Writes.{write_plain_lem}
use vramdisk.Common.{
  ◌⊎◌, ℕ, ◌+◌, ◌*◌, ◌≤◌, ◌<◌, ◌≡◌, inl, inr, sym, ap, ◌∙◌, subst, arith, Bool, false, some, not,
  ◌==◌, ◌&&◌, length, get_or, by_true, by_false,
}

-- The bytes are laid, or the disk is full and those before some place are.
abbrev pub Stored : StorageEngine → Bytes → ℕ → ℕ → (ℕ → ℕ) → Outcome Done → Type 0
Stored e k pos count new o =
    ((e' : StorageEngine) × (m : ℕ) × (o ≡ (e', err no_space))
      × (m < count)
      × (free e'.alloc ≡ 0)
      × Lays e k pos m new e')
    ⊎ ((e' : StorageEngine) × (o ≡ (e', ok tt)) × Lays e k pos count new e')

-- One part after another.
pub Stored-then :
    (e : StorageEngine) (k : Bytes) (pos a b : ℕ) (new : ℕ → ℕ) (o : Outcome Done)
    (rest : StorageEngine → Outcome Done)
    → Stored e k pos a new o
    → ((e' : StorageEngine) → Lays e k pos a new e' → Stored e' k (pos + a) b new (rest e'))
    → Stored e k pos (a + b) new (and_then o (λ e' done. rest e'))
Stored-then e k pos a b new o rest (inl (e', m, q, short, full, y)) h =
    inl (e', m, ap (λ r. and_then r (λ u done. rest u)) q, omega arith, full, y)
Stored-then e k pos a b new o rest (inr (e', q, y)) h = elim (h e' y) [
  | inl (f, m, q', short, full, y') ↦ inl (
    f,
    a + m,
    ap (λ r. and_then r (λ u done. rest u)) q ∙ q',
    omega arith,
    full,
    Lays-trans e e' f k pos a m new y y',
  )
  | inr (f, q', y') ↦
      inr (f, ap (λ r. and_then r (λ u done. rest u)) q ∙ q', Lays-trans e e' f k pos a b new y y')
]

module _ (x : External) (path : Bytes) where
  abbrev k : Bytes
  k = normalize_key path

  -- Part of one logical chunk.
  pub write_chunk-Written :
      (e : StorageEngine)
      → IsPlain e
      → e.dedup ≡ false
      → e.compress ≡ false
      → (lc : ℕ) (n : Node) → node_at e.table k ≡ some n
      → lc < length n.coords
      → (off : ℕ) (sub : Bytes) → 0 < length sub
      → off + length sub ≤ chunk_size
      → Written e k lc (overlay off sub (content e k lc)) (write_chunk x e path lc off sub)
  unfolding write_chunk
  write_chunk-Written e v plain raw_only lc n found lt off sub pos fits =
      let W = Written e k lc (overlay off sub (content e k lc)) in
      by_false W _ _ _ (ap (λ (b : Bool). b && (off == 0 && length sub == chunk_size)) plain) (
        by_false W _ _ _ raw_only (
          by_true W _ _ _ (ap not plain)
            (write_plain_lem e v path lc n found lt off sub plain pos fits)))

  pub Written-Stored :
      (e : StorageEngine)
      → IsPlain e
      → (lc off pos : ℕ) (sub : Bytes) (new : ℕ → ℕ) (o : Outcome Done)
      → pos ≡ lc * chunk_size + off
      → 0 < length sub
      → off + length sub ≤ chunk_size
      → ((i : ℕ) → i < length sub → get_or sub i 0 ≡ new (pos + i))
      → Written e k lc (overlay off sub (content e k lc)) o
      → Stored e k pos (length sub) new o
  Written-Stored e v lc off pos sub new o at some_bytes fits same (inl (q, full)) =
      inl (e, 0, q, some_bytes, full, nothing-Lays e k pos new v)
  Written-Stored e v lc off pos sub new o at some_bytes fits same (inr (e', q, s)) = inr (
    e',
    q,
    subst (λ p. Lays e k p (length sub) new e') (sym at)
        (Stores-Lays e k lc off sub new e' fits
          (λ i low. same i low ∙ ap (λ (p : ℕ). new (p + i)) at) s),
  )
