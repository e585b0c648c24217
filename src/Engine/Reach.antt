-- ===== src/Engine/Reach.antt =====
-- src/engine.rs: the engines that come of a mount by creating and resizing files, storing
-- into logical chunks that they have while no count of references can wrap, and removing files, in any order and with any result.
use vramdisk.Lookup.Key.{Bytes, normalize_key}
use vramdisk.Lookup.Table.{Node, LookupTable, LResult, node_at, create}
use vramdisk.Lookup.Table.Frame.{create_lem}
use vramdisk.Units.{chunk_size}
use vramdisk.Engine.State.{External, StorageEngine}
use vramdisk.Engine.Store.{write_chunk}
use vramdisk.Engine.Files.{ensure_logical_len, set_size}
use vramdisk.Engine.Files
use vramdisk.Engine.Contents.{IsPlain, CountsFit}
use vramdisk.Engine.Resize.{IsSound, then_mode, set_size-IsSound}
use vramdisk.Engine.Growth.{SameRefs-IsPlain, ensure_logical_len-Grows}
use vramdisk.Engine.Creation.{Creates-SameRefs}
use vramdisk.Engine.Removal.{remove-Removed}
use vramdisk.Engine.Writes.{write_chunk_lem}
use vramdisk.Common.{
  ℕ, ◌+◌, ◌≤◌, ◌<◌, ◌≡◌, inl, inr, refl, sym, ◌∙◌, subst, Bool, true, false, some, length,
}

-- `create` on the engine's table.
abbrev pub with_node : StorageEngine → LookupTable × LResult Node → StorageEngine
with_node a (t, answer) = record a { table = t }

pub data Reaches (x : External) (e : StorageEngine) : StorageEngine → Type 0 where
  mounted : Reaches x e e
  created :
      {a : StorageEngine}
      → Reaches x e a
      → (now : ℕ) (path : Bytes) (is_dir : Bool) (attributes : ℕ)
      → Reaches x e (with_node a (create now a.table path is_dir attributes))
  lengthened :
      {a : StorageEngine}
      → Reaches x e a
      → (path : Bytes) (byte_len : ℕ) → Reaches x e (ensure_logical_len a path byte_len).0
  stored :
      {a : StorageEngine}
      → Reaches x e a
      → (path : Bytes) (lc : ℕ) (n : Node) (off : ℕ) (sub : Bytes)
      → node_at a.table (normalize_key path) ≡ some n
      → lc < length n.coords
      → 0 < length sub
      → off + length sub ≤ chunk_size
      → (a.dedup ≡ true → length sub ≡ chunk_size → CountsFit 1 a)
      → Reaches x e (write_chunk x a path lc off sub).0
  resized :
      {a : StorageEngine}
      → Reaches x e a
      → (path : Bytes) (new_size : ℕ) → Reaches x e (set_size x a path new_size).0
  removed :
      {a : StorageEngine} → Reaches x e a → (path : Bytes) → Reaches x e (Files.remove a path).0

module _ (x : External) (e a : StorageEngine) (s : IsSound e a) where
  IsSound-created :
      (now : ℕ) (path : Bytes) (is_dir : Bool) (attributes : ℕ)
      → IsSound e (with_node a (create now a.table path is_dir attributes))
  IsSound-created now path is_dir attributes =
      elim (create_lem now a.table path is_dir attributes) [
        | inl (failed, q) ↦ subst (λ o. IsSound e (with_node a o)) (sym q) s
        | inr (t, n, q, m) ↦
            subst (λ o. IsSound e (with_node a o)) (sym q)
              (record {
                plain =
                    SameRefs-IsPlain a s.plain t
                      (Creates-SameRefs now a.table path is_dir attributes t n m s.plain.keyed);
                mode = record {
                  total = s.mode.total;
                  dedup = s.mode.dedup;
                  compress = s.mode.compress;
                  verify = s.mode.verify;
                };
              })
      ]

  IsSound-lengthened :
      (path : Bytes) (byte_len : ℕ) → IsSound e (ensure_logical_len a path byte_len).0
  IsSound-lengthened path byte_len = elim (ensure_logical_len-Grows a s.plain path byte_len) [
    | inl (q, _) ↦ subst (λ o. IsSound e o.0) (sym q) s
    | inr (inl (q, _)) ↦ subst (λ o. IsSound e o.0) (sym q) s
    | inr (inr (b, q, g)) ↦
        subst (λ o. IsSound e o.0) (sym q)
          (record { plain = g.plain; mode = then_mode e a b s.mode g.mode })
  ]

  IsSound-removed : (path : Bytes) → IsSound e (Files.remove a path).0
  IsSound-removed path = elim (remove-Removed a s.plain path) [
    | inl (failed, q) ↦ subst (λ o. IsSound e o.0) (sym q) s
    | inr (b, n, q, r) ↦
        subst (λ o. IsSound e o.0) (sym q)
          (record { plain = r.plain; mode = then_mode e a b s.mode r.mode })
  ]

  IsSound-resized : (path : Bytes) (new_size : ℕ) → IsSound e (set_size x a path new_size).0
  IsSound-resized path new_size =
      let r = set_size-IsSound x a s.plain path new_size in
      record { plain = r.plain; mode = then_mode e a _ s.mode r.mode }

  IsSound-stored :
      e.compress ≡ false
      → e.dedup_verify_bytes ≡ true
      → (path : Bytes) (lc : ℕ) (n : Node) (off : ℕ) (sub : Bytes)
      → node_at a.table (normalize_key path) ≡ some n
      → lc < length n.coords
      → 0 < length sub
      → off + length sub ≤ chunk_size
      → (a.dedup ≡ true → length sub ≡ chunk_size → CountsFit 1 a)
      → IsSound e (write_chunk x a path lc off sub).0
  IsSound-stored raw_only verify path lc n off sub found lt some_bytes fits few =
      elim (write_chunk_lem a s.plain path lc n found lt x off sub (s.mode.compress ∙ raw_only)
        (s.mode.verify ∙ verify) some_bytes fits few) [
          | inl (q, _) ↦ subst (λ o. IsSound e o.0) (sym q) s
          | inr (b, q, w) ↦
              subst (λ o. IsSound e o.0) (sym q)
                (record { plain = w.plain; mode = then_mode e a b s.mode w.mode })
        ]

-- From a plain engine without compression that compares bytes, every sequence of creations, of
-- `ensure_logical_len`, of `set_size`, of `write_chunk` of at least one byte within a logical chunk
-- that its file has, and of removals leads to a plain engine of the same modes, whether they succeed
-- or fail. At a `write_chunk` of a whole chunk under dedup every chunk has fewer than 2 ^ 32 - 1
-- references.
pub Reaches-IsSound :
    (x : External) (e a : StorageEngine)
    → IsPlain e
    → e.compress ≡ false
    → e.dedup_verify_bytes ≡ true
    → Reaches x e a
    → IsSound e a
Reaches-IsSound x e a v raw_only verify mounted = record {
  plain = v;
  mode = record { total = refl; dedup = refl; compress = refl; verify = refl };
}
Reaches-IsSound x e _ v raw_only verify (created {a = b} r now path is_dir attributes) =
    IsSound-created x e b (Reaches-IsSound x e b v raw_only verify r) now path is_dir attributes
Reaches-IsSound x e _ v raw_only verify (lengthened {a = b} r path byte_len) =
    IsSound-lengthened x e b (Reaches-IsSound x e b v raw_only verify r) path byte_len
Reaches-IsSound x e _ v raw_only verify
      (stored {a = b} r path lc n off sub found lt some_bytes fits few) =
    IsSound-stored x e b (Reaches-IsSound x e b v raw_only verify r) raw_only verify path lc n off
      sub found lt some_bytes fits few
Reaches-IsSound x e _ v raw_only verify (removed {a = b} r path) =
    IsSound-removed x e b (Reaches-IsSound x e b v raw_only verify r) path
Reaches-IsSound x e _ v raw_only verify (resized {a = b} r path new_size) =
    IsSound-resized x e b (Reaches-IsSound x e b v raw_only verify r) path new_size
