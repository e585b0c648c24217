-- ===== src/Engine/Clone/Reads.antt =====
-- src/engine.rs, `clone_range` and `read`: what was cloned is read.
use vramdisk.Lookup.Key.{Bytes, normalize_key}
use vramdisk.Lookup.NodeMap.{bytes_eq}
use vramdisk.Lookup.NodeMap.Laws.{bytes_eq_refl}
use vramdisk.Lookup.Table.{Node, node_at}
use vramdisk.Engine.Result.{ok}
use vramdisk.Engine.State.{External, StorageEngine, Outcome}
use vramdisk.Engine.Contents.{IsPlain}
use vramdisk.Engine.Read.{read}
use vramdisk.Engine.Read.Runs.{file_byte}
use vramdisk.Engine.Read.Reads.{read_lem}
use vramdisk.Engine.RawInternal.{bytes_ext}
use vramdisk.Engine.WriteTo.{HasSize}
use vramdisk.Engine.Clone.{clone_range}
use vramdisk.Engine.Clone.Copies.{Copies}
use vramdisk.Engine.Clone.Ranges.{SharesApart, clone_range_lem}
use vramdisk.Common.{
  ℕ, ◌+◌, ◌-◌, ◌≤◌, ◌<◌, ◌≡◌, ◌⊎◌, min, max, inl, inr, sym, ap, ◌∙◌, subst, arith, some, false, ltb,
  leb, ◌&&◌, if◌then◌else◌, length, by_true,
}

-- A read of copied bytes gives what a read of the source gave.
Copies-read :
    (x : External) (e b : StorageEngine)
    → IsPlain e
    → (src_path dst_path : Bytes) (from to n size : ℕ) (src : Node)
    → node_at e.table (normalize_key src_path) ≡ some src
    → src.is_dir ≡ false
    → from + n ≤ src.size
    → Copies e (normalize_key src_path) (normalize_key dst_path) from to n b
    → HasSize b (normalize_key dst_path) size
    → to + n ≤ size
    → read x b dst_path to n ≡ read x e src_path from n
Copies-read x e b v src_path dst_path from to n size src found file long s h fits =
    let (old, q, old_size, old_same) = read_lem x e v src_path from src found file n in
    let (got, r, got_size, got_same) =
      read_lem x b s.plain dst_path to h.node h.there h.is_file n in
    let all : length old ≡ n = ground (arith, old_size, long) in
    let too : length got ≡ n = ground (arith, got_size, h.sized, fits) in
    r
    ∙ ap ok (
        bytes_ext got old (too ∙ sym all) (λ i low.
          got_same i low
          ∙ s.bytes_of kd (to + i)
          ∙ inside i (omega (arith, too))
          ∙ sym (old_same i (omega (arith, all, too)))))
    ∙ sym q
  where
    ks : Bytes
    ks = normalize_key src_path

    kd : Bytes
    kd = normalize_key dst_path

    inside :
        (i : ℕ)
        → i < n
        → (if bytes_eq kd kd && (leb to (to + i) && ltb (to + i) (to + n))
            then file_byte e ks (from + (to + i - to))
            else file_byte e kd (to + i))
          ≡ file_byte e ks (from + i)
    inside i low =
        by_true (λ (m : ℕ). m ≡ file_byte e ks (from + i))
          (bytes_eq kd kd && (leb to (to + i) && ltb (to + i) (to + n)))
          (file_byte e ks (from + (to + i - to))) _ (ground (arith, bytes_eq_refl kd))
          (ap (file_byte e ks) (omega arith))

module _ (x : External) (src_path dst_path : Bytes) (from to : ℕ) (e : StorageEngine)
    (v : IsPlain e) (raw_only : e.compress ≡ false) (src dst : Node)
    (src_found : node_at e.table (normalize_key src_path) ≡ some src)
    (src_file : src.is_dir ≡ false)
    (dst_found : node_at e.table (normalize_key dst_path) ≡ some dst)
    (dst_file : dst.is_dir ≡ false) (len : ℕ) (some_bytes : 0 < len) (inside : from < src.size)
    (how : (e.dedup ≡ false)
      ⊎ SharesApart x src_path dst_path from to e v raw_only src dst src_found src_file dst_found
          dst_file
          (min len (src.size - from))) where
  -- Where `clone_range` succeeds under the conditions of `clone_range_lem`, it gives as many bytes as
  -- were asked for and the source has, and a read of so many bytes of the target gives what a read of
  -- the source gave before.
  pub read-clone_range :
      (b : StorageEngine) (m : ℕ)
      → clone_range x src_path dst_path from to e len ≡ (b, ok m)
      → (m ≡ min len (src.size - from)) × (read x b dst_path to m ≡ read x e src_path from m)
  read-clone_range b m cloned =
      elim (clone_range_lem x src_path dst_path from to e v raw_only src dst src_found src_file
        dst_found dst_file len some_bytes inside how) [
          | inl (q, _) ↦ cc (q, cloned)
          | inr (inl (a, _, q, _, _, _)) ↦ cc (q, cloned)
          | inr (inr (a, q, s, h)) ↦
              let n = min len (src.size - from) in
              let same : a ≡ b = ap (λ (o : Outcome ℕ). o.0) (sym q ∙ cloned) in
              let count : n ≡ m = cc (q, cloned) in
              (
                sym count,
                subst (λ c. read x b dst_path to c ≡ read x e src_path from c) count
                    (subst (λ u. read x u dst_path to n ≡ read x e src_path from n) same
                      (Copies-read x e a v src_path dst_path from to n (max dst.size (to + n)) src
                        src_found src_file (omega (arith, inside)) s h (omega arith))),
              )
        ]
