-- ===== src/Engine/Read/Reads.antt =====
-- src/engine.rs, `read_into`, `read_into_shared` and `read`, against the view of `Engine.Contents`.
use vramdisk.Lookup.Key.{Bytes, normalize_key}
use vramdisk.Lookup.Table.{Node, node_at, not_found}
use vramdisk.Lookup.Table
use vramdisk.Engine.Result.{EResult, ok}
use vramdisk.Engine.State.{External, StorageEngine, coord, coord_of}
use vramdisk.Engine.Chunks.{zeros}
use vramdisk.Engine.Refs.{placement_at, coords_of}
use vramdisk.Engine.Contents.{IsPlain, length-zeros}
use vramdisk.Engine.Read.{
  blob_span, decompress_pending, finished, as_some, wanted, nothing_wanted, read_from,
  read_into_shared, read_into, read, truncated,
}
use vramdisk.Engine.Read.Runs.{file_byte}
use vramdisk.Engine.Read.Served.{spans_lem}
use vramdisk.Engine.Read.Agreement.{read_into_shared-read_into}
use vramdisk.Common.{
  ℕ, ◌+◌, ◌-◌, ◌<◌, ◌≡◌, min, inl, inr, refl, ap, ◌∙◌, arith, [], some, false, ◌==◌, ltb, leb, ◌||◌,
  Bool-cases, by_true, by_false, if◌then◌else◌, length, get_or, take, length-take, get_or-take,
}

-- The first `n` bytes of the buffer become those of the file from `offset` on; the others stay.
pub record Reads (e : StorageEngine) (k : Bytes) (offset n : ℕ) (buf out : Bytes) : Type 0 where
  pub long : length out ≡ length buf
  pub same :
      (i : ℕ) → get_or out i 0 ≡ (if ltb i n then file_byte e k (offset + i) else get_or buf i 0)

module _ (x : External) (e : StorageEngine) (v : IsPlain e) (path : Bytes) (offset : ℕ) (n : Node)
    (found : node_at e.table (normalize_key path) ≡ some n) (file : n.is_dir ≡ false) where
  -- The outcome of `read_from`.
  abbrev Answers : Bytes → Bytes × EResult ℕ → Type 0
  Answers buf o =
      (out : Bytes) × (o ≡ (out, ok (wanted n offset buf)))
      × Reads e (normalize_key path) offset (wanted n offset buf) buf out

  read_from_lem : (buf : Bytes) → Answers buf (read_from x e path offset buf n)
  unfolding read_from decompress_pending
  read_from_lem buf =
      let m = wanted n offset buf in
      by_false (Answers buf) _ _ _ file (elim (Bool-cases (nothing_wanted n offset buf)) [
        | inl nothing ↦ by_true (Answers buf) _ _ _ nothing (
          buf,
          ap (λ (k : ℕ). (buf, ok k)) (ground (arith, nothing)),
          record { long = refl; same = λ i. ground (arith, nothing) },
        )
        | inr some_bytes ↦ by_false (Answers buf) _ _ _ some_bytes (
            let (r, q, f) =
              spans_lem e v path (coord e path) (blob_span x e) (λ lc. refl) offset m m 0
                (record { out = buf; pending = [] }) (omega arith) (omega arith) (ground arith) in
            (
              r.out,
              ap (finished x e m) q ∙ ap (decompress_pending x e m r.out) f.none_left,
              record { long = f.long; same = λ i. ground (arith, f.same i) },
            ))
      ])

  pub read_into_lem : (buf : Bytes) → Answers buf (read_into x e path offset buf)
  unfolding read_into Table.get
  read_into_lem buf = rw (found, read_into) (read_from_lem buf)

  -- On a plain engine a read of a file under the exclusive lock succeeds with the smaller of the
  -- buffer's length and the bytes behind the offset: so many bytes of the buffer become those of the
  -- file, and the others stay. Under the shared lock the same read does the same.
  pub read_into_shared-Reads :
      (buf : Bytes)
      → (out : Bytes) × (read_into x e path offset buf
          ≡ (out, ok (min (n.size - offset) (length buf))))
        × (read_into_shared e path offset buf
            ≡ (out, ok (some (min (n.size - offset) (length buf)))))
        × Reads e (normalize_key path) offset (min (n.size - offset) (length buf)) buf out
  unfolding placement_at
  read_into_shared-Reads buf =
      let (out, q, r) = read_into_lem buf in
      elim (read_into_shared-read_into x e path offset buf) [
        | inl same ↦ (out, q, same ∙ ap as_some q, r)
        | inr (m, there, asks, b) ↦ absurd (
            v.raw_only (normalize_key path) b.chunk b.offset b.len b.codec
              (ap (λ o. coord_of (coords_of o) b.chunk) there ∙ b.is))
      ]

  -- The outcome of `read`.
  abbrev ReadsAs : ℕ → EResult Bytes → Type 0
  ReadsAs len o =
      (bytes : Bytes) × (o ≡ ok bytes)
      × (length bytes ≡ min (n.size - offset) len)
      × ((i : ℕ)
          → i < length bytes
          → get_or bytes i 0 ≡ file_byte e (normalize_key path) (offset + i))

  -- On a plain engine `read` of a file gives the bytes of the file from the offset on, as many as were
  -- asked for and no more than the file has.
  pub read_lem :
      (len : ℕ)
      → (bytes : Bytes) × (read x e path offset len ≡ ok bytes)
        × (length bytes ≡ min (n.size - offset) len)
        × ((i : ℕ)
            → i < length bytes
            → get_or bytes i 0 ≡ file_byte e (normalize_key path) (offset + i))
  unfolding read Table.get
  read_lem len =
      rw (found, read)
        (by_false (ReadsAs len) _ _ _ file (elim (Bool-cases (leb n.size offset || len == 0)) [
          | inl nothing ↦
              by_true (ReadsAs len) _ _ _ nothing
                ([], refl, ground (arith, nothing), λ i low. absurd (omega arith))
          | inr some_bytes ↦ by_false (ReadsAs len) _ _ _ some_bytes (
              let m = min (n.size - offset) len in
              let (out, q, r) = read_into_lem (zeros m) in
              let all : min (n.size - offset) (length (zeros m)) ≡ m =
                ground (arith, length-zeros m) in
              let size = length-take m out in
              let long = length-zeros m in
              (
                take m out,
                ap truncated q ∙ ap (λ (k : ℕ). ok (take k out)) all,
                ground (arith, size, long, r.long),
                λ i low.
                    get_or-take m out i 0 (ground (arith, size, low))
                    ∙ r.same i
                    ∙ ground (arith, all, size),
              ))
        ]))
