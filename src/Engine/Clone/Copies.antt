-- ===== src/Engine/Clone/Copies.antt =====
-- src/engine.rs, `clone_range`: what it is to have copied bytes from one place to another, against the
-- view of `Engine.Contents`.
use vramdisk.Lookup.Key.{Bytes}
use vramdisk.Lookup.NodeMap.{bytes_eq}
use vramdisk.Units.{chunk_size}
use vramdisk.Engine.State.{StorageEngine}
use vramdisk.Engine.Nodes.{Keeps, bare-Keeps, Keeps-trans}
use vramdisk.Engine.Contents.{IsPlain}
use vramdisk.Engine.Contents.Storing.{SameMode}
use vramdisk.Engine.Resize.{then_mode}
use vramdisk.Engine.Laying.{laid, Lays}
use vramdisk.Engine.Read.Runs.{file_byte}
use vramdisk.Engine.Growth.{Grows}
use vramdisk.Engine.WriteTo.{Overwrites}
use vramdisk.Common.{
  ℕ, ◌+◌, ◌-◌, ◌/◌, ◌%◌, ◌≤◌, ◌<◌, ◌≡◌, ◌⊎◌, inl, inr, refl, ap, ◌∙◌, arith, false, ltb, leb, ◌&&◌,
  if◌then◌else◌, length, get_or, Bool-cases,
}

-- The `count` bytes of the source from `from` on are in the target from `to` on; all else reads as
-- before, and no file is gone or smaller.
pub record Copies (e : StorageEngine) (ks kd : Bytes) (from to count : ℕ) (e' : StorageEngine)
    : Type 0 where
  pub plain : IsPlain e'
  pub mode : SameMode e e'
  pub files : Keeps e.table e'.table
  pub bytes_of :
      (j : Bytes) (p : ℕ)
      → file_byte e' j p ≡ (
          if bytes_eq kd j && (leb to p && ltb p (to + count))
          then file_byte e ks (from + (p - to))
          else file_byte e j p)

-- The two ranges have no byte of a file in common.
abbrev pub Apart : Bytes → Bytes → ℕ → ℕ → ℕ → Type 0
Apart ks kd from to n = (bytes_eq kd ks ≡ false) ⊎ (from + n ≤ to) ⊎ (to + n ≤ from)

pub Keeps-refl : (e : StorageEngine) → Keeps e.table e.table
Keeps-refl e = bare-Keeps e.table e.table (λ j. refl)

pub nothing-Copies :
    (e : StorageEngine) (ks kd : Bytes) (from to : ℕ) → IsPlain e → Copies e ks kd from to 0 e
nothing-Copies e ks kd from to v = record {
  plain = v;
  mode = record { total = refl; dedup = refl; compress = refl; verify = refl };
  files = Keeps-refl e;
  bytes_of = λ j p. ground arith;
}

-- One part after another.
module _ (e a b : StorageEngine) (ks kd : Bytes) (from to n done m : ℕ)
    (apart : Apart ks kd from to n) (within : done + m ≤ n) (s : Copies e ks kd from to done a)
    (t : Copies a ks kd (from + done) (to + done) m b) where
  -- The source is still there.
  untouched : (q : ℕ) → from + done ≤ q → q < from + n → file_byte a ks q ≡ file_byte e ks q
  untouched q ge lt = s.bytes_of ks q ∙ elsewhere apart
    where
      elsewhere :
          Apart ks kd from to n
          → (if bytes_eq kd ks && (leb to q && ltb q (to + done))
              then file_byte e ks (from + (q - to))
              else file_byte e ks q)
            ≡ file_byte e ks q
      elsewhere (inl other) = rw other refl
      elsewhere (inr (inl before)) = ground arith
      elsewhere (inr (inr after)) = ground arith

  both :
      (j : Bytes) (p : ℕ)
      → file_byte b j p ≡ (
          if bytes_eq kd j && (leb to p && ltb p (to + (done + m)))
          then file_byte e ks (from + (p - to))
          else file_byte e j p)
  both j p = elim (Bool-cases (leb (to + done) p && ltb p (to + done + m))) [
    | inl here ↦
        let ge : to + done ≤ p = ground (arith, here) in
        let lt : p < to + done + m = ground (arith, here) in
        let q : from + done + (p - (to + done)) ≡ from + (p - to) = omega arith in
        let same = untouched (from + (p - to)) (omega arith) (omega arith) in
        ground (arith, t.bytes_of j p, s.bytes_of j p, here, q, same)
    | inr off ↦ ground (arith, t.bytes_of j p, s.bytes_of j p, off)
  ]

  pub Copies-trans : Copies e ks kd from to (done + m) b
  Copies-trans = record {
    plain = t.plain;
    mode = then_mode e a b s.mode t.mode;
    files = Keeps-trans e.table a.table b.table s.files t.files;
    bytes_of = both;
  }

-- Bytes that were read and written.
pub Overwrites-Copies :
    (e : StorageEngine) (ks kd : Bytes) (from to count : ℕ) (bytes : Bytes) (b : StorageEngine)
    → count ≤ length bytes
    → ((i : ℕ) → i < length bytes → get_or bytes i 0 ≡ file_byte e ks (from + i))
    → Overwrites e kd to count bytes b
    → Copies e ks kd from to count b
Overwrites-Copies e ks kd from to count bytes b enough same o = record {
  plain = o.plain;
  mode = o.mode;
  files = o.files;
  bytes_of = λ j p. o.bytes_of j p ∙ read_there j p;
}
  where
    read_there :
        (j : Bytes) (p : ℕ)
        → (if bytes_eq kd j && (leb to p && ltb p (to + count))
            then get_or bytes (p - to) 0
            else file_byte e j p)
          ≡ (if bytes_eq kd j && (leb to p && ltb p (to + count))
              then file_byte e ks (from + (p - to))
              else file_byte e j p)
    read_there j p = elim (Bool-cases (bytes_eq kd j && (leb to p && ltb p (to + count)))) [
      | inl here ↦ rw here (same (p - to) (ground (arith, here)))
      | inr off ↦ rw off refl
    ]

-- Bytes that were laid.
pub Lays-Copies :
    (e : StorageEngine) (ks kd : Bytes) (from to count : ℕ) (new : ℕ → ℕ) (b : StorageEngine)
    → ((p : ℕ) → to ≤ p → new p ≡ file_byte e ks (from + (p - to)))
    → Lays e kd to count new b
    → Copies e ks kd from to count b
unfolding file_byte
Lays-Copies e ks kd from to count new b same y = record {
  plain = y.plain;
  mode = y.mode;
  files = bare-Keeps e.table b.table y.nodes;
  bytes_of = λ j p.
      y.contents j (p / chunk_size) (p % chunk_size) (omega arith)
      ∙ ap (λ q. shape j q (file_byte e j p)) (omega arith)
      ∙ from_there j p;
}
  where
    shape : Bytes → ℕ → ℕ → ℕ
    shape j q old = if bytes_eq kd j then laid to count new q old else old

    from_there :
        (j : Bytes) (p : ℕ)
        → shape j p (file_byte e j p) ≡ (
            if bytes_eq kd j && (leb to p && ltb p (to + count))
            then file_byte e ks (from + (p - to))
            else file_byte e j p)
    from_there j p = elim (Bool-cases (bytes_eq kd j)) [
      | inl file ↦ elim (Bool-cases (leb to p && ltb p (to + count))) [
        | inl here ↦ rw (file, here) (same p (ground (arith, here)))
        | inr off ↦ rw (file, off) refl
      ]
      | inr other ↦ rw other refl
    ]

-- Room that was made before.
pub Grows-Copies :
    (e a b : StorageEngine) (ks kd : Bytes) (from to count end : ℕ)
    → Grows e kd end a
    → Copies a ks kd from to count b
    → Copies e ks kd from to count b
unfolding file_byte
Grows-Copies e a b ks kd from to count end g s = record {
  plain = s.plain;
  mode = then_mode e a b g.mode s.mode;
  files = Keeps-trans e.table a.table b.table g.files s.files;
  bytes_of = λ j p. s.bytes_of j p ∙ before j p;
}
  where
    same : (j : Bytes) (p : ℕ) → file_byte a j p ≡ file_byte e j p
    same j p = g.contents j (p / chunk_size) (p % chunk_size)

    before :
        (j : Bytes) (p : ℕ)
        → (if bytes_eq kd j && (leb to p && ltb p (to + count))
            then file_byte a ks (from + (p - to))
            else file_byte a j p)
          ≡ (if bytes_eq kd j && (leb to p && ltb p (to + count))
              then file_byte e ks (from + (p - to))
              else file_byte e j p)
    before j p = rw (same ks (from + (p - to)), same j p) refl
