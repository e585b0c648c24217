-- ===== src/Engine/RunOver.antt =====
-- src/engine.rs, `write_raw_unshared`: writing over a run of chunks that a file has, and one round of
-- the loop, on engines without dedup, against the view of `Engine.Contents`.
use vramdisk.Lookup.Key.{Bytes, normalize_key}
use vramdisk.Lookup.NodeMap.{bytes_eq}
use vramdisk.Lookup.NodeMap.Laws.{bytes_eq_iff}
use vramdisk.Placement.{Placement, raw, compressed}
use vramdisk.Units.{chunk_size}
use vramdisk.Engine.Vram.{written}
use vramdisk.Engine.State.{StorageEngine}
use vramdisk.Engine.Refs.{refs, placement_at, two_refs}
use vramdisk.Engine.Contents.{content, byte_of, IsPlain, placement_cases}
use vramdisk.Engine.Contents.Storing.{Accounts-files}
use vramdisk.Engine.Laying.{laid, Lays}
use vramdisk.Engine.RunWrites.{run_written, part, length-part, part_byte, laid_in, laid_out}
use vramdisk.Common.{
  ℕ, ◌+◌, ◌-◌, ◌*◌, ◌≤◌, ◌<◌, ◌≡◌, inl, inr, refl, sym, ap, ◌∙◌, arith, Option, none, some, Bool,
  true, false, ltb, leb, ◌&&◌, if◌then◌else◌, length, get_or, Bool-cases, by_true, by_false,
  &&_parts,
}

abbrev chunk_of : ℕ → Option Placement → ℕ
chunk_of d none = d
chunk_of d (some (raw c)) = c
chunk_of d (some (compressed offset len codec)) = d

module _ (e : StorageEngine) (v : IsPlain e) (plain : e.dedup ≡ false) (path : Bytes) (lc count : ℕ)
    (rest : Bytes) (new : ℕ → ℕ) (enough : count * chunk_size ≤ length rest)
    (same : (i : ℕ) → i < count * chunk_size → get_or rest i 0 ≡ new (lc * chunk_size + i)) where
  abbrev k : Bytes
  k = normalize_key path

  module _ (c n : ℕ) (short : n ≤ count) (pos : 0 < n)
      (run : (t : ℕ) → t < n → placement_at e.table k (lc + t) ≡ some (raw (c + t))) where
    abbrev bytes : Bytes
    bytes = part e v plain path lc count rest new enough same n

    long : length bytes ≡ n * chunk_size
    long = length-part e v plain path lc count rest new enough same n short

    abbrev pub over : StorageEngine
    over = record e {
      vram = record { size = e.vram.size; byte = written e.vram.byte (c * chunk_size) bytes };
    }

    -- A chunk of the run is in no other place.
    alone :
        (j : Bytes) (l d : ℕ)
        → placement_at e.table j l ≡ some (raw d)
        → (bytes_eq k j && (leb lc l && ltb l (lc + n))) ≡ false
        → (leb c d && ltb d (c + n)) ≡ false
    alone j l d q off = elim (Bool-cases (leb c d && ltb d (c + n))) [
      | inr out ↦ out
      | inl inside ↦
          let there : placement_at e.table k (lc + (d - c)) ≡ some (raw d) =
            run (d - c) (ground (arith, inside))
            ∙ ap (λ (m : ℕ). some (raw m)) (ground (arith, inside)) in
          absurd (
            omega (
              arith,
              two_refs e.table d k j (lc + (d - c)) l there q (ground (arith, off, inside)),
              v.accounts.single plain d,
            ))
    ]

    -- The chunk of a place in the run.
    chunk_there :
        (j : Bytes) (l d : ℕ)
        → placement_at e.table j l ≡ some (raw d)
        → bytes_eq k j ≡ true
        → (leb lc l && ltb l (lc + n)) ≡ true
        → d ≡ c + (l - lc)
    chunk_there j l d q file here = ap (chunk_of 0) (
        sym q
        ∙ ap (λ (i : Bytes). placement_at e.table i l) (sym ((bytes_eq_iff k j).0 file))
        ∙ ap (placement_at e.table k) (ground (arith, here))
        ∙ run (l - lc) (ground (arith, here)))

    in_run :
        (l i d : ℕ)
        → i < chunk_size
        → (leb lc l && ltb l (lc + n)) ≡ true
        → d ≡ c + (l - lc)
        → (if leb c d && ltb d (c + n)
            then get_or bytes ((d - c) * chunk_size + i) 0
            else e.vram.byte (d * chunk_size + i))
          ≡ new (l * chunk_size + i)
    in_run l i d low here at =
        by_true (λ (x : ℕ). x ≡ new (l * chunk_size + i)) (leb c d && ltb d (c + n)) _ _
          (ground (arith, here, at))
          (ap (λ (t : ℕ). get_or bytes (t * chunk_size + i) 0) (ground (arith, at))
            ∙ part_byte e v plain path lc count rest new enough same n l i short
                (ground (arith, here)) (ground (arith, here)) low)

    not_laid :
        (b : Bool) (l i old : ℕ)
        → (b && (leb lc l && ltb l (lc + n))) ≡ false
        → i < chunk_size
        → (if b then laid (lc * chunk_size) (n * chunk_size) new (l * chunk_size + i) old else old)
          ≡ old
    not_laid true l i old off low =
        laid_out e v plain path lc count rest new enough same n l i new old off low
    not_laid false l i old off low = refl

    over_byte :
        (j : Bytes) (l i d : ℕ)
        → i < chunk_size
        → placement_at e.table j l ≡ some (raw d)
        → byte_of over.vram (some (raw d)) i ≡ (
            if bytes_eq k j
            then laid
                (lc * chunk_size)
                (n * chunk_size)
                new
                (l * chunk_size + i)
                (e.vram.byte (d * chunk_size + i))
            else e.vram.byte (d * chunk_size + i))
    over_byte j l i d low q =
        run_written e.vram.byte c n d i bytes long low
        ∙ elim (Bool-cases (bytes_eq k j && (leb lc l && ltb l (lc + n)))) [
          | inl this ↦
              let (file, here) = &&_parts (bytes_eq k j) (leb lc l && ltb l (lc + n)) this in
              in_run l i d low here (chunk_there j l d q file here)
              ∙ rw file (
                  sym (
                    laid_in e v plain path lc count rest new enough same n l i new
                      (e.vram.byte (d * chunk_size + i)) here low))
          | inr off ↦
              by_false (λ (x : ℕ). x ≡ e.vram.byte (d * chunk_size + i)) _ _ _ (alone j l d q off)
                refl
              ∙ sym (not_laid (bytes_eq k j) l i (e.vram.byte (d * chunk_size + i)) off low)
        ]

    -- A hole is not in the run.
    hole_byte :
        (j : Bytes) (l i : ℕ)
        → i < chunk_size
        → placement_at e.table j l ≡ none
        → (bytes_eq k j && (leb lc l && ltb l (lc + n))) ≡ false
    hole_byte j l i low q = elim (Bool-cases (bytes_eq k j && (leb lc l && ltb l (lc + n)))) [
      | inr off ↦ off
      | inl this ↦
          let (file, here) = &&_parts (bytes_eq k j) (leb lc l && ltb l (lc + n)) this in
          cc (
            q,
            ap (λ (i : Bytes). placement_at e.table i l) (sym ((bytes_eq_iff k j).0 file)),
            ap (placement_at e.table k) (same_place l here),
            run (l - lc) (ground (arith, here)),
          )
    ]
      where
        same_place : (l : ℕ) → (leb lc l && ltb l (lc + n)) ≡ true → l ≡ lc + (l - lc)
        same_place l here = ground (arith, here)

    pub over-Lays : Lays e k (lc * chunk_size) (n * chunk_size) new over
    unfolding content
    over-Lays = record {
      plain = record {
        accounts = Accounts-files e (refs e.table) e.table over.vram refl v.accounts;
        keyed = v.keyed;
        raw_only = v.raw_only;
      };
      mode = record { total = refl; dedup = refl; compress = refl; verify = refl };
      nodes = λ j. refl;
      contents = contents_over;
    }
      where
        contents_over :
            (j : Bytes) (l i : ℕ)
            → i < chunk_size
            → byte_of over.vram (placement_at e.table j l) i ≡ (
                if bytes_eq k j
                then laid
                    (lc * chunk_size)
                    (n * chunk_size)
                    new
                    (l * chunk_size + i)
                    (byte_of e.vram (placement_at e.table j l) i)
                else byte_of e.vram (placement_at e.table j l) i)
        contents_over j l i low = elim (placement_cases e v j l) [
          | inl hole ↦ rw hole (sym (not_laid (bytes_eq k j) l i 0 (hole_byte j l i low hole) low))
          | inr (d, q, below, live) ↦ rw q (over_byte j l i d low q)
        ]
