-- ===== src/Engine/Roundtrip.antt =====
-- A ZIP entry's sizes and its chunk table, written and read again.
use mathlib.Core.Path.{ap₂}
use vramdisk.Lookup.Key.{Bytes}
use vramdisk.Engine.Fields.{
  le_bytes, read_u64_le, le_value-le_bytes, length-le_bytes, drop-le_bytes,
}
use vramdisk.Engine.Extra.{
  ZipChunkTable, u32_max, push_tables, zip_local_extra, find_zip64, zip_sizes_from_local_extra,
  scan_tables, table_of, zip_deflate_chunks_from_extra,
}
use vramdisk.Engine.Result.{EResult, ok, err}
use vramdisk.Engine.Tables.{
  Sizes64, take-append, drop-append, scan-push_tables, two_bytes, append_nil,
}
use vramdisk.Common.{
  ℕ, suc, ◌+◌, ◌^◌, ◌<◌, ◌≡◌, refl, sym, ap, ◌∙◌, arith, List, [], ◌∷◌, ◌++◌, true, length, drop,
  length-append, Bool, Option, ◌⊎◌, inl, inr,
}

abbrev both_sizes : ℕ → ℕ → Bytes
both_sizes uncomp_size comp_size = le_bytes 8 uncomp_size ++ le_bytes 8 comp_size

length-both_sizes : (u c : ℕ) → length (both_sizes u c) ≡ 16
length-both_sizes u c =
    omega
      (arith, length-append (le_bytes 8 u) (le_bytes 8 c), length-le_bytes 8 u, length-le_bytes 8 c)

-- The field as its header and its body.
extra_shape :
    (u c : ℕ) (sizes : List ℕ)
    → zip_local_extra u c sizes
      ≡ 1 ∷ 0 ∷ 16 ∷ 0 ∷ (both_sizes u c ++ push_tables (length sizes) 0 sizes)
unfolding zip_local_extra le_bytes
extra_shape u c sizes = refl

length-extra :
    (u c : ℕ) (sizes : List ℕ)
    → length (zip_local_extra u c sizes) ≡ suc (19 + length (push_tables (length sizes) 0 sizes))
length-extra u c sizes =
    ap (length {A = ℕ}) (extra_shape u c sizes)
    ∙ omega (
      arith,
      length-append (both_sizes u c) (push_tables (length sizes) 0 sizes),
      length-both_sizes u c,
    )

skip_step :
    (fuel : ℕ) (body tail : Bytes)
    → length body ≡ 16
    → scan_tables (suc fuel) (1 ∷ 0 ∷ 16 ∷ 0 ∷ (body ++ tail)) [] true
      ≡ scan_tables fuel tail [] true
unfolding scan_tables
skip_step fuel body tail sized =
    rw (two_bytes 16 (omega arith), drop-append body tail 16 (sym sized), two_bytes 1 (omega arith))
      (ground (arith, length-append body tail))

-- The chunk table that `zip_local_extra` writes is read back whole, whatever number of fields it
-- takes, where its sizes are 64-bit numbers and fewer than 2 ^ 32; without sizes there is none.
pub zip_deflate_chunks_from_extra-zip_local_extra :
    (u c : ℕ) (sizes : List ℕ)
    → Sizes64 sizes
    → length sizes < 2 ^ 32
    → zip_deflate_chunks_from_extra (zip_local_extra u c sizes) ≡ ok (table_of (sizes, true))
unfolding zip_deflate_chunks_from_extra
zip_deflate_chunks_from_extra-zip_local_extra u c sizes h few = ap answer scanned
  where
    answer : EResult (List ℕ × Bool) → EResult (Option ZipChunkTable)
    answer r = elim r [ err e ↦ err e | ok found ↦ ok (table_of found) ]

    scanned :
        scan_tables (length (zip_local_extra u c sizes)) (zip_local_extra u c sizes) [] true
        ≡ ok (sizes, true)
    scanned =
        ap₂ (λ (f : ℕ) (b : Bytes). scan_tables f b [] true) (length-extra u c sizes)
          (extra_shape u c sizes)
        ∙ skip_step _ (both_sizes u c) _ (length-both_sizes u c)
        ∙ scan-push_tables (length sizes) (19 + length (push_tables (length sizes) 0 sizes)) 0 sizes
            [] h (omega arith) refl (omega arith) (omega arith)

find_step :
    (fuel : ℕ) (body tail : Bytes)
    → length body ≡ 16
    → find_zip64 (suc fuel) (1 ∷ 0 ∷ 16 ∷ 0 ∷ (body ++ tail))
      ≡ ok (read_u64_le body, read_u64_le (drop 8 body))
unfolding find_zip64
find_step fuel body tail sized =
    rw (two_bytes 16 (omega arith), take-append body tail 16 (sym sized), two_bytes 1 (omega arith))
      (ground (arith, length-append body tail))

-- The two sizes of an entry that `zip_local_extra` writes are read back, where they are 64-bit
-- numbers and one of the 32-bit fields is full.
pub zip_sizes_from_local_extra-zip_local_extra :
    (uncomp32 comp32 u c : ℕ) (sizes : List ℕ)
    → (uncomp32 ≡ u32_max) ⊎ (comp32 ≡ u32_max)
    → u < 2 ^ 64
    → c < 2 ^ 64
    → zip_sizes_from_local_extra uncomp32 comp32 (zip_local_extra u c sizes) ≡ ok (u, c)
unfolding zip_sizes_from_local_extra
zip_sizes_from_local_extra-zip_local_extra uncomp32 comp32 u c sizes full hu hc =
    large full
    ∙ ap₂ find_zip64 (length-extra u c sizes) (extra_shape u c sizes)
    ∙ find_step _ (both_sizes u c) _ (length-both_sizes u c)
    ∙ ap₂ (λ (x y : ℕ). ok (x, y)) (le_value-le_bytes 8 u (le_bytes 8 c) (omega arith)) second
  where
    large :
        (uncomp32 ≡ u32_max) ⊎ (comp32 ≡ u32_max)
        → zip_sizes_from_local_extra uncomp32 comp32 (zip_local_extra u c sizes)
          ≡ find_zip64 (length (zip_local_extra u c sizes)) (zip_local_extra u c sizes)
    large (inl e) = rw e refl
    large (inr e) = ground (arith, e)

    second : read_u64_le (drop 8 (both_sizes u c)) ≡ c
    second =
        ap read_u64_le (drop-le_bytes 8 u (le_bytes 8 c))
        ∙ ap read_u64_le (sym (append_nil (le_bytes 8 c)))
        ∙ le_value-le_bytes 8 c [] (omega arith)
