-- ===== src/Engine/Examples.antt =====
-- An extra field with three sizes, written and read.

use vramdisk.Engine.Extra.{
  u32_max, zip_local_extra, zip_sizes_from_local_extra, table_of, zip_deflate_chunks_from_extra,
}
use vramdisk.Engine.Result.{ok}
use vramdisk.Engine.Roundtrip.{
  zip_deflate_chunks_from_extra-zip_local_extra, zip_sizes_from_local_extra-zip_local_extra,
}
use vramdisk.Common.{ℕ, ◌≡◌, refl, inl, arith, true, List, [], ◌∷◌}

abbrev sizes : List ℕ
sizes = 700 ∷ 65536 ∷ 3 ∷ []

zip_deflate_chunks_from_extra-zip_local_extra_example :
    zip_deflate_chunks_from_extra (zip_local_extra 200000 66239 sizes) ≡ ok (table_of (sizes, true))
zip_deflate_chunks_from_extra-zip_local_extra_example =
    zip_deflate_chunks_from_extra-zip_local_extra 200000 66239 sizes
      (omega arith, (omega arith, (omega arith, tt))) (omega arith)

zip_sizes_from_local_extra-zip_local_extra_example :
    zip_sizes_from_local_extra u32_max u32_max (zip_local_extra 200000 66239 sizes)
    ≡ ok (200000, 66239)
zip_sizes_from_local_extra-zip_local_extra_example =
    zip_sizes_from_local_extra-zip_local_extra u32_max u32_max 200000 66239 sizes (inl refl)
      (omega arith) (omega arith)
