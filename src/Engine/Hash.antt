-- ===== src/Engine/Hash.antt =====
-- src/engine.rs, `fnv1a`: the two-level hash of a chunk.
use vramdisk.Lookup.Key.{Bytes}
use vramdisk.Engine.Fields.{le_bytes}
use vramdisk.Common.{ℕ, zero, suc, ◌*◌, ◌%◌, ◌^◌, bit_xor, [], ◌∷◌, ◌++◌, take, drop}

abbrev pub fnv1a64_prime : ℕ
fnv1a64_prime = 1099511628211

abbrev pub fnv1a64_offset_basis : ℕ
fnv1a64_offset_basis = 14695981039346656037

-- `h ^= b; h = h.wrapping_mul(PRIME)` for each byte.
unfoldable pub fold_bytes : ℕ → Bytes → ℕ
fold_bytes h [] = h
fold_bytes h (b ∷ bytes) = fold_bytes (bit_xor h b * fnv1a64_prime % 2 ^ 64) bytes

-- The hashes of the segments of 256 bytes, each as its eight bytes.
unfoldable pub segment_hashes : ℕ → Bytes → Bytes
unfolding fold_bytes le_bytes
segment_hashes zero bytes = []
segment_hashes (suc rounds) bytes =
    le_bytes 8 (fold_bytes fnv1a64_offset_basis (take 256 bytes))
    ++ segment_hashes rounds (drop 256 bytes)

unfoldable pub fnv1a : Bytes → ℕ
unfolding segment_hashes fold_bytes
fnv1a bytes = fold_bytes fnv1a64_offset_basis (segment_hashes 256 bytes)
