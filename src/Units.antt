-- ===== src/Units.antt =====
-- src/lib.rs: the chunk size, and rounding to it.
use vramdisk.Common.{ℕ, ◌+◌, ◌*◌, ◌/◌, ◌-◌}

-- 64 KiB
abbrev pub chunk_size : ℕ
chunk_size = 65536

-- `bytes.div_ceil(CHUNK_SIZE) * CHUNK_SIZE`
unfoldable pub round_up_to_chunk : ℕ → ℕ
round_up_to_chunk bytes = (bytes + (chunk_size - 1)) / chunk_size * chunk_size
