-- ===== src/Placement.antt =====
-- src/lookup.rs, `Codec` and `Placement`: where a logical chunk lives in the VRAM buffer.
use vramdisk.Common.{ℕ}

pub data Codec : Type 0 where
  lz4 zstd : Codec

pub data Placement : Type 0 where
  raw : ℕ → Placement
  compressed : ℕ → ℕ → Codec → Placement
