-- ===== src/Engine/Contents/Overlay.antt =====
-- src/cuda.rs, `Vram`: what a transfer into one chunk of the buffer does to the bytes of each chunk.
use vramdisk.Lookup.Key.{Bytes}
use vramdisk.Units.{chunk_size}
use vramdisk.Engine.Vram.{written, moved, zeroed}
use vramdisk.Common.{
  ℕ, ◌+◌, ◌-◌, ◌*◌, ◌≤◌, ◌<◌, ◌≡◌, ◌≢◌, arith, ltb, leb, ◌&&◌, if◌then◌else◌, length, get_or,
}

-- `sub` over the bytes from `off` on.
unfoldable pub overlay : ℕ → Bytes → (ℕ → ℕ) → ℕ → ℕ
overlay off sub old i =
    if leb off i && ltb i (off + length sub) then get_or sub (i - off) 0 else old i

module _ (mem : ℕ → ℕ) (c d i : ℕ) (low : i < chunk_size) (ne : d ≢ c) where
  pub written_elsewhere :
      (off : ℕ) (sub : Bytes)
      → off + length sub ≤ chunk_size
      → written mem (c * chunk_size + off) sub (d * chunk_size + i) ≡ mem (d * chunk_size + i)
  written_elsewhere off sub fits = ground arith

  pub zeroed_elsewhere :
      zeroed mem (c * chunk_size) chunk_size (d * chunk_size + i) ≡ mem (d * chunk_size + i)
  zeroed_elsewhere = ground arith

  pub moved_elsewhere :
      (s : ℕ)
      → moved mem (s * chunk_size) (c * chunk_size) chunk_size (d * chunk_size + i)
        ≡ mem (d * chunk_size + i)
  moved_elsewhere s = ground arith

module _ (mem : ℕ → ℕ) (c i : ℕ) (low : i < chunk_size) where
  pub written_here :
      (off : ℕ) (sub : Bytes)
      → written mem (c * chunk_size + off) sub (c * chunk_size + i)
        ≡ overlay off sub (λ j. mem (c * chunk_size + j)) i
  unfolding overlay
  written_here off sub = ground arith

  pub zeroed_here : zeroed mem (c * chunk_size) chunk_size (c * chunk_size + i) ≡ 0
  zeroed_here = ground arith

  pub moved_here :
      (s : ℕ)
      → moved mem (s * chunk_size) (c * chunk_size) chunk_size (c * chunk_size + i)
        ≡ mem (s * chunk_size + i)
  moved_here s = ground arith

-- The overlay sees only the bytes of the chunk.
pub overlay_cong :
    (off : ℕ) (sub : Bytes) (f g : ℕ → ℕ) (i : ℕ)
    → f i ≡ g i
    → overlay off sub f i ≡ overlay off sub g i
unfolding overlay
overlay_cong off sub f g i q = ground arith

pub overlay_whole :
    (sub : Bytes) (f : ℕ → ℕ) (i : ℕ) → i < length sub → overlay 0 sub f i ≡ get_or sub i 0
unfolding overlay
overlay_whole sub f i low = ground arith

-- Bytes that cover the whole chunk leave nothing of it.
pub overlay_covered :
    (off : ℕ) (sub : Bytes) (f g : ℕ → ℕ) (i : ℕ)
    → off ≡ 0
    → i < length sub
    → overlay off sub f i ≡ overlay off sub g i
unfolding overlay
overlay_covered off sub f g i z low = ground arith

module _ (mem : ℕ → ℕ) (c i : ℕ) (sub : Bytes) (whole : length sub ≡ chunk_size)
    (low : i < chunk_size) where
  pub whole_elsewhere :
      (d : ℕ)
      → d ≢ c
      → written mem (c * chunk_size) sub (d * chunk_size + i) ≡ mem (d * chunk_size + i)
  whole_elsewhere d ne = ground arith

  pub whole_here : written mem (c * chunk_size) sub (c * chunk_size + i) ≡ get_or sub i 0
  whole_here = ground arith

-- The end of the chunk, from `tail` on, becomes zero.
module _ (mem : ℕ → ℕ) (c i tail : ℕ) (low : i < chunk_size) (within : tail ≤ chunk_size) where
  pub tail_elsewhere :
      (d : ℕ)
      → d ≢ c
      → zeroed mem (c * chunk_size + tail) (chunk_size - tail) (d * chunk_size + i)
        ≡ mem (d * chunk_size + i)
  tail_elsewhere d ne = ground arith

  pub tail_here :
      zeroed mem (c * chunk_size + tail) (chunk_size - tail) (c * chunk_size + i)
      ≡ (if leb tail i then 0 else mem (c * chunk_size + i))
  tail_here = ground arith
