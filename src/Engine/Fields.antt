-- ===== src/Engine/Fields.antt =====
-- src/engine.rs: little-endian fields. A slice is the list of its bytes; the readers are called on
-- slices that are long enough, and a byte that is missing panics there and reads as zero here.
use native.Mathlib.Nat.{pow-suc}
use vramdisk.Lookup.Key.{Bytes}
use vramdisk.Common.{
  ℕ, zero, suc, ◌+◌, ◌*◌, ◌/◌, ◌%◌, ◌^◌, ◌<◌, ◌≡◌, refl, arith, [], ◌∷◌, ◌++◌, length, drop,
}

-- The lowest `n` bytes of a number, lowest first: what `push_u16`, `push_u32` and
-- `push_u64` append.
unfoldable pub le_bytes : ℕ → ℕ → Bytes
le_bytes zero v = []
le_bytes (suc n) v = v % 256 ∷ le_bytes n (v / 256)

-- The number that `n` bytes stand for: `from_le_bytes`.
unfoldable pub le_value : ℕ → Bytes → ℕ
le_value zero src = 0
le_value (suc n) [] = 0
le_value (suc n) (b ∷ src) = b + 256 * le_value n src

abbrev pub read_u16_le : Bytes → ℕ
read_u16_le src = le_value 2 src

abbrev pub read_u32_le : Bytes → ℕ
read_u32_le src = le_value 4 src

abbrev pub read_u64_le : Bytes → ℕ
read_u64_le src = le_value 8 src

-- A number that fits `n` bytes is read back from its bytes, whatever follows them.
pub le_value-le_bytes :
    (n v : ℕ) (rest : Bytes) → v < 256 ^ n → le_value n (le_bytes n v ++ rest) ≡ v
unfolding le_value le_bytes
le_value-le_bytes zero v rest h = omega arith
le_value-le_bytes (suc n) v rest h =
    omega (arith, pow-suc 256 n, le_value-le_bytes n (v / 256) rest (omega (arith, pow-suc 256 n)))

pub length-le_bytes : (n v : ℕ) → length (le_bytes n v) ≡ n
unfolding le_bytes
length-le_bytes zero v = refl
length-le_bytes (suc n) v = omega (arith, length-le_bytes n (v / 256))

pub drop-le_bytes : (n v : ℕ) (rest : Bytes) → drop n (le_bytes n v ++ rest) ≡ rest
unfolding le_bytes
drop-le_bytes zero v rest = refl
drop-le_bytes (suc n) v rest = drop-le_bytes n (v / 256) rest
