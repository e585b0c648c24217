-- ===== src/Engine/Vram.antt =====
-- src/cuda.rs, `Vram`: the buffer as a map from offsets to bytes, with the bounds that each transfer
-- tests. The transfers themselves are the driver's; they are taken to move the bytes they name,
-- in the order of the calls, and not to fail.
use vramdisk.Lookup.Key.{Bytes}
use vramdisk.Jobs.Text.{codes}
use vramdisk.Engine.Result.{EResult, ok, err, cuda}
use vramdisk.Common.{
  ℕ, zero, suc, ◌+◌, ◌-◌, ◌≤◌, ◌<◌, ◌≡◌, refl, ap, ◌∙◌, arith, [], ◌∷◌, ◌==◌, ltb, leb, ◌&&◌,
  if◌then◌else◌, length, get_or,
}

pub record Vram : Type 0 where
  pub size : ℕ
  pub byte : ℕ → ℕ

unfoldable pub bytes_at : (ℕ → ℕ) → ℕ → ℕ → Bytes
bytes_at mem zero offset = []
bytes_at mem (suc n) offset = mem offset ∷ bytes_at mem n (offset + 1)

unfoldable pub read_at : Vram → ℕ → ℕ → EResult Bytes
unfolding bytes_at
read_at v offset n =
    if n == 0
    then ok []
    else if ltb v.size (offset + n)
    then err (cuda (codes "read_at out of bounds"))
    else ok (bytes_at v.byte n offset)

-- The buffer with `bytes` written from `offset` on.
abbrev pub written : (ℕ → ℕ) → ℕ → Bytes → ℕ → ℕ
written mem offset bytes i =
    if leb offset i && ltb i (offset + length bytes) then get_or bytes (i - offset) 0 else mem i

unfoldable pub write_at : Vram → ℕ → Bytes → EResult Vram
write_at v offset bytes =
    if length bytes == 0
    then ok v
    else if ltb v.size (offset + length bytes)
    then err (cuda (codes "write_at out of bounds"))
    else ok (record v { byte = written v.byte offset bytes })

abbrev pub moved : (ℕ → ℕ) → ℕ → ℕ → ℕ → ℕ → ℕ
moved mem src dst len i = if leb dst i && ltb i (dst + len) then mem (src + (i - dst)) else mem i

unfoldable pub copy_within : Vram → ℕ → ℕ → ℕ → EResult Vram
copy_within v src dst len =
    if len == 0
    then ok v
    else if ltb v.size (src + len)
    then err (cuda (codes "copy_within source out of bounds"))
    else if ltb v.size (dst + len)
    then err (cuda (codes "copy_within dest out of bounds"))
    else ok (record v { byte = moved v.byte src dst len })

abbrev pub zeroed : (ℕ → ℕ) → ℕ → ℕ → ℕ → ℕ
zeroed mem offset len i = if leb offset i && ltb i (offset + len) then 0 else mem i

unfoldable pub zero_at : Vram → ℕ → ℕ → EResult Vram
zero_at v offset len =
    if len == 0
    then ok v
    else if ltb v.size (offset + len)
    then err (cuda (codes "zero_at out of bounds"))
    else ok (record v { byte = zeroed v.byte offset len })

pub length-bytes_at : (mem : ℕ → ℕ) (n offset : ℕ) → length (bytes_at mem n offset) ≡ n
unfolding bytes_at
length-bytes_at mem zero offset = refl
length-bytes_at mem (suc n) offset = ap suc (length-bytes_at mem n (offset + 1))

pub get_or-bytes_at :
    (mem : ℕ → ℕ) (n offset i : ℕ) → i < n → get_or (bytes_at mem n offset) i 0 ≡ mem (offset + i)
unfolding bytes_at
get_or-bytes_at mem zero offset i h = elim h [ ]
get_or-bytes_at mem (suc n) offset zero h = ap mem (omega arith)
get_or-bytes_at mem (suc n) offset (suc i) h =
    get_or-bytes_at mem n (offset + 1) i (omega arith) ∙ ap mem (omega arith)

module _ (v : Vram) (offset : ℕ) where
  pub read_at_inside :
      (n : ℕ) → offset + n ≤ v.size → read_at v offset n ≡ ok (bytes_at v.byte n offset)
  unfolding read_at bytes_at
  read_at_inside zero h = refl
  read_at_inside (suc n) h = ground arith

  pub write_at_inside :
      (bytes : Bytes)
      → 0 < length bytes
      → offset + length bytes ≤ v.size
      → write_at v offset bytes ≡ ok (record v { byte = written v.byte offset bytes })
  unfolding write_at
  write_at_inside bytes pos h = ground arith

  pub zero_at_inside :
      (len : ℕ)
      → 0 < len
      → offset + len ≤ v.size
      → zero_at v offset len ≡ ok (record v { byte = zeroed v.byte offset len })
  unfolding zero_at
  zero_at_inside len pos h = ground arith

  pub copy_within_inside :
      (dst len : ℕ)
      → 0 < len
      → offset + len ≤ v.size
      → dst + len ≤ v.size
      → copy_within v offset dst len ≡ ok (record v { byte = moved v.byte offset dst len })
  unfolding copy_within
  copy_within_inside dst len pos h k = ground arith
