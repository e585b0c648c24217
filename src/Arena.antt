-- ===== src/Arena.antt =====
-- src/arena.rs: byte ranges carved out of 64 KiB arenas for compressed blobs.
-- The map of arenas is a function of the chunk id. All sums stay below 2 ^ 32 by the invariant
-- (`bump` and `used` are at most the chunk size), so none of them wraps.
mod Examples
pub mod Cover
pub mod Partition
pub mod Allocator
pub mod Turnover
use vramdisk.Common.{
  ℕ, zero, suc, ◌+◌, ◌-◌, ◌*◌, ◌/◌, ◌%◌, Bool, true, false, ◌&&◌, Option, none, some, List, [], ◌∷◌,
  ltb, leb, ◌==◌, if◌then◌else◌, length, get_or, set,
}
use vramdisk.Units.{chunk_size}

pub record Arena : Type 0 where
  pub bump : ℕ
  pub used : ℕ
  pub free : List (ℕ × ℕ)
  pub in_open : Bool

unfoldable pub new_arena : Arena
new_arena = record { bump = 0; used = 0; free = []; in_open = false }

abbrev pub is_empty {ℓ} : {A : Type ℓ} → List A → Bool
is_empty [] = true
is_empty (x ∷ xs) = false

unfoldable pub exhausted : Arena → Bool
exhausted a = leb chunk_size a.bump && is_empty a.free

module _ {ℓ} {A : Type ℓ} where
  -- The last entry moves to the place of the first, which goes.
  unfoldable pub last_to_front : List A → List A
  last_to_front [] = []
  last_to_front (x ∷ []) = x ∷ []
  last_to_front (x ∷ y ∷ xs) = elim (last_to_front (y ∷ xs)) [
    | [] ↦ x ∷ []
    | l ∷ rest ↦ l ∷ x ∷ rest
  ]

  -- `Vec::swap_remove`; an index out of bounds panics in the source, and changes nothing here.
  unfoldable pub swap_remove : List A → ℕ → List A
  unfolding last_to_front
  swap_remove [] i = []
  swap_remove (x ∷ xs) zero = last_to_front xs
  swap_remove (x ∷ xs) (suc i) = x ∷ swap_remove xs i

-- The first freed slot that is long enough: its index, offset and length.
unfoldable pub first_fit : ℕ → ℕ → List (ℕ × ℕ) → Option (ℕ × ℕ × ℕ)
first_fit len i [] = none
first_fit len i ((off, slot_len) ∷ slots) =
    if leb len slot_len then some (i, off, slot_len) else first_fit len (i + 1) slots

-- `Arena::alloc`
unfoldable pub carve : Arena → ℕ → Arena × Option ℕ
unfolding first_fit swap_remove
carve a len = elim (first_fit len 0 a.free) [
  | some (i, off, slot_len) ↦ (
    record a {
      used = a.used + len;
      free =
          if slot_len == len
          then swap_remove a.free i
          else set a.free i (off + len, slot_len - len);
    },
    some off,
  )
  | none ↦
      if leb len (chunk_size - a.bump)
      then (record a { bump = a.bump + len; used = a.used + len }, some a.bump)
      else (a, none)
]

-- `Vec::push`
unfoldable pub push_last {ℓ} : {A : Type ℓ} → List A → A → List A
push_last [] x = x ∷ []
push_last (y ∷ ys) x = y ∷ push_last ys x

-- `Arena::free`
unfoldable pub give_back : Arena → ℕ → ℕ → Arena
unfolding push_last
give_back a off len =
    if off + len == a.bump
    then record a { used = a.used - len; bump = a.bump - len }
    else record a { used = a.used - len; free = push_last a.free (off, len) }

pub record CompressedAllocator : Type 0 where
  pub arenas : ℕ → Option Arena
  pub listed : List ℕ

unfoldable pub new : CompressedAllocator
new = record { arenas = λ _. none; listed = [] }

abbrev pub update : (ℕ → Option Arena) → ℕ → Option Arena → ℕ → Option Arena
update m k v j = if k == j then v else m j

abbrev pub scan_limit : ℕ
scan_limit = 32

abbrev pub absolute : ℕ → ℕ → ℕ
absolute chunk off = chunk * chunk_size + off

-- What `try_alloc` does with an arena that had room.
unfoldable pub settle : CompressedAllocator → ℕ → ℕ → Arena → CompressedAllocator
unfolding exhausted swap_remove
settle ca i chunk arena =
    if exhausted arena
    then record {
      arenas = update ca.arenas chunk (some (record arena { in_open = false }));
      listed = swap_remove ca.listed i;
    }
    else record ca { arenas = update ca.arenas chunk (some arena) }

-- The loop of `try_alloc`, over the open list from its end, with the arenas probed so far.
unfoldable pub probe : ℕ → ℕ → ℕ → CompressedAllocator → CompressedAllocator × Option ℕ
unfolding carve settle
probe zero scanned len ca = (ca, none)
probe (suc i) scanned len ca =
    let chunk = get_or ca.listed i 0 in
    let pruned = probe i scanned len (record ca { listed = swap_remove ca.listed i }) in
    let next = probe i (scanned + 1) len ca in
    let visit : CompressedAllocator × Option ℕ = elim (ca.arenas chunk) [
      | none ↦ pruned
      | some arena ↦
          let (arena', carved) = carve arena len in
          elim carved [
            | some off ↦ (settle ca i chunk arena', some (absolute chunk off))
            | none ↦ next
          ]
    ] in
    if ltb scanned scan_limit then visit else (ca, none)

unfoldable pub try_alloc : CompressedAllocator → ℕ → CompressedAllocator × Option ℕ
unfolding probe
try_alloc ca len = probe (length ca.listed) 0 len ca

-- The part of `add_arena` after the fresh arena was asked for its first bytes.
unfoldable pub enter : CompressedAllocator → ℕ → Arena × Option ℕ → Option (CompressedAllocator × ℕ)
unfolding exhausted push_last
enter ca chunk (arena, none) = none
enter ca chunk (arena, some off) = some (
  if exhausted arena then record ca { arenas = update ca.arenas chunk (some arena) } else record {
    arenas = update ca.arenas chunk (some (record arena { in_open = true }));
    listed = push_last ca.listed chunk;
  },
  absolute chunk off,
)

-- A fresh arena that holds no `len` bytes panics in the source: `none`.
unfoldable pub add_arena : CompressedAllocator → ℕ → ℕ → Option (CompressedAllocator × ℕ)
unfolding enter carve new_arena
add_arena ca chunk len = enter ca chunk (carve new_arena len)

-- The part of `free` after the arena took its bytes back.
unfoldable pub file_back : CompressedAllocator → ℕ → Arena → CompressedAllocator × Option ℕ
unfolding push_last
file_back ca chunk arena =
    if arena.used == 0
    then (record ca { arenas = update ca.arenas chunk none }, some chunk)
    else if arena.in_open
    then (record ca { arenas = update ca.arenas chunk (some arena) }, none)
    else (
      record {
        arenas = update ca.arenas chunk (some (record arena { in_open = true }));
        listed = push_last ca.listed chunk;
      },
      none,
    )

-- `CompressedAllocator::free`: the chunk comes back when its arena has become empty.
unfoldable pub release : CompressedAllocator → ℕ → ℕ → CompressedAllocator × Option ℕ
unfolding give_back file_back
release ca offset len = elim (ca.arenas (offset / chunk_size)) [
  | none ↦ (ca, none)
  | some old ↦ file_back ca (offset / chunk_size) (give_back old (offset % chunk_size) len)
]
