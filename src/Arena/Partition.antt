-- ===== src/Arena/Partition.antt =====
-- One arena: below `bump`, the freed slots and the live blobs share out the bytes, each byte once.
use vramdisk.Units.{chunk_size}
use vramdisk.Arena.Cover.{
  weigh-swap_remove, weigh-push_last, covers, slot_len_of, no_slot, first_fit-some, first_fit-none,
}
use vramdisk.Arena.{Arena, first_fit, swap_remove, carve, give_back}
use vramdisk.Common.{
  ℕ, ◌+◌, ◌-◌, ◌≤◌, ◌<◌, ◌≡◌, ◌⊎◌, inl, inr, refl, ap, arith, Option, some, none, List, ◌∷◌, ◌==◌,
  ltb, if◌then◌else◌, length, get_or, set, weigh, weigh-set, All, Bool-cases, Option-cases, ==_iff,
  dec_le,
}

abbrev pub live_bytes : List (ℕ × ℕ) → ℕ
live_bytes = weigh slot_len_of

-- How many of the slots hold the byte `x`.
abbrev pub cover : List (ℕ × ℕ) → ℕ → ℕ
cover slots x = weigh (covers x) slots

abbrev pub NonEmptyBlobs : List (ℕ × ℕ) → Type 0
NonEmptyBlobs = All (λ b. 0 < slot_len_of b)

-- `live` lists the blobs that the arena holds.
pub record Holds (a : Arena) (live : List (ℕ × ℕ)) : Type 0 where
  pub bounded : a.bump ≤ chunk_size
  pub used_bytes : a.used ≡ live_bytes live
  pub shared : (x : ℕ) → cover a.free x + cover live x ≡ (if ltb x a.bump then 1 else 0)
  pub solid : NonEmptyBlobs live

-- A blob of at least one byte lies below the bump.
pub live-below :
    (a : Arena) (live : List (ℕ × ℕ)) (off len : ℕ)
    → Holds a ((off, len) ∷ live)
    → off + len ≤ a.bump
live-below a live off len h = let last = h.shared (off + len - 1) in ground (arith, last, h.solid.0)

abbrev pub reuse : Arena → ℕ → ℕ → ℕ → ℕ → Arena
reuse a len j off slot_len = record a {
  used = a.used + len;
  free = if slot_len == len then swap_remove a.free j else set a.free j (off + len, slot_len - len);
}

reuse-cover :
    (a : Arena) (len j off slot_len x : ℕ)
    → j < length a.free
    → get_or a.free j no_slot ≡ (off, slot_len)
    → len ≤ slot_len
    → cover (reuse a len j off slot_len).free x + covers x (off, len) ≡ cover a.free x
reuse-cover a len j off slot_len x lt e fit = elim (Bool-cases (slot_len == len)) [
  | inl exact ↦ rw exact (
      ground (
        arith,
        weigh-swap_remove (covers x) a.free j no_slot lt,
        ap (covers x) e,
        (==_iff _ _).0 exact,
      ))
  | inr larger ↦ rw larger (
      ground (
        arith,
        weigh-set (covers x) a.free j (off + len, slot_len - len) no_slot lt,
        ap (covers x) e,
        covers_split x off len slot_len fit,
      ))
]
  where
    covers_split :
        (x off len slot_len : ℕ)
        → len ≤ slot_len
        → covers x (off, slot_len) ≡ covers x (off, len) + covers x (off + len, slot_len - len)
    covers_split x off len slot_len fit = ground arith

abbrev pub bumped : Arena → ℕ → Arena
bumped a len = record a { bump = a.bump + len; used = a.used + len }

reuse-Holds :
    (a : Arena) (live : List (ℕ × ℕ)) (len j off slot_len : ℕ)
    → 0 < len
    → Holds a live
    → j < length a.free
    → get_or a.free j no_slot ≡ (off, slot_len)
    → len ≤ slot_len
    → Holds (reuse a len j off slot_len) ((off, len) ∷ live)
reuse-Holds a live len j off slot_len pos h lt e fit = record {
  bounded = h.bounded;
  used_bytes = omega (arith, h.used_bytes);
  shared = λ x. omega (arith, h.shared x, reuse-cover a len j off slot_len x lt e fit);
  solid = (pos, h.solid);
}

bumped-Holds :
    (a : Arena) (live : List (ℕ × ℕ)) (len : ℕ)
    → 0 < len
    → Holds a live
    → a.bump + len ≤ chunk_size
    → Holds (bumped a len) ((a.bump, len) ∷ live)
bumped-Holds a live len pos h room = record {
  bounded = room;
  used_bytes = omega (arith, h.used_bytes);
  shared = λ x. ground (arith, h.shared x);
  solid = (pos, h.solid);
}

-- What an allocation of `len` bytes may come to.
abbrev pub Carves : Arena → List (ℕ × ℕ) → ℕ → Arena × Option ℕ → Type 0
Carves a live len r =
    ((b : Arena) × (off : ℕ) × (r ≡ (b, some off))
      × Holds b ((off, len) ∷ live)
      × (off + len ≤ chunk_size))
    ⊎ ((r ≡ (a, none))
        × (chunk_size < a.bump + len)
        × ((j : ℕ) → j < length a.free → slot_len_of (get_or a.free j no_slot) < len))

-- An allocation from an arena adds one blob, in bytes that no other blob has and inside the
-- chunk; it fails only where neither a freed slot nor the rest of the chunk is long enough, and
-- then changes nothing.
pub carve_lem :
    (a : Arena) (live : List (ℕ × ℕ)) (len : ℕ)
    → 0 < len
    → Holds a live
    → Carves a live len (carve a len)
unfolding carve
carve_lem a live len pos h = elim (Option-cases (first_fit len 0 a.free)) [
  | inl e ↦ elim (dec_le (a.bump + len) chunk_size) [
    | yes room ↦
        let held = bumped-Holds a live len pos h room in
        inl (bumped a len, a.bump, rw (e, carve) (ground (arith, h.bounded)), held, room)
    | no full ↦ inr (
      rw (e, carve) (ground (arith, h.bounded)),
      omega arith,
      λ j lt. first_fit-none len 0 a.free e j lt,
    )
  ]
  | inr ((k, off, slot_len), e) ↦
      let (j, q, lt, at_j, fit) = first_fit-some len 0 a.free k off slot_len e in
      let same : k ≡ j = omega arith in
      let held = reuse-Holds a live len j off slot_len pos h lt at_j fit in
      inl (
        reuse a len j off slot_len,
        off,
        rw (e, carve) (rw same refl),
        held,
        omega (arith, live-below (reuse a len j off slot_len) live off len held, h.bounded),
      )
]

-- The blob that is freed leaves the arena, and all others stay.
pub give_back-Holds :
    (a : Arena) (live : List (ℕ × ℕ)) (off len : ℕ)
    → Holds a ((off, len) ∷ live)
    → Holds (give_back a off len) live
unfolding give_back
give_back-Holds a live off len h = elim (Bool-cases (off + len == a.bump)) [
  | inl tail ↦ rw tail (record {
    bounded = omega (arith, h.bounded);
    used_bytes = omega (arith, h.used_bytes);
    shared = λ x. ground (arith, h.shared x);
    solid = h.solid.1;
  })
  | inr inside ↦ rw inside (record {
    bounded = h.bounded;
    used_bytes = omega (arith, h.used_bytes);
    shared = λ x. omega (arith, h.shared x, weigh-push_last (covers x) a.free (off, len));
    solid = h.solid.1;
  })
]
