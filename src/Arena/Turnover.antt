-- ===== src/Arena/Turnover.antt =====
-- A chunk becomes an arena with its first blob, and comes back after its last.
use vramdisk.Units.{chunk_size}
use vramdisk.Arena.Partition.{Holds, give_back-Holds, live-below}
use vramdisk.Arena.{
  Arena, CompressedAllocator, new_arena, exhausted, push_last, carve, give_back, update, absolute,
  add_arena, release, enter, file_back,
}
use vramdisk.Common.{
  ℕ, ◌+◌, ◌/◌, ◌%◌, ◌≤◌, ◌<◌, ◌≡◌, inl, inr, refl, sym, ap, ◌∙◌, subst, arith, true, false, Option,
  some, none, List, [], ◌∷◌, ◌==◌, Bool-cases,
}
use vramdisk.Arena.Allocator.{Ledger, assign, Backs, Accounts, Accounts-update, flag-Holds}

abbrev fresh : ℕ → Arena
fresh len = record { bump = 0 + len; used = 0 + len; free = []; in_open = false }

carve-fresh : (len : ℕ) → len ≤ chunk_size → carve new_arena len ≡ (fresh len, some 0)
unfolding carve new_arena
carve-fresh len h = ground arith

fresh-Holds : (len : ℕ) → 0 < len → len ≤ chunk_size → Holds (fresh len) ((0, len) ∷ [])
fresh-Holds len pos h = record {
  bounded = omega arith;
  used_bytes = omega arith;
  shared = λ x. ground arith;
  solid = (pos, tt);
}

add_arena-enter :
    (ca : CompressedAllocator) (chunk len : ℕ)
    → len ≤ chunk_size
    → add_arena ca chunk len ≡ enter ca chunk (fresh len, some 0)
unfolding add_arena
add_arena-enter ca chunk len h = ap (enter ca chunk) (carve-fresh len h)

enter_full :
    (ca : CompressedAllocator) (chunk : ℕ) (a : Arena)
    → exhausted a ≡ true
    → enter ca chunk (a, some 0)
      ≡ some (record ca { arenas = update ca.arenas chunk (some a) }, absolute chunk 0)
unfolding enter
enter_full ca chunk a e = rw e refl

enter_room :
    (ca : CompressedAllocator) (chunk : ℕ) (a : Arena)
    → exhausted a ≡ false
    → enter ca chunk (a, some 0)
      ≡ some (
        record {
          arenas = update ca.arenas chunk (some (record a { in_open = true }));
          listed = push_last ca.listed chunk;
        },
        absolute chunk 0,
      )
unfolding enter
enter_room ca chunk a e = rw e refl

-- A chunk becomes an arena for a blob of 1 to 65536 bytes: this does not panic, the address is the
-- start of the chunk, and all other chunks keep their blobs.
pub add_arena_lem :
    (ca : CompressedAllocator) (live : Ledger) (chunk len : ℕ)
    → 0 < len
    → len ≤ chunk_size
    → Accounts ca live
    → (ca' : CompressedAllocator) × (add_arena ca chunk len ≡ some (ca', absolute chunk 0))
      × Accounts ca' (assign live chunk ((0, len) ∷ []))
add_arena_lem ca live chunk len pos fits acc =
    let held = fresh-Holds len pos fits in
    let entered : add_arena ca chunk len ≡ enter ca chunk (fresh len, some 0) =
      add_arena-enter ca chunk len fits in
    elim (Bool-cases (exhausted (fresh len))) [
      | inl full ↦ (
        record ca { arenas = update ca.arenas chunk (some (fresh len)) },
        entered ∙ enter_full ca chunk (fresh len) full,
        Accounts-update chunk (some (fresh len)) _ _ acc (held, λ e. cc),
      )
      | inr room ↦ (
        record {
          arenas = update ca.arenas chunk (some (record (fresh len) { in_open = true }));
          listed = push_last ca.listed chunk;
        },
        entered ∙ enter_room ca chunk (fresh len) room,
        Accounts-update chunk (some (record (fresh len) { in_open = true })) _ _ acc
            (flag-Holds (fresh len) _ true held, λ e. cc),
      )
    ]

-- What a release leaves: the blob gone, and the chunk handed back when it was the last one.
abbrev pub chunk_back : ℕ → List (ℕ × ℕ) → Option ℕ
chunk_back chunk [] = some chunk
chunk_back chunk (b ∷ rest) = none

abbrev pub Leaves : Ledger → ℕ → List (ℕ × ℕ) → CompressedAllocator × Option ℕ → Type 0
Leaves live chunk rest (ca, back) =
    Accounts ca (assign live chunk rest) × (back ≡ chunk_back chunk rest)

file_back_lem :
    (ca : CompressedAllocator) (live : Ledger) (chunk : ℕ) (a : Arena) (rest : List (ℕ × ℕ))
    → Accounts ca live
    → Holds a rest
    → Leaves live chunk rest (file_back ca chunk a)
unfolding file_back
file_back_lem ca live chunk a [] acc h =
    rw h.used_bytes (Accounts-update chunk none [] ca.listed acc refl, refl)
file_back_lem ca live chunk a (b ∷ rest) acc h = elim (Bool-cases a.in_open) [
  | inl listed ↦
      simp (still_used, listed)
        (Accounts-update chunk (some a) (b ∷ rest) ca.listed acc (h, λ e. cc), refl)
  | inr not_listed ↦
      rw (still_used, not_listed)
        (
          Accounts-update chunk (some (record a { in_open = true })) (b ∷ rest)
              (push_last ca.listed chunk) acc (flag-Holds a (b ∷ rest) true h, λ e. cc),
          refl,
        )
]
  where
    still_used : (a.used == 0) ≡ false
    still_used = ground (arith, h.used_bytes, h.solid.0)

address_parts :
    (chunk off : ℕ)
    → off < chunk_size
    → (absolute chunk off / chunk_size ≡ chunk) × (absolute chunk off % chunk_size ≡ off)
address_parts chunk off h = (omega arith, omega arith)

release-file_back :
    (ca : CompressedAllocator) (chunk off len : ℕ) (a : Arena)
    → off < chunk_size
    → ca.arenas chunk ≡ some a
    → release ca (absolute chunk off) len ≡ file_back ca chunk (give_back a off len)
unfolding release
release-file_back ca chunk off len a below e =
    let (at_chunk, at_off) = address_parts chunk off below in
    rw (at_chunk, e, release) (rw (at_chunk, at_off) refl)

-- Releasing a live blob by its address frees exactly that blob; the chunk comes back exactly when
-- it held no other.
pub release_lem :
    (ca : CompressedAllocator) (live : Ledger) (chunk off len : ℕ) (rest : List (ℕ × ℕ))
    → Accounts ca live
    → live chunk ≡ (off, len) ∷ rest
    → Leaves live chunk rest (release ca (absolute chunk off) len)
release_lem ca live chunk off len rest acc e =
    go (ca.arenas chunk) refl (subst (Backs (ca.arenas chunk)) e (acc.backs chunk))
  where
    go :
        (o : Option Arena)
        → ca.arenas chunk ≡ o
        → Backs o ((off, len) ∷ rest)
        → Leaves live chunk rest (release ca (absolute chunk off) len)
    go none q b = cc
    go (some a) q (h, _) =
        let below : off < chunk_size =
          omega (arith, live-below a rest off len h, h.bounded, h.solid.0) in
        subst (Leaves live chunk rest) (sym (release-file_back ca chunk off len a below q)) (
          file_back_lem ca live chunk (give_back a off len) rest acc
            (give_back-Holds a rest off len h))
