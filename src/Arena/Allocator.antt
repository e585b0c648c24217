-- ===== src/Arena/Allocator.antt =====
-- The allocator: every blob it has given out and not had back is held by the arena of its chunk.
use vramdisk.Units.{chunk_size}
use vramdisk.Arena.Partition.{Holds, carve_lem}
use vramdisk.Arena.{
  Arena, CompressedAllocator, new, exhausted, swap_remove, carve, update, scan_limit, absolute,
  settle, probe, try_alloc,
}
use vramdisk.Common.{
  ℕ, zero, suc, ◌+◌, ◌≤◌, ◌<◌, ◌≡◌, ◌≢◌, ◌⊎◌, inl, inr, refl, sym, subst, arith, Bool, true, false,
  Option, some, none, List, [], ◌∷◌, ◌==◌, ltb, if◌then◌else◌, length, get_or, Bool-cases,
  Option-cases,
}

-- The live blobs of every chunk.
abbrev pub Ledger : Type 0
Ledger = ℕ → List (ℕ × ℕ)

abbrev pub assign : Ledger → ℕ → List (ℕ × ℕ) → Ledger
assign live k v j = if k == j then v else live j

-- An arena of the chunk holds its blobs; a chunk without arena has none, and one with has some.
abbrev pub Backs : Option Arena → List (ℕ × ℕ) → Type 0
Backs none live = live ≡ []
Backs (some a) live = Holds a live × (live ≢ [])

pub record Accounts (ca : CompressedAllocator) (live : Ledger) : Type 0 where
  pub backs : (chunk : ℕ) → Backs (ca.arenas chunk) (live chunk)

pub new-Accounts : Accounts new (λ _. [])
unfolding new
new-Accounts = record { backs = λ chunk. refl }

-- Writing one arena and its blobs together.
pub Accounts-update :
    {ca : CompressedAllocator} {live : Ledger} (chunk : ℕ) (o : Option Arena) (blobs : List (ℕ × ℕ))
    (listed : List ℕ)
    → Accounts ca live
    → Backs o blobs
    → Accounts
        (record { arenas = update ca.arenas chunk o; listed = listed })
        (assign live chunk blobs)
Accounts-update {ca} {live} chunk o blobs listed acc b = record {
  backs = λ j. go j (Bool-cases (chunk == j));
}
  where
    go :
        (j : ℕ)
        → ((chunk == j) ≡ true) ⊎ ((chunk == j) ≡ false)
        → Backs (update ca.arenas chunk o j) (assign live chunk blobs j)
    go j (inl here) = rw here b
    go j (inr there) = rw there (acc.backs j)

-- An arena's listing flag does not touch its blobs.
pub flag-Holds :
    (a : Arena) (live : List (ℕ × ℕ)) (flag : Bool)
    → Holds a live
    → Holds (record a { in_open = flag }) live
flag-Holds a live flag h = record {
  bounded = h.bounded;
  used_bytes = h.used_bytes;
  shared = h.shared;
  solid = h.solid;
}

settle-Accounts :
    (ca : CompressedAllocator) (live : Ledger) (i chunk off len : ℕ) (arena : Arena)
    → Accounts ca live
    → Holds arena ((off, len) ∷ live chunk)
    → Accounts (settle ca i chunk arena) (assign live chunk ((off, len) ∷ live chunk))
unfolding settle
settle-Accounts ca live i chunk off len arena acc h = elim (Bool-cases (exhausted arena)) [
  | inl full ↦ rw full (
      Accounts-update chunk (some (record arena { in_open = false })) _ _ acc
        (flag-Holds arena _ false h, λ e. cc))
  | inr room ↦ rw room (Accounts-update chunk (some arena) _ _ acc (h, λ e. cc))
]

-- What a request for `len` bytes may come to: the address of fresh bytes inside one chunk, with
-- the blob entered in the ledger, or no address.
abbrev pub Grants : Ledger → ℕ → CompressedAllocator × Option ℕ → Type 0
Grants live len (ca, none) = Accounts ca live
Grants live len (ca, some address) =
    (chunk : ℕ) × (off : ℕ) × (address ≡ absolute chunk off)
    × (off + len ≤ chunk_size)
    × Accounts ca (assign live chunk ((off, len) ∷ live chunk))

-- One round of the loop, by what it finds.
probe_out :
    (i scanned len : ℕ) (ca : CompressedAllocator)
    → ltb scanned scan_limit ≡ false
    → probe (suc i) scanned len ca ≡ (ca, none)
unfolding probe
probe_out i scanned len ca e = rw e refl

module _ (i scanned len : ℕ) (ca : CompressedAllocator) (on : ltb scanned scan_limit ≡ true) where
  probe_stale :
      ca.arenas (get_or ca.listed i 0) ≡ none
      → probe (suc i) scanned len ca
        ≡ probe i scanned len (record ca { listed = swap_remove ca.listed i })
  unfolding probe
  probe_stale e = rw (on) (rw (e, probe) refl)

  probe_room :
      (a b : Arena) (off : ℕ)
      → ca.arenas (get_or ca.listed i 0) ≡ some a
      → carve a len ≡ (b, some off)
      → probe (suc i) scanned len ca
        ≡ (settle ca i (get_or ca.listed i 0) b, some (absolute (get_or ca.listed i 0) off))
  unfolding probe
  probe_room a b off e c = rw on (rw (e, probe) (ground (arith, c)))

  probe_full :
      (a : Arena)
      → ca.arenas (get_or ca.listed i 0) ≡ some a
      → carve a len ≡ (a, none)
      → probe (suc i) scanned len ca ≡ probe i (scanned + 1) len ca
  unfolding probe
  probe_full a e c = rw on (rw (e, probe) (ground (arith, c)))

probe_lem :
    (i scanned len : ℕ) (ca : CompressedAllocator) (live : Ledger)
    → 0 < len
    → Accounts ca live
    → Grants live len (probe i scanned len ca)
probe_lem zero scanned len ca live pos acc = unfold probe in acc
probe_lem (suc i) scanned len ca live pos acc = elim (Bool-cases (ltb scanned scan_limit)) [
  | inr out ↦ subst (Grants live len) (sym (probe_out i scanned len ca out)) acc
  | inl on ↦ elim (Option-cases (ca.arenas (get_or ca.listed i 0))) [
    | inl e ↦ subst (Grants live len) (sym (probe_stale i scanned len ca on e)) (
        probe_lem i scanned len (record ca { listed = swap_remove ca.listed i }) live pos
          (record { backs = acc.backs }))
    | inr (a, e) ↦
        let chunk = get_or ca.listed i 0 in
        let held : Holds a (live chunk) × (live chunk ≢ []) =
          subst (λ o. Backs o (live chunk)) e (acc.backs chunk) in
        elim (carve_lem a (live chunk) len pos held.0) [
          | inl (b, off, c, h, bound) ↦
              subst (Grants live len) (sym (probe_room i scanned len ca on a b off e c))
                (chunk, off, refl, bound, settle-Accounts ca live i chunk off len b acc h)
          | inr (c, _, _) ↦
              subst (Grants live len) (sym (probe_full i scanned len ca on a e c))
                (probe_lem i (scanned + 1) len ca live pos acc)
        ]
  ]
]

-- A request that is granted gets the address of bytes inside one chunk that no live blob holds,
-- and every other blob keeps its bytes; one that is not leaves all blobs in place.
pub try_alloc_lem :
    (ca : CompressedAllocator) (live : Ledger) (len : ℕ)
    → 0 < len
    → Accounts ca live
    → Grants live len (try_alloc ca len)
unfolding try_alloc
try_alloc_lem ca live len pos acc = probe_lem (length ca.listed) 0 len ca live pos acc
