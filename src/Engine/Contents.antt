-- ===== src/Engine/Contents.antt =====
-- The abstract view of an engine that stores raw chunks only: for each file and logical chunk, its
-- bytes; and reading a chunk as that view says.
pub mod Storing
pub mod Commit
pub mod Overlay
pub mod Initial
use vramdisk.Lookup.Key.{Bytes, normalize_key}
use vramdisk.Lookup.NodeMap.Distinct.{Distinct}
use vramdisk.Lookup.Table.{Node, LookupTable, node_at}
use vramdisk.Lookup.Table
use vramdisk.Placement.{Placement, Codec, raw, compressed}
use vramdisk.Units.{chunk_size}
use vramdisk.Engine.Result.{EResult, ok}
use vramdisk.Engine.Vram.{Vram, bytes_at, read_at, length-bytes_at, get_or-bytes_at, read_at_inside}
use vramdisk.Engine.State.{External, StorageEngine, coord}
use vramdisk.Engine.Chunks.{read_logical_chunk, zeros}
use vramdisk.Engine.Accounts.{Accounts}
use vramdisk.Engine.Refs.{refs, placement_at, le-refs}
use vramdisk.Common.{
  ℕ, zero, suc, ◌+◌, ◌*◌, ◌^◌, ◌≤◌, ◌<◌, ◌≡◌, ◌≢◌, ◌⊎◌, inl, inr, refl, sym, ap, ◌∙◌, subst, arith,
  List, [], ◌∷◌, Option, none, some, Bool, true, false, ◌==◌, ltb, length, get_or, Option-cases,
  by_true, by_false,
}

abbrev pub byte_of : Vram → Option Placement → ℕ → ℕ
byte_of v none i = 0
byte_of v (some (raw chunk)) i = v.byte (chunk * chunk_size + i)
byte_of v (some (compressed offset len codec)) i = 0

-- The byte `i` of the logical chunk `lc` of the file of the key.
unfoldable pub content : StorageEngine → Bytes → ℕ → ℕ → ℕ
content e k lc i = byte_of e.vram (placement_at e.table k lc) i

-- No blob is stored, and the books count the references of the table.
pub record IsPlain (e : StorageEngine) : Type 0 where
  pub accounts : Accounts e (refs e.table)
  pub keyed : Distinct e.table.nodes
  pub raw_only :
      (k : Bytes) (lc offset len : ℕ) (codec : Codec)
      → placement_at e.table k lc ≢ some (compressed offset len codec)

-- No count of references wraps when a chunk gets so many more.
abbrev pub CountsFit : ℕ → StorageEngine → Type 0
CountsFit more e = (c : ℕ) → refs e.table c + more < 2 ^ 32

pub coord_lem :
    (e : StorageEngine) (path : Bytes) (lc : ℕ)
    → coord e path lc ≡ placement_at e.table (normalize_key path) lc
unfolding coord Table.get placement_at
coord_lem e path lc = elim (Option-cases (node_at e.table (normalize_key path))) [
  | inl gone ↦ rw (gone, coord) refl
  | inr (n, found) ↦ rw (found, coord) refl
]

pub length-zeros : (n : ℕ) → length (zeros n) ≡ n
unfolding zeros
length-zeros zero = refl
length-zeros (suc n) = ap suc (length-zeros n)

pub get_or-zeros : (n i : ℕ) → get_or (zeros n) i 0 ≡ 0
unfolding zeros
get_or-zeros zero i = refl
get_or-zeros (suc n) zero = refl
get_or-zeros (suc n) (suc i) = get_or-zeros n i

-- A placement is nothing or a chunk of the disk that is referred to.
pub placement_cases :
    (e : StorageEngine)
    → IsPlain e
    → (k : Bytes) (lc : ℕ)
    → (placement_at e.table k lc ≡ none)
      ⊎ ((c : ℕ) × (placement_at e.table k lc ≡ some (raw c))
          × (c < e.alloc.total)
          × (0 < refs e.table c))
placement_cases e v k lc = go (placement_at e.table k lc) refl
  where
    go :
        (p : Option Placement)
        → placement_at e.table k lc ≡ p
        → (placement_at e.table k lc ≡ none)
          ⊎ ((c : ℕ) × (placement_at e.table k lc ≡ some (raw c))
              × (c < e.alloc.total)
              × (0 < refs e.table c))
    go none q = inl q
    go (some (raw c)) q =
        let one = le-refs e.table c k lc q in
        inr (c, q, ground (arith, one, v.accounts.beyond c), omega (arith, one))
    go (some (compressed offset len codec)) q = absurd (v.raw_only k lc offset len codec q)

-- The bytes hold the chunk of the view.
pub record Holds (e : StorageEngine) (k : Bytes) (lc : ℕ) (bytes : Bytes) : Type 0 where
  pub whole : length bytes ≡ chunk_size
  pub same : (i : ℕ) → i < chunk_size → get_or bytes i 0 ≡ content e k lc i

-- A whole chunk of the disk can be read.
pub read_chunk :
    (e : StorageEngine)
    → IsPlain e
    → (c : ℕ) → c < e.alloc.total
    → read_at e.vram (c * chunk_size) chunk_size
      ≡ ok (bytes_at e.vram.byte chunk_size (c * chunk_size))
read_chunk e v c lt =
    read_at_inside e.vram (c * chunk_size) chunk_size (omega (arith, v.accounts.fits))

-- On a plain engine every logical chunk of a path reads as 65536 bytes, the ones of the view, which
-- are zeros for a hole.
pub read_logical_chunk_lem :
    (x : External) (e : StorageEngine)
    → IsPlain e
    → (path : Bytes) (lc : ℕ)
    → (bytes : Bytes) × (read_logical_chunk x e path lc ≡ ok bytes)
      × Holds e (normalize_key path) lc bytes
unfolding read_logical_chunk content
read_logical_chunk_lem x e v path lc = elim (placement_cases e v (normalize_key path) lc) [
  | inl hole ↦ (
    zeros chunk_size,
    rw (coord_lem e path lc ∙ hole, read_logical_chunk) refl,
    record {
      whole = length-zeros chunk_size;
      same = λ i lt. get_or-zeros chunk_size i ∙ sym (ap (λ p. byte_of e.vram p i) hole);
    },
  )
  | inr (c, q, lt, live) ↦ (
    bytes_at e.vram.byte chunk_size (c * chunk_size),
    rw (coord_lem e path lc ∙ q, read_logical_chunk) (read_chunk e v c lt),
    record {
      whole = length-bytes_at e.vram.byte chunk_size (c * chunk_size);
      same = λ i lt.
          get_or-bytes_at e.vram.byte chunk_size (c * chunk_size) i lt
          ∙ sym (ap (λ p. byte_of e.vram p i) q);
    },
  )
]
