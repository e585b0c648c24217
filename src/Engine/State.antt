-- ===== src/Engine/State.antt =====
-- src/engine.rs, `StorageEngine`: its state, and the life of physical chunks and of the dedup index.
-- The hash kernel, LZ4 (`lz4_slices` decompresses parts of blobs in one call,
-- `compress_group` compresses chunks in one call, into slots of its own) and zstd are code of others: they and the clock stand in `External`, as does
-- the entropy test, which is made of floating-point numbers. The counters of `trace` and the
-- calibration of the hash kernel decide nothing here and are left out.
-- An index out of range panics in the source, and here it changes nothing; in the life of chunks the
-- invariant of `Engine.Accounts` rules that out. A count of references wraps at 2 ^ 32 in both
-- directions, as in a release build.
use vramdisk.Lookup.Key.{Bytes, normalize_key}
use vramdisk.Lookup.Table.{Node, LookupTable, update_node}
use vramdisk.Lookup.Table
use vramdisk.Placement.{Placement, Codec, raw, compressed, lz4, zstd}
use vramdisk.Chunk.{ChunkAllocator, alloc_one, free_one}
use vramdisk.Chunk
use vramdisk.Arena.{CompressedAllocator}
use vramdisk.Arena
use vramdisk.Units.{chunk_size}
use vramdisk.Engine.Result.{EResult, ok, err, no_space}
use vramdisk.Engine.Dict.{Dict}
use vramdisk.Engine.Dict
use vramdisk.Engine.Vram.{Vram}
use vramdisk.Common.{
  ℕ, ◌+◌, ◌-◌, ◌/◌, ◌%◌, ◌^◌, List, [], Option, none, some, Bool, true, false, ◌==◌, ◌&&◌,
  if◌then◌else◌, get_or, set, replicate,
}

pub record External : Type 0 where
  pub lz4_compress : Bytes → EResult (Option Bytes)
  pub lz4_decompress : Bytes → EResult Bytes
  pub zstd_encode : Bytes → Option Bytes
  pub zstd_decode : Bytes → EResult Bytes
  pub lz4_slices : Vram → List (ℕ × ℕ × ℕ × ℕ) → EResult (List Bytes)
  pub should_skip_compression : Bytes → Bool
  pub hash_chunk : Vram → ℕ → EResult ℕ
  pub hash_chunks : Vram → List ℕ → EResult (List ℕ)
  pub compress_group : Bytes → ℕ → EResult (List (Option Bytes))
  pub should_skip_batch_compression : Bytes → Bool
  pub now : ℕ

pub record StorageEngine : Type 0 where
  pub vram : Vram
  pub alloc : ChunkAllocator
  pub table : LookupTable
  pub compress : Bool
  pub dedup : Bool
  pub refcount : List ℕ
  pub chunk_hash : List (Option ℕ)
  pub hash_index : Dict Placement
  pub compressed_refcount : Dict ℕ
  pub compressed_hash : Dict ℕ
  pub dedup_verify_bytes : Bool
  pub carena : CompressedAllocator
  pub has_codec : Bool

-- An operation gives the engine that it leaves and its result: it may fail after a change.
abbrev pub Outcome {ℓ} : Type ℓ → Type ℓ
Outcome A = StorageEngine × EResult A

-- The operator `?`, with the rest of the operation.
abbrev pub and_then {ℓ κ} :
    {A : Type ℓ} {B : Type κ} → Outcome A → (StorageEngine → A → Outcome B) → Outcome B
and_then (e, err x) rest = (e, err x)
and_then (e, ok a) rest = rest e a

-- A transfer that leaves the buffer `r`.
abbrev pub on_vram : StorageEngine → EResult Vram → Outcome Vram
on_vram e (err x) = (e, err x)
on_vram e (ok v) = (record e { vram = v }, ok v)

-- `lz4_ready` tells whether the codec was loaded.
unfoldable pub new : ℕ → Vram → Bool → Bool → Bool → StorageEngine
unfolding Chunk.new Arena.new Table.new
new now vram lz4_ready compress dedup =
    let total = vram.size / chunk_size % 2 ^ 32 in
    record {
      vram = vram;
      alloc = Chunk.new total;
      table = Table.new now;
      compress = compress;
      dedup = dedup;
      refcount = if dedup then replicate total 0 else [];
      chunk_hash = if dedup then replicate total none else [];
      hash_index = [];
      compressed_refcount = [];
      compressed_hash = [];
      dedup_verify_bytes = true;
      carena = Arena.new;
      has_codec = compress && lz4_ready;
    }

abbrev pub coord_of : List (Option Placement) → ℕ → Option Placement
coord_of coords lc = get_or coords lc none

unfoldable pub coord : StorageEngine → Bytes → ℕ → Option Placement
unfolding Table.get
coord e path lc = elim (Table.get e.table path) [ none ↦ none | some n ↦ coord_of n.coords lc ]

unfoldable pub set_coord : StorageEngine → Bytes → ℕ → Option Placement → StorageEngine
set_coord e path lc p = record e {
  table = update_node e.table (normalize_key path) (λ n. record n { coords = set n.coords lc p });
}

abbrev pub set_refcount : StorageEngine → ℕ → ℕ → StorageEngine
set_refcount e c n = record e { refcount = set e.refcount c n }

-- What `alloc_chunk` makes of the bitmap's answer.
abbrev pub took : StorageEngine → ChunkAllocator × Option ℕ → Outcome ℕ
took e (a, none) = (record e { alloc = a }, err no_space)
took e (a, some c) =
    (if e.dedup then set_refcount (record e { alloc = a }) c 1 else record e { alloc = a }, ok c)

unfoldable pub alloc_chunk : StorageEngine → Outcome ℕ
alloc_chunk e = took e (alloc_one e.alloc)

unfoldable pub ref_inc : StorageEngine → ℕ → StorageEngine
ref_inc e c = if e.dedup then set_refcount e c ((get_or e.refcount c 0 + 1) % 2 ^ 32) else e

abbrev pub or_zero : Option ℕ → ℕ
or_zero none = 0
or_zero (some n) = n

unfoldable pub ref_inc_placement : StorageEngine → Placement → StorageEngine
unfolding ref_inc
ref_inc_placement e (raw chunk) = ref_inc e chunk
ref_inc_placement e (compressed offset len codec) =
    if e.dedup
    then record e {
      compressed_refcount =
          Dict.insert offset ((or_zero (Dict.get offset e.compressed_refcount) + 1) % 2 ^ 32)
            e.compressed_refcount;
    }
    else e

abbrev pub with_bitmap : StorageEngine → Option ChunkAllocator → StorageEngine
with_bitmap e none = e
with_bitmap e (some a) = record e { alloc = a }

-- `self.alloc.free_one(c)`
abbrev pub give_chunk : StorageEngine → ℕ → StorageEngine
give_chunk e c = with_bitmap e (free_one e.alloc c)

-- Whether an entry of the index is the raw chunk.
abbrev pub is_raw : ℕ → Option Placement → Bool
is_raw c none = false
is_raw c (some (raw d)) = c == d
is_raw c (some (compressed offset len codec)) = false

unfoldable pub index_remove : StorageEngine → ℕ → StorageEngine
index_remove e c = elim (get_or e.chunk_hash c none) [
  | none ↦ e
  | some h ↦ record e {
    chunk_hash = set e.chunk_hash c none;
    hash_index =
        if is_raw c (Dict.get h e.hash_index) then Dict.remove h e.hash_index else e.hash_index;
  }
]

-- `-= 1` on a `u32`
abbrev pub one_less : ℕ → ℕ
one_less n = if n == 0 then 2 ^ 32 - 1 else n - 1

unfoldable pub release_chunk : StorageEngine → ℕ → StorageEngine
unfolding index_remove
release_chunk e c =
    let less = set_refcount e c (one_less (get_or e.refcount c 0)) in
    if e.dedup
    then if get_or less.refcount c 0 == 0 then give_chunk (index_remove less c) c else less
    else give_chunk e c

unfoldable pub index_insert : StorageEngine → ℕ → ℕ → StorageEngine
index_insert e c h = record e {
  chunk_hash = set e.chunk_hash c (some h);
  hash_index = Dict.insert h (raw c) e.hash_index;
}

abbrev pub compressed_index_insert : StorageEngine → ℕ → ℕ → Codec → ℕ → StorageEngine
compressed_index_insert e offset len codec h = record e {
  compressed_refcount = Dict.insert offset 1 e.compressed_refcount;
  compressed_hash = Dict.insert offset h e.compressed_hash;
  hash_index = Dict.insert h (compressed offset len codec) e.hash_index;
}

abbrev pub same_codec : Codec → Codec → Bool
same_codec lz4 lz4 = true
same_codec lz4 zstd = false
same_codec zstd lz4 = false
same_codec zstd zstd = true

abbrev pub is_compressed : ℕ → ℕ → Codec → Option Placement → Bool
is_compressed offset len codec none = false
is_compressed offset len codec (some (raw d)) = false
is_compressed offset len codec (some (compressed o l k)) =
    offset == o && (len == l && same_codec codec k)

unfoldable pub compressed_index_remove : StorageEngine → ℕ → ℕ → Codec → StorageEngine
compressed_index_remove e offset len codec = elim (Dict.get offset e.compressed_hash) [
  | none ↦ e
  | some h ↦ record e {
    compressed_hash = Dict.remove offset e.compressed_hash;
    hash_index =
        if is_compressed offset len codec (Dict.get h e.hash_index)
        then Dict.remove h e.hash_index
        else e.hash_index;
  }
]
