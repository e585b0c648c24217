-- ===== src/Engine/Files.antt =====
-- src/engine.rs, `StorageEngine`: the size of a file, its removal and its renaming.
use vramdisk.Lookup.Key.{Bytes, normalize_key}
use vramdisk.Lookup.Table.{Node, LookupTable, LResult, update_node, not_found}
use vramdisk.Lookup.Table
use vramdisk.Lookup.Rename
use vramdisk.Placement.{Placement, raw, compressed}
use vramdisk.Units.{chunk_size}
use vramdisk.Engine.Result.{ok, err, lookup, no_space, not_a_file, panicked}
use vramdisk.Engine.Vram.{zero_at}
use vramdisk.Engine.Hash.{fnv1a}
use vramdisk.Engine.State.{External, StorageEngine, Outcome, and_then, on_vram, coord}
use vramdisk.Engine.Chunks.{
  read_logical_chunk, free_coords, try_share_hashed, make_exclusive, zeros,
}
use vramdisk.Engine.Store.{Done, splice, store_compressed}
use vramdisk.Common.{
  ℕ, zero, suc, ◌+◌, ◌-◌, ◌*◌, ◌/◌, ◌%◌, List, [], ◌∷◌, Option, none, some, Bool, ◌==◌, ltb,
  if◌then◌else◌, length, take, drop,
}

abbrev pub logical_chunks : ℕ → ℕ
logical_chunks size = (size + (chunk_size - 1)) / chunk_size

-- `Vec::resize(n, None)` to a length that is not smaller.
unfoldable pub padded : ℕ → List (Option Placement) → List (Option Placement)
padded zero coords = coords
padded (suc n) [] = none ∷ padded n []
padded (suc n) (c ∷ coords) = c ∷ padded n coords

abbrev pub change_node : StorageEngine → Bytes → (Node → Node) → StorageEngine
change_node e path f = record e { table = update_node e.table (normalize_key path) f }

-- The file that was found, with coordinates for `need` logical chunks at least.
abbrev pub with_room : ℕ → Node → Node
with_room need m = record m { coords = padded need m.coords }

abbrev pub grown : StorageEngine → Bytes → ℕ → Option Node → Outcome Done
grown e path need none = (e, err (lookup not_found))
grown e path need (some n) = (change_node e path (with_room need), ok tt)

unfoldable pub ensure_logical_len : StorageEngine → Bytes → ℕ → Outcome Done
unfolding Table.get padded
ensure_logical_len e path byte_len =
    if ltb e.alloc.total (logical_chunks byte_len)
    then (e, err no_space)
    else grown e path (logical_chunks byte_len) (Table.get e.table path)

-- The tail of the last chunk that a shrunk file keeps becomes zero.
unfoldable pub clear_tail : External → StorageEngine → Bytes → ℕ → ℕ → Outcome Done
unfolding make_exclusive read_logical_chunk splice store_compressed try_share_hashed fnv1a zeros
    coord
clear_tail x e path last tail =
    let rewritten : Bytes → Outcome Done = λ whole.
      if e.dedup
      then and_then (try_share_hashed x e path last (fnv1a whole) whole) (λ a shared.
        if shared then (a, ok tt) else store_compressed x a path last whole (some (fnv1a whole)))
      else store_compressed x e path last whole none in
    elim (coord e path last) [
      | none ↦ (e, ok tt)
      | some (raw chunk) ↦ and_then (make_exclusive x e path last) (λ a c.
          and_then (on_vram a (zero_at a.vram (c * chunk_size + tail) (chunk_size - tail)))
            (λ b v. (b, ok tt)))
      | some (compressed offset len codec) ↦ elim (read_logical_chunk x e path last) [
        | err failed ↦ (e, err failed)
        | ok old ↦ rewritten (splice tail (zeros (length old - tail)) old)
      ]
    ]

-- The size and the times, once the chunks are as they should be.
abbrev pub sized : ℕ → StorageEngine → Bytes → ℕ → StorageEngine
sized now e path new_size =
    change_node e path (λ m. record m { size = new_size; modified = now; changed = now })

-- The chunks of a file that is to be shorter: those beyond the end are freed. `Vec::drain` panics
-- where there are fewer coordinates than logical chunks that are to stay.
unfoldable pub shrink : External → StorageEngine → Bytes → Node → ℕ → Outcome Done
unfolding free_coords clear_tail
shrink x e path n new_size =
    let new_chunks = logical_chunks new_size in
    let kept = change_node e path (λ m. record m { coords = take new_chunks m.coords }) in
    let freed = free_coords kept (drop new_chunks n.coords) in
    if ltb (length n.coords) new_chunks
    then (e, err panicked)
    else if new_size % chunk_size == 0
    then (freed, ok tt)
    else clear_tail x freed path (new_chunks - 1) (new_size % chunk_size)

-- `set_size`, from the node that was found on.
unfoldable pub resize : External → StorageEngine → Bytes → ℕ → Node → Outcome Done
unfolding shrink padded
resize x e path new_size n =
    if n.is_dir
    then (e, err not_a_file)
    else if ltb e.alloc.total (logical_chunks new_size)
    then (e, err no_space)
    else if ltb new_size n.size
    then and_then (shrink x e path n new_size) (λ a done. (sized x.now a path new_size, ok tt))
    else if ltb (length n.coords) (logical_chunks new_size)
    then (
      sized x.now (change_node e path (with_room (logical_chunks new_size))) path new_size,
      ok tt,
    )
    else (sized x.now e path new_size, ok tt)

unfoldable pub set_size : External → StorageEngine → Bytes → ℕ → Outcome Done
unfolding Table.get resize
set_size x e path new_size = elim (Table.get e.table path) [
  | none ↦ (e, err (lookup not_found))
  | some n ↦ resize x e path new_size n
]

-- What `remove` makes of the table's answer.
unfoldable pub removed_from : StorageEngine → LookupTable × LResult Node → Outcome Done
unfolding free_coords
removed_from e (t, LResult.err failed) = (record e { table = t }, err (lookup failed))
removed_from e (t, LResult.ok n) = (free_coords (record e { table = t }) n.coords, ok tt)

unfoldable pub remove : StorageEngine → Bytes → Outcome Done
unfolding Table.remove removed_from
remove e path = removed_from e (Table.remove e.table path)

unfoldable pub rename : StorageEngine → Bytes → Bytes → Bool → Outcome Done
unfolding Rename.rename free_coords
rename e from to replace =
    let (t, renamed) = Rename.rename e.table from to replace in
    let moved = record e { table = t } in
    elim renamed [
      | LResult.err failed ↦ (moved, err (lookup failed))
      | LResult.ok none ↦ (moved, ok tt)
      | LResult.ok (some n) ↦ (free_coords moved n.coords, ok tt)
    ]
