-- ===== src/Engine/Pieces.antt =====
-- src/engine.rs: the parts of a write. The loop that goes over the logical chunks of a write stands in
-- it six times with `write_chunk` and once with `write_chunk_raw_internal`; the ends of a write that
-- has whole chunks are stored in the same way by four functions.
use vramdisk.Lookup.Key.{Bytes}
use vramdisk.Units.{chunk_size}
use vramdisk.Engine.Result.{ok}
use vramdisk.Engine.State.{External, StorageEngine, Outcome, and_then}
use vramdisk.Engine.Store.{Done, write_chunk}
use vramdisk.Common.{
  ℕ, zero, suc, ◌+◌, ◌-◌, ◌*◌, ◌/◌, ◌%◌, min, leb, ltb, if◌then◌else◌, ◌==◌, length, take, drop,
}

-- Storing a part of one logical chunk.
abbrev pub Put : Type 0
Put = StorageEngine → Bytes → ℕ → ℕ → Bytes → Outcome Done

-- `while done < data.len()`: `rest` is what is left of the data, and `pos` where it goes.
unfoldable pub put_pieces : Put → ℕ → StorageEngine → Bytes → ℕ → Bytes → Outcome Done
put_pieces put zero e path pos rest = (e, ok tt)
put_pieces put (suc fuel) e path pos rest =
    let in_off = pos % chunk_size in
    let some_bytes = min (chunk_size - in_off) (length rest) in
    let further =
      and_then (put e path (pos / chunk_size) in_off (take some_bytes rest))
        (λ a done. put_pieces put fuel a path (pos + some_bytes) (drop some_bytes rest)) in
    if length rest == 0 then (e, ok tt) else further

-- `data[from..from + n]`
abbrev pub slice : ℕ → ℕ → Bytes → Bytes
slice from n bytes = take n (drop from bytes)

-- `full_start`
abbrev pub full_start : ℕ → ℕ
full_start offset = (offset + (chunk_size - 1)) / chunk_size * chunk_size

module _ (x : External) where
  unfoldable pub write_pieces : StorageEngine → Bytes → ℕ → Bytes → Outcome Done
  unfolding put_pieces write_chunk
  write_pieces e path offset bytes = put_pieces (write_chunk x) (length bytes) e path offset bytes

  -- The part before the first whole chunk.
  unfoldable pub write_head : StorageEngine → Bytes → ℕ → Bytes → Outcome Done
  unfolding write_chunk
  write_head e path offset bytes =
      if ltb offset (full_start offset)
      then write_chunk x e path (offset / chunk_size) (offset % chunk_size)
          (take (full_start offset - offset) bytes)
      else (e, ok tt)

  -- The part after the last whole chunk.
  unfoldable pub write_tail : StorageEngine → Bytes → ℕ → Bytes → Outcome Done
  unfolding write_chunk
  write_tail e path offset bytes =
      let end = offset + length bytes in
      let full_end = end / chunk_size * chunk_size in
      if ltb full_end end
      then write_chunk x e path (full_end / chunk_size) 0
          (slice (full_end - offset) (end - full_end) bytes)
      else (e, ok tt)

  -- A write whose whole chunks, from the logical chunk on that is given, are stored by `middle`.
  unfoldable pub write_parts :
      (StorageEngine → ℕ → Bytes → Outcome Done) → StorageEngine → Bytes → ℕ → Bytes → Outcome Done
  unfolding write_pieces write_head write_tail
  write_parts middle e path offset bytes =
      let start = full_start offset in
      let full_end = (offset + length bytes) / chunk_size * chunk_size in
      if leb full_end start
      then write_pieces e path offset bytes
      else and_then (write_head e path offset bytes) (λ a done.
        and_then (middle a (start / chunk_size) (slice (start - offset) (full_end - start) bytes))
          (λ b done. write_tail b path offset bytes))
