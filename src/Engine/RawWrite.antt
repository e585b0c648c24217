-- ===== src/Engine/RawWrite.antt =====
-- src/engine.rs, `StorageEngine`: runs of chunks, and the write without dedup and compression. The loops
-- have the number of chunks as fuel: each round stores at least one, and a request for a run that is
-- halved reaches one in fewer rounds.
use vramdisk.Lookup.Key.{Bytes}
use vramdisk.Placement.{Placement, raw, compressed}
use vramdisk.Chunk.{ChunkAllocator, alloc_contiguous}
use vramdisk.Units.{chunk_size}
use vramdisk.Jobs.Text.{codes}
use vramdisk.Engine.Result.{ok, err, no_space, internal}
use vramdisk.Engine.Vram.{write_at}
use vramdisk.Engine.State.{
  External, StorageEngine, Outcome, and_then, on_vram, coord, set_coord, set_refcount, is_raw,
}
use vramdisk.Engine.Store.{Done}
use vramdisk.Engine.Pieces.{write_parts}
use vramdisk.Common.{
  ℕ, zero, suc, ◌+◌, ◌-◌, ◌*◌, ◌/◌, Option, none, some, Bool, true, false, ◌==◌, if◌then◌else◌,
  length, take, drop,
}

-- `self.refcount[c] = 1` for the chunks of the run.
unfoldable pub set_refcounts : ℕ → ℕ → StorageEngine → StorageEngine
set_refcounts zero c e = e
set_refcounts (suc n) c e = set_refcounts n (c + 1) (set_refcount e c 1)

-- What `alloc_contiguous_run` makes of the bitmap's answer, where `retry` halves the request.
abbrev pub run_took :
    StorageEngine
    → ℕ
    → (StorageEngine → Outcome (ℕ × ℕ))
    → ChunkAllocator × Option ℕ
    → Outcome (ℕ × ℕ)
run_took e n retry (a, some start) = (
  if e.dedup then set_refcounts n start (record e { alloc = a }) else record e { alloc = a },
  ok (start, n),
)
run_took e n retry (a, none) =
    if n == 1 then (record e { alloc = a }, err no_space) else retry (record e { alloc = a })

unfoldable pub alloc_run : ℕ → StorageEngine → ℕ → Outcome (ℕ × ℕ)
unfolding set_refcounts alloc_contiguous
alloc_run zero e n = (e, err (internal (codes "a run halved too often")))
alloc_run (suc fuel) e n =
    run_took e n (λ a. alloc_run fuel a ((n + 1) / 2)) (alloc_contiguous e.alloc n)

unfoldable pub alloc_contiguous_run : StorageEngine → ℕ → Outcome (ℕ × ℕ)
unfolding alloc_run
alloc_contiguous_run e count = alloc_run count e count

-- `set_coord` of the chunks of a run to logical chunks from `lc` on.
unfoldable pub set_coords : ℕ → StorageEngine → Bytes → ℕ → ℕ → StorageEngine
unfolding set_coord
set_coords zero e path lc start = e
set_coords (suc n) e path lc start =
    set_coords n (set_coord e path lc (some (raw start))) path (lc + 1) (start + 1)

abbrev pub is_hole : Option Placement → Bool
is_hole none = true
is_hole (some p) = false

-- How many of the next `left` logical chunks are holes.
unfoldable pub holes : ℕ → StorageEngine → Bytes → ℕ → ℕ
unfolding coord
holes zero e path lc = 0
holes (suc left) e path lc = if is_hole (coord e path lc) then holes left e path (lc + 1) + 1 else 0

-- How many of the next `left` logical chunks lie one behind the other after `prev`.
unfoldable pub successors : ℕ → StorageEngine → Bytes → ℕ → ℕ → ℕ
unfolding coord
successors zero e path lc prev = 0
successors (suc left) e path lc prev =
    if is_raw (prev + 1) (coord e path lc)
    then successors left e path (lc + 1) (prev + 1) + 1
    else 0

-- The run gets the first bytes, and goes to the file.
abbrev pub put_run : Bytes → ℕ → Bytes → StorageEngine → ℕ × ℕ → Outcome ℕ
put_run path lc rest a (start, got) =
    and_then (on_vram a (write_at a.vram (start * chunk_size) (take (got * chunk_size) rest)))
      (λ b v. (set_coords got b path lc start, ok got))

-- A run of chunks for holes, and how many of them it fills.
unfoldable pub fill_holes : StorageEngine → Bytes → ℕ → ℕ → Bytes → Outcome ℕ
unfolding alloc_contiguous_run set_coords
fill_holes e path lc count rest = and_then (alloc_contiguous_run e count) (put_run path lc rest)

-- One round of the loop over whole chunks, `n` of them: how many it stores.
unfoldable pub raw_round : StorageEngine → Bytes → ℕ → ℕ → Bytes → Outcome ℕ
unfolding coord fill_holes holes successors
raw_round e path lc n rest = elim (coord e path lc) [
  | none ↦ fill_holes e path lc (holes (n - 1) e path (lc + 1) + 1) rest
  | some (raw chunk) ↦
      let count = successors (n - 1) e path (lc + 1) chunk + 1 in
      and_then (on_vram e (write_at e.vram (chunk * chunk_size) (take (count * chunk_size) rest)))
        (λ b v. (b, ok count))
  | some (compressed offset len codec) ↦
      (e, err (internal (codes "compressed placement in raw writer")))
]

unfoldable pub raw_rounds : ℕ → StorageEngine → Bytes → ℕ → ℕ → Bytes → Outcome Done
unfolding raw_round
raw_rounds zero e path lc n rest = (e, ok tt)
raw_rounds (suc fuel) e path lc n rest =
    let further = and_then (raw_round e path lc n rest) (λ a count.
      raw_rounds fuel a path (lc + count) (n - count) (drop (count * chunk_size) rest)) in
    if n == 0 then (e, ok tt) else further

unfoldable pub write_raw_unshared : External → StorageEngine → Bytes → ℕ → Bytes → Outcome Done
unfolding write_parts raw_rounds
write_raw_unshared x e path offset bytes =
    write_parts x
      (λ a lc middle. let n = length middle / chunk_size in raw_rounds n a path lc n middle) e path
      offset bytes
