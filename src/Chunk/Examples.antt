-- ===== src/Chunk/Examples.antt =====
-- Runs of the chunk allocator on disks of 70 chunks, and its theorems applied to them.
use vramdisk.Chunk.View.{digit}
use vramdisk.Chunk.Invariant.{IsValid, new-IsValid}
use vramdisk.Chunk.Takes.{Takes}
use vramdisk.Chunk.Single.{alloc_one_lem}
use vramdisk.Chunk.Release.{SameChunks, free-Takes}
use vramdisk.Chunk.Contiguous.{NoRun, alloc_contiguous_lem, mark_used-Takes}
use vramdisk.Chunk.Scanning.{scan_words-first_run}
use vramdisk.Chunk.Runs.{first_run}
use vramdisk.Chunk.{
  ChunkAllocator, new, free, alloc_one, alloc_contiguous, free_contiguous, mark_used, scan_words,
  found,
}
use vramdisk.Common.{ℕ, ◌*◌, ◌≡◌, ◌⊎◌, refl, ap, arith, some, none, length}

abbrev disk : ChunkAllocator
disk = new 70

disk-IsValid : IsValid disk
disk-IsValid = new-IsValid 70 (omega arith)

alloc_one_lem_example :
    ((alloc_one disk ≡ (disk, none)) × (free disk ≡ 0))
    ⊎ ((b : ChunkAllocator) × (c : ℕ) × (alloc_one disk ≡ (b, some c))
        × Takes disk c 1 b
        × IsValid b)
alloc_one_lem_example = alloc_one_lem disk disk-IsValid

alloc_contiguous_lem_example :
    ((alloc_contiguous disk 66 ≡ (disk, none)) × NoRun disk disk-IsValid 66)
    ⊎ ((b : ChunkAllocator) × (start : ℕ) × (alloc_contiguous disk 66 ≡ (b, some start))
        × Takes disk start 66 b
        × IsValid b)
alloc_contiguous_lem_example = alloc_contiguous_lem disk disk-IsValid 66 (omega arith)

-- The disk with its first three chunks in use.
abbrev taken : ChunkAllocator
taken = mark_used disk 0 3

scanned : scan_words 3 0 disk.words 0 0 ≡ found 0
unfolding scan_words new
scanned = refl

taken_lem : Takes disk 0 3 taken × IsValid taken
taken_lem = mark_used-Takes disk disk-IsValid 3 (omega arith) 0 scanned

free-Takes_example :
    (c : ChunkAllocator) × (free_contiguous 3 0 taken ≡ some c) × IsValid c × SameChunks c disk
free-Takes_example = free-Takes disk taken 0 3 taken_lem.0 taken_lem.1

scan_words-first_run_example :
    scan_words 3 0 disk.words 0 0 ≡ first_run 3 (digit disk.words) (64 * length disk.words) 0 0 0
scan_words-first_run_example =
    scan_words-first_run 3 0 disk.words (digit disk.words) 0 0 0 (omega arith) refl
      (λ j lt. ap (digit disk.words) (omega arith))
