-- ===== src/Arena/Examples.antt =====
-- An arena and an allocator with two blobs, and the theorems applied to them.

use vramdisk.Arena.Allocator.{Ledger, assign, Grants, new-Accounts, try_alloc_lem}
use vramdisk.Arena.Turnover.{Leaves, add_arena_lem, release_lem}
use vramdisk.Arena.{CompressedAllocator, new, try_alloc, release, absolute}
use vramdisk.Common.{refl, arith, [], ◌∷◌}

abbrev no_blobs : Ledger
no_blobs = λ chunk. []

try_alloc_lem_example : Grants no_blobs 100 (try_alloc new 100)
try_alloc_lem_example = try_alloc_lem new no_blobs 100 (omega arith) new-Accounts

abbrev one_arena : CompressedAllocator
one_arena = (add_arena_lem new no_blobs 7 100 (omega arith) (omega arith) new-Accounts).0

release_lem_example :
    Leaves (assign no_blobs 7 ((0, 100) ∷ [])) 7 [] (release one_arena (absolute 7 0) 100)
release_lem_example =
    release_lem one_arena (assign no_blobs 7 ((0, 100) ∷ [])) 7 0 100 []
      (add_arena_lem new no_blobs 7 100 (omega arith) (omega arith) new-Accounts).2 refl
