-- ===== src/Jobs/Examples.antt =====
-- A registry with one job, and the theorems applied to it.
use vramdisk.Lookup.Key.{Bytes}
use vramdisk.Lookup.NodeMap
use vramdisk.Jobs.Text.{codes, queued, succeeded}
use vramdisk.Jobs.Registry.{
  JobRegistry, JobRecord, JobSubmitError, ok, err, too_many_jobs, job_at, new_job, reserve,
}
use vramdisk.Jobs.Life.{act, act_lem, Moved, begin, ask_cancel, report}
use vramdisk.Jobs.Ends.{Request, run, run-over}
use vramdisk.Jobs.Evict.{IsValid, AllGoing}
use vramdisk.Jobs.Room.{Reserves, reserve_lem, get-reserve}
use vramdisk.Common.{◌≡◌, ◌≢◌, ◌⊎◌, refl, arith, List, [], ◌∷◌, some}

abbrev lossy : Bytes → Bytes
lossy text = text

abbrev waiting : JobRecord
waiting = record (new_job 7) { state = queued; descriptor = codes "{}" }

abbrev over : JobRecord
over = record (new_job 7) {
  state = succeeded;
  progress = some (record { done_bytes = 5; total_bytes = 9 });
}

abbrev registry : JobRecord → JobRegistry
registry job = record { jobs = (codes "a", job) ∷ []; changed = 3 }

act_lem_example :
    (act lossy 8 (codes "a") begin (registry waiting) ≡ registry waiting)
    ⊎ Moved (registry waiting) (codes "a") (act lossy 8 (codes "a") begin (registry waiting))
act_lem_example = act_lem lossy 8 (registry waiting) (codes "a") begin tt

abbrev requests : List Request
requests =
    record { now = 8; id = codes "a"; call = begin }
    ∷ record { now = 9; id = codes "a"; call = ask_cancel }
    ∷ record { now = 9; id = codes "a"; call = report 1 2 }
    ∷ []

run-over_example : job_at (run lossy requests (registry over)) (codes "a") ≡ some over
unfolding NodeMap.get NodeMap.bytes_eq
run-over_example =
    run-over lossy requests (registry over) (codes "a") over (tt, (tt, (tt, tt))) refl refl

registry-IsValid : IsValid (registry waiting)
unfolding NodeMap.get
registry-IsValid = record { distinct = (refl, tt); bounded = omega arith }

reserve_lem_example :
    ((e : JobSubmitError) × (reserve 8 (registry waiting) (codes "b") ≡ (registry waiting, err e))
      × (e ≢ too_many_jobs))
    ⊎ (((reserve 8 (registry waiting) (codes "b") ≡ (registry waiting, err too_many_jobs))
          × AllGoing (registry waiting).jobs)
        ⊎ ((r' : JobRegistry) × (reserve 8 (registry waiting) (codes "b") ≡ (r', ok))
            × Reserves 8 (registry waiting) (codes "b") r'))
reserve_lem_example = reserve_lem 8 (registry waiting) (codes "b") registry-IsValid

get-reserve_example : job_at (reserve 8 (registry waiting) (codes "b")).0 (codes "a") ≡ some waiting
unfolding NodeMap.get NodeMap.bytes_eq
get-reserve_example =
    get-reserve 8 (registry waiting) (codes "b") registry-IsValid (codes "a") waiting refl refl
