-- ===== src/Jobs/Ends.antt =====
-- How a job ends: for good, by a cancellation or by its success.
use vramdisk.Lookup.Key.{Bytes}
use vramdisk.Lookup.NodeMap.{bytes_eq}
use vramdisk.Lookup.NodeMap.Laws.{eq_of_bytes_eq}
use vramdisk.Jobs.Text.{is_terminal}
use vramdisk.Jobs.Registry.{JobRegistry, JobRecord, job_at}
use vramdisk.Jobs.Life.{Call, Fits, act, act_lem}
use vramdisk.Common.{ℕ, ◌≡◌, inl, inr, ap, ◌∙◌, List, [], ◌∷◌, some, true, Bool-cases, All}

-- A call about the job `id` at the time `now`.
pub record Request : Type 0 where
  pub now : ℕ
  pub id : Bytes
  pub call : Call

unfoldable pub run : (Bytes → Bytes) → List Request → JobRegistry → JobRegistry
unfolding act
run lossy [] r = r
run lossy (q ∷ qs) r = run lossy qs (act lossy q.now q.id q.call r)

act-over :
    (lossy : Bytes → Bytes) (now : ℕ) (id : Bytes) (call : Call) (r : JobRegistry) (k : Bytes)
    (job : JobRecord)
    → Fits call
    → job_at r k ≡ some job
    → is_terminal job.state ≡ true
    → job_at (act lossy now id call r) k ≡ some job
act-over lossy now id call r k job fits at over = elim (act_lem lossy now r id call fits) [
  | inl same ↦ ap (λ (u : JobRegistry). job_at u k) same ∙ at
  | inr m ↦ elim (Bool-cases (bytes_eq id k)) [
    | inr other ↦ m.jobs_after k ∙ rw other at
    | inl here ↦
        let shared : job_at r id ≡ some job = ap (job_at r) (eq_of_bytes_eq id k here) ∙ at in
        let one : m.old ≡ job = cc (m.was_at, shared) in
        cc (ap (λ (j : JobRecord). is_terminal j.state) one, m.was_going, over)
  ]
]

-- A job that is over stays exactly as it is, whatever calls follow, as long as no descriptor that
-- is too large is submitted.
pub run-over :
    (lossy : Bytes → Bytes) (qs : List Request) (r : JobRegistry) (k : Bytes) (job : JobRecord)
    → All (λ q. Fits q.call) qs
    → job_at r k ≡ some job
    → is_terminal job.state ≡ true
    → job_at (run lossy qs r) k ≡ some job
unfolding run
run-over lossy [] r k job fits at over = at
run-over lossy (q ∷ qs) r k job fits at over =
    run-over lossy qs (act lossy q.now q.id q.call r) k job fits.1
      (act-over lossy q.now q.id q.call r k job fits.0 at over) over
