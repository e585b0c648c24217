-- ===== src/Jobs/Handlers.antt =====
-- src/jobs.rs: the life of one job, from its submission to its end. An operation on an id that is
-- not registered changes nothing. `String::from_utf8_lossy` is the argument `lossy`.
use vramdisk.Lookup.Key.{Bytes}
use vramdisk.Lookup.NodeMap.{is_some, set_insert}
use vramdisk.Jobs.Text.{
  JobState, queued, running, succeeded, failed, cancelled, is_terminal, is_succeeded, codes,
  result_json,
}
use vramdisk.Jobs.Registry.{
  JobRegistry, JobRecord, JobProgress, Submitted, ok, err, not_found, already_submitted,
  descriptor_too_large, max_descriptor_bytes, job_cancelled_message, job_at, write, write_notify,
  is_receiving, is_queued, is_running,
}
use vramdisk.Common.{
  ℕ, ◌+◌, ◌-◌, ◌^◌, min, List, [], ◌∷◌, Option, none, some, Bool, true, false, not, ltb,
  if◌then◌else◌, length,
}

-- The record that a cancellation leaves.
abbrev pub cancelled_record : ℕ → Bytes → JobRecord → JobRecord
cancelled_record now id job = record job {
  state = cancelled;
  error = some job_cancelled_message;
  result = result_json id cancelled (some job_cancelled_message);
  updated_at_ms = now;
}

unfoldable pub fail_reserved : ℕ → JobRegistry → Bytes → Bytes → JobRegistry
fail_reserved now r id message = elim (job_at r id) [
  | none ↦ r
  | some job ↦ write_notify r id (record job {
    state = failed;
    error = some message;
    result = result_json id failed (some message);
    updated_at_ms = now;
  })
]

abbrev pub too_large_message : Bytes
too_large_message = codes "job descriptor is too large"

unfoldable pub complete_submission :
    (Bytes → Bytes) → ℕ → JobRegistry → Bytes → Bytes → JobRegistry × Submitted
unfolding fail_reserved
complete_submission lossy now r id descriptor =
    if ltb max_descriptor_bytes (length descriptor)
    then (fail_reserved now r id too_large_message, err descriptor_too_large)
    else elim (job_at r id) [
      | none ↦ (r, err not_found)
      | some job ↦
          if not (is_receiving job.state)
          then (r, err already_submitted)
          else if job.cancel_requested
          then (
            write_notify r id
                (cancelled_record now id (record job { descriptor = lossy descriptor })),
            err already_submitted,
          )
          else (
            write_notify r id
                (record job { descriptor = lossy descriptor; state = queued; updated_at_ms = now }),
            ok,
          )
    ]

unfoldable pub start : ℕ → JobRegistry → Bytes → JobRegistry × Option Bytes
start now r id = elim (job_at r id) [
  | none ↦ (r, none)
  | some job ↦
      if not (is_queued job.state)
      then (r, none)
      else if job.cancel_requested
      then (write_notify r id (cancelled_record now id job), none)
      else (
        write_notify r id (record job { state = running; updated_at_ms = now }),
        some job.descriptor,
      )
]

-- The counter of a job that succeeded goes to its total.
abbrev pub snap : JobState → Option JobProgress → Option JobProgress
snap state none = none
snap state (some p) =
    if is_succeeded state then some (record p { done_bytes = p.total_bytes }) else some p

unfoldable pub finish : ℕ → JobRegistry → Bytes → JobState → Bytes → Option Bytes → JobRegistry
finish now r id state result error = elim (job_at r id) [
  | none ↦ r
  | some job ↦ write_notify r id (record job {
    progress = snap state job.progress;
    state = state;
    result = result;
    error = error;
    updated_at_ms = now;
  })
]

unfoldable pub succeed : ℕ → JobRegistry → Bytes → Bytes → JobRegistry
unfolding finish
succeed now r id result = finish now r id succeeded result none

unfoldable pub fail : ℕ → JobRegistry → Bytes → Bytes → JobRegistry
unfolding finish
fail now r id message = finish now r id failed (result_json id failed (some message)) (some message)

unfoldable pub finish_cancelled : ℕ → JobRegistry → Bytes → JobRegistry
unfolding finish
finish_cancelled now r id =
    finish now r id cancelled (result_json id cancelled (some job_cancelled_message))
      (some job_cancelled_message)

unfoldable pub cancel : ℕ → JobRegistry → Bytes → JobRegistry × Bool
cancel now r id = elim (job_at r id) [
  | none ↦ (r, false)
  | some job ↦
      if is_terminal job.state
      then (r, true)
      else if is_running job.state
      then (write_notify r id (record job { cancel_requested = true; updated_at_ms = now }), true)
      else (
        write_notify r id (cancelled_record now id (record job { cancel_requested = true })),
        true,
      )
]

-- `u64::saturating_add`
abbrev pub saturating_add : ℕ → ℕ → ℕ
saturating_add a b = min (a + b) (2 ^ 64 - 1)

unfoldable pub set_progress : ℕ → JobRegistry → Bytes → ℕ → ℕ → JobRegistry
set_progress now r id done total = elim (job_at r id) [
  | none ↦ r
  | some job ↦
      if is_terminal job.state
      then r
      else write r id (record job {
        progress = some (record { done_bytes = done; total_bytes = total });
        updated_at_ms = now;
      })
]

abbrev pub or_zero : Option JobProgress → JobProgress
or_zero none = record { done_bytes = 0; total_bytes = 0 }
or_zero (some p) = p

unfoldable pub advance_progress : ℕ → JobRegistry → Bytes → ℕ → JobRegistry
advance_progress now r id delta = elim (job_at r id) [
  | none ↦ r
  | some job ↦
      if is_terminal job.state
      then r
      else let current = or_zero job.progress in
        write r id (record job {
          progress = some (record {
            done_bytes = saturating_add current.done_bytes delta;
            total_bytes = current.total_bytes;
          });
          updated_at_ms = now;
        })
]

unfoldable pub progress : JobRegistry → Bytes → Option JobProgress
progress r id = elim (job_at r id) [ none ↦ none | some job ↦ job.progress ]

unfoldable pub cancel_requested : JobRegistry → Bytes → Bool
cancel_requested r id = elim (job_at r id) [ none ↦ false | some job ↦ job.cancel_requested ]

unfoldable pub exists : JobRegistry → Bytes → Bool
exists r id = is_some (job_at r id)

pub record JobSnapshot : Type 0 where
  pub id : Bytes
  pub state : JobState
  pub submitted_at_ms : ℕ
  pub updated_at_ms : ℕ
  pub descriptor : Bytes
  pub result : Bytes
  pub error : Option Bytes
  pub progress : Option JobProgress

abbrev pub snapshot_of : Bytes → JobRecord → JobSnapshot
snapshot_of id job = record {
  id = id;
  state = job.state;
  submitted_at_ms = job.submitted_at_ms;
  updated_at_ms = job.updated_at_ms;
  descriptor = job.descriptor;
  result = job.result;
  error = job.error;
  progress = job.progress;
}

unfoldable pub snapshot : JobRegistry → Bytes → Option JobSnapshot
snapshot r id = elim (job_at r id) [ none ↦ none | some job ↦ some (snapshot_of id job) ]

-- The ids of the jobs in some state, in order and each once.
unfoldable pub ids_by : (JobState → Bool) → List (Bytes × JobRecord) → List Bytes
ids_by pred [] = []
ids_by pred ((id, job) ∷ jobs) =
    let rest = ids_by pred jobs in if pred job.state then set_insert id rest else rest

unfoldable pub receiving_ids : JobRegistry → List Bytes
unfolding ids_by
receiving_ids r = ids_by is_receiving r.jobs

unfoldable pub completed_ids : JobRegistry → List Bytes
unfolding ids_by
completed_ids r = ids_by is_terminal r.jobs
