-- ===== src/Jobs/Life.antt =====
-- The states that a job goes through, one call after the other.
use vramdisk.Lookup.Key.{Bytes}
use vramdisk.Lookup.NodeMap.{bytes_eq}
use vramdisk.Lookup.NodeMap.Laws.{get-insert}
use vramdisk.Jobs.Text.{
  JobState, receiving, queued, running, succeeded, failed, cancelled, is_terminal,
}
use vramdisk.Jobs.Registry.{
  JobRegistry, JobRecord, max_descriptor_bytes, job_at, write, write_notify, is_receiving,
  is_queued, is_running,
}
use vramdisk.Jobs.Handlers.{complete_submission, start, cancel, set_progress, advance_progress}
use vramdisk.Common.{
  ℕ, ◌+◌, ◌≤◌, ◌≡◌, ◌⊎◌, inl, inr, refl, sym, subst, arith, some, true, false, ltb, if◌then◌else◌,
  length, Bool-cases, Option-cases,
}

-- The calls that clients and workers make about a job that is under way.
pub data Call : Type 0 where
  submit : Bytes → Call
  begin : Call
  ask_cancel : Call
  report : ℕ → ℕ → Call
  advance : ℕ → Call

module _ (lossy : Bytes → Bytes) (now : ℕ) where
  unfoldable pub act : Bytes → Call → JobRegistry → JobRegistry
  unfolding complete_submission start cancel set_progress advance_progress
  act id (submit descriptor) r = (complete_submission lossy now r id descriptor).0
  act id begin r = (start now r id).0
  act id ask_cancel r = (cancel now r id).0
  act id (report done total) r = set_progress now r id done total
  act id (advance delta) r = advance_progress now r id delta

-- The moves that a call may make a job do.
pub data Moves : JobState → JobState → Type 0 where
  stays : {s : JobState} → Moves s s
  submitted : Moves receiving queued
  dropped : Moves receiving cancelled
  withdrawn : Moves queued cancelled
  begun : Moves queued running

-- A descriptor that `complete_submission` accepts.
abbrev pub Fits : Call → Type 0
Fits (submit descriptor) = length descriptor ≤ max_descriptor_bytes
Fits begin = Unit
Fits ask_cancel = Unit
Fits (report done total) = Unit
Fits (advance delta) = Unit

-- One job that was not over yet has moved, and no other job is different; if it is over now, the
-- waiters were woken.
pub record Moved (r : JobRegistry) (id : Bytes) (r' : JobRegistry) : Type 0 where
  pub old : JobRecord
  pub young : JobRecord
  pub was_at : job_at r id ≡ some old
  pub was_going : is_terminal old.state ≡ false
  pub moves : Moves old.state young.state
  pub jobs_after : (k : Bytes) → job_at r' k ≡ (if bytes_eq id k then some young else job_at r k)
  pub woken : is_terminal young.state ≡ true → r'.changed ≡ r.changed + 1

notified-Moved :
    (r : JobRegistry) (id : Bytes) (old young : JobRecord)
    → job_at r id ≡ some old
    → is_terminal old.state ≡ false
    → Moves old.state young.state
    → Moved r id (write_notify r id young)
notified-Moved r id old young at going m = record {
  old = old;
  young = young;
  was_at = at;
  was_going = going;
  moves = m;
  jobs_after = λ k. get-insert id k young r.jobs;
  woken = λ e. refl;
}

quiet-Moved :
    (r : JobRegistry) (id : Bytes) (old young : JobRecord)
    → job_at r id ≡ some old
    → is_terminal old.state ≡ false
    → young.state ≡ old.state
    → Moved r id (write r id young)
quiet-Moved r id old young at going same = record {
  old = old;
  young = young;
  was_at = at;
  was_going = going;
  moves = subst (Moves old.state) (sym same) stays;
  jobs_after = λ k. get-insert id k young r.jobs;
  woken = λ e. cc;
}

-- Which states the tests accept.
receiving_state : (s : JobState) → is_receiving s ≡ true → s ≡ receiving
receiving_state receiving e = refl
receiving_state queued e = cc
receiving_state running e = cc
receiving_state succeeded e = cc
receiving_state failed e = cc
receiving_state cancelled e = cc

queued_state : (s : JobState) → is_queued s ≡ true → s ≡ queued
queued_state queued e = refl
queued_state receiving e = cc
queued_state running e = cc
queued_state succeeded e = cc
queued_state failed e = cc
queued_state cancelled e = cc

waiting_drops : (s : JobState) → is_terminal s ≡ false → is_running s ≡ false → Moves s cancelled
waiting_drops receiving t u = dropped
waiting_drops queued t u = withdrawn
waiting_drops running t u = cc
waiting_drops succeeded t u = cc
waiting_drops failed t u = cc
waiting_drops cancelled t u = cc

abbrev Acts : JobRegistry → Bytes → JobRegistry → Type 0
Acts r id r' = (r' ≡ r) ⊎ Moved r id r'

module _ (lossy : Bytes → Bytes) (now : ℕ) (r : JobRegistry) (id : Bytes) where
  submit-Acts :
      (descriptor : Bytes)
      → length descriptor ≤ max_descriptor_bytes
      → Acts r id ((complete_submission lossy now r id descriptor).0)
  unfolding complete_submission
  submit-Acts descriptor fits =
      rw (small, complete_submission)
        (elim (Option-cases (job_at r id)) [
          | inl gone ↦ rw gone (inl refl)
          | inr (job, at) ↦ elim (Bool-cases (is_receiving job.state)) [
            | inr other ↦ rw at (rw other (inl refl))
            | inl wanted ↦
                let s : job.state ≡ receiving = receiving_state job.state wanted in
                elim (Bool-cases job.cancel_requested) [
                  | inl asked ↦
                      rw at (
                        rw (wanted, asked) (inr (notified-Moved r id job _ at (cc) (rw s dropped))))
                  | inr not_asked ↦ rw at (
                      rw (wanted, not_asked)
                        (inr (notified-Moved r id job _ at (cc) (rw s submitted))))
                ]
          ]
        ])
    where
      small : ltb max_descriptor_bytes (length descriptor) ≡ false
      small = ground arith

  begin-Acts : Acts r id ((start now r id).0)
  unfolding start
  begin-Acts = elim (Option-cases (job_at r id)) [
    | inl gone ↦ rw (gone, start) (inl refl)
    | inr (job, at) ↦ elim (Bool-cases (is_queued job.state)) [
      | inr other ↦ rw (at, start) (rw other (inl refl))
      | inl wanted ↦
          let s : job.state ≡ queued = queued_state job.state wanted in
          elim (Bool-cases job.cancel_requested) [
            | inl asked ↦
                rw (at, start)
                  (rw (wanted, asked) (inr (notified-Moved r id job _ at (cc) (rw s withdrawn))))
            | inr not_asked ↦
                rw (at, start)
                  (rw (wanted, not_asked) (inr (notified-Moved r id job _ at (cc) (rw s begun))))
          ]
    ]
  ]

  cancel-Acts : Acts r id ((cancel now r id).0)
  unfolding cancel
  cancel-Acts = elim (Option-cases (job_at r id)) [
    | inl gone ↦ rw (gone, cancel) (inl refl)
    | inr (job, at) ↦ elim (Bool-cases (is_terminal job.state)) [
      | inl over ↦ rw (at, cancel) (rw over (inl refl))
      | inr going ↦ elim (Bool-cases (is_running job.state)) [
        | inl busy ↦
            rw (at, cancel) (rw (going, busy) (inr (notified-Moved r id job _ at going stays)))
        | inr idle ↦
            rw (at, cancel)
              (rw (going, idle)
                (inr (notified-Moved r id job _ at going (waiting_drops job.state going idle))))
      ]
    ]
  ]

  report-Acts : (done total : ℕ) → Acts r id (set_progress now r id done total)
  unfolding set_progress
  report-Acts done total = elim (Option-cases (job_at r id)) [
    | inl gone ↦ rw (gone, set_progress) (inl refl)
    | inr (job, at) ↦ elim (Bool-cases (is_terminal job.state)) [
      | inl over ↦ rw (at, set_progress) (rw over (inl refl))
      | inr going ↦ rw (at, set_progress) (rw going (inr (quiet-Moved r id job _ at going refl)))
    ]
  ]

  advance-Acts : (delta : ℕ) → Acts r id (advance_progress now r id delta)
  unfolding advance_progress
  advance-Acts delta = elim (Option-cases (job_at r id)) [
    | inl gone ↦ rw (gone, advance_progress) (inl refl)
    | inr (job, at) ↦ elim (Bool-cases (is_terminal job.state)) [
      | inl over ↦ rw (at, advance_progress) (rw over (inl refl))
      | inr going ↦
          rw (at, advance_progress) (rw going (inr (quiet-Moved r id job _ at going refl)))
    ]
  ]

  -- A call with a descriptor that is not too large either changes nothing, or moves one job that
  -- was not over along the state machine, leaves all others, and wakes the waiters if it is over.
  pub act_lem :
      (call : Call)
      → Fits call
      → (act lossy now id call r ≡ r) ⊎ Moved r id (act lossy now id call r)
  unfolding act
  act_lem (submit descriptor) fits = submit-Acts descriptor fits
  act_lem begin fits = begin-Acts
  act_lem ask_cancel fits = cancel-Acts
  act_lem (report done total) fits = report-Acts done total
  act_lem (advance delta) fits = advance-Acts delta
