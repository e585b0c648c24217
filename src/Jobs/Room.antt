-- ===== src/Jobs/Room.antt =====
-- `reserve`: when a job is entered, when it is refused, and what stays.
use vramdisk.Lookup.Key.{Bytes}
use vramdisk.Lookup.NodeMap.{bytes_eq, is_some}
use vramdisk.Lookup.NodeMap
use vramdisk.Lookup.NodeMap.Laws.{get-insert, bytes_eq_refl, eq_of_bytes_eq}
use vramdisk.Jobs.Text.{is_terminal}
use vramdisk.Jobs.Registry.{
  JobRegistry, JobRecord, JobSubmitError, ok, err, invalid_id, already_exists, too_many_jobs,
  max_jobs, job_at, is_valid_job_id, terminal_jobs, make_room, new_job, reserve,
}
use vramdisk.Common.{
  ℕ, ◌+◌, ◌≤◌, ◌<◌, ◌≡◌, ◌≢◌, ◌⊎◌, inl, inr, refl, ap, ◌∙◌, arith, List, none, some, true, false,
  leb, length, Bool-cases, Option-cases,
}
use vramdisk.Jobs.Evict.{
  IsValid, AllGoing, make_room-keeps, none_over, make_room_going, list_cases, make_room_less,
}

-- What a reservation may come to.
pub record Reserves (now : ℕ) (r : JobRegistry) (id : Bytes) (r' : JobRegistry) : Type 0 where
  pub fresh : job_at r id ≡ none
  pub valid_id : is_valid_job_id id ≡ true
  pub entered : job_at r' id ≡ some (new_job now)
  pub woken : r'.changed ≡ r.changed + 1

module _ (now : ℕ) (r : JobRegistry) (id : Bytes) (v : IsValid r) where
  reserve_cases :
      (((e : JobSubmitError) × (reserve now r id ≡ (r, err e)) × (e ≢ too_many_jobs)))
      ⊎ (((reserve now r id ≡ (record r { jobs = make_room r.jobs }, err too_many_jobs))
            × (max_jobs ≤ length (make_room r.jobs)))
          ⊎ ((reserve now r id ≡ (
            record {
              jobs = NodeMap.insert id (new_job now) (make_room r.jobs);
              changed = r.changed + 1;
            },
            ok,
          ))
              × (job_at r id ≡ none)
              × (is_valid_job_id id ≡ true)
              × (length (make_room r.jobs) < max_jobs)))
  unfolding reserve
  reserve_cases = elim (Bool-cases (is_valid_job_id id)) [
    | inr bad ↦ inl (invalid_id, rw (bad, reserve) refl, λ e. cc)
    | inl good ↦ elim (Option-cases (job_at r id)) [
      | inr (job, at) ↦ inl (already_exists, rw (good, reserve) (rw at refl), λ e. cc)
      | inl free ↦ elim (Bool-cases (leb max_jobs (length (make_room r.jobs)))) [
        | inl full ↦ inr (inl (rw (good, reserve) (rw (free, full) refl), ground arith))
        | inr room ↦ inr (inr (rw (good, reserve) (rw (free, room) refl), free, good, ground arith))
      ]
    ]
  ]

  -- Of a valid registry no job that is not over is lost or changed, also where a full one evicts.
  pub get-reserve :
      (k : Bytes) (job : JobRecord)
      → job_at r k ≡ some job
      → is_terminal job.state ≡ false
      → job_at (reserve now r id).0 k ≡ some job
  get-reserve k job at going = elim reserve_cases [
    | inl (e, q, _) ↦ rw q at
    | inr (inl (q, _)) ↦ rw q (make_room-keeps r.jobs k job v.distinct at going)
    | inr (inr (q, free, good, room)) ↦ rw q (
        get-insert id k (new_job now) (make_room r.jobs)
        ∙ rw (apart free) (make_room-keeps r.jobs k job v.distinct at going))
  ]
    where
      apart : job_at r id ≡ none → bytes_eq id k ≡ false
      apart free = elim (Bool-cases (bytes_eq id k)) [
        | inr e ↦ e
        | inl e ↦ cc (free, at, ap (job_at r) (eq_of_bytes_eq id k e))
      ]

module _ (now : ℕ) (r : JobRegistry) (id : Bytes) (v : IsValid r) where
  -- On a valid registry a reservation is refused and changes nothing, and for the number of jobs
  -- only where no job is over; or the id was valid and free, the new job stands at it, and the
  -- waiters are woken.
  pub reserve_lem :
      ((e : JobSubmitError) × (reserve now r id ≡ (r, err e)) × (e ≢ too_many_jobs))
      ⊎ (((reserve now r id ≡ (r, err too_many_jobs)) × AllGoing r.jobs)
          ⊎ ((r' : JobRegistry) × (reserve now r id ≡ (r', ok)) × Reserves now r id r'))
  reserve_lem = elim (reserve_cases now r id v) [
    | inl refused ↦ inl refused
    | inr (inl (q, full)) ↦ elim (list_cases (terminal_jobs r.jobs)) [
      | inl e ↦ inr (
          inl (
            q
                ∙ ap (λ (m : List (Bytes × JobRecord)). (record r { jobs = m }, err too_many_jobs))
                    (make_room_going r.jobs e),
            none_over r.jobs e,
          ))
      | inr ne ↦ absurd (omega (arith, make_room_less r.jobs v.distinct v.bounded ne))
    ]
    | inr (inr (q, free, good, room)) ↦ inr (
        inr (
          record {
            jobs = NodeMap.insert id (new_job now) (make_room r.jobs);
            changed = r.changed + 1;
          },
          q,
          record {
            fresh = free;
            valid_id = good;
            entered =
                get-insert id id (new_job now) (make_room r.jobs) ∙ rw (bytes_eq_refl id) refl;
            woken = refl;
          },
        ))
  ]
