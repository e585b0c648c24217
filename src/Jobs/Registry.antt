-- ===== src/Jobs/Registry.antt =====
-- src/jobs.rs, `JobRegistry`: every operation that reads or changes it. `changed` counts the
-- calls of `notify_all`. The decoder of the descriptor is the library's, an argument.
use Prim.Native.Nat.{Ordering, compare}
use vramdisk.Lookup.Key.{Bytes}
use vramdisk.Lookup.NodeMap.{bytes_eq, bytes_compare, is_some}
use vramdisk.Lookup.NodeMap
use vramdisk.Jobs.Text.{
  JobState, receiving, queued, running, succeeded, failed, cancelled, is_terminal, codes, crlf,
}
use vramdisk.Common.{
  ℕ, ◌+◌, ◌*◌, List, [], ◌∷◌, Option, none, Bool, true, false, not, ◌&&◌, ◌||◌, ◌==◌, leb,
  if◌then◌else◌, length, take,
}

abbrev pub max_jobs : ℕ
max_jobs = 100000

abbrev pub evict_batch : ℕ
evict_batch = 1000

abbrev pub max_descriptor_bytes : ℕ
max_descriptor_bytes = 1024 * 1024

abbrev pub job_cancelled_message : Bytes
job_cancelled_message = codes "cancelled by user"

pub record JobProgress : Type 0 where
  pub done_bytes : ℕ
  pub total_bytes : ℕ

pub record JobRecord : Type 0 where
  pub state : JobState
  pub submitted_at_ms : ℕ
  pub updated_at_ms : ℕ
  pub descriptor : Bytes
  pub result : Bytes
  pub error : Option Bytes
  pub cancel_requested : Bool
  pub progress : Option JobProgress

pub data JobSubmitError : Type 0 where
  invalid_id already_exists too_many_jobs descriptor_too_large not_found already_submitted :
      JobSubmitError

pub data Submitted : Type 0 where
  ok : Submitted
  err : JobSubmitError → Submitted

pub record JobRegistry : Type 0 where
  pub jobs : List (Bytes × JobRecord)
  pub changed : ℕ

unfoldable pub empty : JobRegistry
empty = record { jobs = []; changed = 0 }

abbrev pub job_at : JobRegistry → Bytes → Option JobRecord
job_at r id = NodeMap.get id r.jobs

-- Writing the record through `get_mut`, with and without `notify_all`.
abbrev pub write : JobRegistry → Bytes → JobRecord → JobRegistry
write r id job = record r { jobs = NodeMap.insert id job r.jobs }

abbrev pub write_notify : JobRegistry → Bytes → JobRecord → JobRegistry
write_notify r id job = record { jobs = NodeMap.insert id job r.jobs; changed = r.changed + 1 }

abbrev pub is_receiving : JobState → Bool
is_receiving receiving = true
is_receiving queued = false
is_receiving running = false
is_receiving succeeded = false
is_receiving failed = false
is_receiving cancelled = false

abbrev pub is_queued : JobState → Bool
is_queued queued = true
is_queued receiving = false
is_queued running = false
is_queued succeeded = false
is_queued failed = false
is_queued cancelled = false

abbrev pub is_running : JobState → Bool
is_running running = true
is_running receiving = false
is_running queued = false
is_running succeeded = false
is_running failed = false
is_running cancelled = false

abbrev pub id_byte : ℕ → Bool
id_byte b =
    (leb 48 b && leb b 57)
    || (leb 65 b && leb b 90)
    || (leb 97 b && leb b 122)
    || b == 45
    || b == 95
    || b == 46

unfoldable pub all_id_bytes : Bytes → Bool
all_id_bytes [] = true
all_id_bytes (b ∷ id) = id_byte b && all_id_bytes id

unfoldable pub is_valid_job_id : Bytes → Bool
unfolding all_id_bytes
is_valid_job_id id =
    not (length id == 0)
    && leb (length id) 128
    && not (bytes_eq id (46 ∷ []))
    && not (bytes_eq id (46 ∷ 46 ∷ []))
    && all_id_bytes id

-- The jobs that may be evicted, as `(updated_at_ms, id)`.
unfoldable pub terminal_jobs : List (Bytes × JobRecord) → List (ℕ × Bytes)
terminal_jobs [] = []
terminal_jobs ((id, job) ∷ jobs) =
    let rest = terminal_jobs jobs in
    if is_terminal job.state then (job.updated_at_ms, id) ∷ rest else rest

abbrev pub before : ℕ × Bytes → ℕ × Bytes → Bool
before (s, a) (t, b) = elim (compare s t) [
  | Ordering.lt ↦ true
  | Ordering.gt ↦ false
  | Ordering.eq ↦ elim (bytes_compare a b) [ Ordering.gt ↦ false | _ ↦ true ]
]

unfoldable pub sort_in : ℕ × Bytes → List (ℕ × Bytes) → List (ℕ × Bytes)
sort_in x [] = x ∷ []
sort_in x (y ∷ ys) = let later = y ∷ sort_in x ys in if before x y then x ∷ y ∷ ys else later

unfoldable pub sort : List (ℕ × Bytes) → List (ℕ × Bytes)
unfolding sort_in
sort [] = []
sort (x ∷ xs) = sort_in x (sort xs)

unfoldable pub evict : List (ℕ × Bytes) → List (Bytes × JobRecord) → List (Bytes × JobRecord)
evict [] jobs = jobs
evict ((t, id) ∷ old) jobs = evict old (NodeMap.remove id jobs)

-- What `reserve` does to a full registry.
unfoldable pub make_room : List (Bytes × JobRecord) → List (Bytes × JobRecord)
unfolding evict sort terminal_jobs
make_room jobs =
    if leb max_jobs (length jobs)
    then evict (take evict_batch (sort (terminal_jobs jobs))) jobs
    else jobs

abbrev pub new_job : ℕ → JobRecord
new_job now = record {
  state = receiving;
  submitted_at_ms = now;
  updated_at_ms = now;
  descriptor = [];
  result = 123 ∷ 125 ∷ crlf;
  error = none;
  cancel_requested = false;
  progress = none;
}

unfoldable pub reserve : ℕ → JobRegistry → Bytes → JobRegistry × Submitted
unfolding make_room is_valid_job_id
reserve now r id =
    if not (is_valid_job_id id)
    then (r, err invalid_id)
    else if is_some (job_at r id)
    then (r, err already_exists)
    else if leb max_jobs (length (make_room r.jobs))
    then (record r { jobs = make_room r.jobs }, err too_many_jobs)
    else (
      record { jobs = NodeMap.insert id (new_job now) (make_room r.jobs); changed = r.changed + 1 },
      ok,
    )
