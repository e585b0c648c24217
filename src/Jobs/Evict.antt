-- ===== src/Jobs/Evict.antt =====
-- `make_room`: the part of `reserve` that evicts the jobs that have been over for longest.
use vramdisk.Lookup.Key.{Bytes}
use vramdisk.Lookup.NodeMap.{bytes_eq, is_some}
use vramdisk.Lookup.NodeMap
use vramdisk.Lookup.NodeMap.Laws.{get-remove, bytes_eq_refl, eq_of_bytes_eq}
use vramdisk.Lookup.NodeMap.Distinct.{Distinct}
use vramdisk.Jobs.Text.{is_terminal}
use vramdisk.Jobs.Registry.{
  JobRegistry, JobRecord, max_jobs, evict_batch, terminal_jobs, before, sort_in, sort, evict,
  make_room,
}
use vramdisk.Common.{
  ℕ, zero, suc, ◌≤◌, ◌<◌, ◌≡◌, ◌≢◌, ◌⊎◌, inl, inr, refl, sym, ap, ◌∙◌, arith, List, [], ◌∷◌, some,
  true, false, leb, if◌then◌else◌, length, take, Bool-cases, All,
}

pub record IsValid (r : JobRegistry) : Type 0 where
  pub distinct : Distinct r.jobs
  pub bounded : length r.jobs ≤ max_jobs

length-remove :
    (id : Bytes) (m : List (Bytes × JobRecord)) → length (NodeMap.remove id m) ≤ length m
unfolding NodeMap.remove
length-remove id [] = omega arith
length-remove id ((i, j) ∷ m) = ground (arith, length-remove id m)

length-remove_found :
    (id : Bytes) (m : List (Bytes × JobRecord)) (job : JobRecord)
    → NodeMap.get id m ≡ some job
    → length (NodeMap.remove id m) < length m
unfolding NodeMap.remove NodeMap.get
length-remove_found id [] job e = cc
length-remove_found id ((i, j) ∷ m) job e = elim (Bool-cases (bytes_eq i id)) [
  | inl here ↦ rw here (omega (arith, length-remove id m))
  | inr other ↦ rw other (omega (arith, length-remove_found id m job (rw other at e)))
]

-- The entry is a job of the map that is over.
record IsOver (m : List (Bytes × JobRecord)) (x : ℕ × Bytes) : Type 0 where
  job : JobRecord
  at : NodeMap.get (x.1) m ≡ some job
  over : is_terminal job.state ≡ true

terminal-IsOver :
    (full m : List (Bytes × JobRecord))
    → Distinct m
    → ((k : Bytes) (job : JobRecord) → NodeMap.get k m ≡ some job → NodeMap.get k full ≡ some job)
    → All (IsOver full) (terminal_jobs m)
unfolding terminal_jobs NodeMap.get
terminal-IsOver full [] d sub = tt
terminal-IsOver full ((id, job) ∷ m) d sub =
    let rest = terminal-IsOver full m d.1 (λ k j e. sub k j (later k j e)) in
    elim (Bool-cases (is_terminal job.state)) [
      | inl over ↦ rw over (record { job = job; at = sub id job first; over = over }, rest)
      | inr going ↦ rw going rest
    ]
  where
    first : (if bytes_eq id id then some job else NodeMap.get id m) ≡ some job
    first = rw (bytes_eq_refl id) refl

    later :
        (k : Bytes) (j : JobRecord)
        → NodeMap.get k m ≡ some j
        → (if bytes_eq id k then some job else NodeMap.get k m) ≡ some j
    later k j e = elim (Bool-cases (bytes_eq id k)) [
      | inl same ↦ cc (d.0, e, ap (λ (i : Bytes). NodeMap.get i m) (eq_of_bytes_eq id k same))
      | inr other ↦ rw other e
    ]

module _ (P : ℕ × Bytes → Type 0) where
  All-sort_in : (x : ℕ × Bytes) (xs : List (ℕ × Bytes)) → P x → All P xs → All P (sort_in x xs)
  unfolding sort_in
  All-sort_in x [] p h = (p, tt)
  All-sort_in x (y ∷ ys) p h = elim (Bool-cases (before x y)) [
    | inl first ↦ rw first (p, h)
    | inr later ↦ rw later (h.0, All-sort_in x ys p h.1)
  ]

  All-sort : (xs : List (ℕ × Bytes)) → All P xs → All P (sort xs)
  unfolding sort
  All-sort [] h = tt
  All-sort (x ∷ xs) h = All-sort_in x (sort xs) h.0 (All-sort xs h.1)

  All-take : (n : ℕ) (xs : List (ℕ × Bytes)) → All P xs → All P (take n xs)
  All-take zero xs h = tt
  All-take (suc n) [] h = tt
  All-take (suc n) (x ∷ xs) h = (h.0, All-take n xs h.1)

get-evict :
    (old : List (ℕ × Bytes)) (m : List (Bytes × JobRecord)) (k : Bytes)
    → All (λ x. bytes_eq x.1 k ≡ false) old
    → NodeMap.get k (evict old m) ≡ NodeMap.get k m
unfolding evict
get-evict [] m k h = refl
get-evict ((t, id) ∷ old) m k h =
    get-evict old (NodeMap.remove id m) k h.1 ∙ get-remove id k m ∙ rw (h.0) refl

length-evict :
    (old : List (ℕ × Bytes)) (m : List (Bytes × JobRecord)) → length (evict old m) ≤ length m
unfolding evict
length-evict [] m = omega arith
length-evict ((t, id) ∷ old) m =
    omega (arith, length-evict old (NodeMap.remove id m), length-remove id m)

length-evict_some :
    (n : ℕ) (xs : List (ℕ × Bytes)) (m : List (Bytes × JobRecord))
    → 0 < n
    → All (IsOver m) xs
    → xs ≢ []
    → length (evict (take n xs) m) < length m
unfolding evict
length-evict_some zero xs m pos h ne = elim pos [ ]
length-evict_some (suc n) [] m pos h ne = absurd (ne refl)
length-evict_some (suc n) ((t, id) ∷ xs) m pos h ne =
    omega (
      arith,
      length-evict (take n xs) (NodeMap.remove id m),
      length-remove_found id m h.0.job h.0.at,
    )

-- The jobs that `make_room` removes are over.
evicted-IsOver :
    (m : List (Bytes × JobRecord)) → Distinct m → All (IsOver m) (sort (terminal_jobs m))
evicted-IsOver m d = All-sort (IsOver m) (terminal_jobs m) (terminal-IsOver m m d (λ k job e. e))

spared :
    (m : List (Bytes × JobRecord)) (k : Bytes) (job : JobRecord) (old : List (ℕ × Bytes))
    → NodeMap.get k m ≡ some job
    → is_terminal job.state ≡ false
    → All (IsOver m) old
    → All (λ x. bytes_eq x.1 k ≡ false) old
spared m k job [] at going h = tt
spared m k job (x ∷ old) at going h = (different, spared m k job old at going h.1)
  where
    different : bytes_eq x.1 k ≡ false
    different = elim (Bool-cases (bytes_eq x.1 k)) [
      | inr e ↦ e
      | inl e ↦
          let found : NodeMap.get k m ≡ some h.0.job =
            ap (λ (i : Bytes). NodeMap.get i m) (sym (eq_of_bytes_eq x.1 k e)) ∙ h.0.at in
          let same : h.0.job ≡ job = cc (found, at) in
          cc (ap (λ (j : JobRecord). is_terminal j.state) same, h.0.over, going)
    ]

pub make_room-keeps :
    (m : List (Bytes × JobRecord)) (k : Bytes) (job : JobRecord)
    → Distinct m
    → NodeMap.get k m ≡ some job
    → is_terminal job.state ≡ false
    → NodeMap.get k (make_room m) ≡ some job
unfolding make_room
make_room-keeps m k job d at going = elim (Bool-cases (leb max_jobs (length m))) [
  | inr room ↦ rw room at
  | inl full ↦ rw full (
      get-evict (take evict_batch (sort (terminal_jobs m))) m k
        (spared m k job _ at going (All-take (IsOver m) evict_batch _ (evicted-IsOver m d)))
      ∙ at)
]

abbrev pub AllGoing : List (Bytes × JobRecord) → Type 0
AllGoing = All (λ e. is_terminal (e.1).state ≡ false)

pub none_over : (m : List (Bytes × JobRecord)) → terminal_jobs m ≡ [] → AllGoing m
unfolding terminal_jobs
none_over [] e = tt
none_over ((id, job) ∷ m) e = elim (Bool-cases (is_terminal job.state)) [
  | inl over ↦ cc (rw over at e)
  | inr going ↦ (going, none_over m (rw going at e))
]

pub make_room_going : (m : List (Bytes × JobRecord)) → terminal_jobs m ≡ [] → make_room m ≡ m
unfolding make_room sort evict
make_room_going m e = rw e (ground arith)

sort_in_some : (x : ℕ × Bytes) (xs : List (ℕ × Bytes)) → sort_in x xs ≢ []
unfolding sort_in
sort_in_some x [] = λ e. cc
sort_in_some x (y ∷ ys) = elim (Bool-cases (before x y)) [
  | inl first ↦ rw first (λ e. cc)
  | inr later ↦ rw later (λ e. cc)
]

pub list_cases : (xs : List (ℕ × Bytes)) → (xs ≡ []) ⊎ (sort xs ≢ [])
unfolding sort
list_cases [] = inl refl
list_cases (x ∷ xs) = inr (sort_in_some x (sort xs))

pub make_room_less :
    (m : List (Bytes × JobRecord))
    → Distinct m
    → length m ≤ max_jobs
    → sort (terminal_jobs m) ≢ []
    → length (make_room m) < max_jobs
unfolding make_room
make_room_less m d bound ne = ground (
  arith,
  length-evict_some evict_batch (sort (terminal_jobs m)) m (omega arith) (evicted-IsOver m d) ne,
)
