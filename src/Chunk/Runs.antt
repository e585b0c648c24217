-- ===== src/Chunk/Runs.antt =====
-- The search for a run, chunk by chunk: what the search over whole words is compared with.
use vramdisk.Common.{
  ℕ, zero, suc, ◌+◌, ◌≤◌, ◌<◌, ◌≡◌, ◌≢◌, ◌⊎◌, inl, inr, refl, arith, ◌==◌, if◌then◌else◌,
  Bool-cases, ==_iff, dec_lt, ℕ_discrete, leb,
}
use vramdisk.Chunk.{Scan, found, going}

-- `rounds` chunks from `p` on, with the run so far; `used p` is 1 where chunk `p` is taken.
unfoldable pub first_run : ℕ → (ℕ → ℕ) → ℕ → ℕ → ℕ → ℕ → Scan
first_run count used zero p run_start run_len = going run_start run_len
first_run count used (suc rounds) p run_start run_len =
    let restart = first_run count used rounds (p + 1) run_start 0 in
    let start = if run_len == 0 then p else run_start in
    let rest = first_run count used rounds (p + 1) start (run_len + 1) in
    if used p == 1 then restart else if run_len + 1 == count then found start else rest

-- Two stretches one after the other are one stretch.
unfoldable pub resume : ℕ → (ℕ → ℕ) → ℕ → ℕ → Scan → Scan
resume count used rounds p (found s) = found s
resume count used rounds p (going s l) = first_run count used rounds p s l

pub first_run-add :
    (count : ℕ) (used : ℕ → ℕ) (n m p s l : ℕ) (total q : ℕ)
    → total ≡ n + m
    → q ≡ p + n
    → first_run count used total p s l ≡ resume count used m q (first_run count used n p s l)
unfolding first_run resume
first_run-add count used zero m p s l total q e e' =
    let t : total ≡ m = omega arith in let p' : q ≡ p = omega arith in rw (t, p') refl
first_run-add count used (suc n) m p s l zero q e e' = absurd (omega arith)
first_run-add count used (suc n) m p s l (suc total) q e e' = ground (
  arith,
  first_run-add count used n m (p + 1) s 0 total q (omega arith) (omega arith),
  first_run-add count used n m (p + 1) (if l == 0 then p else s) (l + 1) total q (omega arith)
      (omega arith),
)

-- The run so far: the `l` chunks before `p` are free, and the one before them is where it starts.
pub record RunSoFar (count : ℕ) (used : ℕ → ℕ) (p s l : ℕ) : Type 0 where
  pub short : l < count
  pub back : l ≤ p
  pub start : (l ≡ 0) ⊎ (s + l ≡ p)
  pub is_free : (c : ℕ) → p ≤ c + l → c < p → used c ≢ 1

module _ {count : ℕ} {used : ℕ → ℕ} {p s l : ℕ} (i : RunSoFar count used p s l) where
  run_start : (if l == 0 then p else s) + l ≡ p
  run_start = ground (arith, i.start)

  run_free : used p ≢ 1 → (c : ℕ) → p ≤ c + l → c < p + 1 → used c ≢ 1
  run_free is_open c lo hi = elim (ℕ_discrete c p) [
    | yes here ↦ rw here is_open
    | no before ↦ i.is_free c lo (omega arith)
  ]

  restarted : used p ≡ 1 → RunSoFar count used (p + 1) s 0
  restarted taken = record {
    short = omega (arith, i.short);
    back = omega arith;
    start = inl refl;
    is_free = λ c lo hi. absurd (omega arith);
  }

  longer :
      used p ≢ 1 → l + 1 ≢ count → RunSoFar count used (p + 1) (if l == 0 then p else s) (l + 1)
  longer is_open more = record {
    short = omega (arith, i.short);
    back = omega (arith, i.back);
    start = inr (omega (arith, run_start));
    is_free = λ c lo hi. run_free is_open c (omega arith) hi;
  }

-- A run that is found is free, has the length asked for, and lies before the end of the search.
pub first_run-found :
    (count : ℕ) (used : ℕ → ℕ) (n p s l r : ℕ)
    → RunSoFar count used p s l
    → first_run count used n p s l ≡ found r
    → (r + count ≤ p + n) × ((c : ℕ) → r ≤ c → c < r + count → used c ≢ 1)
unfolding first_run
first_run-found count used zero p s l r i e = cc
first_run-found count used (suc n) p s l r i e = elim (Bool-cases (used p == 1)) [
  | inl taken ↦
      let (a, b) =
        first_run-found count used n (p + 1) s 0 r (restarted i ((==_iff _ _).0 taken))
          (rw taken at e) in
      (omega arith, b)
  | inr is_open ↦
      let is_open' : used p ≢ 1 = ground arith in
      let e' = rw is_open at e in
      elim (Bool-cases (l + 1 == count)) [
        | inl last ↦
            let at_start : (if l == 0 then p else s) ≡ r = cc (rw last at e') in
            let full : l + 1 ≡ count = (==_iff _ _).0 last in
            (
              omega (arith, run_start i),
              λ c lo hi.
                  run_free i is_open' c (omega (arith, run_start i)) (omega (arith, run_start i)),
            )
        | inr more ↦
            let (a, b) =
              first_run-found count used n (p + 1) (if l == 0 then p else s) (l + 1) r
                (longer i is_open' (ground arith)) (rw more at e') in
            (omega arith, b)
      ]
]

-- A search that finds nothing has met a used chunk in every stretch of that length.
pub first_run-going :
    (count : ℕ) (used : ℕ → ℕ) (n p s l s' l' r : ℕ)
    → RunSoFar count used p s l
    → first_run count used n p s l ≡ going s' l'
    → p ≤ r + l
    → r + count ≤ p + n
    → ¬ ((c : ℕ) → r ≤ c → c < r + count → used c ≢ 1)
unfolding first_run
first_run-going count used zero p s l s' l' r i e lo hi all_free = absurd (omega (arith, i.short))
first_run-going count used (suc n) p s l s' l' r i e lo hi all_free =
    elim (Bool-cases (used p == 1)) [
      | inl taken ↦ elim (dec_lt p r) [
        | yes after ↦
            first_run-going count used n (p + 1) s 0 s' l' r (restarted i ((==_iff _ _).0 taken))
              (rw taken at e) (omega arith) (omega arith) all_free
        | no around ↦ all_free p (omega arith) (omega (arith, i.short)) ((==_iff _ _).0 taken)
      ]
      | inr is_open ↦
          let is_open' : used p ≢ 1 = ground arith in
          let e' = rw is_open at e in
          elim (Bool-cases (l + 1 == count)) [
            | inl last ↦ cc (rw last at e')
            | inr more ↦
                first_run-going count used n (p + 1) (if l == 0 then p else s) (l + 1) s' l' r
                  (longer i is_open' (ground arith)) (rw more at e') (omega arith) (omega arith)
                  all_free
          ]
    ]

pub first_run-short :
    (count : ℕ) (used : ℕ → ℕ) (n p s l s' l' : ℕ)
    → l < count
    → first_run count used n p s l ≡ going s' l'
    → l' < count
unfolding first_run
first_run-short count used zero p s l s' l' h e = ground arith
first_run-short count used (suc n) p s l s' l' h e = ground (
  arith,
  first_run-short count used n (p + 1) s 0 s' l',
  first_run-short count used n (p + 1) (if l == 0 then p else s) (l + 1) s' l',
)

-- A stretch of used chunks ends the run.
pub first_run-used :
    (count : ℕ) (used : ℕ → ℕ) (n p s l : ℕ)
    → ((c : ℕ) → p ≤ c → c < p + suc n → used c ≡ 1)
    → first_run count used (suc n) p s l ≡ going s 0
unfolding first_run
first_run-used count used zero p s l h = rw (h p (omega arith) (omega arith)) refl
first_run-used count used (suc n) p s l h =
    rw (h p (omega arith) (omega arith))
      (first_run-used count used n (p + 1) s 0 (λ c lo hi. h c (omega arith) (omega arith)))

-- A stretch of free chunks makes the run longer, or completes it.
pub first_run-free :
    (count : ℕ) (used : ℕ → ℕ) (n p s l : ℕ)
    → l < count
    → ((c : ℕ) → p ≤ c → c < p + suc n → used c ≡ 0)
    → first_run count used (suc n) p s l ≡ (
        let start = if l == 0 then p else s in
        if leb count (l + suc n) then found start else going start (l + suc n))
unfolding first_run
first_run-free count used zero p s l h z = ground (arith, z p (omega arith) (omega arith))
first_run-free count used (suc n) p s l h z =
    let rest : (c : ℕ) → p + 1 ≤ c → c < p + 1 + suc n → used c ≡ 0 =
      λ c lo hi. z c (omega arith) (omega arith) in
    rw (z p (omega arith) (omega arith)) (elim (ℕ_discrete (l + 1) count) [
      | yes done ↦ ground arith
      | no more ↦
          let ih =
            first_run-free count used n (p + 1) (if l == 0 then p else s) (l + 1) (omega arith)
              rest in
          ground (arith, ih)
    ])
