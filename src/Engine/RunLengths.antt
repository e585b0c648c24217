-- ===== src/Engine/RunLengths.antt =====
-- src/engine.rs, `write_raw_unshared`: the lengths of runs of holes and of chunks.
use vramdisk.Lookup.Key.{Bytes}
use vramdisk.Placement.{Placement, raw}
use vramdisk.Engine.State.{StorageEngine, coord, is_raw}
use vramdisk.Engine.Read.Runs.{raw_is}
use vramdisk.Engine.RawWrite.{is_hole, holes, successors}
use vramdisk.Common.{
  ℕ, zero, suc, ◌+◌, ◌-◌, ◌≤◌, ◌<◌, ◌≡◌, inl, inr, refl, ap, ◌∙◌, arith, Option, none, some, true,
  ◌==◌, Bool-cases, by_true, by_false, ==_iff,
}

hole_is : (p : Option Placement) → is_hole p ≡ true → p ≡ none
hole_is none h = refl
hole_is (some p) h = cc h

module _ (e : StorageEngine) (path : Bytes) where
  -- The holes that `holes` counts.
  abbrev pub AreHoles : ℕ → ℕ → ℕ → Type 0
  AreHoles left lc n = (n ≤ left) × ((l : ℕ) → lc ≤ l → l < lc + n → coord e path l ≡ none)

  pub holes_lem : (left lc : ℕ) → AreHoles left lc (holes left e path lc)
  unfolding holes
  holes_lem zero lc = (omega arith, λ l from below. absurd (omega arith))
  holes_lem (suc left) lc = elim (Bool-cases (is_hole (coord e path lc))) [
    | inl here ↦
        let (short, all) = holes_lem left (lc + 1) in
        by_true (AreHoles (suc left) lc) _ _ _ here (
          omega arith,
          λ l from below. elim (Bool-cases (l == lc)) [
            | inl same ↦ ap (coord e path) ((==_iff l lc).0 same) ∙ hole_is (coord e path lc) here
            | inr other ↦ all l (ground (arith, other)) (omega arith)
          ],
        )
    | inr stop ↦
        by_false (AreHoles (suc left) lc) _ _ _ stop
          (omega arith, λ l from below. absurd (omega arith))
  ]

  -- The chunks that `successors` counts.
  abbrev pub Follow : ℕ → ℕ → ℕ → ℕ → Type 0
  Follow left lc prev n =
      (n ≤ left) × ((t : ℕ) → t < n → coord e path (lc + t) ≡ some (raw (prev + 1 + t)))

  pub successors_lem : (left lc prev : ℕ) → Follow left lc prev (successors left e path lc prev)
  unfolding successors
  successors_lem zero lc prev = (omega arith, λ t lt. absurd (omega arith))
  successors_lem (suc left) lc prev = elim (Bool-cases (is_raw (prev + 1) (coord e path lc))) [
    | inl here ↦
        let (short, all) = successors_lem left (lc + 1) (prev + 1) in
        by_true (Follow (suc left) lc prev) _ _ _ here (
          omega arith,
          λ t lt. elim (Bool-cases (t == 0)) [
            | inl first ↦
                ap (coord e path) (ground (arith, first))
                ∙ raw_is (prev + 1) (coord e path lc) here
                ∙ ap (λ (m : ℕ). some (raw m)) (ground (arith, first))
            | inr later ↦
                ap (coord e path) (ground (arith, later))
                ∙ all (t - 1) (ground (arith, later))
                ∙ ap (λ (m : ℕ). some (raw m)) (ground (arith, later))
          ],
        )
    | inr stop ↦
        by_false (Follow (suc left) lc prev) _ _ _ stop (omega arith, λ t lt. absurd (omega arith))
  ]
