-- ===== src/Engine/RawRounds.antt =====
-- src/engine.rs, `write_raw_unshared`: the loop over the whole chunks of a write, on engines without
-- dedup, against the view of `Engine.Contents`.
use vramdisk.Lookup.Key.{Bytes, normalize_key}
use vramdisk.Lookup.Table.{Node, node_at}
use vramdisk.Placement.{raw}
use vramdisk.Units.{chunk_size}
use vramdisk.Chunk.{free}
use vramdisk.Engine.Result.{EResult, ok, err, no_space}
use vramdisk.Engine.Vram.{Vram, write_at_inside}
use vramdisk.Engine.State.{StorageEngine, Outcome, and_then, on_vram, coord}
use vramdisk.Engine.Store.{Done}
use vramdisk.Engine.Refs.{placement_at, le-refs}
use vramdisk.Engine.Nodes.{bare_at-found, length-bare}
use vramdisk.Engine.Contents.{IsPlain, coord_lem, placement_cases}
use vramdisk.Engine.Laying.{Lays, Lays-trans, nothing-Lays}
use vramdisk.Engine.RunWrites.{part, length-part, fill_holes_lem}
use vramdisk.Engine.RunOver.{over, over-Lays}
use vramdisk.Engine.RunLengths.{holes_lem, successors_lem}
use vramdisk.Engine.Stored.{Stored}
use vramdisk.Engine.RawWrite.{holes, successors, raw_round, raw_rounds}
use vramdisk.Common.{
  ℕ, zero, suc, ◌+◌, ◌-◌, ◌*◌, ◌≤◌, ◌<◌, ◌≡◌, ◌⊎◌, inl, inr, refl, sym, ap, ◌∙◌, subst, arith, none,
  some, false, ◌==◌, length, get_or, drop, length-drop, get_or-drop, Bool-cases, by_true, by_false,
  ==_iff,
}

module _ (e : StorageEngine) (v : IsPlain e) (plain : e.dedup ≡ false) (path : Bytes) (lc n : ℕ)
    (rest : Bytes) (new : ℕ → ℕ) (some_left : 0 < n) (enough : n * chunk_size ≤ length rest)
    (same : (i : ℕ) → i < n * chunk_size → get_or rest i 0 ≡ new (lc * chunk_size + i)) (m : Node)
    (found : node_at e.table (normalize_key path) ≡ some m) (room : lc + n ≤ length m.coords) where
  -- What one round comes to.
  abbrev Rounded : Outcome ℕ → Type 0
  Rounded o =
      ((o ≡ (e, err no_space)) × (free e.alloc ≡ 0))
      ⊎ ((e' : StorageEngine) × (got : ℕ) × (o ≡ (e', ok got))
          × (0 < got)
          × (got ≤ n)
          × Lays e (normalize_key path) (lc * chunk_size) (got * chunk_size) new e')

  hole_round : coord e path lc ≡ none → Rounded (raw_round e path lc n rest)
  unfolding raw_round
  hole_round hole =
      let count = holes (n - 1) e path (lc + 1) + 1 in
      let (short, all) = holes_lem e path (n - 1) (lc + 1) in
      rw (hole, raw_round)
        (elim (fill_holes_lem e v plain path lc count rest new (omega (arith, short, enough))
          (λ i low. same i (omega (arith, short, some_left))) (omega arith) m found
          (omega (arith, short, some_left))
          (λ l from below.
            sym (coord_lem e path l) ∙ hole_at l (all l) from (omega (arith, below)))) [
              | inl failed ↦ inl failed
              | inr (e', got, q, pos, less, y) ↦
                  inr (e', got, q, pos, omega (arith, short, some_left), y)
            ])
    where
      hole_at :
          (l : ℕ)
          → (lc + 1 ≤ l → l < lc + 1 + holes (n - 1) e path (lc + 1) → coord e path l ≡ none)
          → lc ≤ l
          → l < lc + (holes (n - 1) e path (lc + 1) + 1)
          → coord e path l ≡ none
      hole_at l h from below = elim (Bool-cases (l == lc)) [
        | inl here ↦ ap (coord e path) ((==_iff l lc).0 here) ∙ hole
        | inr other ↦ h (ground (arith, other)) (omega arith)
      ]

  run_round : (c : ℕ) → coord e path lc ≡ some (raw c) → Rounded (raw_round e path lc n rest)
  unfolding raw_round
  run_round c here =
      let count = successors (n - 1) e path (lc + 1) c + 1 in
      let (short, all) = successors_lem e path (n - 1) (lc + 1) c in
      let le : count ≤ n = omega (arith, short, some_left) in
      let run : (t : ℕ)
          → t < count
          → placement_at e.table (normalize_key path) (lc + t) ≡ some (raw (c + t)) =
        λ t lt.
          sym (coord_lem e path (lc + t)) ∙ run_at count t (all (t - 1)) (omega (arith, lt)) in
      let size = length-part e v plain path lc n rest new enough same count le in
      let last = run (count - 1) (omega arith) in
      rw (here, raw_round)
        (inr (
          over e v plain path lc n rest new enough same c count le (omega arith) run,
          count,
          ap (written_run count) (
              write_at_inside e.vram (c * chunk_size)
                (part e v plain path lc n rest new enough same count) (omega (arith, size))
                (run_fits (count - 1) (part e v plain path lc n rest new enough same count)
                  (omega (arith, size)) last)),
          omega arith,
          le,
          over-Lays e v plain path lc n rest new enough same c count le (omega arith) run,
        ))
    where
      run_fits :
          (count : ℕ) (bytes : Bytes)
          → length bytes ≡ (count + 1) * chunk_size
          → placement_at e.table (normalize_key path) (lc + count) ≡ some (raw (c + count))
          → c * chunk_size + length bytes ≤ e.vram.size
      run_fits count bytes size last =
          let one = le-refs e.table (c + count) (normalize_key path) (lc + count) last in
          let below : c + count < e.alloc.total =
            ground (arith, one, v.accounts.beyond (c + count)) in
          omega (arith, size, below, v.accounts.fits)

      written_run : ℕ → EResult Vram → Outcome ℕ
      written_run count w = and_then (on_vram e w) (λ b u. (b, ok count))

      run_at :
          (count t : ℕ)
          → (t - 1 < successors (n - 1) e path (lc + 1) c
              → coord e path (lc + 1 + (t - 1)) ≡ some (raw (c + 1 + (t - 1))))
          → t < successors (n - 1) e path (lc + 1) c + 1
          → coord e path (lc + t) ≡ some (raw (c + t))
      run_at count t h lt = elim (Bool-cases (t == 0)) [
        | inl first ↦
            ap (coord e path) (ground (arith, first))
            ∙ here
            ∙ ap (λ (d : ℕ). some (raw d)) (ground (arith, first))
        | inr later ↦
            ap (coord e path) (ground (arith, later))
            ∙ h (ground (arith, later))
            ∙ ap (λ (d : ℕ). some (raw d)) (ground (arith, later))
      ]

  raw_round_lem : Rounded (raw_round e path lc n rest)
  raw_round_lem = elim (placement_cases e v (normalize_key path) lc) [
    | inl hole ↦ hole_round (coord_lem e path lc ∙ hole)
    | inr (c, q, below, live) ↦ run_round c (coord_lem e path lc ∙ q)
  ]

module _ (path : Bytes) where
  abbrev next : ℕ → ℕ → ℕ → Bytes → Outcome ℕ → Outcome Done
  unfolding raw_rounds
  next fuel lc n rest o =
      and_then o (λ a count.
        raw_rounds fuel a path (lc + count) (n - count) (drop (count * chunk_size) rest))

  none_left :
      (e : StorageEngine)
      → IsPlain e
      → (lc n : ℕ) (new : ℕ → ℕ) → n ≡ 0
      → Lays e (normalize_key path) (lc * chunk_size) (n * chunk_size) new e
  none_left e v lc n new zero_left =
      subst (λ c. Lays e (normalize_key path) (lc * chunk_size) c new e) (omega (arith, zero_left))
        (nothing-Lays e (normalize_key path) (lc * chunk_size) new v)

  further :
      (e a b : StorageEngine) (lc got r : ℕ) (new : ℕ → ℕ)
      → Lays a (normalize_key path) ((lc + got) * chunk_size) r new b
      → Lays a (normalize_key path) (lc * chunk_size + got * chunk_size) r new b
  further e a b lc got r new y = subst (λ p. Lays a (normalize_key path) p r new b) (omega arith) y

  pub raw_rounds_lem :
      (fuel : ℕ) (e : StorageEngine)
      → IsPlain e
      → e.dedup ≡ false
      → (lc n : ℕ) → n ≤ fuel
      → (rest : Bytes) (new : ℕ → ℕ) → n * chunk_size ≤ length rest
      → ((i : ℕ) → i < n * chunk_size → get_or rest i 0 ≡ new (lc * chunk_size + i))
      → (m : Node) → node_at e.table (normalize_key path) ≡ some m
      → lc + n ≤ length m.coords
      → Stored e
          (normalize_key path)
          (lc * chunk_size)
          (n * chunk_size)
          new
          (raw_rounds fuel e path lc n rest)
  unfolding raw_rounds
  raw_rounds_lem zero e v plain lc n le rest new enough same m found room =
      inr (e, refl, none_left e v lc n new (omega arith))
  raw_rounds_lem (suc fuel) e v plain lc n le rest new enough same m found room =
      elim (Bool-cases (n == 0)) [
        | inl done ↦
            by_true (Stored e (normalize_key path) (lc * chunk_size) (n * chunk_size) new) _ _ _
              done (inr (e, refl, none_left e v lc n new ((==_iff n 0).0 done)))
        | inr more ↦
            by_false (Stored e (normalize_key path) (lc * chunk_size) (n * chunk_size) new) _ _ _
              more
              (elim (raw_round_lem e v plain path lc n rest new (ground (arith, more)) enough same m
                found room) [
                  | inl (q, full) ↦ inl (
                    e,
                    0,
                    ap (next fuel lc n rest) q,
                    ground (arith, more),
                    full,
                    nothing-Lays e (normalize_key path) (lc * chunk_size) new v,
                  )
                  | inr (a, got, q, pos, short, y) ↦
                      let (m', there, alike) =
                        bare_at-found e.table a.table (normalize_key path) m
                          (y.nodes (normalize_key path)) found in
                      elim (raw_rounds_lem fuel a y.plain (y.mode.dedup ∙ plain) (lc + got)
                        (n - got) (omega arith) (drop (got * chunk_size) rest) new
                        (omega (arith, length-drop (got * chunk_size) rest))
                        (λ i low.
                          get_or-drop (got * chunk_size) rest i (got * chunk_size + i) 0 refl
                          ∙ same (got * chunk_size + i) (omega (arith, short))
                          ∙ ap new (omega arith))
                        m' there (omega (arith, length-bare m' m alike))) [
                          | inl (b, r, stop, less, full, y') ↦ inl (
                            b,
                            got * chunk_size + r,
                            ap (next fuel lc n rest) q ∙ stop,
                            omega (arith, less, short),
                            full,
                            Lays-trans e a b (normalize_key path) (lc * chunk_size) _ r new y
                                (further e a b lc got _ new y'),
                          )
                          | inr (b, stop, y') ↦ inr (
                            b,
                            ap (next fuel lc n rest) q ∙ stop,
                            subst (λ c. Lays e (normalize_key path) (lc * chunk_size) c new b)
                                (omega (arith, short))
                                (Lays-trans e a b (normalize_key path) (lc * chunk_size) _ _ new y
                                  (further e a b lc got _ new y')),
                          )
                        ]
                ])
      ]
