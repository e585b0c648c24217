-- ===== src/Engine/Read/Splice.antt =====
-- `splice`, the length and the bytes of its result.
use vramdisk.Lookup.Key.{Bytes}
use vramdisk.Engine.Store.{splice}
use vramdisk.Common.{
  ℕ, ◌+◌, ◌-◌, ◌≤◌, ◌≡◌, inl, inr, ◌∙◌, arith, ◌++◌, ltb, leb, ◌&&◌, Bool-cases, if◌then◌else◌,
  length, get_or, take, drop, length-append, length-take, length-drop, get_or-take, get_or-drop,
  get_or-left, get_or-right,
}

module _ (at : ℕ) (part whole : Bytes) (h : at + length part ≤ length whole) where
  pub length-splice : length (splice at part whole) ≡ length whole
  unfolding splice
  length-splice = omega (
    arith,
    length-append (take at whole) (part ++ drop (at + length part) whole),
    length-append part (drop (at + length part) whole),
    length-take at whole,
    length-drop (at + length part) whole,
  )

  -- `splice` by the byte.
  pub get_or-splice :
      (i : ℕ)
      → get_or (splice at part whole) i 0 ≡ (
          if leb at i && ltb i (at + length part) then get_or part (i - at) 0 else get_or whole i 0)
  unfolding splice
  get_or-splice i = elim (Bool-cases (leb at i)) [
    | inl ge ↦ elim (Bool-cases (ltb i (at + length part))) [
      | inl lt ↦
          past i (ground (arith, ge))
          ∙ get_or-left part rest (i - at) 0 (ground (arith, ge, lt))
          ∙ ground (arith, ge, lt)
      | inr over ↦
          past i (ground (arith, ge))
          ∙ get_or-right part rest (i - (at + length part)) (i - at) 0 (ground (arith, ge, over))
          ∙ get_or-drop (at + length part) whole (i - (at + length part)) i 0 (ground (arith, over))
          ∙ ground (arith, ge, over)
    ]
    | inr before ↦
        get_or-left (take at whole) (part ++ rest) i 0
          (ground (arith, length-take at whole, before))
        ∙ get_or-take at whole i 0 (ground (arith, before))
        ∙ ground (arith, before)
  ]
    where
      rest : Bytes
      rest = drop (at + length part) whole

      past :
          (i : ℕ)
          → at ≤ i
          → get_or (take at whole ++ (part ++ rest)) i 0 ≡ get_or (part ++ rest) (i - at) 0
      past i ge =
          get_or-right (take at whole) (part ++ rest) (i - at) i 0
            (omega (arith, length-take at whole))
