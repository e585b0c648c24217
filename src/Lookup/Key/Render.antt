-- ===== src/Lookup/Key/Render.antt =====
-- Keys as lists of components: what `split` gives back, and what `normalize` writes.
use mathlib.Core.Path.{ap₂}
use mathlib.Core.List.{append_assoc, append-nil}
use vramdisk.Lookup.Key.{
  Bytes, root, is_sep, is_upper, is_kept, to_ascii_lowercase, onto_first, split, kept, encode,
  lower, push_part, push_parts, normalize,
}
use vramdisk.Common.{
  ℕ, ◌<◌, ◌≡◌, inl, inr, refl, sym, ap, ◌∙◌, arith, true, false, List, [], ◌∷◌, ◌++◌, map, ltb,
  length, length-append, All, Bool-cases, lt→ltb,
}

-- Every component behind a separator.
unfoldable pub render_tail : List Bytes → Bytes
render_tail [] = []
render_tail (part ∷ parts) = b'\\' ∷ part ++ render_tail parts

-- The key with these components; that of none is the root.
unfoldable pub render : List Bytes → Bytes
unfolding render_tail
render [] = root
render (part ∷ parts) = render_tail (part ∷ parts)

abbrev pub NoSep : Bytes → Type 0
NoSep = All (λ c. is_sep c ≡ false)

abbrev pub NoUpper : Bytes → Type 0
NoUpper = All (λ c. is_upper c ≡ false)

abbrev pub Ascii : Bytes → Type 0
Ascii = All (λ c. c < 128)

-- A component as a key has it.
pub record IsPart (part : Bytes) : Type 0 where
  pub no_sep : NoSep part
  pub no_upper : NoUpper part
  pub is_kept : is_kept part ≡ true

split-onto :
    (part path : Bytes) (head : Bytes) (rest : List Bytes)
    → NoSep part
    → split path ≡ head ∷ rest
    → split (part ++ path) ≡ (part ++ head) ∷ rest
unfolding split
split-onto [] path head rest h e = e
split-onto (c ∷ part) path head rest h e =
    rw h.0 (ap (onto_first c) (split-onto part path head rest h.1 e))

split-render_tail : (parts : List Bytes) → All NoSep parts → split (render_tail parts) ≡ [] ∷ parts
unfolding split render_tail
split-render_tail [] h = refl
split-render_tail (part ∷ parts) h =
    ap (λ (ps : List Bytes). [] ∷ ps)
      (split-onto part (render_tail parts) [] parts h.0 (split-render_tail parts h.1)
        ∙ ap (λ (p : Bytes). p ∷ parts) (append-nil part))

-- Splitting a key gives its components, after the empty part before its first separator.
pub split-render : (parts : List Bytes) → All NoSep parts → kept (split (render parts)) ≡ kept parts
unfolding kept
split-render [] h = unfold split render in refl
split-render (part ∷ parts) h = unfold render in ap kept (split-render_tail (part ∷ parts) h)

encode-nonempty : (c : ℕ) (rest : Bytes) → 0 < length (encode c ++ rest)
encode-nonempty c rest = elim (Bool-cases (ltb c 128)) [
  | inl low ↦ rw low (omega arith)
  | inr high ↦ rw high (omega arith)
]

lower-nonempty : (part : Bytes) → is_kept part ≡ true → 0 < length (lower part)
unfolding lower
lower-nonempty [] h = cc
lower-nonempty (c ∷ part) h = encode-nonempty (to_ascii_lowercase c) (lower part)

abbrev AllKept : List Bytes → Type 0
AllKept = All (λ p. is_kept p ≡ true)

push_part-inside : (s part : Bytes) → 1 < length s → push_part s part ≡ s ++ b'\\' ∷ lower part
unfolding push_part
push_part-inside s part h = rw (lt→ltb 1 (length s) h) (append_assoc s root (lower part))

push_parts-render_tail :
    (s : Bytes) (parts : List Bytes)
    → 1 < length s
    → AllKept parts
    → push_parts s parts ≡ s ++ render_tail (map lower parts)
unfolding push_parts render_tail
push_parts-render_tail s [] h k = sym (append-nil s)
push_parts-render_tail s (part ∷ parts) h k =
    push_parts-render_tail (push_part s part) parts (rw (push_part-inside s part h) longer) k.1
    ∙ ap (λ (t : Bytes). t ++ render_tail (map lower parts)) (push_part-inside s part h)
    ∙ append_assoc s (b'\\' ∷ lower part) (render_tail (map lower parts))
  where
    longer : 1 < length (s ++ b'\\' ∷ lower part)
    longer = omega (arith, length-append s (b'\\' ∷ lower part))

kept-AllKept : (parts : List Bytes) → AllKept (kept parts)
unfolding kept
kept-AllKept [] = tt
kept-AllKept (part ∷ parts) = elim (Bool-cases (is_kept part)) [
  | inl good ↦ rw good (good, kept-AllKept parts)
  | inr bad ↦ rw bad (kept-AllKept parts)
]

push_root : (parts : List Bytes) → AllKept parts → push_parts root parts ≡ render (map lower parts)
unfolding push_parts push_part render
push_root [] k = refl
push_root (part ∷ parts) k =
    push_parts-render_tail (root ++ lower part) parts (omega (arith, lower-nonempty part k.0)) k.1

-- `normalize` is: split, drop the empty and the `.` parts, lower the rest, and put it together.
pub normalize-render : (path : Bytes) → normalize path ≡ render (map lower (kept (split path)))
unfolding normalize
normalize-render path = push_root (kept (split path)) (kept-AllKept (split path))

lower_plain : (part : Bytes) → Ascii part → NoUpper part → lower part ≡ part
unfolding lower
lower_plain [] a u = refl
lower_plain (c ∷ part) a u =
    rw (u.0, lt→ltb c 128 a.0) (ap (λ (t : Bytes). c ∷ t) (lower_plain part a.1 u.1))

abbrev pub AllParts : List Bytes → Type 0
AllParts = All IsPart

abbrev pub AllAscii : List Bytes → Type 0
AllAscii = All Ascii

AllParts-NoSep : (parts : List Bytes) → AllParts parts → All NoSep parts
AllParts-NoSep [] h = tt
AllParts-NoSep (part ∷ parts) h = (h.0.no_sep, AllParts-NoSep parts h.1)

kept_all : (parts : List Bytes) → AllParts parts → kept parts ≡ parts
unfolding kept
kept_all [] h = refl
kept_all (part ∷ parts) h =
    rw (h.0.is_kept) (ap (λ (ps : List Bytes). part ∷ ps) (kept_all parts h.1))

lower_all : (parts : List Bytes) → AllParts parts → AllAscii parts → map lower parts ≡ parts
lower_all [] h a = refl
lower_all (part ∷ parts) h a =
    ap₂ (λ (p : Bytes) (ps : List Bytes). p ∷ ps) (lower_plain part a.0 h.0.no_upper)
      (lower_all parts h.1 a.1)

pub kept-split-render : (parts : List Bytes) → AllParts parts → kept (split (render parts)) ≡ parts
kept-split-render parts h = split-render parts (AllParts-NoSep parts h) ∙ kept_all parts h

-- A key of ASCII components is its own normal form.
pub normalize_fixed :
    (parts : List Bytes) → AllParts parts → AllAscii parts → normalize (render parts) ≡ render parts
normalize_fixed parts h a =
    normalize-render (render parts)
    ∙ ap (λ (ps : List Bytes). render (map lower ps)) (kept-split-render parts h)
    ∙ ap render (lower_all parts h a)
