-- ===== src/Lookup/Key/Scan.antt =====
-- The one-pass test `is_normalized` accepts exactly the keys of proper components.
use mathlib.Core.Path.{ap₂}
use vramdisk.Lookup.Key.{
  Bytes, is_sep, is_upper, is_blank, is_kept, not_dot, scan_key, ends_in_sep, is_normalized,
}
use vramdisk.Lookup.Key.Render.{render_tail, render, NoSep, NoUpper, AllParts}
use vramdisk.Common.{
  ℕ, ◌≡◌, ◌≢◌, ◌⊎◌, inl, inr, refl, sym, ap, ◌∙◌, subst, arith, Bool, true, false, ◌&&◌, List, [],
  ◌∷◌, ◌++◌, ◌==◌, if◌then◌else◌, ==_iff,
}

-- What is still wanted of the component that the loop stands in: at its start, a component that is
-- not `.`; after a lone `.`, at least one byte more; else nothing.
abbrev Wanted : Bool → ℕ → Bytes → Type 0
Wanted true dot_run part = is_kept part ≡ true
Wanted false dot_run part = dot_run ≡ 1 → is_blank part ≡ false

-- The rest of a key inside a component: the rest of that component, and further components.
record Rest (prev_sep : Bool) (dot_run : ℕ) (rest : Bytes) : Type 0 where
  part : Bytes
  parts : List Bytes
  reads : rest ≡ part ++ render_tail parts
  no_sep : NoSep part
  no_upper : NoUpper part
  wanted : Wanted prev_sep dot_run part
  others : AllParts parts

abbrev EndsWell : Bool → Bytes → Type 0
EndsWell prev_sep [] = prev_sep ≡ false
EndsWell prev_sep (c ∷ rest) = ends_in_sep (c ∷ rest) ≡ false

EndsWell-step : (c : ℕ) (rest : Bytes) → ends_in_sep (c ∷ rest) ≡ false → EndsWell (c == b'\\') rest
unfolding ends_in_sep
EndsWell-step c [] h = h
EndsWell-step c (d ∷ rest) h = h

wanted-start :
    (c : ℕ) (part : Bytes)
    → ((if c == b'.' then 1 else not_dot) ≡ 1 → is_blank part ≡ false)
    → is_kept (c ∷ part) ≡ true
wanted-start c [] w = ground (arith)
wanted-start c (d ∷ part) w = refl

Rest-cons :
    (prev_sep : Bool) (dot_run c : ℕ) (rest : Bytes)
    → is_sep c ≡ false
    → is_upper c ≡ false
    → Rest false (if c == b'.' && prev_sep then 1 else not_dot) rest
    → Rest prev_sep dot_run (c ∷ rest)
Rest-cons prev_sep dot_run c rest s u r = record {
  part = c ∷ r.part;
  parts = r.parts;
  reads = ap (λ (t : Bytes). c ∷ t) r.reads;
  no_sep = (s, r.no_sep);
  no_upper = (u, r.no_upper);
  wanted = want prev_sep r.wanted;
  others = r.others;
}
  where
    want :
        (prev_sep : Bool)
        → ((if c == b'.' && prev_sep then 1 else not_dot) ≡ 1 → is_blank r.part ≡ false)
        → Wanted prev_sep dot_run (c ∷ r.part)
    want true w = wanted-start c r.part (λ e. w (ground (arith, e)))
    want false w = λ e. refl

Rest-sep :
    (dot_run : ℕ) (rest : Bytes)
    → (dot_run ≢ 1)
    → Rest true 0 rest
    → Rest false dot_run (b'\\' ∷ rest)
unfolding render_tail
Rest-sep dot_run rest d r = record {
  part = [];
  parts = r.part ∷ r.parts;
  reads = ap (λ (t : Bytes). b'\\' ∷ t) r.reads;
  no_sep = tt;
  no_upper = tt;
  wanted = λ e. absurd (d e);
  others = (record { no_sep = r.no_sep; no_upper = r.no_upper; is_kept = r.wanted }, r.others);
}

-- One byte of the loop, by its kind.
scan_key_cases :
    (prev_sep : Bool) (dot_run c : ℕ) (rest : Bytes)
    → scan_key prev_sep dot_run (c ∷ rest) ≡ true
    → (((c == b'\\') ≡ true) × (prev_sep ≡ false) × (dot_run ≢ 1) × (scan_key true 0 rest ≡ true))
      ⊎ (((c == b'\\') ≡ false)
          × (is_sep c ≡ false)
          × (is_upper c ≡ false)
          × (scan_key false (if c == b'.' && prev_sep then 1 else not_dot) rest ≡ true))
unfolding scan_key
scan_key_cases prev_sep dot_run c rest e = ground arith

scan_key-Rest :
    (prev_sep : Bool) (dot_run : ℕ) (rest : Bytes)
    → EndsWell prev_sep rest
    → scan_key prev_sep dot_run rest ≡ true
    → Rest prev_sep dot_run rest
scan_key-Rest true dot_run [] ends e = cc
scan_key-Rest false dot_run [] ends e = record {
  part = [];
  parts = [];
  reads = unfold render_tail in refl;
  no_sep = tt;
  no_upper = tt;
  wanted = λ q. unfold scan_key in ground (arith, e);
  others = tt;
}
scan_key-Rest prev_sep dot_run (c ∷ rest) ends e = elim (scan_key_cases prev_sep dot_run c rest e) [
  | inl (sep, inside, d, more) ↦
      let ih : Rest true 0 rest =
        scan_key-Rest true 0 rest (subst (λ b. EndsWell b rest) sep (EndsWell-step c rest ends))
          more in
      subst (λ b. Rest b dot_run (c ∷ rest)) (sym inside)
        (subst (λ x. Rest false dot_run (x ∷ rest)) (sym ((==_iff _ _).0 sep))
          (Rest-sep dot_run rest d ih))
  | inr (not_sep, s, u, more) ↦ Rest-cons prev_sep dot_run c rest s u (
      scan_key-Rest false (if c == b'.' && prev_sep then 1 else not_dot) rest
        (subst (λ b. EndsWell b rest) not_sep (EndsWell-step c rest ends)) more)
]

-- What the test accepts is a key: the root, or components each behind a separator.
pub is_normalized-render :
    (path : Bytes)
    → is_normalized path ≡ true
    → (parts : List Bytes) × AllParts parts × (path ≡ render parts)
unfolding is_normalized render render_tail
is_normalized-render [] e = cc
is_normalized-render (c ∷ []) e = ([], tt, ap (λ (x : ℕ). x ∷ []) ((==_iff _ _).0 e))
is_normalized-render (c ∷ d ∷ rest) e =
    let (first, ends, loop) = passed in
    let r = scan_key-Rest true 0 (d ∷ rest) ends loop in
    (
      r.part ∷ r.parts,
      (record { no_sep = r.no_sep; no_upper = r.no_upper; is_kept = r.wanted }, r.others),
      ap₂ (λ (x : ℕ) (t : Bytes). x ∷ t) ((==_iff _ _).0 first) r.reads,
    )
  where
    passed :
        ((c == b'\\') ≡ true)
        × (ends_in_sep (d ∷ rest) ≡ false)
        × (scan_key true 0 (d ∷ rest) ≡ true)
    passed = ground arith

-- The other way: the loop runs through a component and those behind it.
Wanted-next :
    (prev_sep : Bool) (dot_run c : ℕ) (part : Bytes)
    → Wanted prev_sep dot_run (c ∷ part)
    → (if c == b'.' && prev_sep then 1 else not_dot) ≡ 1
    → is_blank part ≡ false
Wanted-next true dot_run c [] w e = ground arith
Wanted-next false dot_run c [] w e = ground arith
Wanted-next prev_sep dot_run c (d ∷ part) w e = refl

scan_key-plain :
    (prev_sep : Bool) (dot_run c : ℕ) (rest : Bytes)
    → is_sep c ≡ false
    → is_upper c ≡ false
    → scan_key prev_sep dot_run (c ∷ rest)
      ≡ scan_key false (if c == b'.' && prev_sep then 1 else not_dot) rest
unfolding scan_key
scan_key-plain prev_sep dot_run c rest s u = ground arith

scan_key-parts :
    (prev_sep : Bool) (dot_run : ℕ) (part : Bytes) (parts : List Bytes)
    → NoSep part
    → NoUpper part
    → Wanted prev_sep dot_run part
    → AllParts parts
    → scan_key prev_sep dot_run (part ++ render_tail parts) ≡ true
unfolding scan_key render_tail
scan_key-parts true dot_run [] parts s u w a = cc
scan_key-parts false dot_run [] [] s u w a = ground (arith, w)
scan_key-parts false dot_run [] (p ∷ parts) s u w a =
    ground (arith, w, scan_key-parts true 0 p parts (a.0).no_sep (a.0).no_upper (a.0).is_kept a.1)
scan_key-parts prev_sep dot_run (c ∷ part) parts s u w a =
    scan_key-plain prev_sep dot_run c (part ++ render_tail parts) s.0 u.0
    ∙ scan_key-parts false (if c == b'.' && prev_sep then 1 else not_dot) part parts s.1 u.1
        (Wanted-next prev_sep dot_run c part w) a

ends-plain :
    (c : ℕ) (part rest : Bytes)
    → is_sep c ≡ false
    → NoSep part
    → (ends_in_sep rest ≡ false)
    → ends_in_sep (c ∷ part ++ rest) ≡ false
unfolding ends_in_sep
ends-plain c [] [] s h e = ground arith
ends-plain c [] (d ∷ rest) s h e = e
ends-plain c (d ∷ part) rest s h e = ends-plain d part rest h.0 h.1 e

ends-render_tail : (parts : List Bytes) → AllParts parts → ends_in_sep (render_tail parts) ≡ false
unfolding render_tail ends_in_sep
ends-render_tail [] a = refl
ends-render_tail ([] ∷ parts) a = cc (a.0).is_kept
ends-render_tail ((c ∷ part) ∷ parts) a =
    ends-plain c part (render_tail parts) (a.0).no_sep.0 (a.0).no_sep.1 (ends-render_tail parts a.1)

-- Every key of proper components is accepted.
pub render-is_normalized :
    (parts : List Bytes) → AllParts parts → is_normalized (render parts) ≡ true
unfolding is_normalized render render_tail
render-is_normalized [] a = refl
render-is_normalized ([] ∷ parts) a = cc (a.0).is_kept
render-is_normalized ((c ∷ part) ∷ parts) a =
    let loop =
      scan_key-parts true 0 (c ∷ part) parts (a.0).no_sep (a.0).no_upper (a.0).is_kept a.1 in
    let ends =
      ends-plain c part (render_tail parts) (a.0).no_sep.0 (a.0).no_sep.1
        (ends-render_tail parts a.1) in
    rw ends loop
