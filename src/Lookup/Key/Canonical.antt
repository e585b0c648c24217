-- ===== src/Lookup/Key/Canonical.antt =====
-- What the shortcut of `normalize_key` is worth: on ASCII paths it is exact, and on no other
-- path that the test accepts.
use vramdisk.Lookup.Key.{
  Bytes, is_sep, is_upper, is_kept, to_ascii_lowercase, onto_first, split, kept, encode, lower,
  normalize, is_normalized, normalize_key,
}
use vramdisk.Lookup.Key.Render.{
  render_tail, render, NoSep, NoUpper, Ascii, AllParts, AllAscii, normalize-render, normalize_fixed,
  kept-split-render,
}
use vramdisk.Lookup.Key.Scan.{is_normalized-render, render-is_normalized}
use vramdisk.Common.{
  ℕ, ◌+◌, ◌<◌, ◌≡◌, ◌≢◌, ◌↔◌, inl, inr, refl, sym, ap, ◌∙◌, subst, arith, true, false, List, [],
  ◌∷◌, ◌++◌, map, ◌==◌, ltb, if◌then◌else◌, length, length-append, All, Bool-cases, lt→ltb, weigh,
  weigh-append,
}

-- The bytes of a part of an ASCII path.
abbrev Raw : Bytes → Type 0
Raw = All (λ c. (is_sep c ≡ false) × (c < 128))

onto_first-Raw :
    (c : ℕ) (parts : List Bytes)
    → is_sep c ≡ false
    → c < 128
    → All Raw parts
    → All Raw (onto_first c parts)
onto_first-Raw c [] s a h = (((s, a), tt), tt)
onto_first-Raw c (part ∷ parts) s a h = (((s, a), h.0), h.1)

split-Raw : (path : Bytes) → Ascii path → All Raw (split path)
unfolding split
split-Raw [] a = (tt, tt)
split-Raw (c ∷ path) a = elim (Bool-cases (is_sep c)) [
  | inl sep ↦ rw sep (tt, split-Raw path a.1)
  | inr other ↦ rw other (onto_first-Raw c (split path) other a.0 (split-Raw path a.1))
]

lowered_byte :
    (c : ℕ)
    → is_sep c ≡ false
    → c < 128
    → (is_sep (to_ascii_lowercase c) ≡ false)
      × (is_upper (to_ascii_lowercase c) ≡ false)
      × (to_ascii_lowercase c < 128)
      × ((to_ascii_lowercase c == b'.') ≡ (c == b'.'))
lowered_byte c s a = (ground arith, ground arith, ground arith, ground arith)

lower-cons :
    (c : ℕ) (part : Bytes)
    → is_sep c ≡ false
    → c < 128
    → lower (c ∷ part) ≡ to_ascii_lowercase c ∷ lower part
unfolding lower
lower-cons c part s a = rw (lt→ltb _ 128 (lowered_byte c s a).2) refl

lower-facts :
    (part : Bytes) → Raw part → NoSep (lower part) × NoUpper (lower part) × Ascii (lower part)
lower-facts [] r = unfold lower in (tt, tt, tt)
lower-facts (c ∷ part) r =
    let (s, u, a, _) = lowered_byte c r.0.0 r.0.1 in
    let ih = lower-facts part r.1 in
    rw (lower-cons c part r.0.0 r.0.1) ((s, ih.0), (u, ih.1), (a, ih.2))

is_kept-lower : (part : Bytes) → Raw part → is_kept part ≡ true → is_kept (lower part) ≡ true
is_kept-lower [] r k = cc
is_kept-lower (c ∷ []) r k =
    let (_, _, _, dot) = lowered_byte c r.0.0 r.0.1 in
    rw (lower-cons c [] r.0.0 r.0.1) (unfold lower in ground (arith, dot, k))
is_kept-lower (c ∷ d ∷ part) r k =
    rw (lower-cons c (d ∷ part) r.0.0 r.0.1, lower-cons d part r.1.0.0 r.1.0.1) refl

kept-lowered :
    (parts : List Bytes)
    → All Raw parts
    → AllParts (map lower (kept parts)) × AllAscii (map lower (kept parts))
unfolding kept
kept-lowered [] r = (tt, tt)
kept-lowered (part ∷ parts) r = elim (Bool-cases (is_kept part)) [
  | inl good ↦
      let (s, u, a) = lower-facts part r.0 in
      let ih = kept-lowered parts r.1 in
      rw good (
        (record { no_sep = s; no_upper = u; is_kept = is_kept-lower part r.0 good }, ih.0),
        (a, ih.1),
      )
  | inr bad ↦ rw bad (kept-lowered parts r.1)
]

-- The normal form of an ASCII path is accepted by the test, and `normalize` leaves it alone.
pub normalize-is_normalized :
    (path : Bytes)
    → Ascii path
    → (is_normalized (normalize path) ≡ true) × (normalize (normalize path) ≡ normalize path)
normalize-is_normalized path a =
    let (proper, ascii) = kept-lowered (split path) (split-Raw path a) in
    rw (normalize-render path) (
      render-is_normalized (map lower (kept (split path))) proper,
      normalize_fixed (map lower (kept (split path))) proper ascii,
    )

render_tail-Ascii : (parts : List Bytes) → Ascii (render_tail parts) → AllAscii parts
unfolding render_tail
render_tail-Ascii [] a = tt
render_tail-Ascii (part ∷ parts) a =
    let (p, rest) = All-append part (render_tail parts) a.1 in (p, render_tail-Ascii parts rest)
  where
    All-append : (xs ys : Bytes) → Ascii (xs ++ ys) → Ascii xs × Ascii ys
    All-append [] ys h = (tt, h)
    All-append (x ∷ xs) ys h = let (p, q) = All-append xs ys h.1 in ((h.0, p), q)

Ascii-parts : (parts : List Bytes) → Ascii (render parts) → AllAscii parts
unfolding render
Ascii-parts [] a = tt
Ascii-parts (part ∷ parts) a = render_tail-Ascii (part ∷ parts) a

-- On ASCII paths the test accepts exactly the fixed points of `normalize`.
pub is_normalized_iff :
    (path : Bytes) → Ascii path → (is_normalized path ≡ true) ↔ (normalize path ≡ path)
is_normalized_iff path a =
    (λ e. fixed e, λ e. subst (λ p. is_normalized p ≡ true) e (normalize-is_normalized path a).0)
  where
    fixed : is_normalized path ≡ true → normalize path ≡ path
    fixed e =
        let (parts, proper, q) = is_normalized-render path e in
        rw q (normalize_fixed parts proper (Ascii-parts parts (subst Ascii q a)))

-- So on ASCII paths the borrowed key is the normal form.
pub normalize_key-normalize : (path : Bytes) → Ascii path → normalize_key path ≡ normalize path
unfolding normalize_key
normalize_key-normalize path a = elim (Bool-cases (is_normalized path)) [
  | inl e ↦ rw e (sym ((is_normalized_iff path a).0 e))
  | inr e ↦ rw e refl
]

-- How many bytes of a text are not ASCII.
abbrev pub high : Bytes → ℕ
high = weigh (λ c. if ltb c 128 then 0 else 1)

length-lower : (part : Bytes) → length (lower part) ≡ length part + high part
unfolding lower
length-lower [] = refl
length-lower (c ∷ part) =
    ground (arith, length-lower part, length-append (encode (to_ascii_lowercase c)) (lower part))

length-render_tail :
    (parts : List Bytes)
    → length (render_tail (map lower parts)) ≡ length (render_tail parts) + high (render_tail parts)
unfolding render_tail
length-render_tail [] = refl
length-render_tail (part ∷ parts) = omega (
  arith,
  length-append (lower part) (render_tail (map lower parts)),
  length-append part (render_tail parts),
  weigh-append (λ c. if ltb c 128 then 0 else 1) part (render_tail parts),
  length-lower part,
  length-render_tail parts,
)

length-render :
    (parts : List Bytes)
    → length (render (map lower parts)) ≡ length (render parts) + high (render parts)
unfolding render
length-render [] = refl
length-render (part ∷ parts) = length-render_tail (part ∷ parts)

-- Of a path that the test accepts, `normalize` makes one byte more for each byte that is not ASCII.
pub length-normalize :
    (path : Bytes) → is_normalized path ≡ true → length (normalize path) ≡ length path + high path
length-normalize path e =
    let (parts, proper, q) = is_normalized-render path e in
    rw q (
      ap length (
        normalize-render (render parts)
        ∙ ap (λ (ps : List Bytes). render (map lower ps)) (kept-split-render parts proper))
      ∙ length-render parts)

-- The shortcut is wrong on every accepted path with a byte that is not ASCII: the borrowed key is
-- not what `normalize` returns.
pub normalize_key-diverges :
    (path : Bytes) → is_normalized path ≡ true → 0 < high path → normalize_key path ≢ normalize path
unfolding normalize_key
normalize_key-diverges path e h q =
    absurd (omega (arith, length-normalize path e, ap length (rw e at q)))
