-- ===== src/Lookup/Rename/Keys.antt =====
-- src/lookup.rs, `rename`: the keys at and below another, which are that key and a tail.
use vramdisk.Lookup.Key.{Bytes, root}
use vramdisk.Lookup.NodeMap.{bytes_eq}
use vramdisk.Lookup.NodeMap.Laws.{bytes_eq_refl, bytes_eq_iff}
use vramdisk.Lookup.Rename.{is_below, starts_with, rekey}
use vramdisk.Common.{
  ℕ, ◌≡◌, inl, inr, refl, sym, ap, ◌∙◌, arith, Bool, true, ◌==◌, ◌||◌, [], ◌∷◌, ◌++◌, length, drop,
  Bool-cases, &&_parts, ==_iff,
}

-- The key, or one below it.
abbrev pub covers : Bytes → Bytes → Bool
covers from k = bytes_eq k from || is_below from k

-- What comes after a key in such a key: nothing, or a separator and more.
abbrev pub is_tail : Bytes → Bool
is_tail [] = true
is_tail (c ∷ s) = c == b'\\'

pub append_nil : (a : Bytes) → a ++ [] ≡ a
append_nil [] = refl
append_nil (c ∷ a) = ap (λ (s : Bytes). c ∷ s) (append_nil a)

drop_all : (a s : Bytes) → drop (length a) (a ++ s) ≡ s
drop_all [] s = refl
drop_all (c ∷ a) s = drop_all a s

pub append_cancel : (a s r : Bytes) → a ++ s ≡ a ++ r → s ≡ r
append_cancel a s r e = sym (drop_all a s) ∙ ap (drop (length a)) e ∙ drop_all a r

bytes_eq-append : (a s : Bytes) → bytes_eq (a ++ s) a ≡ true → s ≡ []
bytes_eq-append a s e = append_cancel a s [] ((bytes_eq_iff (a ++ s) a).0 e ∙ sym (append_nil a))

starts-split :
    (a k : Bytes)
    → starts_with (a ++ root) k ≡ true
    → (s : Bytes) × (k ≡ a ++ s) × (is_tail s ≡ true)
unfolding starts_with
starts-split [] [] e = cc
starts-split [] (c ∷ k) e = (c ∷ k, refl, ground (arith, e))
starts-split (c ∷ a) [] e = cc
starts-split (c ∷ a) (d ∷ k) e =
    let (p, q) = &&_parts (c == d) (starts_with (a ++ root) k) e in
    let (s, r, tail) = starts-split a k q in
    (s, ap (λ (h : ℕ). h ∷ k) (sym ((==_iff c d).0 p)) ∙ ap (λ (u : Bytes). c ∷ u) r, tail)

split-starts :
    (a : Bytes) (c : ℕ) (s : Bytes)
    → (c == b'\\') ≡ true
    → starts_with (a ++ root) (a ++ c ∷ s) ≡ true
unfolding starts_with
split-starts [] c s e = ground (arith, e)
split-starts (d ∷ a) c s e = ground (arith, split-starts a c s e)

pub covers-split :
    (a k : Bytes) → covers a k ≡ true → (s : Bytes) × (k ≡ a ++ s) × (is_tail s ≡ true)
covers-split a k e = elim (Bool-cases (bytes_eq k a)) [
  | inl same ↦ ([], (bytes_eq_iff k a).0 same ∙ sym (append_nil a), refl)
  | inr other ↦ starts-split a k (rw other at e)
]

pub covers-append : (a s : Bytes) → is_tail s ≡ true → covers a (a ++ s) ≡ true
covers-append a [] e = rw (append_nil a, bytes_eq_refl a) refl
covers-append a (c ∷ s) e = ground (arith, split-starts a c s e)

pub rekey-append : (from to s : Bytes) → rekey from to (from ++ s) ≡ to ++ s
unfolding rekey
rekey-append from to s = elim (Bool-cases (bytes_eq (from ++ s) from)) [
  | inl same ↦
      rw same
        (sym (append_nil to) ∙ ap (λ (u : Bytes). to ++ u) (sym (bytes_eq-append from s same)))
  | inr below ↦ rw below (ap (λ (u : Bytes). to ++ u) (drop_all from s))
]
