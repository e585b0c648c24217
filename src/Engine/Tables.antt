-- ===== src/Engine/Tables.antt =====
-- What the readers of the ZIP extra field make of what `zip_local_extra` wrote.
use mathlib.Core.Path.{ap₂}
use vramdisk.Lookup.Key.{Bytes}
use vramdisk.Engine.Fields.{
  le_bytes, le_value, read_u16_le, read_u32_le, le_value-le_bytes, length-le_bytes, drop-le_bytes,
}
use vramdisk.Engine.Extra.{zip_chunk_table_tag, push_sizes, push_tables, read_sizes, scan_tables}
use vramdisk.Engine.Result.{ok}
use vramdisk.Common.{
  length-take, ℕ, zero, suc, ◌+◌, ◌*◌, ◌/◌, ◌%◌, ◌^◌, ◌≤◌, ◌<◌, ◌≡◌, min, refl, sym, ap, ◌∙◌, arith,
  List, [], ◌∷◌, ◌++◌, true, length, take, drop, length-append, All,
}

pub take-append : (xs ys : Bytes) (n : ℕ) → n ≡ length xs → take n (xs ++ ys) ≡ xs
take-append [] ys zero e = refl
take-append [] ys (suc n) e = cc
take-append (x ∷ xs) ys zero e = absurd (omega arith)
take-append (x ∷ xs) ys (suc n) e = ap (λ (t : Bytes). x ∷ t) (take-append xs ys n (omega arith))

pub drop-append : (xs ys : Bytes) (n : ℕ) → n ≡ length xs → drop n (xs ++ ys) ≡ ys
drop-append [] ys zero e = refl
drop-append [] ys (suc n) e = absurd (omega arith)
drop-append (x ∷ xs) ys zero e = absurd (omega arith)
drop-append (x ∷ xs) ys (suc n) e = drop-append xs ys n (omega arith)

pub two_bytes : (v : ℕ) → v < 65536 → read_u16_le (v % 256 ∷ v / 256 % 256 ∷ []) ≡ v
unfolding le_value
two_bytes v h = omega arith

length-push_sizes : (sizes : List ℕ) → length (push_sizes sizes) ≡ 8 * length sizes
unfolding push_sizes
length-push_sizes [] = refl
length-push_sizes (size ∷ sizes) = omega (
  arith,
  length-append (le_bytes 8 size) (push_sizes sizes),
  length-le_bytes 8 size,
  length-push_sizes sizes,
)

abbrev pub Sizes64 : List ℕ → Type 0
Sizes64 = All (λ size. size < 2 ^ 64)

read-push_sizes :
    (sizes : List ℕ) → Sizes64 sizes → read_sizes (length sizes) (push_sizes sizes) ≡ sizes
unfolding read_sizes push_sizes
read-push_sizes [] h = refl
read-push_sizes (size ∷ sizes) h =
    rw
      (
        drop-le_bytes 8 size (push_sizes sizes),
        le_value-le_bytes 8 size (push_sizes sizes) (omega (arith, h.0)),
      )
      (ap (λ (t : List ℕ). size ∷ t) (read-push_sizes sizes h.1))

-- The body of a chunk table.
abbrev body_of : ℕ → List ℕ → Bytes
body_of start sizes =
    le_bytes 4 (start % 2 ^ 32) ++ le_bytes 4 (length sizes % 2 ^ 32) ++ push_sizes sizes

length-body_of : (start : ℕ) (sizes : List ℕ) → length (body_of start sizes) ≡ 8 + length sizes * 8
unfolding le_bytes
length-body_of start sizes = omega (
  arith,
  length-append (le_bytes 4 (start % 2 ^ 32))
      (le_bytes 4 (length sizes % 2 ^ 32) ++ push_sizes sizes),
  length-append (le_bytes 4 (length sizes % 2 ^ 32)) (push_sizes sizes),
  length-le_bytes 4 (start % 2 ^ 32),
  length-le_bytes 4 (length sizes % 2 ^ 32),
  length-push_sizes sizes,
)

body_start :
    (start : ℕ) (sizes : List ℕ) → start < 2 ^ 32 → read_u32_le (body_of start sizes) ≡ start
unfolding le_value le_bytes push_sizes
body_start start sizes h =
    le_value-le_bytes 4 (start % 2 ^ 32) (le_bytes 4 (length sizes % 2 ^ 32) ++ push_sizes sizes)
      (omega arith)
    ∙ omega arith

body_count :
    (start : ℕ) (sizes : List ℕ)
    → length sizes < 2 ^ 32
    → read_u32_le (drop 4 (body_of start sizes)) ≡ length sizes
unfolding le_bytes
body_count start sizes h =
    ap read_u32_le (drop-le_bytes 4 (start % 2 ^ 32) _)
    ∙ le_value-le_bytes 4 (length sizes % 2 ^ 32) _ (omega arith)
    ∙ omega arith

body_sizes : (start : ℕ) (sizes : List ℕ) → drop 8 (body_of start sizes) ≡ push_sizes sizes
body_sizes start sizes =
    drop-append (le_bytes 4 (start % 2 ^ 32) ++ le_bytes 4 (length sizes % 2 ^ 32))
      (push_sizes sizes) 8
      (omega (
        arith,
        length-append (le_bytes 4 (start % 2 ^ 32)) (le_bytes 4 (length sizes % 2 ^ 32)),
        length-le_bytes 4 (start % 2 ^ 32),
        length-le_bytes 4 (length sizes % 2 ^ 32),
      ))

-- A field that the reader takes for a table adds the sizes of the table.
table_step :
    (fuel len count start : ℕ) (body tail : Bytes) (part earlier : List ℕ)
    → len < 65536
    → len ≡ length body
    → len ≡ 8 + count * 8
    → read_u32_le body ≡ start
    → read_u32_le (drop 4 body) ≡ count
    → read_sizes count (drop 8 body) ≡ part
    → start ≤ length earlier
    → scan_tables (suc fuel) (84 ∷ 71 ∷ len % 256 ∷ len / 256 % 256 ∷ (body ++ tail)) earlier true
      ≡ scan_tables fuel tail (earlier ++ part) true
unfolding scan_tables
table_step fuel len count start body tail part earlier small sized counted at_start at_count
      at_sizes le =
    rw
      (
        two_bytes len small,
        take-append body tail len sized,
        drop-append body tail len sized,
        at_start,
        at_count,
        at_sizes,
        tag,
      )
      (ground (arith, length-append body tail))
  where
    tag : read_u16_le (84 ∷ 71 ∷ []) ≡ zip_chunk_table_tag
    tag = two_bytes 18260 (omega arith)

pub append_nil : (xs : List ℕ) → xs ++ [] ≡ xs
append_nil [] = refl
append_nil (x ∷ xs) = ap (λ (t : List ℕ). x ∷ t) (append_nil xs)

append_assoc : (xs ys zs : List ℕ) → (xs ++ ys) ++ zs ≡ xs ++ (ys ++ zs)
append_assoc [] ys zs = refl
append_assoc (x ∷ xs) ys zs = ap (λ (t : List ℕ). x ∷ t) (append_assoc xs ys zs)

take-drop : (n : ℕ) (xs : List ℕ) → take n xs ++ drop n xs ≡ xs
take-drop zero xs = refl
take-drop (suc n) [] = refl
take-drop (suc n) (x ∷ xs) = ap (λ (t : List ℕ). x ∷ t) (take-drop n xs)

Sizes64-take : (n : ℕ) (xs : List ℕ) → Sizes64 xs → Sizes64 (take n xs)
Sizes64-take zero xs h = tt
Sizes64-take (suc n) [] h = tt
Sizes64-take (suc n) (x ∷ xs) h = (h.0, Sizes64-take n xs h.1)

Sizes64-drop : (n : ℕ) (xs : List ℕ) → Sizes64 xs → Sizes64 (drop n xs)
Sizes64-drop zero xs h = h
Sizes64-drop (suc n) [] h = tt
Sizes64-drop (suc n) (x ∷ xs) h = Sizes64-drop n xs h.1

-- How many sizes the next table takes.
abbrev share : List ℕ → ℕ
share sizes = min (length sizes) 8190

pushed_table :
    (fuel start size : ℕ) (sizes : List ℕ) (count len : ℕ)
    → count ≡ share (size ∷ sizes)
    → len ≡ 8 + count * 8
    → push_tables (suc fuel) start (size ∷ sizes)
      ≡ 84
        ∷ 71
        ∷ len % 256
        ∷ len / 256 % 256
        ∷ (body_of start (take count (size ∷ sizes))
            ++ push_tables fuel (start + count) (drop count (size ∷ sizes)))
unfolding push_tables le_bytes
pushed_table fuel start size sizes count len c l =
    rw (sym c, length-take count (size ∷ sizes), all_taken, no_wrap, sym l) refl
  where
    all_taken : min count (length (size ∷ sizes)) ≡ count
    all_taken = omega arith

    no_wrap : (8 + count * 8) % 65536 ≡ 8 + count * 8
    no_wrap = omega arith

scan_done :
    (fuel : ℕ) (earlier : List ℕ) → scan_tables fuel [] earlier true ≡ ok (earlier ++ [], true)
unfolding scan_tables
scan_done zero earlier = ap (λ (t : List ℕ). ok (t, true)) (sym (append_nil earlier))
scan_done (suc fuel) earlier = ap (λ (t : List ℕ). ok (t, true)) (sym (append_nil earlier))

push_tables_nil : (fuel start : ℕ) → push_tables fuel start [] ≡ []
unfolding push_tables
push_tables_nil zero start = refl
push_tables_nil (suc fuel) start = refl

-- One table, and what is known of the fields after it.
scan_table :
    (rfuel start count : ℕ) (part later earlier whole : List ℕ) (tail bytes : Bytes)
    → bytes
      ≡ 84 ∷ 71 ∷ (8 + count * 8) % 256 ∷ (8 + count * 8) / 256 % 256 ∷ (body_of start part ++ tail)
    → length part ≡ count
    → Sizes64 part
    → start ≡ length earlier
    → start < 2 ^ 32
    → count ≤ 8190
    → length tail < rfuel
    → part ++ later ≡ whole
    → ((f : ℕ)
        → length tail ≤ f
        → scan_tables f tail (earlier ++ part) true ≡ ok ((earlier ++ part) ++ later, true))
    → scan_tables rfuel bytes earlier true ≡ ok (earlier ++ whole, true)
scan_table zero start count part later earlier whole tail bytes shape parted h at small few fits
      joined rest =
    absurd (omega arith)
scan_table (suc rfuel) start count part later earlier whole tail bytes shape parted h at small few
      fits joined rest =
    ap (λ (b : Bytes). scan_tables (suc rfuel) b earlier true) shape
    ∙ table_step rfuel (8 + count * 8) count start (body_of start part) tail part earlier
        (omega arith) (omega (arith, length-body_of start part)) refl (body_start start part small)
        (body_count start part (omega arith) ∙ parted)
        (ap₂ read_sizes (sym parted) (body_sizes start part) ∙ read-push_sizes part h) (omega arith)
    ∙ rest rfuel (omega arith)
    ∙ ap (λ (t : List ℕ). ok (t, true))
        (append_assoc earlier part later ∙ ap (λ (t : List ℕ). earlier ++ t) joined)

-- The tables read back as their sizes, after those of the tables before.
pub scan-push_tables :
    (wfuel rfuel start : ℕ) (sizes earlier : List ℕ)
    → Sizes64 sizes
    → length sizes ≤ wfuel
    → start ≡ length earlier
    → start + length sizes < 2 ^ 32
    → length (push_tables wfuel start sizes) ≤ rfuel
    → scan_tables rfuel (push_tables wfuel start sizes) earlier true ≡ ok (earlier ++ sizes, true)
scan-push_tables wfuel rfuel start [] earlier h enough at small fits =
    rw (push_tables_nil wfuel start) (scan_done rfuel earlier)
scan-push_tables zero rfuel start (size ∷ sizes) earlier h enough at small fits =
    absurd (omega arith)
scan-push_tables (suc wfuel) rfuel start (size ∷ sizes) earlier h enough at small fits =
    let whole : List ℕ = size ∷ sizes in
    let count = share whole in
    let part = take count whole in
    let later = drop count whole in
    let len = 8 + count * 8 in
    let tail = push_tables wfuel (start + count) later in
    let shape = pushed_table wfuel start size sizes count len refl refl in
    let parted : length part ≡ count = omega (arith, length-take count whole) in
    let joined : length part + length later ≡ length whole =
      omega (arith, length-append part later, ap (length {A = ℕ}) (take-drop count whole)) in
    let written : length (push_tables (suc wfuel) start whole) ≡ 4 + (len + length tail) =
      ap (length {A = ℕ}) shape
      ∙ omega (arith, length-append (body_of start part) tail, length-body_of start part, parted) in
    scan_table rfuel start count part later earlier whole tail (push_tables (suc wfuel) start whole)
      shape parted (Sizes64-take count whole h) at (omega arith) (omega arith) (omega arith)
      (take-drop count whole)
      (λ f le.
        scan-push_tables wfuel f (start + count) later (earlier ++ part)
          (Sizes64-drop count whole h) (omega arith) (omega (arith, length-append earlier part))
          (omega arith) (omega arith))
