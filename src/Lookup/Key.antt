-- ===== src/Lookup/Key.antt =====
-- src/lookup.rs, `normalize`, `is_normalized`, `normalize_key`, `display_name`, `split_parent`.
-- A path is the list of its UTF-8 bytes; both separators are ASCII, so splitting the text at a
-- separator splits the bytes there. `s.push(b as char)` appends the code point `b` in UTF-8.
pub mod Render
pub mod Scan
pub mod Canonical
use vramdisk.Common.{
  ℕ, zero, suc, ◌+◌, ◌-◌, ◌/◌, ◌%◌, ◌^◌, Bool, true, false, not, ◌&&◌, ◌||◌, Option, none, some,
  List, [], ◌∷◌, ◌++◌, map, ◌==◌, ltb, leb, if◌then◌else◌, length, take, drop,
}

abbrev pub Bytes : Type 0
Bytes = List ℕ

abbrev pub root : Bytes
root = b'\\' ∷ []

abbrev pub is_sep : ℕ → Bool
is_sep c = c == b'\\' || c == b'/'

abbrev pub is_upper : ℕ → Bool
is_upper c = leb b'A' c && leb c b'Z'

abbrev pub to_ascii_lowercase : ℕ → ℕ
to_ascii_lowercase c = if is_upper c then c + 32 else c

-- `str::split(['\\', '/'])`: the parts between the separators, empty ones included.
abbrev pub onto_first : ℕ → List Bytes → List Bytes
onto_first c [] = (c ∷ []) ∷ []
onto_first c (part ∷ parts) = (c ∷ part) ∷ parts

unfoldable pub split : Bytes → List Bytes
split [] = [] ∷ []
split (c ∷ path) = let parts = split path in if is_sep c then [] ∷ parts else onto_first c parts

abbrev pub is_dot : Bytes → Bool
is_dot (c ∷ []) = c == b'.'
is_dot _ = false

abbrev pub is_blank : Bytes → Bool
is_blank [] = true
is_blank (c ∷ cs) = false

-- `!c.is_empty() && *c != "."`
abbrev pub is_kept : Bytes → Bool
is_kept part = not (is_blank part) && not (is_dot part)

unfoldable pub kept : List Bytes → List Bytes
kept [] = []
kept (part ∷ parts) = let rest = kept parts in if is_kept part then part ∷ rest else rest

-- A code point below 256 in UTF-8.
abbrev pub encode : ℕ → Bytes
encode c = if ltb c 128 then c ∷ [] else (192 + c / 64) ∷ (128 + c % 64) ∷ []

unfoldable pub lower : Bytes → Bytes
lower [] = []
lower (b ∷ part) = encode (to_ascii_lowercase b) ++ lower part

unfoldable pub push_part : Bytes → Bytes → Bytes
unfolding lower
push_part s part = (if ltb 1 (length s) then s ++ root else s) ++ lower part

unfoldable pub push_parts : Bytes → List Bytes → Bytes
unfolding push_part
push_parts s [] = s
push_parts s (part ∷ parts) = push_parts (push_part s part) parts

unfoldable pub normalize : Bytes → Bytes
unfolding push_parts kept split
normalize path = push_parts root (kept (split path))

-- `usize::MAX`
abbrev pub not_dot : ℕ
not_dot = 2 ^ 64 - 1

-- The loop of `is_normalized` over the bytes after the first.
unfoldable pub scan_key : Bool → ℕ → Bytes → Bool
scan_key prev_sep dot_run [] = not (dot_run == 1)
scan_key prev_sep dot_run (c ∷ rest) =
    let after_sep = scan_key true 0 rest in
    let in_part = scan_key false (if c == b'.' && prev_sep then 1 else not_dot) rest in
    if c == b'/'
    then false
    else if c == b'\\'
    then (if prev_sep then false else if dot_run == 1 then false else after_sep)
    else if is_upper c
    then false
    else in_part

unfoldable pub ends_in_sep : Bytes → Bool
ends_in_sep [] = false
ends_in_sep (c ∷ []) = c == b'\\'
ends_in_sep (c ∷ d ∷ rest) = ends_in_sep (d ∷ rest)

unfoldable pub is_normalized : Bytes → Bool
unfolding scan_key ends_in_sep
is_normalized [] = false
is_normalized (c ∷ []) = c == b'\\'
is_normalized (c ∷ d ∷ rest) =
    let loop = scan_key true 0 (d ∷ rest) in
    if not (c == b'\\') then false else if ends_in_sep (d ∷ rest) then false else loop

unfoldable pub normalize_key : Bytes → Bytes
unfolding is_normalized normalize
normalize_key path = if is_normalized path then path else normalize path

-- `split(..).filter(|c| !c.is_empty()).next_back().unwrap_or("")`
unfoldable pub last_part : Bytes → List Bytes → Bytes
last_part found [] = found
last_part found (part ∷ parts) = last_part (if is_blank part then found else part) parts

unfoldable pub display_name : Bytes → Bytes
unfolding last_part split
display_name path = last_part [] (split path)

-- `key.rfind('\\')`
unfoldable pub rfind_sep : Bytes → Option ℕ
rfind_sep [] = none
rfind_sep (c ∷ rest) = elim (rfind_sep rest) [
  | some i ↦ some (suc i)
  | none ↦ if c == b'\\' then some 0 else none
]

abbrev pub is_root : Bytes → Bool
is_root (c ∷ []) = c == b'\\'
is_root _ = false

unfoldable pub split_parent : Bytes → Option (Bytes × Bytes)
unfolding rfind_sep
split_parent key = if is_root key then none else elim (rfind_sep key) [
  | none ↦ none
  | some zero ↦ some (root, drop 1 key)
  | some (suc i) ↦ some (take (suc i) key, drop (suc i + 1) key)
]
