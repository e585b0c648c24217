-- ===== src/Chunk.antt =====
-- src/chunk.rs: the bitmap of free chunks, 64 to a word. Bit set means used.
-- A `u32` or `u64` is a number; the invariant keeps the words below 2 ^ 64 and the counts below
-- 2 ^ 32, so no sum here wraps. An index out of bounds panics in the source and is `none` here.
mod Examples
pub mod View
pub mod Invariant
pub mod Takes
pub mod Single
pub mod Release
pub mod Runs
pub mod Scanning
pub mod Contiguous
use vramdisk.Bits.Words.{word_max, test_bit, set_bit, clear_bit, trailing_ones}
use vramdisk.Common.{
  ℕ, zero, suc, ◌+◌, ◌-◌, ◌*◌, ◌/◌, ◌%◌, ◌^◌, Bool, true, false, Option, none, some, List, [], ◌∷◌,
  arith, ltb, leb, ◌==◌, if◌then◌else◌, length, get_elem?, get_or, set, replicate,
}

pub record ChunkAllocator : Type 0 where
  pub words : List ℕ
  pub total : ℕ
  pub used : ℕ
  pub cursor : ℕ

-- `(total as usize).div_ceil(64)`
abbrev pub word_count : ℕ → ℕ
word_count total = (total + 63) / 64

-- The padding bits beyond `total` in the last word are marked used.
unfoldable pub new : ℕ → ChunkAllocator
new total =
    let blank = replicate (word_count total) 0 in
    let rem = total % 64 in
    record {
      words =
          if rem == 0 then blank else set blank (word_count total - 1) (word_max - (2 ^ rem - 1));
      total = total;
      used = 0;
      cursor = 0;
    }

unfoldable pub free : ChunkAllocator → ℕ
free a = a.total - a.used

abbrev pub word_of : ℕ → ℕ
word_of chunk = chunk / 64

abbrev pub bit_of : ℕ → ℕ
bit_of chunk = chunk % 64

unfoldable pub is_used : ChunkAllocator → ℕ → Option Bool
is_used a chunk = elim (get_elem? a.words (word_of chunk)) [
  | none ↦ none
  | some word ↦ some (test_bit word (bit_of chunk))
]

-- `self.words[w] |= 1u64 << b`
unfoldable pub mark_one : List ℕ → ℕ → List ℕ
mark_one words chunk =
    set words (word_of chunk) (set_bit (get_or words (word_of chunk) 0) (bit_of chunk))

-- The loop of `alloc_one`: the first word from the cursor on that is not full, going round once.
unfoldable pub find_word : ℕ → ℕ → List ℕ → ℕ → Option ℕ
find_word zero i words cursor = none
find_word (suc rounds) i words cursor =
    let rest = find_word rounds (i + 1) words cursor in
    let w = (cursor + i) % length words in if get_or words w 0 == word_max then rest else some w

unfoldable pub alloc_one : ChunkAllocator → ChunkAllocator × Option ℕ
unfolding find_word
alloc_one a = elim (find_word (length a.words) 0 a.words a.cursor) [
  | none ↦ (a, none)
  | some w ↦
      let chunk = w * 64 + trailing_ones 64 (get_or a.words w 0) in
      (
        record a {
          words =
              set a.words w (set_bit (get_or a.words w 0) (trailing_ones 64 (get_or a.words w 0)));
          used = a.used + 1;
          cursor = w;
        },
        some chunk,
      )
]

-- A scan for a run either has found its start or goes on with the run so far.
pub data Scan : Type 0 where
  found : ℕ → Scan
  going : ℕ → ℕ → Scan

-- The walk over the bits of a mixed word, from bit `bit` on with `rounds` bits left.
unfoldable pub scan_bits : ℕ → ℕ → ℕ → ℕ → ℕ → ℕ → ℕ → Scan
scan_bits count zero bit word base run_start run_len = going run_start run_len
scan_bits count (suc rounds) bit word base run_start run_len =
    let restart = scan_bits count rounds (bit + 1) word base run_start 0 in
    let start = if run_len == 0 then base + bit else run_start in
    let rest = scan_bits count rounds (bit + 1) word base start (run_len + 1) in
    if test_bit word bit then restart else if run_len + 1 == count then found start else rest

-- The walk over the words, from word `w` on.
unfoldable pub scan_words : ℕ → ℕ → List ℕ → ℕ → ℕ → Scan
scan_words count w [] run_start run_len = going run_start run_len
scan_words count w (word ∷ words) run_start run_len =
    let restart = scan_words count (w + 1) words run_start 0 in
    let start = if run_len == 0 then w * 64 else run_start in
    let longer = scan_words count (w + 1) words start (run_len + 64) in
    let mixed : Scan = elim (scan_bits count 64 0 word (w * 64) run_start run_len) [
      | found s ↦ found s
      | going s l ↦ scan_words count (w + 1) words s l
    ] in
    if word == word_max
    then restart
    else if word == 0
    then (if leb count (run_len + 64) then found start else longer)
    else mixed

-- `mark_used`: every chunk of the run, then the count and the cursor.
unfoldable pub mark_run : ℕ → ℕ → List ℕ → List ℕ
mark_run zero c words = words
mark_run (suc rounds) c words = mark_run rounds (c + 1) (mark_one words c)

unfoldable pub mark_used : ChunkAllocator → ℕ → ℕ → ChunkAllocator
unfolding mark_run mark_one
mark_used a start count = record a {
  words = mark_run count start a.words;
  used = a.used + count;
  cursor = word_of start;
}

unfoldable pub claim : ChunkAllocator → ℕ → Scan → ChunkAllocator × Option ℕ
unfolding mark_used
claim a count (found start) = (mark_used a start count, some start)
claim a count (going _ _) = (a, none)

unfoldable pub alloc_contiguous : ChunkAllocator → ℕ → ChunkAllocator × Option ℕ
unfolding claim alloc_one free
alloc_contiguous a count =
    if count == 0
    then (a, none)
    else if count == 1
    then alloc_one a
    else if ltb (free a) count
    then (a, none)
    else claim a count (scan_words count 0 a.words 0 0)

-- A release build: freeing a free chunk changes nothing.
unfoldable pub free_one : ChunkAllocator → ℕ → Option ChunkAllocator
free_one a chunk = elim (get_elem? a.words (word_of chunk)) [
  | none ↦ none
  | some word ↦ some (
      if test_bit word (bit_of chunk)
      then record a {
        words = set a.words (word_of chunk) (clear_bit word (bit_of chunk));
        used = a.used - 1;
      }
      else a)
]

unfoldable pub free_contiguous : ℕ → ℕ → ChunkAllocator → Option ChunkAllocator
free_contiguous zero c a = some a
free_contiguous (suc rounds) c a = elim (free_one a c) [
  | none ↦ none
  | some b ↦ free_contiguous rounds (c + 1) b
]
