-- ===== src/Jobs/Text.antt =====
-- src/jobs.rs, the JSON that a job leaves as its result. Text is UTF-8 bytes; the characters that
-- `json_escape` changes are ASCII, and all others pass byte by byte.
use Prim.Native.Char.{code}
use Prim.Native.String.{String}
use vramdisk.Lookup.Key.{Bytes}
use vramdisk.Common.{
  ℕ, ◌+◌, ◌/◌, ◌%◌, List, [], ◌∷◌, ◌++◌, Option, none, some, Bool, true, false, ◌==◌, ltb,
  if◌then◌else◌,
}

abbrev pub codes : String → List ℕ
codes String.[] = []
codes (String.◌∷◌ c s) = code c ∷ codes s

pub data JobState : Type 0 where
  receiving queued running succeeded failed cancelled : JobState

abbrev pub is_terminal : JobState → Bool
is_terminal receiving = false
is_terminal queued = false
is_terminal running = false
is_terminal succeeded = true
is_terminal failed = true
is_terminal cancelled = true

unfoldable pub as_str : JobState → Bytes
as_str receiving = codes "receiving"
as_str queued = codes "queued"
as_str running = codes "running"
as_str succeeded = codes "succeeded"
as_str failed = codes "failed"
as_str cancelled = codes "cancelled"

abbrev pub is_succeeded : JobState → Bool
is_succeeded succeeded = true
is_succeeded receiving = false
is_succeeded queued = false
is_succeeded running = false
is_succeeded failed = false
is_succeeded cancelled = false

-- A lower-case hexadecimal digit.
abbrev pub hex_digit : ℕ → ℕ
hex_digit d = if ltb d 10 then d + 48 else d + 87

-- What `json_escape` pushes for one character.
unfoldable pub escape_char : ℕ → Bytes
escape_char c =
    if c == 34
    then 92 ∷ 34 ∷ []
    else if c == 92
    then 92 ∷ 92 ∷ []
    else if c == 10
    then 92 ∷ 110 ∷ []
    else if c == 13
    then 92 ∷ 114 ∷ []
    else if c == 9
    then 92 ∷ 116 ∷ []
    else if ltb c 32
    then 92 ∷ 117 ∷ 48 ∷ 48 ∷ hex_digit (c / 16) ∷ hex_digit (c % 16) ∷ []
    else c ∷ []

unfoldable pub json_escape : Bytes → Bytes
unfolding escape_char
json_escape [] = []
json_escape (c ∷ s) = escape_char c ++ json_escape s

unfoldable pub json_string_or_null : Option Bytes → Bytes
unfolding json_escape
json_string_or_null none = codes "null"
json_string_or_null (some s) = 34 ∷ json_escape s ++ 34 ∷ []

abbrev pub crlf : Bytes
crlf = 13 ∷ 10 ∷ []

abbrev pub bool_str : Bool → Bytes
bool_str true = codes "true"
bool_str false = codes "false"

-- `  "name": `
abbrev pub field : String → Bytes
field name = 32 ∷ 32 ∷ 34 ∷ codes name ++ 34 ∷ 58 ∷ 32 ∷ []

unfoldable pub result_json : Bytes → JobState → Option Bytes → Bytes
unfolding json_escape json_string_or_null as_str
result_json id state error =
    (123 ∷ crlf)
    ++ (field "id" ++ 34 ∷ json_escape id ++ 34 ∷ 44 ∷ crlf)
    ++ (field "state" ++ 34 ∷ as_str state ++ 34 ∷ 44 ∷ crlf)
    ++ (field "ok" ++ bool_str (is_succeeded state) ++ 44 ∷ crlf)
    ++ (field "error" ++ json_string_or_null error ++ crlf)
    ++ 125 ∷ crlf
