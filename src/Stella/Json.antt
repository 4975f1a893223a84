-- ===== src/Stella/Json.antt =====
-- The JSON texts of src/stella_cache.c: how `json_string` prints a string, and how
-- `json_get_string` finds and reads one.
pub mod RoundTrip
use qstar.Prelude.{
  ℕ, ◌+◌, ◌-◌, ◌/◌, ◌%◌, Bool, true, false, ◌||◌, List, [], ◌∷◌, ◌++◌, Option, none, some, Bytes,
  CString, string_or_empty, codes, length, drop, ltb, leb, ◌==◌, if◌then◌else◌, str_eq, split_first,
}

-- A digit of `%x`
unfoldable pub hex_digit : ℕ → ℕ
hex_digit n = if ltb n 10 then b'0' + n else b'a' + n - 10

-- What one round of `json_string` puts out.
unfoldable pub json_char : ℕ → Bytes
unfolding hex_digit
json_char c =
    if (c == b'"') || (c == b'\\')
    then b'\\' ∷ c ∷ []
    else if c == b'\n'
    then b'\\' ∷ b'n' ∷ []
    else if c == b'\r'
    then b'\\' ∷ b'r' ∷ []
    else if c == b'\t'
    then b'\\' ∷ b't' ∷ []
    else if ltb c 0x20
    then b'\\' ∷ b'u' ∷ b'0' ∷ b'0' ∷ hex_digit (c / 16) ∷ hex_digit (c % 16) ∷ []
    else c ∷ []

unfoldable pub json_chars : Bytes → Bytes
unfolding json_char
json_chars [] = []
json_chars (c ∷ s) = json_char c ++ json_chars s

unfoldable pub json_string : CString → Bytes
unfolding json_chars
json_string s = b'"' ∷ (json_chars (string_or_empty s) ++ b'"' ∷ [])

-- The byte that stands for the one behind a backslash.
unfoldable pub json_unescape : ℕ → ℕ
json_unescape c =
    if c == b'n' then b'\n' else if c == b'r' then b'\r' else if c == b't' then b'\t' else c

-- The loop of `json_get_string`, up to the closing quote or the end of the text.
unfoldable pub json_scan : Bytes → Bytes
unfolding json_unescape
json_scan [] = []
json_scan (c ∷ []) = if c == b'"' then [] else c ∷ []
json_scan (c ∷ d ∷ s) =
    let escaped = json_unescape d ∷ json_scan s in
    let plain = c ∷ json_scan (d ∷ s) in
    if c == b'"' then [] else if c == b'\\' then escaped else plain

-- `strchr(p, ':')`, and the text behind it.
unfoldable pub after_colon : Bytes → Option Bytes
after_colon [] = none
after_colon (c ∷ s) = if c == b':' then some s else after_colon s

unfoldable pub skip_blanks : Bytes → Bytes
skip_blanks [] = []
skip_blanks (c ∷ s) = if (c == b' ') || (c == b'\t') then skip_blanks s else c ∷ s

unfoldable pub quoted_value : Bytes → Option Bytes
unfolding json_scan
quoted_value [] = none
quoted_value (c ∷ s) = if c == b'"' then some (json_scan s) else none

-- The value behind the first place of the needle and the next colon.
unfoldable pub json_find : Bytes → Bytes → Option Bytes
unfolding split_first after_colon skip_blanks quoted_value
json_find needle text = elim (split_first needle text) [
  | none ↦ none
  | some (before, found) ↦ elim (after_colon (drop (length needle) found)) [
    | none ↦ none
    | some value ↦ quoted_value (skip_blanks value)
  ]
]

-- The needle is the quoted key, in a buffer of 128 bytes.
unfoldable pub json_get_string : Bytes → Bytes → Option Bytes
unfolding json_find
json_get_string text key =
    let needle = b'"' ∷ (key ++ b'"' ∷ []) in
    if leb 128 (length needle) then none else json_find needle text

unfoldable pub json_string_equals : Bytes → Bytes → CString → Bool
json_string_equals text key expected = elim (json_get_string text key) [
  | none ↦ false
  | some value ↦ str_eq value (string_or_empty expected)
]
