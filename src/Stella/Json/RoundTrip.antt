-- ===== src/Stella/Json/RoundTrip.antt =====
-- Printing and reading the strings of a JSON text (src/stella_cache.c).
use qstar.Prelude.{
  subst, ◌↔◌, str_eq, ℕ, ◌≤◌, ◌<◌, ◌≡◌, ◌≢◌, refl, ap, ◌∙◌, ◌⊎◌, true, false, [], ◌∷◌, ◌++◌,
  append_assoc, Option, none, some, Bytes, CString, string_or_empty, All, arith, length,
  split_first, starts_with, drop, leb, str_eq_iff, drop-append, length-append,
}
use qstar.Stella.Json.{
  json_char, json_chars, json_string, json_scan, after_colon, skip_blanks, quoted_value, json_find,
  json_get_string, json_string_equals,
}

-- A byte that `json_string` does not print as \\u00xx.
abbrev pub IsPlain : ℕ → Type 0
IsPlain c = (0x20 ≤ c) ⊎ ((c ≡ b'\n') ⊎ ((c ≡ b'\r') ⊎ (c ≡ b'\t')))

json_scan-json_char :
    (c : ℕ) (rest : Bytes)
    → IsPlain c
    → rest ≢ []
    → json_scan (json_char c ++ rest) ≡ c ∷ json_scan rest
unfolding json_scan json_char
json_scan-json_char c [] h n = absurd (n refl)
json_scan-json_char c (d ∷ rest) h n = ground arith

append-ne-nil : (xs : Bytes) (y : ℕ) (ys : Bytes) → xs ++ y ∷ ys ≢ []
append-ne-nil [] y ys h = cc
append-ne-nil (x ∷ xs) y ys h = cc

json_scan-quote : (rest : Bytes) → json_scan (b'"' ∷ rest) ≡ []
unfolding json_scan
json_scan-quote [] = refl
json_scan-quote (d ∷ rest) = refl

pub json_scan-json_chars :
    (s rest : Bytes) → All IsPlain s → json_scan (json_chars s ++ b'"' ∷ rest) ≡ s
unfolding json_chars
json_scan-json_chars [] rest h = json_scan-quote rest
json_scan-json_chars (c ∷ s) rest (hc, hs) = rw append_assoc (
    json_scan-json_char c (json_chars s ++ b'"' ∷ rest) hc (append-ne-nil (json_chars s) b'"' rest)
    ∙ ap (◌∷◌ c) (json_scan-json_chars s rest hs))

starts_with-append : (xs ys : Bytes) → starts_with xs (xs ++ ys) ≡ true
unfolding starts_with
starts_with-append [] ys = refl
starts_with-append (x ∷ xs) ys = ground (arith, starts_with-append xs ys)

split_first-append :
    (n : ℕ) (needle rest : Bytes)
    → split_first (n ∷ needle) ((n ∷ needle) ++ rest) ≡ some ([], (n ∷ needle) ++ rest)
unfolding split_first
split_first-append n needle rest = rw (split_first, starts_with-append (n ∷ needle) rest)

-- The needle stands nowhere in `before ++ text` at a place in `before`.
abbrev pub IsAbsent : Bytes → Bytes → Bytes → Type 0
IsAbsent needle [] text = Unit {0}
IsAbsent needle (c ∷ before) text =
    (starts_with needle (c ∷ (before ++ text)) ≡ false) × IsAbsent needle before text

split_first-first :
    (n : ℕ) (needle before rest : Bytes)
    → IsAbsent (n ∷ needle) before ((n ∷ needle) ++ rest)
    → split_first (n ∷ needle) (before ++ ((n ∷ needle) ++ rest))
      ≡ some (before, (n ∷ needle) ++ rest)
unfolding split_first
split_first-first n needle [] rest h = split_first-append n needle rest
split_first-first n needle (c ∷ before) rest (hc, h) =
    rw (split_first, hc, split_first-first n needle before rest h) refl

-- A key in its quotes, as `json_get_string` looks for it.
abbrev pub quoted_key : Bytes → Bytes
quoted_key key = b'"' ∷ (key ++ b'"' ∷ [])

-- A member of a JSON object, as `write_manifest` prints it.
abbrev pub json_member : Bytes → CString → Bytes
json_member key s = quoted_key key ++ b':' ∷ json_string s

json_find-quoted :
    (n : ℕ) (needle before value : Bytes)
    → IsAbsent (n ∷ needle) before ((n ∷ needle) ++ b':' ∷ b'"' ∷ value)
    → json_find (n ∷ needle) (before ++ ((n ∷ needle) ++ b':' ∷ b'"' ∷ value))
      ≡ some (json_scan value)
unfolding json_find
json_find-quoted n needle before value h =
    rw (json_find, split_first-first n needle before (b':' ∷ b'"' ∷ value) h)
      (found (drop (length needle) (needle ++ b':' ∷ b'"' ∷ value))
        (drop-append needle (b':' ∷ b'"' ∷ value)))
  where
    found :
        (rest : Bytes)
        → rest ≡ b':' ∷ b'"' ∷ value
        → ◌≡◌ {A = Option Bytes}
            (elim (after_colon rest) [ none ↦ none | some v ↦ quoted_value (skip_blanks v) ])
            (some (json_scan value))
    found rest e = rw e

short_needle :
    (key : Bytes) → length key < 126 → leb 128 (length (b'"' ∷ (key ++ b'"' ∷ []))) ≡ false
short_needle key h = ground (arith, length-append key (b'"' ∷ []))

json_get_string-quoted :
    (key before value : Bytes)
    → length key < 126
    → IsAbsent (quoted_key key) before (quoted_key key ++ b':' ∷ b'"' ∷ value)
    → json_get_string (before ++ (quoted_key key ++ b':' ∷ b'"' ∷ value)) key
      ≡ some (json_scan value)
unfolding json_get_string
json_get_string-quoted key before value h absent =
    rw (short_needle key h) (json_find-quoted b'"' (key ++ b'"' ∷ []) before value absent)

member-read :
    (key s before rest : Bytes)
    → length key < 126
    → IsAbsent (quoted_key key) before (json_member key (some s) ++ rest)
    → All IsPlain s
    → json_get_string (before ++ (json_member key (some s) ++ rest)) key ≡ some s
unfolding json_string
member-read key s before rest h absent plain =
    let chars = json_chars s in
    let text = append_assoc (quoted_key key) (b':' ∷ b'"' ∷ (chars ++ b'"' ∷ [])) rest in
    ap (λ t. json_get_string (before ++ t) key) text
    ∙ json_get_string-quoted key before ((chars ++ b'"' ∷ []) ++ rest) h
        (subst (IsAbsent (quoted_key key) before) text absent)
    ∙ ap some
        (ap json_scan (append_assoc chars (b'"' ∷ []) rest) ∙ json_scan-json_chars s rest plain)

equals-read :
    (text key value : Bytes) (expected : CString)
    → json_get_string text key ≡ some value
    → json_string_equals text key expected ≡ str_eq value (string_or_empty expected)
unfolding json_string_equals
equals-read text key value expected e = rw (json_string_equals, e)

-- In a text where the quoted key, of at most 125 bytes, stands first in the member that was printed for
-- it, a string without control characters other than newline, carriage return and tab is read back; and
-- the comparison of the member with a string succeeds exactly if it is that one (NULL counts as empty).
pub json_get_string-json_string :
    (key s before rest : Bytes) (expected : CString)
    → length key < 126
    → IsAbsent (quoted_key key) before (json_member key (some s) ++ rest)
    → All IsPlain s
    → (json_get_string (before ++ (json_member key (some s) ++ rest)) key ≡ some s)
      × ((json_string_equals (before ++ (json_member key (some s) ++ rest)) key expected ≡ true)
          ↔ (s ≡ string_or_empty expected))
json_get_string-json_string key s before rest expected h absent plain =
    let same = member-read key s before rest h absent plain in
    (same, rw (equals-read _ key s expected same) (str_eq_iff s (string_or_empty expected)))
