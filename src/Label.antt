-- ===== src/Label.antt =====
-- Labels (src/label.c): `:name`, `//path:name` and `@package//path:name`. A result of -1 is `none`,
-- and a result of 0 is what the function left in `dst`.
pub mod Split
pub mod Canonical
pub mod Sound
pub mod Complete
use qstar.Prelude.{
  ℕ, ◌+◌, Bool, true, false, ◌&&◌, ◌||◌, List, [], ◌∷◌, ◌++◌, Option, none, some, Bytes, CString,
  codes, length, leb, ltb, ◌==◌, if◌then◌else◌, starts_with, split_first, split_last,
}

-- QSTAR_PATH_MAX
abbrev pub path_max : ℕ
path_max = 4096

unfoldable pub valid_name_char : ℕ → Bool
valid_name_char c =
    (leb b'A' c && leb c b'Z')
    || (leb b'a' c && leb c b'z')
    || (leb b'0' c && leb c b'9')
    || (c == b'_')
    || (c == b'-')
    || (c == b'.')

unfoldable pub valid_path_char : ℕ → Bool
unfolding valid_name_char
valid_path_char c = valid_name_char c || (c == b'/')

-- The loop of `valid_span`, with the test that `path` selects.
unfoldable pub all_chars : (ℕ → Bool) → Bytes → Bool
all_chars p [] = true
all_chars p (c ∷ s) = p c && all_chars p s

unfoldable pub valid_span : Bool → Bytes → Bool
unfolding valid_name_char valid_path_char all_chars
valid_span path [] = false
valid_span path (c ∷ s) = all_chars (if path then valid_path_char else valid_name_char) (c ∷ s)

-- `snprintf(dst, dstlen, "%s", s) < (int)dstlen`
unfoldable pub print_to : ℕ → Bytes → Option Bytes
print_to dstlen s = if ltb (length s) dstlen then some s else none

-- The part of `qstar_label_canonicalize` for a label `:name`.
unfoldable pub canonicalize_local : Bytes → CString → ℕ → Option Bytes
unfolding valid_span print_to
canonicalize_local name fragment_dir dstlen =
    if valid_span false name
    then print_to dstlen (elim fragment_dir [
      | none ↦ codes "//:" ++ name
      | some [] ↦ codes "//:" ++ name
      | some (c ∷ dir) ↦ codes "//" ++ ((c ∷ dir) ++ (codes ":" ++ name))
    ])
    else none

-- The part behind the `//`: the text in front of the last colon is a path, or empty.
unfoldable pub canonicalize_rest : Bytes → Bytes → ℕ → Option Bytes
unfolding valid_span print_to split_last
canonicalize_rest label rest dstlen = elim (split_last b':' rest) [
  | none ↦ none
  | some (path, name) ↦
      if valid_span false name
      then (elim path [
        | [] ↦ print_to dstlen label
        | c ∷ p ↦
            if leb path_max (length (c ∷ p))
            then none
            else if valid_span true (c ∷ p)
            then print_to dstlen label
            else none
      ])
      else none
]

-- The package name in front of `//` is copied to a buffer of QSTAR_PATH_MAX bytes with no test of
-- its length: a longer one is undefined behaviour, and `none` here.
unfoldable pub canonicalize_external : Bytes → ℕ → Option Bytes
unfolding split_first valid_span canonicalize_rest
canonicalize_external label dstlen = elim (split_first (codes "//") label) [
  | none ↦ none
  | some ([], rest) ↦ none
  | some (at ∷ pkg, []) ↦ none
  | some (at ∷ pkg, s ∷ []) ↦ none
  | some (at ∷ pkg, s ∷ t ∷ rest) ↦
      if ltb (length pkg) path_max && valid_span false pkg
      then canonicalize_rest label rest dstlen
      else none
]

-- A label that begins with neither `:` nor `@` has to begin with `//`.
unfoldable pub canonicalize_root : Bytes → ℕ → Option Bytes
unfolding canonicalize_rest
canonicalize_root (c ∷ d ∷ rest) dstlen =
    if (c == b'/') && (d == b'/') then canonicalize_rest (c ∷ d ∷ rest) rest dstlen else none
canonicalize_root _ dstlen = none

unfoldable pub label_canonicalize : Bytes → CString → ℕ → Option Bytes
unfolding canonicalize_local canonicalize_external canonicalize_root
label_canonicalize [] fragment_dir dstlen = none
label_canonicalize (c ∷ s) fragment_dir dstlen =
    if c == b':'
    then canonicalize_local s fragment_dir dstlen
    else if c == b'@'
    then canonicalize_external (c ∷ s) dstlen
    else canonicalize_root (c ∷ s) dstlen

-- The package alias of an external label.
unfoldable pub label_package_alias : Bytes → ℕ → Option Bytes
unfolding split_first
label_package_alias [] dstlen = none
label_package_alias (c ∷ s) dstlen =
    if c == b'@'
    then (elim (split_first (codes "//") (c ∷ s)) [
      | none ↦ none
      | some ([], rest) ↦ none
      | some (d ∷ alias, rest) ↦
          if ltb dstlen (length (d ∷ alias) + 1) then none else some (d ∷ alias)
    ])
    else none

-- The package path of a canonical label of this package.
unfoldable pub label_package_path : Bytes → ℕ → Option Bytes
unfolding starts_with split_last
label_package_path (s ∷ t ∷ start) dstlen =
    if starts_with (codes "//") (s ∷ t ∷ start) && ltb 0 dstlen
    then (elim (split_last b':' start) [
      | none ↦ none
      | some (path, name) ↦ if ltb dstlen (length path + 1) then none else some path
    ])
    else none
label_package_path _ dstlen = none
