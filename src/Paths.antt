-- ===== src/Paths.antt =====
-- Paths in a package (src/graph.c): a directory's name, joining, the relative path between two
-- directories, and which paths are package-relative. A result of -1 is `none`.
pub mod Relative
pub mod Refusals
pub mod Join
pub mod Text
pub mod Between
pub mod Leads
use qstar.Prelude.{
  ℕ, zero, suc, ◌+◌, Bool, true, false, not, ◌&&◌, ◌||◌, List, [], ◌∷◌, ◌++◌, Option, none, some,
  Bytes, CString, string_or_empty, codes, length, leb, ltb, ◌==◌, if◌then◌else◌, starts_with,
  contains, has_char, split_last, str_eq, head_is,
}
use mathlib.Core.Option
use qstar.Label.{path_max}

unfoldable pub dirname : Bytes → ℕ → Option Bytes
unfolding split_last
dirname path dstlen = elim (split_last b'/' path) [
  | none ↦ if ltb dstlen 2 then none else some (codes ".")
  | some ([], behind) ↦ if ltb dstlen 2 then none else some (codes "/")
  | some (c ∷ dir, behind) ↦ if ltb dstlen (length (c ∷ dir) + 1) then none else some (c ∷ dir)
]

unfoldable pub path_join : CString → Bytes → ℕ → Option Bytes
unfolding str_eq
path_join a b dstlen =
    let dir = string_or_empty a in
    if str_eq dir [] || str_eq dir (codes ".")
    then (if ltb dstlen (length b + 1) then none else some b)
    else if ltb dstlen (length dir + 1 + length b + 1)
    then none
    else some (dir ++ b'/' ∷ b)

-- The loops of `split_path_components`, with the slots that are free and the part that was begun.
unfoldable pub split_from : ℕ → Bytes → Bytes → Option (List Bytes)
split_from free [] [] = some []
split_from free (p ∷ part) [] = some ((p ∷ part) ∷ [])
split_from free [] (c ∷ s) =
    let skipped = split_from free [] s in
    if c == b'/'
    then skipped
    else elim free [ zero ↦ none | suc fewer ↦ split_from fewer (c ∷ []) s ]
split_from free (p ∷ part) (c ∷ s) =
    let next = split_from free [] s in
    let longer = split_from free ((p ∷ part) ++ c ∷ []) s in
    if c == b'/' then Option.map (◌∷◌ (p ∷ part)) next else longer

unfoldable pub split_path_components : Bytes → ℕ → Option (List Bytes)
unfolding split_from str_eq
split_path_components path cap =
    if str_eq path [] || str_eq path (codes ".") then some [] else split_from cap [] path

unfoldable pub append_relative_component : ℕ → Bytes → Bytes → Option Bytes
append_relative_component dstlen dst part =
    let separator = if leb 1 (length dst) then b'/' ∷ [] else [] in
    if ltb dstlen (length dst + length separator + length part + 1)
    then none
    else some (dst ++ (separator ++ part))

unfoldable pub append_components : ℕ → Bytes → List Bytes → Option Bytes
unfolding append_relative_component
append_components dstlen dst [] = some dst
append_components dstlen dst (part ∷ parts) = elim (append_relative_component dstlen dst part) [
  | none ↦ none
  | some longer ↦ append_components dstlen longer parts
]

-- What the two directories have behind their common components.
unfoldable pub behind_common : List Bytes → List Bytes → List Bytes × List Bytes
unfolding str_eq
behind_common [] ts = ([], ts)
behind_common (f ∷ fs) [] = (f ∷ fs, [])
behind_common (f ∷ fs) (t ∷ ts) =
    let deeper = behind_common fs ts in if str_eq f t then deeper else (f ∷ fs, t ∷ ts)

-- One `..` for each component.
unfoldable pub parent_steps : List Bytes → List Bytes
parent_steps [] = []
parent_steps (f ∷ fs) = codes ".." ∷ parent_steps fs

abbrev pub dir_or_dot : CString → Bytes
dir_or_dot none = codes "."
dir_or_dot (some s) = s

-- The end of `qstar_path_relative_between_dirs`, from the components on.
unfoldable pub relative_between : List Bytes → List Bytes → ℕ → Option Bytes
unfolding append_components behind_common parent_steps
relative_between from to dstlen =
    let (up, down) = behind_common from to in
    elim (append_components dstlen [] (parent_steps up ++ down)) [
      | none ↦ none
      | some [] ↦ if ltb dstlen 2 then none else some (codes ".")
      | some (c ∷ s) ↦ some (c ∷ s)
    ]

unfoldable pub path_relative_between_dirs : CString → CString → ℕ → Option Bytes
unfolding split_path_components relative_between
path_relative_between_dirs from_dir to_dir dstlen =
    let from = dir_or_dot from_dir in
    let to = dir_or_dot to_dir in
    if leb 1 dstlen && ltb (length from) path_max && ltb (length to) path_max
    then (elim (split_path_components from 128) [
      | none ↦ none
      | some from_parts ↦ elim (split_path_components to 128) [
        | none ↦ none
        | some to_parts ↦ relative_between from_parts to_parts dstlen
      ]
    ])
    else none

-- `isalpha`, in the C locale
unfoldable pub is_alpha : ℕ → Bool
is_alpha c = (leb b'A' c && leb c b'Z') || (leb b'a' c && leb c b'z')

unfoldable pub has_drive : Bytes → Bool
unfolding is_alpha
has_drive (c ∷ d ∷ s) = is_alpha c && (d == b':')
has_drive _ = false

unfoldable pub path_is_package_relative : CString → Bool
unfolding head_is has_drive has_char str_eq starts_with contains
path_is_package_relative path =
    let p = string_or_empty path in
    not (str_eq p [] || head_is b'/' p)
    && not (has_drive p)
    && not (has_char b'\\' p || has_char b':' p)
    && not (str_eq p (codes ".") || str_eq p (codes ".."))
    && not (
        starts_with (codes "../") p
        || contains (codes "/../") p
        || contains (codes "/./") p
        || contains (codes "//") p)

-- The texts of `qstar_path_package_relative_reason`.
pub data Reason : Type 0 where
  empty absolute drive_letter backslash colon parent_directory current_directory : Reason
  duplicate_separator package_relative : Reason

unfoldable pub path_package_relative_reason : CString → Reason
unfolding head_is has_drive has_char str_eq starts_with contains
path_package_relative_reason path =
    let p = string_or_empty path in
    if str_eq p []
    then empty
    else if head_is b'/' p
    then absolute
    else if has_drive p
    then drive_letter
    else if has_char b'\\' p
    then backslash
    else if has_char b':' p
    then colon
    else if str_eq p (codes ".")
        || str_eq p (codes "..")
        || starts_with (codes "../") p
        || contains (codes "/../") p
    then parent_directory
    else if contains (codes "/./") p
    then current_directory
    else if contains (codes "//") p
    then duplicate_separator
    else package_relative
