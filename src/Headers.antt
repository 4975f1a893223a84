-- ===== src/Headers.antt =====
-- The rules for header files of src/header.c. Success is `none`.
pub mod Places
pub mod Rules
use qstar.Prelude.{
  ℕ, ◌+◌, Bool, true, false, not, ◌&&◌, ◌||◌, List, [], ◌∷◌, ◌++◌, Option, none, some, Bytes,
  CString, string_or_empty, codes, length, leb, ltb, starts_with, if◌then◌else◌,
}
use qstar.Label.{path_max, label_package_path}
use qstar.Paths.{path_is_package_relative, Reason, path_package_relative_reason}
use qstar.Graph.Target.{Target}
use qstar.Graph.State.{Graph}
use qstar.Graph.Lookup.{graph_find_output_owner}
use qstar.Plan.{label_of}

-- `strncmp(path, prefix, strlen(prefix)) == 0 && path[strlen(prefix)]`
unfoldable pub is_below : Bytes → Bytes → Bool
unfolding starts_with
is_below prefix path = starts_with prefix path && ltb (length prefix) (length path)

unfoldable pub is_public_header_root : Target → Bytes → Bool
unfolding label_package_path is_below
is_public_header_root target path = elim (label_package_path (label_of target) path_max) [
  | none ↦ false
  | some [] ↦ is_below (codes "include/") path
  | some (c ∷ dir) ↦
      let prefix = (c ∷ dir) ++ codes "/include/" in
      if leb path_max (length prefix) then false else is_below prefix path
]

-- The errors, with the header and the label of the target.
pub data HeaderError : Type 0 where
  not_relative : Bool → Bytes → Bytes → Reason → HeaderError
  outside_include : Bytes → Bytes → HeaderError

unfoldable pub is_produced : Graph → Bytes → Bool
unfolding graph_find_output_owner
is_produced graph path = elim (graph_find_output_owner graph path) [ none ↦ false | some g ↦ true ]

unfoldable pub validate_header_list : Graph → Target → Bool → List Bytes → Option HeaderError
unfolding path_is_package_relative path_package_relative_reason is_public_header_root is_produced
validate_header_list graph target public_headers [] = none
validate_header_list graph target public_headers (path ∷ list) =
    let rest = validate_header_list graph target public_headers list in
    if not (path_is_package_relative (some path))
    then some (
        not_relative public_headers path (label_of target)
          (path_package_relative_reason (some path)))
    else if public_headers
        && not (is_public_header_root target path)
        && not (is_produced graph path)
    then some (outside_include path (label_of target))
    else rest

unfoldable pub validate_targets_headers : Graph → List Target → Option HeaderError
unfolding validate_header_list
validate_targets_headers graph [] = none
validate_targets_headers graph (t ∷ targets) =
    let rest = validate_targets_headers graph targets in
    elim (validate_header_list graph t true t.public_headers) [
      | some e ↦ some e
      | none ↦ elim (validate_header_list graph t false t.private_headers) [
        | some e ↦ some e
        | none ↦ rest
      ]
    ]

unfoldable pub graph_validate_headers : Graph → Option HeaderError
unfolding validate_targets_headers
graph_validate_headers graph = validate_targets_headers graph graph.targets
