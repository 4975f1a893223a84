-- ===== src/Samples/Labels.antt =====
-- Labels, paths and headers, with the instances of the theorems about them.
use qstar.Prelude.{
  ◌++◌, ◌+◌, ◌≡◌, ◌↔◌, ◌<◌, refl, inr, true, List, [], ◌∷◌, none, some, Bytes, codes, length, ltb,
  arith, if◌then◌else◌,
}
use mathlib.Core.List.{Permᴰ}
use qstar.Graph.State.{Graph}
use qstar.Label.{valid_span, label_canonicalize, label_package_alias, label_package_path}
use qstar.Label.Canonical.{IsCanonical}
use qstar.Label.Sound.{label_canonicalize-IsCanonical}
use qstar.Label.Complete.{IsCanonical-label_canonicalize, label_package-IsCanonical}
use qstar.Paths.{
  split_path_components, path_relative_between_dirs, path_is_package_relative,
  path_package_relative_reason, package_relative,
}
use qstar.Paths.Leads.{walk, path_relative_between_dirs-walk}
use qstar.Paths.Relative.{is_package_relative-reason}
use qstar.Paths.{dirname, path_join}
use qstar.Paths.Join.{dirname-path_join}
use qstar.Headers.{graph_validate_headers}
use qstar.Plan.{sort_indices}
use qstar.Plan.Ascending.{IsAscending, sort_indices-IsAscending}
use qstar.Samples.{layered, with_targets, bare_target}

local_label : label_canonicalize (codes ":lib") (some (codes "a/b")) 64 ≡ some (codes "//a/b:lib")
unfolding label_canonicalize
local_label = refl

bad_label : label_canonicalize (codes "//a b:lib") none 64 ≡ none
unfolding label_canonicalize
bad_label = refl

label_canonicalize-IsCanonical_example :
    IsCanonical (codes "//a/b:lib") × (length (codes "//a/b:lib") < 64)
unfolding label_canonicalize valid_span
label_canonicalize-IsCanonical_example =
    label_canonicalize-IsCanonical (codes ":lib") (codes "//a/b:lib") (some (codes "a/b")) 64
      (inr (refl, omega arith)) refl

external_label : IsCanonical (codes "@zlib//src:z")
unfolding valid_span
external_label = record {
  alias = codes "@zlib";
  path = codes "src";
  name = codes "z";
  text = refl;
  alias_ok = (refl, refl, omega arith);
  path_ok = inr (refl, omega arith);
  name_ok = refl;
}

IsCanonical-label_canonicalize_example :
    label_canonicalize (codes "@zlib//src:z") (some (codes "a")) 64 ≡ some (codes "@zlib//src:z")
IsCanonical-label_canonicalize_example =
    IsCanonical-label_canonicalize (codes "@zlib//src:z") (some (codes "a")) 64 external_label
      (omega arith)

label_package-IsCanonical_example :
    (label_package_alias (codes "@zlib//src:z") 64 ≡ some (codes "@zlib"))
    × (label_package_path (codes "@zlib//src:z") 64 ≡ none)
unfolding external_label
label_package-IsCanonical_example =
    label_package-IsCanonical (codes "@zlib//src:z") 64 external_label (omega arith)

between_dirs :
    path_relative_between_dirs (some (codes "src/a")) (some (codes "src/b/c")) 64
    ≡ some (codes "../b/c")
unfolding path_relative_between_dirs
between_dirs = refl

path_relative_between_dirs-walk_example :
    (rel : Bytes) × (rs : List Bytes) × (path_relative_between_dirs
        (some (codes "src/a"))
        (some (codes "src/b/c"))
        64
      ≡ (if ltb (length rel) 64 then some rel else none))
    × (split_path_components rel 256 ≡ some rs)
    × (walk [] ((codes "src" ∷ codes "a" ∷ []) ++ rs) ≡ codes "src" ∷ codes "b" ∷ codes "c" ∷ [])
unfolding split_path_components
path_relative_between_dirs-walk_example =
    path_relative_between_dirs-walk (codes "src/a") (codes "src/b/c") (codes "src" ∷ codes "a" ∷ [])
      (codes "src" ∷ codes "b" ∷ codes "c" ∷ []) 64 (omega arith) (omega arith) (omega arith) refl
      refl
      (
        (λ e. ground (arith, e), λ e. ground (arith, e)),
        ((λ e. ground (arith, e), λ e. ground (arith, e)), tt),
      )
      (
        (λ e. ground (arith, e), λ e. ground (arith, e)),
        (
          (λ e. ground (arith, e), λ e. ground (arith, e)),
          ((λ e. ground (arith, e), λ e. ground (arith, e)), tt),
        ),
      )

-- `./..` is the parent directory, and passes the test.
parent_passes : path_is_package_relative (some (codes "./..")) ≡ true
unfolding path_is_package_relative
parent_passes = refl

is_package_relative-reason_example :
    (path_is_package_relative (some (codes "a//b")) ≡ true)
    ↔ (path_package_relative_reason (some (codes "a//b")) ≡ package_relative)
is_package_relative-reason_example = is_package_relative-reason (some (codes "a//b"))

-- A library with a public header in its place, and a private one.
abbrev with_headers : Graph
with_headers = with_targets (
    record (bare_target (codes "//lib:lib")) {
      public_headers = codes "lib/include/l.h" ∷ [];
      private_headers = codes "lib/src/p.h" ∷ [];
    }
    ∷ [])

headers_pass : graph_validate_headers with_headers ≡ none
unfolding graph_validate_headers
headers_pass = refl

sort_indices-IsAscending_example :
    IsAscending layered (sort_indices layered (0 ∷ 1 ∷ 2 ∷ []))
    × Permᴰ (sort_indices layered (0 ∷ 1 ∷ 2 ∷ [])) (0 ∷ 1 ∷ 2 ∷ [])
sort_indices-IsAscending_example = sort_indices-IsAscending layered (0 ∷ 1 ∷ 2 ∷ [])

dirname-path_join_example :
    (path_join (some (codes "src")) (codes "a.c") 64 ≡ (
      if ltb (length (codes "src") + 1 + length (codes "a.c")) 64
      then some (codes "src/a.c")
      else none))
    × (dirname (codes "src/a.c") 64
        ≡ (if ltb (length (codes "src")) 64 then some (codes "src") else none))
dirname-path_join_example =
    dirname-path_join b's' (codes "rc") (codes "a.c") 64 (λ e. ground (arith, e))
      (omega arith, (omega arith, (omega arith, tt)))
