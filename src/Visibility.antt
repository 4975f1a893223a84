-- ===== src/Visibility.antt =====
-- Which targets may depend on a target (src/source.c).
pub mod Patterns
pub mod Rule
use qstar.Prelude.{
  ℕ, ◌-◌, Bool, true, false, ◌&&◌, ◌||◌, List, [], ◌∷◌, Option, none, some, Bytes, codes, length,
  leb, if◌then◌else◌, take, drop, any, str_eq, starts_with,
}
use qstar.Label.{path_max, label_package_path}
use qstar.Graph.Target.{Target}
use qstar.Plan.{label_of}

-- The pattern `//path:...` stands for all targets of a package.
unfoldable pub package_pattern_matches : Bytes → Bytes → Bool
unfolding str_eq
package_pattern_matches pattern consumer_package =
    let n = length pattern in
    if leb 4 n && str_eq (drop (n - 4) pattern) (codes ":...")
    then (if leb path_max (n - 4 - 2)
        then false
        else str_eq (take (n - 4 - 2) (drop 2 pattern)) consumer_package)
    else false

unfoldable pub visibility_pattern_matches : Bytes → Bytes → Bytes → Bool
unfolding str_eq starts_with package_pattern_matches
visibility_pattern_matches pattern consumer_label consumer_package =
    if str_eq pattern (codes "//...")
    then true
    else if str_eq pattern consumer_label
    then true
    else if starts_with (codes "//") pattern
    then package_pattern_matches pattern consumer_package
    else false

unfoldable pub target_visible_to_label : Target → Bytes → Bool
unfolding label_package_path visibility_pattern_matches str_eq any
target_visible_to_label dep consumer_label = elim (label_package_path (label_of dep) path_max) [
  | none ↦ false
  | some dep_package ↦ elim (label_package_path consumer_label path_max) [
    | none ↦ false
    | some consumer_package ↦
        str_eq dep_package consumer_package
        || leb (length dep.visibility) 0
        || any (λ v. visibility_pattern_matches v consumer_label consumer_package) dep.visibility
  ]
]

unfoldable pub target_visible_to : Target → Target → Bool
unfolding target_visible_to_label
target_visible_to dep consumer = target_visible_to_label dep (label_of consumer)
