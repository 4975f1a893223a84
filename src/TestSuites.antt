-- ===== src/TestSuites.antt =====
-- The test suites of src/test_suite.c: their declaration, and the tests that a suite stands for.
pub mod Leaves
pub mod Resolving
pub mod Members
pub mod Validation
pub mod Grounds
pub mod Cycles
pub mod Acyclic
pub mod Selecting
pub mod Chosen
pub mod Tags
pub mod Choice
pub mod Memberships
use qstar.Prelude.{
  ℕ, ℤ, pos, zero, suc, Bool, true, false, not, ◌&&◌, ◌||◌, List, [], ◌∷◌, ◌++◌, Option, none, some,
  Bytes, CString, string_or_empty, present, str_eq, any, all, ◌==◌, if◌then◌else◌, get_or, set, map,
}
use qstar.Graph.State.{Graph, TestSuite}
use qstar.Graph.Lookup.{is_label}

-- A pointer into `test_suites`: the position and the element it points to.
abbrev pub SuiteRef : Type 0
SuiteRef = ℕ × TestSuite

unfoldable pub suite_from : ℕ → List TestSuite → Bytes → Option SuiteRef
unfolding is_label
suite_from i [] label = none
suite_from i (s ∷ ss) label = elim (is_label s.label label) [
  | true ↦ some (i, s)
  | false ↦ suite_from (suc i) ss label
]

unfoldable pub find_test_suite : Graph → CString → Option SuiteRef
unfolding suite_from
find_test_suite graph none = none
find_test_suite graph (some label) = suite_from 0 graph.test_suites label

-- Memory does not run out.
unfoldable pub add_test_suite :
    Graph → CString → CString → CString → CString → ℤ → Option (Graph × TestSuite)
unfolding find_test_suite
add_test_suite graph label name fragment_dir origin_file origin_line =
    let suite : TestSuite = record {
      label = some (string_or_empty label);
      name = some (string_or_empty name);
      fragment_dir = some (string_or_empty fragment_dir);
      origin_file = some (string_or_empty origin_file);
      origin_line = origin_line;
      description = some [];
      manual = pos 0;
      tests = [];
      tags = [];
    } in
    if present label && present name
    then (elim (find_test_suite graph label) [
      | some s ↦ none
      | none ↦ some (record graph { test_suites = graph.test_suites ++ suite ∷ [] }, suite)
    ])
    else none

unfoldable pub string_list_contains : List Bytes → Bytes → Bool
unfolding any str_eq
string_list_contains list value = any (λ s. str_eq s value) list

unfoldable pub push_unique : List Bytes → Bytes → List Bytes
unfolding string_list_contains
push_unique list value = if string_list_contains list value then list else list ++ value ∷ []

-- The members of `struct qstar_test_options` that choose tests.
pub record Selection : Type 0 where
  pub suites : List CString
  pub tags : List Bytes
  pub exclude_tags : List Bytes

unfoldable pub option_tag_matches : List Bytes → TestSuite → Bool
unfolding any string_list_contains
option_tag_matches tags suite = any (λ tag. string_list_contains suite.tags tag) tags

unfoldable pub suite_is_excluded : TestSuite → Option Selection → Bool
unfolding option_tag_matches
suite_is_excluded suite none = false
suite_is_excluded suite (some options) = option_tag_matches options.exclude_tags suite

-- `cyclic` is the -1 of a suite that is on the stack already.
pub data Resolved : Type 0 where
  resolved : List Bytes → Resolved
  cyclic out_of_fuel : Resolved

module _ (graph : Graph) (resolve : SuiteRef → List Bytes → Resolved) where
  -- The loop over the members of a suite.
  unfoldable pub resolve_members : List Bytes → List Bytes → Resolved
  unfolding find_test_suite push_unique
  resolve_members [] labels = resolved labels
  resolve_members (t ∷ ts) labels = elim (find_test_suite graph (some t)) [
    | none ↦ resolve_members ts (push_unique labels t)
    | some nested ↦ elim (resolve nested labels) [
      | resolved more ↦ resolve_members ts more
      | cyclic ↦ cyclic
      | out_of_fuel ↦ out_of_fuel
    ]
  ]

-- A call takes its mark in `stack` back before it returns, so the array is an argument. The recursion
-- goes no deeper than there are suites without a mark, which the fuel counts.
unfoldable pub resolve_suite_recursive :
    ℕ → Graph → Option Selection → List Bool → SuiteRef → List Bytes → Resolved
unfolding suite_is_excluded resolve_members
resolve_suite_recursive zero graph options stack suite labels = out_of_fuel
resolve_suite_recursive (suc fuel) graph options stack (index, suite) labels =
    elim (suite_is_excluded suite options) [
      | true ↦ resolved labels
      | false ↦ elim (get_or stack index true) [
        | true ↦ cyclic
        | false ↦
            resolve_members graph
              (resolve_suite_recursive fuel graph options (set stack index true)) suite.tests labels
      ]
    ]

-- `calloc` of the marks.
unfoldable pub resolve_test_suite_members :
    ℕ → Graph → SuiteRef → Option Selection → List Bytes → Resolved
unfolding resolve_suite_recursive
resolve_test_suite_members fuel graph suite options labels =
    resolve_suite_recursive fuel graph options (map (λ s. false) graph.test_suites) suite labels
