-- ===== src/TestSuites/Selecting.antt =====
-- The selection of tests by suites and tags, and the suites of a test (src/test_suite.c). The sort of
-- the pointers to the suites, `qsort` by label, is an argument.
use qstar.Prelude.{
  ℕ, nonzero, suc, Bool, true, false, not, ◌&&◌, ◌||◌, List, [], ◌∷◌, ◌++◌, Option, none, some,
  Bytes, CString, string_or_empty, present, all, if◌then◌else◌,
}
use qstar.Graph.State.{Graph, TestSuite}
use qstar.Label.{label_canonicalize, path_max}
use qstar.TestSuites.{
  SuiteRef, find_test_suite, string_list_contains, Selection, option_tag_matches, suite_is_excluded,
  Resolved, resolved, cyclic, out_of_fuel, resolve_test_suite_members,
}
use qstar.TestSuites.Validation.{tag_valid}

-- `sorted[i] = &graph->test_suites[i]`, from `start`
unfoldable pub refs_from : ℕ → List TestSuite → List SuiteRef
refs_from start [] = []
refs_from start (s ∷ ss) = (start, s) ∷ refs_from (suc start) ss

pub data Selected : Type 0 where
  selected : List Bytes → Selected
  bad_tag bad_exclude_tag empty_suite : Selected
  invalid_label unknown_suite : Bytes → Selected
  unresolved : CString → Selected

abbrev pub is_empty : List Bytes → Bool
is_empty [] = true
is_empty (_ ∷ _) = false

-- The labels with the members of a suite, for the loop that goes on.
unfoldable pub and_then : CString → Resolved → (List Bytes → Selected) → Selected
and_then label (resolved labels) next = next labels
and_then label cyclic next = unresolved label
and_then label out_of_fuel next = unresolved label

module _ (fuel : ℕ) (graph : Graph) (options : Selection) where
  -- The loop over the suites that are named.
  unfoldable pub select_named : List CString → List Bytes → Selected
  unfolding find_test_suite label_canonicalize resolve_test_suite_members and_then
  select_named [] labels = selected labels
  select_named (name ∷ names) labels =
      if not (present name)
      then empty_suite
      else elim (label_canonicalize (string_or_empty name) (some []) path_max) [
        | none ↦ invalid_label (string_or_empty name)
        | some canonical ↦ elim (find_test_suite graph (some canonical)) [
          | none ↦ unknown_suite canonical
          | some suite ↦
              and_then (some canonical)
                (resolve_test_suite_members fuel graph suite (some options) labels)
                (select_named names)
        ]
      ]

  unfoldable pub is_chosen : TestSuite → Bool
  unfolding suite_is_excluded option_tag_matches
  is_chosen suite =
      not (nonzero suite.manual || suite_is_excluded suite (some options))
      && (is_empty options.tags || option_tag_matches options.tags suite)

  -- The loop over all suites, in their order.
  unfoldable pub select_chosen : List SuiteRef → List Bytes → Selected
  unfolding is_chosen resolve_test_suite_members and_then
  select_chosen [] labels = selected labels
  select_chosen (suite ∷ suites) labels =
      if is_chosen suite.1
      then and_then suite.1.label
          (resolve_test_suite_members fuel graph suite (some options) labels) (select_chosen suites)
      else select_chosen suites labels

unfoldable pub resolve_test_selection :
    ℕ → (List SuiteRef → List SuiteRef) → Graph → Option Selection → List Bytes → Selected
unfolding all tag_valid refs_from select_named select_chosen
resolve_test_selection fuel sort graph none labels = selected labels
resolve_test_selection fuel sort graph (some options) labels =
    if not (all tag_valid options.tags)
    then bad_tag
    else if not (all tag_valid options.exclude_tags)
    then bad_exclude_tag
    else elim (select_named fuel graph options options.suites labels) [
      | selected named ↦
          if is_empty options.tags && is_empty options.exclude_tags
          then selected named
          else select_chosen fuel graph options (sort (refs_from 0 graph.test_suites)) named
      | e ↦ e
    ]

-- The suites that hold a test themselves, and those that it is a leaf of. Both lists are wanted: no
-- caller passes NULL for one.
pub record Memberships : Type 0 where
  pub direct : List Bytes
  pub transitive : List Bytes

-- `qstar_string_list_push` of the label, if the test is there.
unfoldable pub push_if : List Bytes → Bytes → List Bytes → TestSuite → List Bytes
unfolding string_list_contains
push_if tests target_label list suite =
    if string_list_contains tests target_label
    then list ++ string_or_empty suite.label ∷ []
    else list

unfoldable pub collect_from : ℕ → Graph → Bytes → List SuiteRef → Memberships → Option Memberships
unfolding resolve_test_suite_members push_if
collect_from fuel graph target_label [] m = some m
collect_from fuel graph target_label ((index, suite) ∷ suites) m =
    elim (resolve_test_suite_members fuel graph (index, suite) none []) [
      | resolved members ↦ collect_from fuel graph target_label suites (record {
        direct = push_if suite.tests target_label m.direct suite;
        transitive = push_if members target_label m.transitive suite;
      })
      | cyclic ↦ none
      | out_of_fuel ↦ none
    ]

unfoldable pub collect_test_suite_memberships :
    ℕ → (List SuiteRef → List SuiteRef) → Graph → Bytes → Memberships → Option Memberships
unfolding collect_from refs_from
collect_test_suite_memberships fuel sort graph target_label m =
    collect_from fuel graph target_label (sort (refs_from 0 graph.test_suites)) m
