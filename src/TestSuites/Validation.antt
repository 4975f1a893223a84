-- ===== src/TestSuites/Validation.antt =====
-- `qstar_graph_validate_test_suites` of src/test_suite.c.
use qstar.Prelude.{
  ℕ, zero, suc, Bool, false, not, ◌&&◌, ◌||◌, List, [], ◌∷◌, ◌++◌, Option, none, some, Bytes,
  string_or_empty, codes, str_eq, any, all, ◌==◌, if◌then◌else◌, get_elem?, set, map, length,
}
use qstar.Graph.Target.{Target}
use qstar.Graph.State.{Graph, TestSuite}
use qstar.Graph.Lookup.{is_label, find_target, has_target, has_genrule, has_stage, has_config}
use qstar.Plan.{Mark, unvisited, active, finished}
use qstar.TestSuites.{find_test_suite, string_list_contains}

pub data SuiteConflict : Type 0 where
  with_target with_genrule with_stage with_config with_toolset : SuiteConflict

pub data SuiteError : Type 0 where
  label_conflict : Bytes → SuiteConflict → SuiteError
  no_members : Bytes → SuiteError
  bad_tag : Bytes → SuiteError
  duplicate_tag duplicate_member unknown_label not_a_test : Bytes → Bytes → SuiteError
  suite_cycle : ℕ → SuiteError

-- `tag && *tag` and no line break
unfoldable pub tag_valid : Bytes → Bool
unfolding all
tag_valid [] = false
tag_valid (c ∷ tag) = all (λ c. not (c == 10) && not (c == 13)) (c ∷ tag)

unfoldable pub suite_label_conflicts : Graph → TestSuite → Option SuiteConflict
unfolding has_target has_genrule has_stage has_config any is_label
suite_label_conflicts graph suite =
    let label : Bytes = string_or_empty suite.label in
    if has_target graph label
    then some with_target
    else if has_genrule graph label
    then some with_genrule
    else if has_stage graph label
    then some with_stage
    else if has_config graph label
    then some with_config
    else if any (λ t. is_label t.label label) graph.toolsets
    then some with_toolset
    else none

-- The loop over the tags, of which `seen` are behind it.
unfoldable pub check_tags : Bytes → List Bytes → List Bytes → Option SuiteError
unfolding tag_valid string_list_contains
check_tags label seen [] = none
check_tags label seen (tag ∷ tags) =
    let rest : Option SuiteError = check_tags label (seen ++ tag ∷ []) tags in
    if not (tag_valid tag)
    then some (bad_tag label)
    else if string_list_contains seen tag
    then some (duplicate_tag tag label)
    else rest

unfoldable pub is_test_kind : Target → Bool
unfolding str_eq
is_test_kind target =
    str_eq (string_or_empty target.kind) (codes "test")
    || str_eq (string_or_empty target.kind) (codes "run_target")

-- A member that is not there twice.
unfoldable pub check_member : Graph → Bytes → Bytes → Option SuiteError
unfolding find_test_suite find_target is_test_kind
check_member graph label test = elim (find_test_suite graph (some test)) [
  | some nested ↦ none
  | none ↦ elim (find_target graph test) [
    | none ↦ some (unknown_label label test)
    | some target ↦ if is_test_kind target then none else some (not_a_test label test)
  ]
]

unfoldable pub check_members : Graph → Bytes → List Bytes → List Bytes → Option SuiteError
unfolding check_member string_list_contains
check_members graph label seen [] = none
check_members graph label seen (test ∷ tests) =
    let rest : Option SuiteError = check_members graph label (seen ++ test ∷ []) tests in
    if string_list_contains seen test
    then some (duplicate_member test label)
    else elim (check_member graph label test) [ some e ↦ some e | none ↦ rest ]

unfoldable pub check_suite : Graph → TestSuite → Option SuiteError
unfolding suite_label_conflicts check_tags check_members
check_suite graph suite =
    let label : Bytes = string_or_empty suite.label in
    elim (suite_label_conflicts graph suite) [
      | some kind ↦ some (label_conflict label kind)
      | none ↦ elim suite.tests [
        | [] ↦ some (no_members label)
        | t ∷ ts ↦ elim (check_tags label [] suite.tags) [
          | some e ↦ some e
          | none ↦ check_members graph label [] (t ∷ ts)
        ]
      ]
    ]

-- `fault` is a read outside the array of marks.
pub data Checked : Type 0 where
  checked : List Mark → Checked
  cycle_at : ℕ → Checked
  fault out_of_fuel : Checked

module _ (graph : Graph) (visit : ℕ → List Mark → Checked) where
  unfoldable pub visit_members : List Bytes → List Mark → Checked
  unfolding find_test_suite
  visit_members [] state = checked state
  visit_members (t ∷ ts) state = elim (find_test_suite graph (some t)) [
    | none ↦ visit_members ts state
    | some (index, nested) ↦ elim (visit index state) [
      | checked next ↦ visit_members ts next
      | cycle_at k ↦ cycle_at k
      | fault ↦ fault
      | out_of_fuel ↦ out_of_fuel
    ]
  ]

-- `state[index] = 2` at the end
unfoldable pub finish_suite : ℕ → Checked → Checked
finish_suite index (checked state) = checked (set state index finished)
finish_suite index c = c

-- The recursion goes no deeper than there are unvisited suites, which the fuel counts.
unfoldable pub validate_suite_cycle : ℕ → Graph → ℕ → List Mark → Checked
unfolding visit_members finish_suite
validate_suite_cycle zero graph index state = out_of_fuel
validate_suite_cycle (suc fuel) graph index state = elim (get_elem? state index) [
  | none ↦ fault
  | some m ↦ elim m [
    | finished ↦ checked state
    | active ↦ cycle_at index
    | unvisited ↦ elim (get_elem? graph.test_suites index) [
      | none ↦ fault
      | some suite ↦ finish_suite index (
          visit_members graph (validate_suite_cycle fuel graph) suite.tests
            (set state index active))
    ]
  ]
]

-- The loop over all suites, `count` of which are left.
unfoldable pub validate_cycles_from : ℕ → Graph → ℕ → ℕ → List Mark → Checked
unfolding validate_suite_cycle
validate_cycles_from fuel graph index zero state = checked state
validate_cycles_from fuel graph index (suc count) state =
    elim (validate_suite_cycle fuel graph index state) [
      | checked next ↦ validate_cycles_from fuel graph (suc index) count next
      | cycle_at k ↦ cycle_at k
      | fault ↦ fault
      | out_of_fuel ↦ out_of_fuel
    ]

-- The second half of the validation, on marks from `calloc`.
unfoldable pub validate_cycles : Graph → Checked
unfolding validate_cycles_from
validate_cycles graph =
    validate_cycles_from (suc (length graph.test_suites)) graph 0 (length graph.test_suites)
      (map (λ s. unvisited) graph.test_suites)

unfoldable pub check_suites : Graph → List TestSuite → Option SuiteError
unfolding check_suite
check_suites graph [] = none
check_suites graph (s ∷ ss) = elim (check_suite graph s) [
  | some e ↦ some e
  | none ↦ check_suites graph ss
]

pub data Validated : Type 0 where
  valid : Validated
  invalid : SuiteError → Validated
  no_answer : Validated

unfoldable pub validate_test_suites : Graph → Validated
unfolding check_suites validate_cycles
validate_test_suites graph = elim (check_suites graph graph.test_suites) [
  | some e ↦ invalid e
  | none ↦ elim (validate_cycles graph) [
    | checked state ↦ valid
    | cycle_at k ↦ invalid (suite_cycle k)
    | fault ↦ no_answer
    | out_of_fuel ↦ no_answer
  ]
]
