-- ===== src/Samples/Suites.antt =====
-- Runs of the validation and the resolution of test suites (src/test_suite.c).
use qstar.Prelude.{
  ℕ, pos, ◌≡◌, ◌⊎◌, refl, List, [], ◌∷◌, Option, none, some, Bytes, codes, arith, length, ◌<◌,
}
use qstar.Graph.Target.{Target}
use qstar.Graph.State.{Graph, TestSuite}
use qstar.Plan.{Mark}
use qstar.TestSuites.{find_test_suite, Selection, resolved, cyclic, resolve_test_suite_members}
use qstar.TestSuites.Leaves.{IsIn, Gives}
use qstar.TestSuites.Resolving.{SuiteLeaf, HasCycle, Answers}
use qstar.TestSuites.Members.{resolve_test_suite_members-Answers}
use qstar.TestSuites.Validation.{
  suite_cycle, checked, cycle_at, validate_cycles, valid, invalid, validate_test_suites,
}
use qstar.TestSuites.Acyclic.{validate_cycles-HasCycle, resolve_test_suite_members-valid}
use qstar.TestSuites.Selecting.{
  selected, unknown_suite, Memberships, resolve_test_selection, collect_test_suite_memberships,
}
use qstar.TestSuites.Choice.{SelectionSays, resolve_test_selection-SelectionSays}
use qstar.TestSuites.Memberships.{Adds, LabelOf, collect_test_suite_memberships-Adds}
use qstar.Samples.{bare_target, with_targets}

abbrev a_test : Bytes → Target
a_test label = record (bare_target label) { kind = some (codes "test") }

abbrev suite_of : Bytes → List Bytes → List Bytes → TestSuite
suite_of label tests tags = record {
  label = some label;
  name = some label;
  fragment_dir = some [];
  origin_file = some [];
  origin_line = pos 1;
  description = some [];
  manual = pos 0;
  tests = tests;
  tags = tags;
}

abbrev slow : TestSuite
slow = suite_of (codes "//:slow") (codes "//:b" ∷ codes "//:a" ∷ []) (codes "slow" ∷ [])

abbrev everything : TestSuite
everything = suite_of (codes "//:all") (codes "//:a" ∷ codes "//:slow" ∷ []) []

abbrev suites : Graph
suites = record (with_targets (a_test (codes "//:a") ∷ a_test (codes "//:b") ∷ [])) {
  test_suites = everything ∷ slow ∷ [];
}

abbrev knot : Graph
knot = record (with_targets []) {
  test_suites =
      suite_of (codes "//:x") (codes "//:y" ∷ []) []
      ∷ suite_of (codes "//:y") (codes "//:x" ∷ []) []
      ∷ [];
}

abbrev not_slow : Option Selection
not_slow = some (record { suites = []; tags = []; exclude_tags = codes "slow" ∷ [] })

suites_valid : validate_test_suites suites ≡ valid
unfolding validate_test_suites
suites_valid = refl

knot_invalid : validate_test_suites knot ≡ invalid (suite_cycle 0)
unfolding validate_test_suites
knot_invalid = refl

all_members :
    resolve_test_suite_members 3 suites (0, everything) none []
    ≡ resolved (codes "//:a" ∷ codes "//:b" ∷ [])
unfolding resolve_test_suite_members
all_members = refl

fast_members :
    resolve_test_suite_members 3 suites (0, everything) not_slow [] ≡ resolved (codes "//:a" ∷ [])
unfolding resolve_test_suite_members
fast_members = refl

knot_members :
    resolve_test_suite_members 3 knot (0, suite_of (codes "//:x") (codes "//:y" ∷ []) []) none []
    ≡ cyclic
unfolding resolve_test_suite_members
knot_members = refl

three : length suites.test_suites < 3
three = omega arith

resolve_test_suite_members-Answers_example :
    Answers suites not_slow
      (SuiteLeaf suites not_slow everything)
      []
      (resolve_test_suite_members 3 suites (0, everything) not_slow [])
unfolding find_test_suite
resolve_test_suite_members-Answers_example =
    resolve_test_suite_members-Answers suites not_slow 3 (some (codes "//:all")) 0 everything []
      refl (omega arith)

resolve_test_suite_members-valid_example :
    (out : List Bytes) × (resolve_test_suite_members 3 suites (0, everything) none []
      ≡ resolved out)
    × Gives (SuiteLeaf suites none everything) [] out
unfolding find_test_suite
resolve_test_suite_members-valid_example =
    resolve_test_suite_members-valid suites none 3 (some (codes "//:all")) 0 everything []
      suites_valid refl (omega arith)

validate_cycles-HasCycle_example :
    ((state : List Mark) × (validate_cycles knot ≡ checked state) × (¬ HasCycle knot none))
    ⊎ ((k : ℕ) × (validate_cycles knot ≡ cycle_at k) × HasCycle knot none)
validate_cycles-HasCycle_example = validate_cycles-HasCycle knot

abbrev slow_by_tag : Selection
slow_by_tag = record {
  suites = some (codes "//:all") ∷ [];
  tags = codes "slow" ∷ [];
  exclude_tags = [];
}

slow_selection :
    resolve_test_selection 3 (λ refs. refs) suites (some slow_by_tag) []
    ≡ selected (codes "//:a" ∷ codes "//:b" ∷ [])
unfolding resolve_test_selection
slow_selection = refl

unknown_selection :
    resolve_test_selection 3
      (λ refs. refs)
      suites
      (some (record { suites = some (codes "//:no") ∷ []; tags = []; exclude_tags = [] }))
      []
    ≡ unknown_suite (codes "//:no")
unfolding resolve_test_selection
unknown_selection = refl

slow_memberships :
    collect_test_suite_memberships 3
      (λ refs. refs)
      suites
      (codes "//:b")
      (record { direct = []; transitive = [] })
    ≡ some (record {
      direct = codes "//:slow" ∷ [];
      transitive = codes "//:all" ∷ codes "//:slow" ∷ [];
    })
unfolding collect_test_suite_memberships
slow_memberships = refl

resolve_test_selection-SelectionSays_example :
    SelectionSays suites 3 slow_by_tag suites_valid three []
      (resolve_test_selection 3 (λ refs. refs) suites (some slow_by_tag) [])
resolve_test_selection-SelectionSays_example =
    resolve_test_selection-SelectionSays suites 3 slow_by_tag suites_valid three (λ refs. refs) []
      (record { same = λ refs r. (λ m. m, λ m. m) })

collect_test_suite_memberships-Adds_example :
    (out : Memberships) × (collect_test_suite_memberships 3
        (λ refs. refs)
        suites
        (codes "//:b")
        (record { direct = []; transitive = [] })
      ≡ some out)
    × Adds
        (LabelOf suites 3
          (codes "//:b")
          suites_valid
          three
          (λ suite. IsIn (codes "//:b") suite.tests))
        []
        out.direct
    × Adds
        (LabelOf suites 3
          (codes "//:b")
          suites_valid
          three
          (λ suite. SuiteLeaf suites none suite (codes "//:b")))
        []
        out.transitive
collect_test_suite_memberships-Adds_example =
    collect_test_suite_memberships-Adds suites 3 (codes "//:b") suites_valid three (λ refs. refs)
      (record { direct = []; transitive = [] }) (record { same = λ refs r. (λ m. m, λ m. m) })
