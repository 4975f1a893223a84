-- ===== src/TestSuites/Acyclic.antt =====
-- `qstar_graph_validate_test_suites` of src/test_suite.c, and the resolution of what it has passed.
use qstar.Prelude.{
  ℕ, zero, suc, ◌+◌, ◌<◌, ◌≡◌, ◌≢◌, refl, sym, ap, ◌∙◌, subst, ◌⊎◌, inl, inr, List, [], ◌∷◌, Option,
  none, some, Bytes, CString, arith, some-eq_some, get_elem?, map, length, Option-cases,
}
use qstar.Graph.State.{Graph, TestSuite}
use qstar.Plan.{Mark, unvisited, active, finished}
use qstar.Plan.Marks.{unvisited_count, unvisited_count-le, lt-length_of_get_elem?}
use qstar.TestSuites.{
  find_test_suite, Selection, suite_is_excluded, Resolved, resolved, cyclic,
  resolve_test_suite_members,
}
use qstar.TestSuites.Leaves.{Gives}
use qstar.TestSuites.Resolving.{SuiteLeaf, Chain, one, more, HasCycle, Answers}
use qstar.TestSuites.Members.{find_test_suite-at, resolve_at-Answers}
use qstar.TestSuites.Validation.{
  SuiteError, suite_cycle, Checked, checked, cycle_at, fault, validate_suite_cycle,
  validate_cycles_from, validate_cycles, check_suites, valid, invalid, validate_test_suites,
}
use qstar.TestSuites.Grounds.{Grounded-acyclic, IsValid, Outcome, Done}
use qstar.TestSuites.Cycles.{validate_suite_cycle-Done}

no_finished :
    (ss : List TestSuite) (k : ℕ) (m : Mark)
    → get_elem? (map (λ s. unvisited) ss) k ≡ some m
    → m ≡ unvisited
no_finished [] k m e = cc
no_finished (s ∷ ss) zero m e = sym (some-eq_some e)
no_finished (s ∷ ss) (suc k) m e = no_finished ss k m e

length-marks : (ss : List TestSuite) → length (map (λ s. unvisited) ss) ≡ length ss
length-marks [] = refl
length-marks (s ∷ ss) = ap suc (length-marks ss)

finished-ne_unvisited : finished ≢ unvisited
finished-ne_unvisited e = cc

active-ne_unvisited : active ≢ unvisited
active-ne_unvisited e = cc

invalid-ne_valid : (e : SuiteError) → invalid e ≢ valid
invalid-ne_valid e f = cc

module _ (graph : Graph) where
  -- The state of the loop over the suites, of which those below `index` are behind it.
  record CanGoOn (fuel index : ℕ) (state : List Mark) : Type 0 where
    valid : IsValid graph state
    idle : (k : ℕ) → get_elem? state k ≢ some active
    below : (k : ℕ) → k < index → get_elem? state k ≡ some finished
    enough : unvisited_count state < fuel

  abbrev AllFinished : List Mark → Type 0
  AllFinished b =
      IsValid graph b × ((k : ℕ) → k < length graph.test_suites → get_elem? b k ≡ some finished)

  go_on :
      (fuel index : ℕ) (a b : List Mark)
      → CanGoOn fuel index a
      → Done graph index a b
      → CanGoOn fuel (suc index) b
  go_on fuel index a b c d = record {
    valid = d.kept.valid;
    idle = λ k e. c.idle k ((d.kept.same_active k).1 e);
    below = λ k l. elim (last_or_below k l) [
      | inl e ↦ subst (λ (z : ℕ). get_elem? b z ≡ some finished) (sym e) d.now
      | inr l' ↦ d.kept.keeps k (c.below k l')
    ];
    enough = omega (arith, c.enough, d.kept.work);
  }
    where
      last_or_below : (k : ℕ) → k < suc index → (k ≡ index) ⊎ (k < index)
      last_or_below k l = ground arith

  from_answer :
      (fuel index count : ℕ) (state : List Mark) (res : Checked)
      → CanGoOn fuel index state
      → validate_suite_cycle fuel graph index state ≡ res
      → Outcome graph (Done graph index state) res
      → ((b : List Mark)
          → CanGoOn fuel (suc index) b
          → Outcome graph AllFinished (validate_cycles_from fuel graph (suc index) count b))
      → Outcome graph AllFinished (validate_cycles_from fuel graph index (suc count) state)
  unfolding validate_cycles_from
  from_answer fuel index count state (checked b) c e d rest =
      rw (validate_cycles_from, e) (rest b (go_on fuel index state b c d))
  from_answer fuel index count state (cycle_at k) c e d rest = rw (validate_cycles_from, e) d
  from_answer fuel index count state fault c e d rest = absurd d
  from_answer fuel index count state Checked.out_of_fuel c e d rest = absurd d

  cycles_from :
      (fuel index count : ℕ) (state : List Mark)
      → index + count ≡ length graph.test_suites
      → CanGoOn fuel index state
      → Outcome graph AllFinished (validate_cycles_from fuel graph index count state)
  unfolding validate_cycles_from
  cycles_from fuel index zero state e c = (c.valid, λ k l. c.below k (omega arith))
  cycles_from fuel index (suc count) state e c =
      from_answer fuel index count state (validate_suite_cycle fuel graph index state) c refl
        (validate_suite_cycle-Done graph fuel index state (record {
          valid = c.valid;
          in_range = omega arith;
          enough = c.enough;
          behind = λ k on. absurd (c.idle k on);
        }))
        (λ b d. cycles_from fuel (suc index) count b (omega arith) d)

  validate_cycles-Outcome : Outcome graph AllFinished (validate_cycles graph)
  unfolding validate_cycles
  validate_cycles-Outcome =
      let start : List Mark = map (λ s. unvisited) graph.test_suites in
      cycles_from (suc (length graph.test_suites)) 0 (length graph.test_suites) start (omega arith)
        (record {
          valid = record {
            size = length-marks graph.test_suites;
            grounds =
                λ k e. absurd (finished-ne_unvisited (no_finished graph.test_suites k finished e));
          };
          idle = λ k e. active-ne_unvisited (no_finished graph.test_suites k active e);
          below = λ k l. absurd (omega arith);
          enough = omega (arith, unvisited_count-le start, length-marks graph.test_suites);
        })

  no_cycle : (b : List Mark) → AllFinished b → ¬ HasCycle graph none
  no_cycle b (v, all) (k, c) =
      Grounded-acyclic graph k (v.grounds k (all k (start_in_range k k c))) c
    where
      start_in_range : (i j : ℕ) → Chain graph none i j → i < length graph.test_suites
      start_in_range i j (one i' j' n) = lt-length_of_get_elem? graph.test_suites i n.at_i
      start_in_range i j (more i' m j' c n) = start_in_range i m c

  -- The check for cycles passes exactly if no suite is nested in itself, and names a cycle otherwise.
  pub validate_cycles-HasCycle :
      ((state : List Mark) × (validate_cycles graph ≡ checked state) × (¬ HasCycle graph none))
      ⊎ ((k : ℕ) × (validate_cycles graph ≡ cycle_at k) × HasCycle graph none)
  validate_cycles-HasCycle = answer (validate_cycles graph) refl validate_cycles-Outcome
    where
      answer :
          (c : Checked)
          → validate_cycles graph ≡ c
          → Outcome graph AllFinished c
          → ((state : List Mark) × (validate_cycles graph ≡ checked state)
              × (¬ HasCycle graph none))
            ⊎ ((k : ℕ) × (validate_cycles graph ≡ cycle_at k) × HasCycle graph none)
      answer (checked state) e a = inl (state, e, no_cycle state a)
      answer (cycle_at k) e a = inr (k, e, a)
      answer fault e a = absurd a
      answer Checked.out_of_fuel e a = absurd a

  -- Excluding suites adds no cycle.
  all_nested :
      (options : Option Selection) (i j : ℕ) → Chain graph options i j → Chain graph none i j
  unfolding suite_is_excluded
  all_nested options i j (one i' j' n) = one i j (record {
    suite = n.suite;
    at_i = n.at_i;
    included = refl;
    label = n.label;
    member = n.member;
    inner = n.inner;
    found = n.found;
  })
  all_nested options i j (more i' m j' c n) = more i m j (all_nested options i m c) (record {
    suite = n.suite;
    at_i = n.at_i;
    included = refl;
    label = n.label;
    member = n.member;
    inner = n.inner;
    found = n.found;
  })

  valid-acyclic : validate_test_suites graph ≡ valid → ¬ HasCycle graph none
  unfolding validate_test_suites
  valid-acyclic v = elim validate_cycles-HasCycle [
    | inl (state, e, free) ↦ free
    | inr (k, e, c) ↦ absurd (refused k e v)
  ]
    where
      refused : (k : ℕ) → validate_cycles graph ≡ cycle_at k → validate_test_suites graph ≢ valid
      refused k e v = elim (Option-cases (check_suites graph graph.test_suites)) [
        | inl f ↦
            let bad : validate_test_suites graph ≡ invalid (suite_cycle k) =
              rw (validate_test_suites, f, e) refl in
            invalid-ne_valid (suite_cycle k) (sym bad ∙ v)
        | inr (w, f) ↦
            let bad : validate_test_suites graph ≡ invalid w = rw (validate_test_suites, f) refl in
            invalid-ne_valid w (sym bad ∙ v)
      ]

  pub resolve_at-valid :
      (options : Option Selection) (fuel index : ℕ) (suite : TestSuite) (labels : List Bytes)
      → validate_test_suites graph ≡ valid
      → get_elem? graph.test_suites index ≡ some suite
      → length graph.test_suites < fuel
      → (out : List Bytes) × (resolve_test_suite_members fuel graph (index, suite) options labels
          ≡ resolved out)
        × Gives (SuiteLeaf graph options suite) labels out
  resolve_at-valid options fuel index suite labels v e f =
      answer (resolve_test_suite_members fuel graph (index, suite) options labels) refl
        (resolve_at-Answers graph options fuel index suite labels e f)
    where
      answer :
          (res : Resolved)
          → resolve_test_suite_members fuel graph (index, suite) options labels ≡ res
          → Answers graph options (SuiteLeaf graph options suite) labels res
          → (out : List Bytes) × (resolve_test_suite_members fuel graph
                (index, suite)
                options
                labels
              ≡ resolved out)
            × Gives (SuiteLeaf graph options suite) labels out
      answer (resolved out) r a = (out, r, a)
      answer cyclic r (k, c) = absurd (valid-acyclic v (k, all_nested options k k c))
      answer Resolved.out_of_fuel r a = absurd a

  -- On suites that the validation has passed the resolution of a suite that is found succeeds, given
  -- more fuel than there are suites: it adds exactly the leaves of the suite, and none of them twice.
  pub resolve_test_suite_members-valid :
      (options : Option Selection) (fuel : ℕ) (label : CString) (index : ℕ) (suite : TestSuite)
      (labels : List Bytes)
      → validate_test_suites graph ≡ valid
      → find_test_suite graph label ≡ some (index, suite)
      → length graph.test_suites < fuel
      → (out : List Bytes) × (resolve_test_suite_members fuel graph (index, suite) options labels
          ≡ resolved out)
        × Gives (SuiteLeaf graph options suite) labels out
  resolve_test_suite_members-valid options fuel label index suite labels v e f =
      resolve_at-valid options fuel index suite labels v
        (find_test_suite-at graph label index suite e) f
