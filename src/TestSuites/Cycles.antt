-- ===== src/TestSuites/Cycles.antt =====
-- `validate_suite_cycle` of src/test_suite.c.
use qstar.Prelude.{
  ℕ, zero, suc, ◌<◌, ◌≡◌, ◌≢◌, refl, sym, ◌∙◌, subst, ◌⊎◌, inl, inr, List, Option, none, some,
  Bytes, arith, some-eq_some, get_elem?, set, length, length-set,
}
use qstar.Graph.State.{Graph, TestSuite}
use qstar.Plan.{Mark, unvisited, active, finished}
use qstar.Plan.Marks.{
  unvisited_count, get_elem?-set_self, get_elem?-set_ne, lt-length_of_get_elem?, get_elem?-lt,
  unvisited_count-set_active, unvisited_count-set_finished,
}
use qstar.TestSuites.{find_test_suite, suite_is_excluded}
use qstar.TestSuites.Leaves.{IsIn}
use qstar.TestSuites.Resolving.{Nest, Chain, one, more}
use qstar.TestSuites.Members.{find_test_suite-at}
use qstar.TestSuites.Validation.{
  Checked, checked, cycle_at, fault, out_of_fuel, finish_suite, validate_suite_cycle,
}
use qstar.TestSuites.Grounds.{
  Grounded, grounded, IsValid, Kept, Outcome, Kept-refl, CanCheck, Done, DoneAll,
  visit_members-DoneAll,
}

eq_cases : (k i : ℕ) → (k ≡ i) ⊎ (k ≢ i)
eq_cases k i = ground arith

-- The mark that was set is found there.
mark_there :
    (state : List Mark) (i k : ℕ) (m x : Mark)
    → i < length state
    → i ≡ k
    → get_elem? (set state i m) k ≡ some x
    → m ≡ x
mark_there state i k m x l eq e =
    let here : get_elem? (set state i m) i ≡ some x =
      subst (λ (z : ℕ). get_elem? (set state i m) z ≡ some x) (sym eq) e in
    some-eq_some (sym (get_elem?-set_self state i m l) ∙ here)

active-ne_finished : active ≢ finished
active-ne_finished e = cc

unvisited-ne_active : unvisited ≢ active
unvisited-ne_active e = cc

unvisited-ne_finished : unvisited ≢ finished
unvisited-ne_finished e = cc

module _ (graph : Graph) (index : ℕ) (suite : TestSuite) (state : List Mark)
    (at_i : get_elem? graph.test_suites index ≡ some suite)
    (fresh : get_elem? state index ≡ some unvisited) (v : IsValid graph state) where
  abbrev inside : List Mark
  inside = set state index active

  in_state : index < length state
  in_state = lt-length_of_get_elem? state index fresh

  -- The marks when the suite at `index` is entered.
  pub entered : IsValid graph inside
  entered = record {
    size = length-set state index active ∙ v.size;
    grounds = λ k e. elim (eq_cases index k) [
      | inr ne ↦ v.grounds k (sym (get_elem?-set_ne state index k active ne) ∙ e)
      | inl eq ↦
          absurd (active-ne_finished (mark_there state index k active finished in_state eq e))
    ];
  }

  not_here : (k : ℕ) (m : Mark) → get_elem? state k ≡ some m → unvisited ≢ m → index ≢ k
  not_here k m e ne eq =
      ne (some-eq_some (sym fresh ∙ subst (λ (z : ℕ). get_elem? state z ≡ some m) (sym eq) e))

  children :
      (b : List Mark)
      → DoneAll graph suite.tests inside b
      → (j : ℕ) → Nest graph none index j
      → Grounded graph j
  children b d j n =
      let this : n.suite ≡ suite = some-eq_some (sym n.at_i ∙ at_i) in
      let member : IsIn n.label suite.tests =
        subst (λ (z : TestSuite). IsIn n.label z.tests) this n.member in
      d.kept.valid.grounds j (d.all_now n.label j n.inner member n.found)

  -- When it is left.
  pub leave :
      (b : List Mark)
      → DoneAll graph suite.tests inside b
      → Done graph index state (set b index finished)
  leave b d =
      let on : get_elem? b index ≡ some active =
        (d.kept.same_active index).0 (get_elem?-set_self state index active in_state) in
      let in_b : index < length b = lt-length_of_get_elem? b index on in
      record {
        now = get_elem?-set_self b index finished in_b;
        kept = record {
          valid = record {
            size = length-set b index finished ∙ d.kept.valid.size;
            grounds = λ k e. elim (eq_cases index k) [
              | inl eq ↦ subst (Grounded graph) eq (grounded index (children b d))
              | inr ne ↦ d.kept.valid.grounds k (sym (get_elem?-set_ne b index k finished ne) ∙ e)
            ];
          };
          keeps = λ k e.
              let ne : index ≢ k = not_here k finished e unvisited-ne_finished in
              get_elem?-set_ne b index k finished ne
              ∙ d.kept.keeps k (get_elem?-set_ne state index k active ne ∙ e);
          same_active = λ k. (still k, was k in_b);
          work = omega (
            arith,
            unvisited_count-set_finished b index on,
            d.kept.work,
            unvisited_count-set_active state index fresh,
          );
        };
      }
    where
      still :
          (k : ℕ)
          → get_elem? state k ≡ some active
          → get_elem? (set b index finished) k ≡ some active
      still k e =
          let ne : index ≢ k = not_here k active e unvisited-ne_active in
          get_elem?-set_ne b index k finished ne
          ∙ (d.kept.same_active k).0 (get_elem?-set_ne state index k active ne ∙ e)

      was :
          (k : ℕ)
          → index < length b
          → get_elem? (set b index finished) k ≡ some active
          → get_elem? state k ≡ some active
      was k in_b e = elim (eq_cases index k) [
        | inl eq ↦
            absurd (active-ne_finished (sym (mark_there b index k finished active in_b eq e)))
        | inr ne ↦
            sym (get_elem?-set_ne state index k active ne)
            ∙ (d.kept.same_active k).1 (sym (get_elem?-set_ne b index k finished ne) ∙ e)
      ]

  finish-Done :
      (c : Checked)
      → Outcome graph (DoneAll graph suite.tests inside) c
      → Outcome graph (Done graph index state) (finish_suite index c)
  unfolding finish_suite
  finish-Done (checked b) d = leave b d
  finish-Done (cycle_at k) d = d
  finish-Done fault d = d
  finish-Done out_of_fuel d = d

  -- The call for a member.
  can_check :
      (fuel : ℕ) (l : Bytes) (j : ℕ) (q : TestSuite) (b : List Mark)
      → unvisited_count state < suc fuel
      → ((k : ℕ) → get_elem? state k ≡ some active → Chain graph none k index)
      → IsIn l suite.tests
      → find_test_suite graph (some l) ≡ some (j, q)
      → Kept graph inside b
      → CanCheck graph fuel j b
  unfolding suite_is_excluded
  can_check fuel l j q b f behind m found k = record {
    valid = k.valid;
    in_range =
        lt-length_of_get_elem? graph.test_suites j (find_test_suite-at graph (some l) j q found);
    enough = omega (arith, k.work, unvisited_count-set_active state index fresh);
    behind = λ i e. chain i ((k.same_active i).1 e);
  }
    where
      nest : Nest graph none index j
      nest = record {
        suite = suite;
        at_i = at_i;
        included = refl;
        label = l;
        member = m;
        inner = q;
        found = found;
      }

      chain : (i : ℕ) → get_elem? inside i ≡ some active → Chain graph none i j
      chain i e = elim (eq_cases index i) [
        | inl eq ↦ subst (λ (z : ℕ). Chain graph none z j) eq (one index j nest)
        | inr ne ↦
            more i index j (behind i (sym (get_elem?-set_ne state index i active ne) ∙ e)) nest
      ]

pub validate_suite_cycle-Done :
    (graph : Graph) (fuel index : ℕ) (state : List Mark)
    → CanCheck graph fuel index state
    → Outcome graph (Done graph index state) (validate_suite_cycle fuel graph index state)
unfolding validate_suite_cycle
validate_suite_cycle-Done graph zero index state c = absurd (omega (arith, c.enough))
validate_suite_cycle-Done graph (suc fuel) index state c =
    let (suite, at_i) = get_elem?-lt graph.test_suites index c.in_range in
    elim (mark_cases (get_elem?-lt state index (rw c.valid.size c.in_range))) [
      | inl e ↦
          rw (validate_suite_cycle, e, at_i)
            (finish-Done graph index suite state at_i e c.valid _ (
              visit_members-DoneAll graph (validate_suite_cycle fuel graph) suite.tests
                (set state index active) (entered graph index suite state at_i e c.valid)
                (λ l j q b m found k. validate_suite_cycle-Done graph fuel j b (
                  can_check graph index suite state at_i e c.valid fuel l j q b c.enough c.behind m
                    found k))))
      | inr (inl e) ↦ rw (validate_suite_cycle, e) (index, c.behind index e)
      | inr (inr e) ↦
          rw (validate_suite_cycle, e) (record { kept = Kept-refl graph state c.valid; now = e })
    ]
  where
    mark_cases :
        {o : Option Mark}
        → (m : Mark) × (o ≡ some m)
        → (o ≡ some unvisited) ⊎ ((o ≡ some active) ⊎ (o ≡ some finished))
    mark_cases (unvisited, e) = inl e
    mark_cases (active, e) = inr (inl e)
    mark_cases (finished, e) = inr (inr e)
