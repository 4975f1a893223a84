-- ===== src/TestSuites/Members.antt =====
-- The members of a suite in src/test_suite.c, with the marks of the suites that are being resolved.
use qstar.Prelude.{
  ℕ, zero, suc, ◌-◌, ◌≤◌, ◌<◌, ◌≡◌, ◌≢◌, refl, sym, ap, ◌∙◌, subst, ◌⊎◌, inl, inr, Bool, true,
  false, List, [], ◌∷◌, Option, none, some, Bytes, CString, string_or_empty, str_eq, arith,
  Bool-cases, some-eq_some, get_or, set, get_elem?, map, length, length-set,
}
use qstar.Graph.State.{Graph, TestSuite}
use qstar.Graph.Lookup.{is_label}
use qstar.TestSuites.{
  SuiteRef, suite_from, find_test_suite, Selection, suite_is_excluded, Resolved, resolved, cyclic,
  out_of_fuel, resolve_suite_recursive, resolve_test_suite_members,
}
use qstar.TestSuites.Leaves.{IsIn, Leaf, Gives, Gives-map}
use qstar.TestSuites.Resolving.{SuiteLeaf, Nest, Chain, one, more, Answers, members-Answers}

suite_from-at :
    (i : ℕ) (ss : List TestSuite) (label : Bytes) (j : ℕ) (s : TestSuite)
    → suite_from i ss label ≡ some (j, s)
    → (i ≤ j) × (get_elem? ss (j - i) ≡ some s)
unfolding suite_from is_label
suite_from-at i [] label j s h = cc
suite_from-at i (q ∷ qs) label j s h = elim (Bool-cases (str_eq (string_or_empty q.label) label)) [
  | inl e ↦
      let same : ◌≡◌ {A = Option SuiteRef} (some (i, q)) (some (j, s)) = ground (arith, e, h) in
      let here : i ≡ j = ap (λ (p : SuiteRef). p.0) (some-eq_some same) in
      let this : q ≡ s = ap (λ (p : SuiteRef). p.1) (some-eq_some same) in
      let start : j - i ≡ 0 = omega arith in
      (omega arith, ap (get_elem? (q ∷ qs)) start ∙ ap some this)
  | inr e ↦
      let later : suite_from (suc i) qs label ≡ some (j, s) = ground (arith, e, h) in
      let (low, at_j) = suite_from-at (suc i) qs label j s later in
      let next : j - i ≡ suc (j - suc i) = omega arith in
      (omega arith, ap (get_elem? (q ∷ qs)) next ∙ at_j)
]

pub find_test_suite-at :
    (graph : Graph) (label : CString) (j : ℕ) (s : TestSuite)
    → find_test_suite graph label ≡ some (j, s)
    → get_elem? graph.test_suites j ≡ some s
unfolding find_test_suite
find_test_suite-at graph none j s e = cc
find_test_suite-at graph (some a) j s e =
    let start : j ≡ j - 0 = omega arith in
    ap (get_elem? graph.test_suites) start ∙ (suite_from-at 0 graph.test_suites a j s e).1

-- How many suites are not marked.
free_count : List Bool → ℕ
free_count [] = 0
free_count (true ∷ bs) = free_count bs
free_count (false ∷ bs) = suc (free_count bs)

free_count-set :
    (stack : List Bool) (i : ℕ)
    → get_or stack i true ≡ false
    → suc (free_count (set stack i true)) ≡ free_count stack
unfolding free_count
free_count-set [] i h = cc
free_count-set (true ∷ bs) zero h = cc
free_count-set (false ∷ bs) zero h = refl
free_count-set (true ∷ bs) (suc i) h = free_count-set bs i h
free_count-set (false ∷ bs) (suc i) h = ap suc (free_count-set bs i h)

set_cases :
    (stack : List Bool) (i k : ℕ)
    → get_or (set stack i true) k true ≡ true
    → (k ≡ i) ⊎ (get_or stack k true ≡ true)
set_cases [] i k h = inr refl
set_cases (b ∷ bs) zero zero h = inl refl
set_cases (b ∷ bs) zero (suc k) h = inr h
set_cases (b ∷ bs) (suc i) zero h = inr h
set_cases (b ∷ bs) (suc i) (suc k) h = elim (set_cases bs i k h) [
  | inl e ↦ inl (ap suc e)
  | inr e ↦ inr e
]

at-lt : (ss : List TestSuite) (i : ℕ) (s : TestSuite) → get_elem? ss i ≡ some s → i < length ss
at-lt [] i s h = cc
at-lt (q ∷ qs) zero s h = omega arith
at-lt (q ∷ qs) (suc i) s h = omega (arith, at-lt qs i s h)

module _ (graph : Graph) (options : Option Selection) where
  -- The suites on the stack lead to the one that is resolved.
  record CanResolve (fuel : ℕ) (stack : List Bool) (index : ℕ) : Type 0 where
    enough : free_count stack < fuel
    size : length stack ≡ length graph.test_suites
    behind : (k : ℕ) → k < length stack → get_or stack k true ≡ true → Chain graph options k index

  Answers-map :
      (P Q : Bytes → Type 0) (labels : List Bytes)
      → ((t : Bytes) → P t → Q t)
      → ((t : Bytes) → Q t → P t)
      → (res : Resolved) → Answers graph options P labels res
      → Answers graph options Q labels res
  Answers-map P Q labels there back (resolved out) g = Gives-map P there back g
  Answers-map P Q labels there back cyclic g = g
  Answers-map P Q labels there back out_of_fuel g = g

  resolve-Answers :
      (fuel : ℕ) (stack : List Bool) (index : ℕ) (suite : TestSuite) (labels : List Bytes)
      → get_elem? graph.test_suites index ≡ some suite
      → CanResolve fuel stack index
      → Answers graph options
          (SuiteLeaf graph options suite)
          labels
          (resolve_suite_recursive fuel graph options stack (index, suite) labels)
  unfolding resolve_suite_recursive
  resolve-Answers zero stack index suite labels e c = absurd (omega (arith, c.enough))
  resolve-Answers (suc fuel) stack index suite labels e c =
      elim (Bool-cases (suite_is_excluded suite options)) [
        | inl x ↦ rw (resolve_suite_recursive, x) (nothing x)
        | inr x ↦ elim (Bool-cases (get_or stack index true)) [
          | inl m ↦
              rw (resolve_suite_recursive, x, m)
                (index, c.behind index (rw c.size (at-lt graph.test_suites index suite e)) m)
          | inr m ↦
              let stack' : List Bool = set stack index true in
              rw (resolve_suite_recursive, x, m)
                (Answers-map (Leaf graph options suite.tests) (SuiteLeaf graph options suite) labels
                  (λ t d. (x, d)) (λ t d. d.1) _
                  (members-Answers graph options (resolve_suite_recursive fuel graph options stack')
                    suite.tests
                    (λ l j q out in_l found.
                      resolve-Answers fuel stack' j q out
                        (find_test_suite-at graph (some l) j q found) (inner x m l j q in_l found))
                    labels))
        ]
      ]
    where
      nothing :
          suite_is_excluded suite options ≡ true
          → Gives (SuiteLeaf graph options suite) labels labels
      nothing x = record {
        only = λ t f. inl f;
        keeps = λ t f. f;
        adds = λ t d. absurd (ground (arith, x, d.0));
        unique = λ u. u;
      }

      nest :
          suite_is_excluded suite options ≡ false
          → (l : Bytes) (j : ℕ) (q : TestSuite) → IsIn l suite.tests
          → find_test_suite graph (some l) ≡ some (j, q)
          → Nest graph options index j
      nest x l j q in_l found = record {
        suite = suite;
        at_i = e;
        included = x;
        label = l;
        member = in_l;
        inner = q;
        found = found;
      }

      inner :
          suite_is_excluded suite options ≡ false
          → get_or stack index true ≡ false
          → (l : Bytes) (j : ℕ) (q : TestSuite) → IsIn l suite.tests
          → find_test_suite graph (some l) ≡ some (j, q)
          → CanResolve fuel (set stack index true) j
      inner x m l j q in_l found = record {
        enough = omega (arith, c.enough, free_count-set stack index m);
        size = length-set stack index true ∙ c.size;
        behind = λ k small on. elim (set_cases stack index k on) [
          | inl f ↦
              subst (λ (z : ℕ). Chain graph options z j) (sym f)
                (one index j (nest x l j q in_l found))
          | inr f ↦
              more k index j
                (c.behind k (subst (λ (z : ℕ). k < z) (length-set stack index true) small) f)
                (nest x l j q in_l found)
        ];
      }

  no_marks :
      (ss : List TestSuite)
      → (free_count (map (λ s. false) ss) ≡ length ss) × (length (map (λ s. false) ss) ≡ length ss)
  unfolding free_count
  no_marks [] = (refl, refl)
  no_marks (s ∷ ss) = let (a, b) = no_marks ss in (ap suc a, ap suc b)

  none_marked :
      (ss : List TestSuite) (k : ℕ)
      → k < length (map (λ s. false) ss)
      → get_or (map (λ s. false) ss) k true ≢ true
  none_marked [] k h e = absurd (omega arith)
  none_marked (s ∷ ss) zero h e = cc
  none_marked (s ∷ ss) (suc k) h e = none_marked ss k (omega arith) e

  pub resolve_at-Answers :
      (fuel index : ℕ) (suite : TestSuite) (labels : List Bytes)
      → get_elem? graph.test_suites index ≡ some suite
      → length graph.test_suites < fuel
      → Answers graph options
          (SuiteLeaf graph options suite)
          labels
          (resolve_test_suite_members fuel graph (index, suite) options labels)
  unfolding resolve_test_suite_members
  resolve_at-Answers fuel index suite labels e f =
      let (free, size) = no_marks graph.test_suites in
      resolve-Answers fuel (map (λ s. false) graph.test_suites) index suite labels e (record {
        enough = omega (arith, free);
        size = size;
        behind = λ k small on. absurd (none_marked graph.test_suites k small on);
      })

  -- With more fuel than there are suites, the resolution of a suite that is found adds exactly its
  -- leaves to the labels, and no label twice, or it is -1 and some suite is nested in itself.
  pub resolve_test_suite_members-Answers :
      (fuel : ℕ) (label : CString) (index : ℕ) (suite : TestSuite) (labels : List Bytes)
      → find_test_suite graph label ≡ some (index, suite)
      → length graph.test_suites < fuel
      → Answers graph options
          (SuiteLeaf graph options suite)
          labels
          (resolve_test_suite_members fuel graph (index, suite) options labels)
  resolve_test_suite_members-Answers fuel label index suite labels e f =
      resolve_at-Answers fuel index suite labels (find_test_suite-at graph label index suite e) f
