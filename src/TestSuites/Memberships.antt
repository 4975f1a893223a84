-- ===== src/TestSuites/Memberships.antt =====
-- `qstar_graph_collect_test_suite_memberships` of src/test_suite.c.
use mathlib.Core.List.{Memᴰ}
use mathlib.Core.List.Memᴰ
use qstar.Prelude.{
  ℕ, ◌<◌, ◌≡◌, refl, sym, ap, ◌∙◌, subst, ◌⊎◌, inl, inr, List, [], ◌∷◌, ◌++◌, none, some, Bytes,
  string_or_empty, Bool-cases, get_elem?, length,
}
use qstar.Graph.State.{Graph, TestSuite}
use qstar.TestSuites.{SuiteRef, string_list_contains, Selection}
use qstar.TestSuites.Leaves.{IsIn, IsIn-snoc, IsIn-left, IsIn-last, not_in, true-ne_false, Gives}
use qstar.TestSuites.Resolving.{SuiteLeaf}
use qstar.TestSuites.Validation.{valid, validate_test_suites}
use qstar.TestSuites.Acyclic.{resolve_at-valid}
use qstar.TestSuites.Selecting.{
  refs_from, Memberships, push_if, collect_from, collect_test_suite_memberships,
}
use qstar.TestSuites.Choice.{IsSort, placed, Mem-all_refs}

-- `b` is `a` with the strings that `P` holds of, which may be there already.
pub record Adds (P : Bytes → Type 0) (a b : List Bytes) : Type 0 where
  pub only : (t : Bytes) → IsIn t b → IsIn t a ⊎ P t
  pub keeps : (t : Bytes) → IsIn t a → IsIn t b
  pub adds : (t : Bytes) → P t → IsIn t b

abbrev pub label_of : TestSuite → Bytes
label_of suite = string_or_empty suite.label

push_if-Adds :
    (tests : List Bytes) (target_label : Bytes) (list : List Bytes) (suite : TestSuite)
    → Adds
        (λ l. IsIn target_label tests × (l ≡ label_of suite))
        list
        (push_if tests target_label list suite)
unfolding push_if
push_if-Adds tests target_label list suite =
    elim (Bool-cases (string_list_contains tests target_label)) [
      | inl e ↦
          let pushed : push_if tests target_label list suite ≡ list ++ label_of suite ∷ [] =
            rw (push_if, e) refl in
          subst (Adds (λ l. IsIn target_label tests × (l ≡ label_of suite)) list) (sym pushed)
            (record {
              only = λ t f. elim (IsIn-snoc t (label_of suite) list f) [
                | inl g ↦ inl g
                | inr g ↦ inr (e, g)
              ];
              keeps = λ t f. IsIn-left t (label_of suite) list f;
              adds = λ t f.
                  subst (λ (z : Bytes). IsIn z (list ++ label_of suite ∷ [])) (sym f.1)
                    (IsIn-last (label_of suite) list);
            })
      | inr e ↦
          let kept : push_if tests target_label list suite ≡ list = rw (push_if, e) refl in
          subst (Adds (λ l. IsIn target_label tests × (l ≡ label_of suite)) list) (sym kept)
            (record {
              only = λ t f. inl f;
              keeps = λ t f. f;
              adds = λ t f. absurd (true-ne_false f.0 e);
            })
    ]

Adds-trans :
    (P Q R : Bytes → Type 0) (a b c : List Bytes)
    → ((t : Bytes) → P t ⊎ Q t → R t)
    → ((t : Bytes) → R t → P t ⊎ Q t)
    → Adds P a b
    → Adds Q b c
    → Adds R a c
Adds-trans P Q R a b c there back g h = record {
  only = λ t e. elim (h.only t e) [
    | inr q ↦ inr (there t (inr q))
    | inl f ↦ elim (g.only t f) [ inl k ↦ inl k | inr p ↦ inr (there t (inl p)) ]
  ];
  keeps = λ t e. h.keeps t (g.keeps t e);
  adds = λ t r. elim (back t r) [ inl p ↦ h.keeps t (g.adds t p) | inr q ↦ h.adds t q ];
}

abbrev none_chosen : Selection
none_chosen = record { suites = []; tags = []; exclude_tags = [] }

module _ (graph : Graph) (fuel : ℕ) (target_label : Bytes) (v : validate_test_suites graph ≡ valid)
    (f : length graph.test_suites < fuel) where
  -- The label of a suite of the list that the property holds of.
  record From (P : TestSuite → Type 0) (refs : List SuiteRef) (l : Bytes) : Type 0 where
    ref : SuiteRef
    member : Memᴰ ref refs
    holds : P ref.1
    label_eq : l ≡ label_of ref.1

  From-split :
      (P : TestSuite → Type 0) (Q : Type 0) (r : SuiteRef) (rs : List SuiteRef) (l : Bytes)
      → (P r.1 → Q)
      → From P (r ∷ rs) l
      → (Q × (l ≡ label_of r.1)) ⊎ From P rs l
  From-split P Q r rs l there d = go d.member
    where
      go : Memᴰ d.ref (r ∷ rs) → (Q × (l ≡ label_of r.1)) ⊎ From P rs l
      go (Memᴰ.head e) =
          let same : d.ref.1 ≡ r.1 = ap (λ (x : SuiteRef). x.1) e in
          inl (there (subst P same d.holds), d.label_eq ∙ ap label_of same)
      go (Memᴰ.tail m) =
          inr (record { ref = d.ref; member = m; holds = d.holds; label_eq = d.label_eq })

  From-join :
      (P : TestSuite → Type 0) (Q : Type 0) (r : SuiteRef) (rs : List SuiteRef) (l : Bytes)
      → (Q → P r.1)
      → (Q × (l ≡ label_of r.1)) ⊎ From P rs l
      → From P (r ∷ rs) l
  From-join P Q r rs l back (inl (q, e)) = record {
    ref = r;
    member = Memᴰ.head refl;
    holds = back q;
    label_eq = e;
  }
  From-join P Q r rs l back (inr d) = record {
    ref = d.ref;
    member = Memᴰ.tail d.member;
    holds = d.holds;
    label_eq = d.label_eq;
  }

  abbrev IsDirect : TestSuite → Type 0
  IsDirect suite = IsIn target_label suite.tests

  abbrev IsTransitive : TestSuite → Type 0
  IsTransitive suite = SuiteLeaf graph none suite target_label

  Adds-nothing : (P : TestSuite → Type 0) (a : List Bytes) → Adds (From P []) a a
  Adds-nothing P a = record {
    only = λ t e. inl e;
    keeps = λ t e. e;
    adds = λ t d. absurd (Memᴰ.not-nil d.member);
  }

  collect_from-Adds :
      (refs : List SuiteRef) (m : Memberships)
      → ((r : SuiteRef) → Memᴰ r refs → get_elem? graph.test_suites r.0 ≡ some r.1)
      → (out : Memberships) × (collect_from fuel graph target_label refs m ≡ some out)
        × Adds (From IsDirect refs) m.direct out.direct
        × Adds (From IsTransitive refs) m.transitive out.transitive
  unfolding collect_from
  collect_from-Adds [] m h =
      (m, refl, Adds-nothing IsDirect m.direct, Adds-nothing IsTransitive m.transitive)
  collect_from-Adds ((i, s) ∷ rs) m h =
      let (members, r, g) =
        resolve_at-valid graph none fuel i s [] v (h (i, s) (Memᴰ.head refl)) f in
      let next : Memberships = record {
        direct = push_if s.tests target_label m.direct s;
        transitive = push_if members target_label m.transitive s;
      } in
      let (out, e, a, b) = collect_from-Adds rs next (λ q k. h q (Memᴰ.tail k)) in
      (
        out,
        rw (collect_from, r) e,
        Adds-trans (λ l. IsDirect s × (l ≡ label_of s)) (From IsDirect rs)
            (From IsDirect ((i, s) ∷ rs)) _ _ _
            (λ l d. From-join IsDirect (IsDirect s) (i, s) rs l (λ q. q) d)
            (λ l d. From-split IsDirect (IsDirect s) (i, s) rs l (λ q. q) d)
            (push_if-Adds s.tests target_label m.direct s) a,
        Adds-trans (λ l. IsIn target_label members × (l ≡ label_of s)) (From IsTransitive rs)
            (From IsTransitive ((i, s) ∷ rs)) _ _ _
            (λ l d.
              From-join IsTransitive (IsIn target_label members) (i, s) rs l (leaf members g) d)
            (λ l d.
              From-split IsTransitive (IsIn target_label members) (i, s) rs l (g.adds target_label)
                d)
            (push_if-Adds members target_label m.transitive s) b,
      )
    where
      leaf :
          (members : List Bytes)
          → Gives (SuiteLeaf graph none s) [] members
          → IsIn target_label members
          → IsTransitive s
      leaf members g e = elim (g.only target_label e) [
        | inl k ↦ absurd (not_in target_label k)
        | inr d ↦ d
      ]

  -- The label of a suite of the graph that the property holds of.
  pub record LabelOf (P : TestSuite → Type 0) (l : Bytes) : Type 0 where
    pub index : ℕ
    pub suite : TestSuite
    pub at_index : get_elem? graph.test_suites index ≡ some suite
    pub holds : P suite
    pub label_eq : l ≡ label_of suite

  of_graph :
      (P : TestSuite → Type 0) (sort : List SuiteRef → List SuiteRef) (a b : List Bytes)
      → IsSort sort
      → Adds (From P (sort (refs_from 0 graph.test_suites))) a b
      → Adds (LabelOf P) a b
  of_graph P sort a b p d = record {
    only = λ t e. elim (d.only t e) [
      | inl k ↦ inl k
      | inr k ↦ inr (record {
        index = k.ref.0;
        suite = k.ref.1;
        at_index = placed graph fuel none_chosen v f sort p k.ref k.member;
        holds = k.holds;
        label_eq = k.label_eq;
      })
    ];
    keeps = d.keeps;
    adds = λ t k. d.adds t (record {
      ref = (k.index, k.suite);
      member =
          (p.same (refs_from 0 graph.test_suites) (k.index, k.suite)).1
            (Mem-all_refs graph.test_suites k.index k.suite k.at_index);
      holds = k.holds;
      label_eq = k.label_eq;
    });
  }

  -- On suites that the validation has passed, with more fuel than there are suites and a sort that gives
  -- back what it is given, the labels that are added are exactly those of the suites that hold the test
  -- themselves, and those of the suites that stand for it.
  pub collect_test_suite_memberships-Adds :
      (sort : List SuiteRef → List SuiteRef) (m : Memberships)
      → IsSort sort
      → (out : Memberships) × (collect_test_suite_memberships fuel sort graph target_label m
          ≡ some out)
        × Adds (LabelOf (λ suite. IsIn target_label suite.tests)) m.direct out.direct
        × Adds
            (LabelOf (λ suite. SuiteLeaf graph none suite target_label))
            m.transitive
            out.transitive
  unfolding collect_test_suite_memberships
  collect_test_suite_memberships-Adds sort m p =
      let (out, e, a, b) =
        collect_from-Adds (sort (refs_from 0 graph.test_suites)) m
          (placed graph fuel none_chosen v f sort p) in
      (
        out,
        e,
        of_graph IsDirect sort m.direct out.direct p a,
        of_graph IsTransitive sort m.transitive out.transitive p b,
      )
