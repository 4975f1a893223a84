-- ===== src/TestSuites/Choice.antt =====
-- `qstar_graph_resolve_test_selection` of src/test_suite.c.
use mathlib.Core.List.{Memᴰ}
use mathlib.Core.List.Memᴰ
use qstar.Prelude.{
  ℕ, zero, suc, ◌+◌, ◌-◌, ◌≤◌, ◌<◌, ◌≡◌, ◌≢◌, ◌↔◌, refl, sym, ap, ◌∙◌, subst, ◌⊎◌, inl, inr, Bool,
  true, false, not, ◌&&◌, List, [], ◌∷◌, none, some, Bytes, arith, Bool-cases, some-eq_some,
  get_elem?, length, All, all, present,
}
use qstar.Graph.State.{Graph, TestSuite}
use qstar.Label.{label_canonicalize, path_max}
use qstar.TestSuites.{SuiteRef, Selection}
use qstar.TestSuites.Leaves.{Gives, Gives-map, Gives-trans}
use qstar.TestSuites.Resolving.{SuiteLeaf}
use qstar.TestSuites.Validation.{valid, validate_test_suites, tag_valid}
use qstar.TestSuites.Selecting.{
  refs_from, Selected, selected, bad_tag, bad_exclude_tag, empty_suite, invalid_label,
  unknown_suite, unresolved, is_empty, select_named, is_chosen, resolve_test_selection,
}
use qstar.TestSuites.Tags.{TagsChoose, HasFilters, is_chosen-TagsChoose, is_empty-HasFilters}
use qstar.TestSuites.Chosen.{
  AnyNamed, AnyChosen, IsNamed, Unknown, select_chosen-Gives, NamedSays, select_named-NamedSays,
}

-- `qsort` gives back the elements that it is given.
pub record IsSort (sort : List SuiteRef → List SuiteRef) : Type 0 where
  pub same : (refs : List SuiteRef) (r : SuiteRef) → Memᴰ r (sort refs) ↔ Memᴰ r refs

refs_from-at :
    (start : ℕ) (ss : List TestSuite) (r : SuiteRef)
    → Memᴰ r (refs_from start ss)
    → (start ≤ r.0) × (get_elem? ss (r.0 - start) ≡ some r.1)
unfolding refs_from
refs_from-at start [] r m = absurd (Memᴰ.not-nil m)
refs_from-at start (s ∷ ss) r (Memᴰ.head e) =
    let here : r.0 ≡ start = ap (λ (x : SuiteRef). x.0) e in
    let this : r.1 ≡ s = ap (λ (x : SuiteRef). x.1) e in
    let first : r.0 - start ≡ 0 = omega arith in
    (omega arith, ap (get_elem? (s ∷ ss)) first ∙ ap some (sym this))
refs_from-at start (s ∷ ss) r (Memᴰ.tail m) =
    let (low, at_r) = refs_from-at (suc start) ss r m in
    let next : r.0 - start ≡ suc (r.0 - suc start) = omega arith in
    (omega arith, ap (get_elem? (s ∷ ss)) next ∙ at_r)

Mem-refs_from :
    (start : ℕ) (ss : List TestSuite) (k : ℕ) (s : TestSuite)
    → get_elem? ss k ≡ some s
    → Memᴰ (start + k, s) (refs_from start ss)
unfolding refs_from
Mem-refs_from start [] k s e = cc
Mem-refs_from start (q ∷ qs) zero s e =
    let here : start + 0 ≡ start = omega arith in Memᴰ.head (λ j. (here j, sym (some-eq_some e) j))
Mem-refs_from start (q ∷ qs) (suc k) s e =
    let here : suc start + k ≡ start + suc k = omega arith in
    Memᴰ.tail (
      subst (λ (n : ℕ). Memᴰ (n, s) (refs_from (suc start) qs)) here
        (Mem-refs_from (suc start) qs k s e))

pub Mem-all_refs :
    (ss : List TestSuite) (k : ℕ) (s : TestSuite)
    → get_elem? ss k ≡ some s
    → Memᴰ (k, s) (refs_from 0 ss)
Mem-all_refs ss k s e =
    let here : 0 + k ≡ k = omega arith in
    subst (λ (n : ℕ). Memᴰ (n, s) (refs_from 0 ss)) here (Mem-refs_from 0 ss k s e)

not_both : (b : Bool) → not b ≡ true → b ≢ true
not_both true w x = cc
not_both false w x = cc

All-placed :
    (graph : Graph) (refs : List SuiteRef)
    → ((r : SuiteRef) → Memᴰ r refs → get_elem? graph.test_suites r.0 ≡ some r.1)
    → All (λ (r : SuiteRef). get_elem? graph.test_suites r.0 ≡ some r.1) refs
All-placed graph [] h = tt
All-placed graph (r ∷ rs) h = (h r (Memᴰ.head refl), All-placed graph rs (λ q m. h q (Memᴰ.tail m)))

module _ (graph : Graph) (fuel : ℕ) (options : Selection) (v : validate_test_suites graph ≡ valid)
    (f : length graph.test_suites < fuel) where
  -- A test that a suite which the tags choose stands for.
  pub record Chosen (t : Bytes) : Type 0 where
    pub index : ℕ
    pub suite : TestSuite
    pub at_index : get_elem? graph.test_suites index ≡ some suite
    pub chosen : TagsChoose options suite
    pub leaf : SuiteLeaf graph (some options) suite t

  AnyChosen-Chosen :
      (refs : List SuiteRef) (t : Bytes)
      → ((r : SuiteRef) → Memᴰ r refs → get_elem? graph.test_suites r.0 ≡ some r.1)
      → AnyChosen graph fuel options v f refs t
      → Chosen t
  AnyChosen-Chosen [] t h d = absurd d
  AnyChosen-Chosen (r ∷ rs) t h (inl (c, d)) = record {
    index = r.0;
    suite = r.1;
    at_index = h r (Memᴰ.head refl);
    chosen = (is_chosen-TagsChoose fuel graph options r.1).0 c;
    leaf = d;
  }
  AnyChosen-Chosen (r ∷ rs) t h (inr d) = AnyChosen-Chosen rs t (λ q m. h q (Memᴰ.tail m)) d

  Chosen-any :
      (refs : List SuiteRef) (t : Bytes) (c : Chosen t)
      → Memᴰ (c.index, c.suite) refs
      → AnyChosen graph fuel options v f refs t
  Chosen-any [] t c m = absurd (Memᴰ.not-nil m)
  Chosen-any (r ∷ rs) t c (Memᴰ.head e) =
      let this : c.suite ≡ r.1 = ap (λ (x : SuiteRef). x.1) e in
      inl (
        subst
          (λ (s : TestSuite).
            (is_chosen fuel graph options s ≡ true) × SuiteLeaf graph (some options) s t)
          this ((is_chosen-TagsChoose fuel graph options c.suite).1 c.chosen, c.leaf))
  Chosen-any (r ∷ rs) t c (Memᴰ.tail m) = inr (Chosen-any rs t c m)

  -- What an answer says: the tests of the suites that are named and, if there are filters, of those that
  -- the filters choose are added, or one of the options is wrong.
  abbrev pub SelectionSays : List Bytes → Selected → Type 0
  SelectionSays labels (selected out) =
      Gives
        (λ t. AnyNamed graph fuel options v f options.suites t ⊎ (HasFilters options × Chosen t))
        labels out
      × (all tag_valid options.tags ≡ true)
      × (all tag_valid options.exclude_tags ≡ true)
  SelectionSays labels bad_tag = all tag_valid options.tags ≡ false
  SelectionSays labels bad_exclude_tag = all tag_valid options.exclude_tags ≡ false
  SelectionSays labels (invalid_label l) =
      IsNamed options.suites l × (label_canonicalize l (some []) path_max ≡ none)
  SelectionSays labels (unknown_suite label) = Unknown graph fuel options v f options.suites label
  SelectionSays labels (unresolved label) = ⊥
  SelectionSays labels empty_suite = all present options.suites ≡ false

  pub placed :
      (sort : List SuiteRef → List SuiteRef)
      → IsSort sort
      → (r : SuiteRef) → Memᴰ r (sort (refs_from 0 graph.test_suites))
      → get_elem? graph.test_suites r.0 ≡ some r.1
  placed sort p r m =
      let start : r.0 ≡ r.0 - 0 = omega arith in
      ap (get_elem? graph.test_suites) start
      ∙ (refs_from-at 0 graph.test_suites r ((p.same (refs_from 0 graph.test_suites) r).0 m)).1

  after_named :
      (sort : List SuiteRef → List SuiteRef) (labels : List Bytes)
      → IsSort sort
      → all tag_valid options.tags ≡ true
      → all tag_valid options.exclude_tags ≡ true
      → (res : Selected) → select_named fuel graph options options.suites labels ≡ res
      → NamedSays graph fuel options v f options.suites
          (AnyNamed graph fuel options v f options.suites)
          labels
          res
      → SelectionSays labels (resolve_test_selection fuel sort graph (some options) labels)
  unfolding resolve_test_selection
  after_named sort labels p a b (selected named) e g =
      elim (Bool-cases (is_empty options.tags && is_empty options.exclude_tags)) [
        | inl x ↦
            rw (resolve_test_selection, a, b, e, x)
              (
                Gives-map (AnyNamed graph fuel options v f options.suites) (λ t d. inl d)
                    (λ t d. elim d [
                      | inl k ↦ k
                      | inr (w, c) ↦ absurd (not_both _ ((is_empty-HasFilters options).1 w) x)
                    ])
                    g,
                a,
                b,
              )
        | inr x ↦
            let refs : List SuiteRef = sort (refs_from 0 graph.test_suites) in
            let (out, q, h) =
              select_chosen-Gives graph fuel options v f refs named
                (All-placed graph refs (placed sort p)) in
            rw (resolve_test_selection, a, b, e, x, q)
              (
                Gives-map
                    (λ t.
                      AnyNamed graph fuel options v f options.suites t
                      ⊎ AnyChosen graph fuel options v f refs t)
                    (λ t d. elim d [
                      | inl k ↦ inl k
                      | inr k ↦ inr (
                        (is_empty-HasFilters options).0 (ap not x),
                        AnyChosen-Chosen refs t (placed sort p) k,
                      )
                    ])
                    (λ t d. elim d [
                      | inl k ↦ inl k
                      | inr (w, c) ↦ inr (
                          Chosen-any refs t c (
                            (p.same (refs_from 0 graph.test_suites) (c.index, c.suite)).1
                              (Mem-all_refs graph.test_suites c.index c.suite c.at_index)))
                    ])
                    (Gives-trans g h),
                a,
                b,
              )
      ]
  after_named sort labels p a b bad_tag e g = absurd g
  after_named sort labels p a b bad_exclude_tag e g = absurd g
  after_named sort labels p a b empty_suite e g = rw (resolve_test_selection, a, b, e) g
  after_named sort labels p a b (invalid_label l) e g = rw (resolve_test_selection, a, b, e) g
  after_named sort labels p a b (unknown_suite l) e g = rw (resolve_test_selection, a, b, e) g
  after_named sort labels p a b (unresolved l) e g = absurd g

  -- On suites that the validation has passed, with more fuel than there are suites and a sort that gives
  -- back what it is given, the selection adds exactly the tests of the suites that are named and of those
  -- that the tags choose, none of them twice, or one of the options given is wrong; no suite fails to be
  -- resolved. The tags also choose where suites are named and only an exclude tag is given.
  pub resolve_test_selection-SelectionSays :
      (sort : List SuiteRef → List SuiteRef) (labels : List Bytes)
      → IsSort sort
      → SelectionSays labels (resolve_test_selection fuel sort graph (some options) labels)
  unfolding resolve_test_selection
  resolve_test_selection-SelectionSays sort labels p =
      elim (Bool-cases (all tag_valid options.tags)) [
        | inr a ↦ rw (resolve_test_selection, a) a
        | inl a ↦ elim (Bool-cases (all tag_valid options.exclude_tags)) [
          | inr b ↦ rw (resolve_test_selection, a, b) b
          | inl b ↦
              after_named sort labels p a b (select_named fuel graph options options.suites labels)
                refl (select_named-NamedSays graph fuel options v f options.suites labels)
        ]
      ]
