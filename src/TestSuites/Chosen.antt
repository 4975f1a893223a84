-- ===== src/TestSuites/Chosen.antt =====
-- The selection of tests in src/test_suite.c, on suites that the validation has passed.
use mathlib.Core.List.{Memᴰ}
use qstar.Prelude.{
  ℕ, ◌<◌, ◌≡◌, refl, sym, ◌∙◌, subst, ◌⊎◌, inl, inr, true, false, List, [], ◌∷◌, none, some, Bytes,
  CString, Bool-cases, Option-cases, some-eq_some, get_elem?, length, All, all, present,
  string_or_empty,
}
use qstar.Graph.State.{Graph, TestSuite}
use qstar.Label.{label_canonicalize, path_max}
use qstar.TestSuites.{SuiteRef, find_test_suite, Selection}
use qstar.TestSuites.Leaves.{true-ne_false, Gives, Gives-map, Gives-trans}
use qstar.TestSuites.Resolving.{SuiteLeaf}
use qstar.TestSuites.Members.{find_test_suite-at}
use qstar.TestSuites.Validation.{valid, validate_test_suites}
use qstar.TestSuites.Acyclic.{resolve_at-valid}
use qstar.TestSuites.Selecting.{
  Selected, selected, bad_tag, bad_exclude_tag, empty_suite, invalid_label, unknown_suite,
  unresolved, and_then, select_named, is_chosen, select_chosen,
}

all-first :
    (name : CString) (names : List CString)
    → present name ≡ false
    → all present (name ∷ names) ≡ false
unfolding all
all-first name names e = rw e refl

all-later :
    (name : CString) (names : List CString)
    → all present names ≡ false
    → all present (name ∷ names) ≡ false
unfolding all
all-later name names e = elim (Bool-cases (present name)) [
  | inl w ↦ rw (w, e) refl
  | inr w ↦ rw w refl
]

-- The text is one of the names.
abbrev pub IsNamed : List CString → Bytes → Type 0
IsNamed names l = (name : CString) × Memᴰ name names × (string_or_empty name ≡ l)

IsNamed-later :
    (name : CString) (names : List CString) (l : Bytes) → IsNamed names l → IsNamed (name ∷ names) l
IsNamed-later name names l (n, m, e) = (n, Memᴰ.tail m, e)

module _ (graph : Graph) (fuel : ℕ) (options : Selection) (v : validate_test_suites graph ≡ valid)
    (f : length graph.test_suites < fuel) where
  -- What the name of a suite stands for.
  pub record Named (name : CString) (t : Bytes) : Type 0 where
    pub label : Bytes
    pub index : ℕ
    pub suite : TestSuite
    pub canonical : label_canonicalize (string_or_empty name) (some []) path_max ≡ some label
    pub found : find_test_suite graph (some label) ≡ some (index, suite)
    pub leaf : SuiteLeaf graph (some options) suite t

  abbrev pub AnyNamed : List CString → Bytes → Type 0
  AnyNamed [] t = ⊥
  AnyNamed (name ∷ names) t = Named name t ⊎ AnyNamed names t

  abbrev pub AnyChosen : List SuiteRef → Bytes → Type 0
  AnyChosen [] t = ⊥
  AnyChosen (r ∷ rs) t =
      ((is_chosen fuel graph options r.1 ≡ true) × SuiteLeaf graph (some options) r.1 t)
      ⊎ AnyChosen rs t

  nothing_added : (labels : List Bytes) → Gives (λ t. ⊥) labels labels
  nothing_added labels = record {
    only = λ t e. inl e;
    keeps = λ t e. e;
    adds = λ t d. absurd d;
    unique = λ u. u;
  }

  skipped :
      (s : TestSuite) (rs : List SuiteRef)
      → is_chosen fuel graph options s ≡ false
      → (t : Bytes)
      → ((is_chosen fuel graph options s ≡ true) × SuiteLeaf graph (some options) s t)
        ⊎ AnyChosen rs t
      → AnyChosen rs t
  skipped s rs e t (inl (c, d)) = absurd (true-ne_false c e)
  skipped s rs e t (inr d) = d

  -- The loop over all suites does not fail.
  pub select_chosen-Gives :
      (refs : List SuiteRef) (labels : List Bytes)
      → All (λ (r : SuiteRef). get_elem? graph.test_suites r.0 ≡ some r.1) refs
      → (out : List Bytes) × (select_chosen fuel graph options refs labels ≡ selected out)
        × Gives (AnyChosen refs) labels out
  unfolding select_chosen and_then
  select_chosen-Gives [] labels a = (labels, refl, nothing_added labels)
  select_chosen-Gives ((i, s) ∷ rs) labels (a, as') =
      elim (Bool-cases (is_chosen fuel graph options s)) [
        | inr e ↦
            let (out, g, h) = select_chosen-Gives rs labels as' in
            (
              out,
              rw (select_chosen, e) g,
              Gives-map (AnyChosen rs) (λ t d. inr d) (skipped s rs e) h,
            )
        | inl e ↦
            let (more, r, g) = resolve_at-valid graph (some options) fuel i s labels v a f in
            let (out, q, h) = select_chosen-Gives rs more as' in
            (
              out,
              rw (select_chosen, e, r, and_then) q,
              Gives-map (λ t. SuiteLeaf graph (some options) s t ⊎ AnyChosen rs t)
                  (λ t d. elim d [ inl k ↦ inl (e, k) | inr k ↦ inr k ])
                  (λ t d. elim d [ inl k ↦ inl k.1 | inr k ↦ inr k ]) (Gives-trans g h),
            )
      ]

  -- A label of a suite that is named, and that no suite has.
  pub record Unknown (names : List CString) (label : Bytes) : Type 0 where
    pub name : Bytes
    pub named : IsNamed names name
    pub canonical : label_canonicalize name (some []) path_max ≡ some label
    pub missing : find_test_suite graph (some label) ≡ none

  -- What an answer says of the suites that are named.
  abbrev pub NamedSays : List CString → (Bytes → Type 0) → List Bytes → Selected → Type 0
  NamedSays names P labels (selected out) = Gives P labels out
  NamedSays names P labels (invalid_label l) =
      IsNamed names l × (label_canonicalize l (some []) path_max ≡ none)
  NamedSays names P labels (unknown_suite label) = Unknown names label
  NamedSays names P labels (unresolved label) = ⊥
  NamedSays names P labels bad_tag = ⊥
  NamedSays names P labels bad_exclude_tag = ⊥
  NamedSays names P labels empty_suite = all present names ≡ false

  extend_named :
      (name : CString) (names : List CString) (index : ℕ) (suite : TestSuite) (label : Bytes)
      (a b : List Bytes)
      → label_canonicalize (string_or_empty name) (some []) path_max ≡ some label
      → find_test_suite graph (some label) ≡ some (index, suite)
      → Gives (SuiteLeaf graph (some options) suite) a b
      → (res : Selected) → NamedSays names (AnyNamed names) b res
      → NamedSays (name ∷ names) (AnyNamed (name ∷ names)) a res
  extend_named name names index suite label a b c e g (selected out) h =
      Gives-map (λ t. SuiteLeaf graph (some options) suite t ⊎ AnyNamed names t)
        (λ t d. elim d [
          | inl k ↦ inl (record {
            label = label;
            index = index;
            suite = suite;
            canonical = c;
            found = e;
            leaf = k;
          })
          | inr k ↦ inr k
        ])
        (λ t d. elim d [ inl n ↦ inl (same t n) | inr k ↦ inr k ]) (Gives-trans g h)
    where
      same : (t : Bytes) → Named name t → SuiteLeaf graph (some options) suite t
      same t n =
          let one : n.label ≡ label = some-eq_some (sym n.canonical ∙ c) in
          let there : find_test_suite graph (some label) ≡ some (n.index, n.suite) =
            subst (λ (l : Bytes). find_test_suite graph (some l) ≡ some (n.index, n.suite)) one
              n.found in
          let both : ◌≡◌ {A = SuiteRef} (n.index, n.suite) (index, suite) =
            some-eq_some (sym there ∙ e) in
          subst (λ (r : SuiteRef). SuiteLeaf graph (some options) r.1 t) both n.leaf
  extend_named name names index suite label a b c e g bad_tag h = h
  extend_named name names index suite label a b c e g bad_exclude_tag h = h
  extend_named name names index suite label a b c e g empty_suite h = all-later name names h
  extend_named name names index suite label a b c e g (invalid_label l) h =
      (IsNamed-later name names l h.0, h.1)
  extend_named name names index suite label a b c e g (unknown_suite l) h = record {
    name = h.name;
    named = IsNamed-later name names h.name h.named;
    canonical = h.canonical;
    missing = h.missing;
  }
  extend_named name names index suite label a b c e g (unresolved l) h = h

  pub select_named-NamedSays :
      (names : List CString) (labels : List Bytes)
      → NamedSays names (AnyNamed names) labels (select_named fuel graph options names labels)
  unfolding select_named and_then
  select_named-NamedSays [] labels = nothing_added labels
  select_named-NamedSays (name ∷ names) labels = elim (Bool-cases (present name)) [
    | inr e ↦ rw (select_named, e) (all-first name names e)
    | inl e ↦ elim (Option-cases (label_canonicalize (string_or_empty name) (some []) path_max)) [
      | inl c ↦ rw (select_named, e, c) ((name, Memᴰ.head refl, refl), c)
      | inr (label, c) ↦ elim (Option-cases (find_test_suite graph (some label))) [
        | inl n ↦
            rw (select_named, e, c, n)
              (record {
                name = string_or_empty name;
                named = (name, Memᴰ.head refl, refl);
                canonical = c;
                missing = n;
              })
        | inr ((index, suite), n) ↦
            let (more, r, g) =
              resolve_at-valid graph (some options) fuel index suite labels v
                (find_test_suite-at graph (some label) index suite n) f in
            rw (select_named, e, c, n, r, and_then)
              (extend_named name names index suite label labels more c n g _
                (select_named-NamedSays names more))
      ]
    ]
  ]
