-- ===== src/TestSuites/Resolving.antt =====
-- The resolution of a suite in src/test_suite.c.
use qstar.Prelude.{
  ℕ, ◌≡◌, refl, sym, ap, ◌∙◌, subst, ◌⊎◌, inl, inr, false, List, [], ◌∷◌, Option, none, some, Bytes,
  Option-cases, none-ne_some, some-eq_some, get_elem?,
}
use qstar.Graph.State.{Graph, TestSuite}
use qstar.TestSuites.{
  SuiteRef, find_test_suite, push_unique, Selection, suite_is_excluded, Resolved, resolved, cyclic,
  out_of_fuel, resolve_members,
}
use qstar.TestSuites.Leaves.{
  IsIn, not_in, IsIn-cons, IsIn-head, IsIn-tail, Leaf, direct, nested, Gives, push_unique-Gives,
  Gives-trans, Gives-map,
}

module _ (graph : Graph) (options : Option Selection) where
  -- What a suite adds.
  abbrev pub SuiteLeaf : TestSuite → Bytes → Type 0
  SuiteLeaf suite t = (suite_is_excluded suite options ≡ false) × Leaf graph options suite.tests t

  no-Leaf : (t : Bytes) → ¬ Leaf graph options [] t
  no-Leaf t (direct ts u m f) = not_in t m
  no-Leaf t (nested ts l j q u m f e d) = not_in l m

  Leaf-tail :
      (x t : Bytes) (ts : List Bytes) → Leaf graph options ts t → Leaf graph options (x ∷ ts) t
  Leaf-tail x t ts (direct us u m f) = direct (x ∷ ts) t (IsIn-tail x t ts m) f
  Leaf-tail x t ts (nested us l j q u m f e d) = nested (x ∷ ts) l j q t (IsIn-tail x l ts m) f e d

  -- The first member is no suite.
  Leaf-direct :
      (x t : Bytes) (ts : List Bytes)
      → find_test_suite graph (some x) ≡ none
      → Leaf graph options (x ∷ ts) t
      → (t ≡ x) ⊎ Leaf graph options ts t
  Leaf-direct x t ts e (direct us u m f) = elim (IsIn-cons x t ts m) [
    | inl g ↦ inl g
    | inr g ↦ inr (direct ts t g f)
  ]
  Leaf-direct x t ts e (nested us l j q u m f n d) = elim (IsIn-cons x l ts m) [
    | inl g ↦ absurd (
        none-ne_some
          (sym e ∙ subst (λ (z : Bytes). find_test_suite graph (some z) ≡ some (j, q)) g f))
    | inr g ↦ inr (nested ts l j q t g f n d)
  ]

  -- It is a suite.
  Leaf-nested :
      (x t : Bytes) (ts : List Bytes) (i : ℕ) (s : TestSuite)
      → find_test_suite graph (some x) ≡ some (i, s)
      → Leaf graph options (x ∷ ts) t
      → SuiteLeaf s t ⊎ Leaf graph options ts t
  Leaf-nested x t ts i s e (direct us u m f) = elim (IsIn-cons x t ts m) [
    | inl g ↦ absurd (
        none-ne_some
          (sym f ∙ subst (λ (z : Bytes). find_test_suite graph (some z) ≡ some (i, s)) (sym g) e))
    | inr g ↦ inr (direct ts t g f)
  ]
  Leaf-nested x t ts i s e (nested us l j q u m f n d) = elim (IsIn-cons x l ts m) [
    | inr g ↦ inr (nested ts l j q t g f n d)
    | inl g ↦
        let there : find_test_suite graph (some l) ≡ some (i, s) =
          subst (λ (z : Bytes). find_test_suite graph (some z) ≡ some (i, s)) (sym g) e in
        let same : ◌≡◌ {A = SuiteRef} (j, q) (i, s) = some-eq_some (sym f ∙ there) in
        let this : q ≡ s = ap (λ (x : SuiteRef). x.1) same in
        inl (subst (λ (z : TestSuite). SuiteLeaf z t) this (n, d))
  ]

  -- A member of a suite that is not excluded is a suite.
  pub record Nest (i j : ℕ) : Type 0 where
    pub suite : TestSuite
    pub at_i : get_elem? graph.test_suites i ≡ some suite
    pub included : suite_is_excluded suite options ≡ false
    pub label : Bytes
    pub member : IsIn label suite.tests
    pub inner : TestSuite
    pub found : find_test_suite graph (some label) ≡ some (j, inner)

  pub data Chain : ℕ → ℕ → Type 0 where
    one : (i j : ℕ) → Nest i j → Chain i j
    more : (i j k : ℕ) → Chain i j → Nest j k → Chain i k

  -- What the -1 of the resolution says.
  abbrev pub HasCycle : Type 0
  HasCycle = (k : ℕ) × Chain k k

  -- An answer with what it says of the suites.
  abbrev pub Answers : (Bytes → Type 0) → List Bytes → Resolved → Type 0
  Answers P labels (resolved out) = Gives P labels out
  Answers P labels cyclic = HasCycle
  Answers P labels out_of_fuel = ⊥

  extend :
      (P Q R : Bytes → Type 0) (a b : List Bytes)
      → Gives P a b
      → ((t : Bytes) → P t ⊎ Q t → R t)
      → ((t : Bytes) → R t → P t ⊎ Q t)
      → (res : Resolved) → Answers Q b res
      → Answers R a res
  extend P Q R a b g there back (resolved out) h =
      Gives-map (λ t. P t ⊎ Q t) there back (Gives-trans g h)
  extend P Q R a b g there back cyclic h = h
  extend P Q R a b g there back out_of_fuel h = h

  direct_there :
      (x : Bytes) (ts : List Bytes)
      → find_test_suite graph (some x) ≡ none
      → (t : Bytes) → (t ≡ x) ⊎ Leaf graph options ts t
      → Leaf graph options (x ∷ ts) t
  direct_there x ts e t (inl f) =
      direct (x ∷ ts) t (subst (λ (z : Bytes). IsIn z (x ∷ ts)) (sym f) (IsIn-head x ts))
        (subst (λ (z : Bytes). find_test_suite graph (some z) ≡ none) (sym f) e)
  direct_there x ts e t (inr d) = Leaf-tail x t ts d

  nested_there :
      (x : Bytes) (ts : List Bytes) (i : ℕ) (s : TestSuite)
      → find_test_suite graph (some x) ≡ some (i, s)
      → (t : Bytes) → SuiteLeaf s t ⊎ Leaf graph options ts t
      → Leaf graph options (x ∷ ts) t
  nested_there x ts i s e t (inl (n, d)) = nested (x ∷ ts) x i s t (IsIn-head x ts) e n d
  nested_there x ts i s e t (inr d) = Leaf-tail x t ts d

  -- The loop behind a nested suite that has been resolved.
  after_nested :
      (visit : SuiteRef → List Bytes → Resolved) (x : Bytes) (ts : List Bytes) (i : ℕ)
      (s : TestSuite) (labels : List Bytes)
      → find_test_suite graph (some x) ≡ some (i, s)
      → ((out : List Bytes)
          → Answers (Leaf graph options ts) out (resolve_members graph visit ts out))
      → (res : Resolved) → visit (i, s) labels ≡ res
      → Answers (SuiteLeaf s) labels res
      → Answers (Leaf graph options (x ∷ ts)) labels (resolve_members graph visit (x ∷ ts) labels)
  unfolding resolve_members
  after_nested visit x ts i s labels e rest (resolved out) f g =
      rw (resolve_members, e, f)
        (extend (SuiteLeaf s) (Leaf graph options ts) (Leaf graph options (x ∷ ts)) labels out g
          (nested_there x ts i s e) (λ t d. Leaf-nested x t ts i s e d) _ (rest out))
  after_nested visit x ts i s labels e rest cyclic f g = rw (resolve_members, e, f) g
  after_nested visit x ts i s labels e rest out_of_fuel f g = absurd g

  pub members-Answers :
      (visit : SuiteRef → List Bytes → Resolved) (ts : List Bytes)
      → ((l : Bytes) (j : ℕ) (q : TestSuite) (labels : List Bytes)
          → IsIn l ts
          → find_test_suite graph (some l) ≡ some (j, q)
          → Answers (SuiteLeaf q) labels (visit (j, q) labels))
      → (labels : List Bytes)
      → Answers (Leaf graph options ts) labels (resolve_members graph visit ts labels)
  unfolding resolve_members
  members-Answers visit [] call labels = record {
    only = λ t e. inl e;
    keeps = λ t e. e;
    adds = λ t d. absurd (no-Leaf t d);
    unique = λ u. u;
  }
  members-Answers visit (x ∷ ts) call labels =
      let rest : (out : List Bytes)
          → Answers (Leaf graph options ts) out (resolve_members graph visit ts out) =
        members-Answers visit ts (λ l j q labels m f. call l j q labels (IsIn-tail x l ts m) f) in
      elim (Option-cases (find_test_suite graph (some x))) [
        | inl e ↦
            rw (resolve_members, e)
              (extend (λ t. t ≡ x) (Leaf graph options ts) (Leaf graph options (x ∷ ts)) labels
                (push_unique labels x) (push_unique-Gives labels x) (direct_there x ts e)
                (λ t d. Leaf-direct x t ts e d) _ (rest (push_unique labels x)))
        | inr ((j, q), e) ↦
            after_nested visit x ts j q labels e rest (visit (j, q) labels) refl
              (call x j q labels (IsIn-head x ts) e)
      ]
