-- ===== src/TestSuites/Grounds.antt =====
-- The check for cycles in `qstar_graph_validate_test_suites` of src/test_suite.c.
use qstar.Prelude.{
  ℕ, ◌≤◌, ◌<◌, ◌≡◌, ◌↔◌, refl, sym, ap, ◌∙◌, subst, ◌⊎◌, inl, inr, List, [], ◌∷◌, none, some, Bytes,
  arith, Option-cases, none-ne_some, some-eq_some, get_elem?, length,
}
use qstar.Graph.State.{Graph, TestSuite}
use qstar.Plan.{Mark, active, finished}
use qstar.Plan.Marks.{unvisited_count}
use qstar.TestSuites.{SuiteRef, find_test_suite}
use qstar.TestSuites.Leaves.{IsIn, not_in, IsIn-cons, IsIn-head, IsIn-tail}
use qstar.TestSuites.Resolving.{Nest, Chain, one, more, HasCycle}
use qstar.TestSuites.Validation.{Checked, checked, cycle_at, fault, out_of_fuel, visit_members}

module _ (graph : Graph) where
  -- A suite that leads to no cycle.
  pub data Grounded : ℕ → Type 0 where
    grounded : (i : ℕ) → ((j : ℕ) → Nest graph none i j → Grounded j) → Grounded i

  Chain-first :
      (i j : ℕ)
      → Chain graph none i j
      → (k : ℕ) × Nest graph none i k × ((k ≡ j) ⊎ Chain graph none k j)
  Chain-first i j (one i' j' n) = (j, n, inl refl)
  Chain-first i j (more i' m k c n) =
      let (first, step, rest) = Chain-first i m c in
      elim rest [
        | inl e ↦
            (first, step, inr (one first j (subst (λ (z : ℕ). Nest graph none z j) (sym e) n)))
        | inr d ↦ (first, step, inr (more first m j d n))
      ]

  pub Grounded-acyclic : (i : ℕ) → Grounded i → ¬ Chain graph none i i
  Grounded-acyclic i (grounded i' below) c =
      let (k, n, rest) = Chain-first i i c in
      elim rest [
        | inl e ↦ Grounded-acyclic k (below k n) (subst (λ (z : ℕ). Chain graph none z z) (sym e) c)
        | inr d ↦ Grounded-acyclic k (below k n) (more k i k d n)
      ]

  pub record IsValid (state : List Mark) : Type 0 where
    pub size : length state ≡ length graph.test_suites
    pub grounds : (k : ℕ) → get_elem? state k ≡ some finished → Grounded k

  -- What a call leaves as it was, from `a` to `b`.
  pub record Kept (a b : List Mark) : Type 0 where
    pub valid : IsValid b
    pub keeps : (k : ℕ) → get_elem? a k ≡ some finished → get_elem? b k ≡ some finished
    pub same_active : (k : ℕ) → (get_elem? a k ≡ some active) ↔ (get_elem? b k ≡ some active)
    pub work : unvisited_count b ≤ unvisited_count a

  Kept-trans : (a b c : List Mark) → Kept a b → Kept b c → Kept a c
  Kept-trans a b c k l = record {
    valid = l.valid;
    keeps = λ i e. l.keeps i (k.keeps i e);
    same_active = λ i. (
      (λ e. (l.same_active i).0 ((k.same_active i).0 e)),
      (λ e. (k.same_active i).1 ((l.same_active i).1 e)),
    );
    work = omega (arith, k.work, l.work);
  }

  -- An outcome with what it says.
  abbrev pub Outcome : (List Mark → Type 0) → Checked → Type 0
  Outcome P (checked state) = P state
  Outcome P (cycle_at k) = HasCycle graph none
  Outcome P fault = ⊥
  Outcome P out_of_fuel = ⊥

  pub outcome_map :
      {P Q : List Mark → Type 0} (c : Checked)
      → Outcome P c
      → ((b : List Mark) → P b → Q b)
      → Outcome Q c
  outcome_map (checked b) p f = f b p
  outcome_map (cycle_at k) p f = p
  outcome_map fault p f = p
  outcome_map out_of_fuel p f = p

  pub Kept-refl : (a : List Mark) → IsValid a → Kept a a
  Kept-refl a v = record {
    valid = v;
    keeps = λ k e. e;
    same_active = λ k. (λ e. e, λ e. e);
    work = omega arith;
  }

  -- A call may be made on these marks.
  pub record CanCheck (fuel index : ℕ) (state : List Mark) : Type 0 where
    pub valid : IsValid state
    pub in_range : index < length graph.test_suites
    pub enough : unvisited_count state < fuel
    pub behind : (k : ℕ) → get_elem? state k ≡ some active → Chain graph none k index

  pub record Done (index : ℕ) (a b : List Mark) : Type 0 where
    pub kept : Kept a b
    pub now : get_elem? b index ≡ some finished

  pub record DoneAll (ts : List Bytes) (a b : List Mark) : Type 0 where
    pub kept : Kept a b
    pub all_now :
        (l : Bytes) (j : ℕ) (q : TestSuite)
        → IsIn l ts
        → find_test_suite graph (some l) ≡ some (j, q)
        → get_elem? b j ≡ some finished

  pub visit_members-DoneAll :
      (visit : ℕ → List Mark → Checked) (ts : List Bytes) (a : List Mark)
      → IsValid a
      → ((l : Bytes) (j : ℕ) (q : TestSuite) (b : List Mark)
          → IsIn l ts
          → find_test_suite graph (some l) ≡ some (j, q)
          → Kept a b
          → Outcome (Done j b) (visit j b))
      → Outcome (DoneAll ts a) (visit_members graph visit ts a)
  unfolding visit_members
  visit_members-DoneAll visit [] a v call = record {
    kept = Kept-refl a v;
    all_now = λ l j q m f. absurd (not_in l m);
  }
  visit_members-DoneAll visit (x ∷ ts) a v call =
      elim (Option-cases (find_test_suite graph (some x))) [
        | inl e ↦
            rw (visit_members, e)
              (outcome_map (visit_members graph visit ts a)
                (visit_members-DoneAll visit ts a v
                  (λ l j q b m f k. call l j q b (IsIn-tail x l ts m) f k))
                (λ b d. skip b d e))
        | inr ((j, q), e) ↦
            after_visit (visit j a) refl e (call x j q a (IsIn-head x ts) e (Kept-refl a v)) (λ b k.
              visit_members-DoneAll visit ts b k.valid
                (λ l j q c m f t. call l j q c (IsIn-tail x l ts m) f (Kept-trans a b c k t)))
      ]
    where
      skip :
          (b : List Mark)
          → DoneAll ts a b
          → find_test_suite graph (some x) ≡ none
          → DoneAll (x ∷ ts) a b
      skip b d e = record {
        kept = d.kept;
        all_now = λ l j q m f. elim (IsIn-cons x l ts m) [
          | inr g ↦ d.all_now l j q g f
          | inl g ↦ absurd (
              none-ne_some
                (sym e ∙ subst (λ (z : Bytes). find_test_suite graph (some z) ≡ some (j, q)) g f))
        ];
      }

      both :
          (b c : List Mark) (j : ℕ) (q : TestSuite)
          → find_test_suite graph (some x) ≡ some (j, q)
          → Done j a b
          → DoneAll ts b c
          → DoneAll (x ∷ ts) a c
      both b c j q e d r = record {
        kept = Kept-trans a b c d.kept r.kept;
        all_now = λ l i p m f. elim (IsIn-cons x l ts m) [
          | inr g ↦ r.all_now l i p g f
          | inl g ↦
              let there : find_test_suite graph (some x) ≡ some (i, p) =
                subst (λ (z : Bytes). find_test_suite graph (some z) ≡ some (i, p)) g f in
              let same : ◌≡◌ {A = SuiteRef} (j, q) (i, p) = some-eq_some (sym e ∙ there) in
              let this : j ≡ i = ap (λ (y : SuiteRef). y.0) same in
              subst (λ (z : ℕ). get_elem? c z ≡ some finished) this (r.kept.keeps j d.now)
        ];
      }

      after_visit :
          {j : ℕ} {q : TestSuite} (res : Checked)
          → visit j a ≡ res
          → find_test_suite graph (some x) ≡ some (j, q)
          → Outcome (Done j a) res
          → ((b : List Mark) → Kept a b → Outcome (DoneAll ts b) (visit_members graph visit ts b))
          → Outcome (DoneAll (x ∷ ts) a) (visit_members graph visit (x ∷ ts) a)
      after_visit {j = j} {q = q} (checked b) f e d rest =
          rw (visit_members, e, f)
            (outcome_map (visit_members graph visit ts b) (rest b d.kept)
              (λ c r. both b c j q e d r))
      after_visit (cycle_at k) f e d rest = rw (visit_members, e, f) d
      after_visit fault f e d rest = absurd d
      after_visit out_of_fuel f e d rest = absurd d
