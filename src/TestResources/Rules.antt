-- ===== src/TestResources/Rules.antt =====
-- `qstar_graph_validate_test_resources` of src/test_resources.c.
use qstar.Prelude.{
  ℕ, ℤ, pos, negsuc, ◌≤ℤ◌, leb_ℤ, leb_ℤ→le, le→leb_ℤ, zero, suc, ◌≡◌, ◌↔◌, ◌≢◌, refl, sym, ◌∙◌, ◌⊎◌,
  inl, inr, Bool, true, false, not, ◌&&◌, ◌||◌, List, [], ◌∷◌, Option, none, some, Bytes, CString,
  string_or_empty, codes, str_eq, str_eq_iff, leb, ◌==◌, present, all, arith, All, if◌then◌else◌,
  Bool-cases, Option-cases, List-cases, none-ne_some, subst,
}
use qstar.Graph.Target.{Target, TestResourceRequest}
use qstar.Graph.State.{Graph, TestResource}
use qstar.TestResources.{find_test_resource}
use qstar.TestResources.Shares.{CanBeMet, same_ref}

pub data ResourceError : Type 0 where
  invalid_name capacity_not_positive : Bytes → ResourceError
  not_a_test : Bytes → ResourceError
  unknown_resource : Bytes → CString → ResourceError
  bad_amount : Bytes → CString → ℤ → ℤ → ResourceError

unfoldable pub is_name_char : ℕ → Bool
is_name_char c =
    leb b'a' c && leb c b'z'
    || (leb b'A' c && leb c b'Z'
        || (leb b'0' c && leb c b'9' || (c == b'_' || (c == b'-' || c == b'.'))))

unfoldable pub valid_resource_name : CString → Bool
unfolding all is_name_char
valid_resource_name name = present name && all is_name_char (string_or_empty name)

unfoldable pub check_resource : TestResource → Option ResourceError
unfolding valid_resource_name
check_resource r =
    if not (valid_resource_name r.name)
    then some (invalid_name (string_or_empty r.name))
    else if leb_ℤ r.capacity (pos 0)
    then some (capacity_not_positive (string_or_empty r.name))
    else none

unfoldable pub check_request : Graph → Bytes → TestResourceRequest → Option ResourceError
unfolding find_test_resource
check_request graph label r = elim (find_test_resource graph r.name) [
  | none ↦ some (unknown_resource label r.name)
  | some (index, resource) ↦
      if leb_ℤ r.amount (pos 0) || not (leb_ℤ r.amount resource.capacity)
      then some (bad_amount label r.name r.amount resource.capacity)
      else none
]

-- The first error of a list.
unfoldable pub first_error :
    {A : Type 0} → (A → Option ResourceError) → List A → Option ResourceError
first_error check [] = none
first_error check (x ∷ xs) = elim (check x) [ some e ↦ some e | none ↦ first_error check xs ]

unfoldable pub check_target : Graph → Target → Option ResourceError
unfolding first_error check_request str_eq
check_target graph target = elim target.test_resources [
  | [] ↦ none
  | r ∷ rs ↦
      if str_eq (string_or_empty target.kind) (codes "test")
      then first_error (check_request graph (string_or_empty target.label)) (r ∷ rs)
      else some (not_a_test (string_or_empty target.label))
]

unfoldable pub validate_test_resources : Graph → Option ResourceError
unfolding first_error check_resource check_target
validate_test_resources graph = elim (first_error check_resource graph.test_resources) [
  | some e ↦ some e
  | none ↦ first_error (check_target graph) graph.targets
]

pub record IsUsable (r : TestResource) : Type 0 where
  pub name_ok : valid_resource_name r.name ≡ true
  pub capacity_ok : pos 1 ≤ℤ r.capacity

-- A target that asks for resources is a test, and each request can be met.
pub record HasRules (graph : Graph) (target : Target) : Type 0 where
  pub is_test : (target.test_resources ≡ []) ⊎ (string_or_empty target.kind ≡ codes "test")
  pub met : All (CanBeMet graph) target.test_resources

none_if :
    (a b : Bool) (e f : ResourceError)
    → ((if not a then some e else if b then some f else none) ≡ none) ↔ ((a ≡ true) × (b ≡ false))
none_if true true e f = ground arith
none_if true false e f = ground arith
none_if false b e f = ground arith

none_or :
    (a b : Bool) (e : ResourceError)
    → ((if a || not b then some e else none) ≡ none) ↔ ((a ≡ false) × (b ≡ true))
none_or true b e = ground arith
none_or false true e = ground arith
none_or false false e = ground arith

positive_iff : (z : ℤ) → (leb_ℤ z (pos 0) ≡ false) ↔ (pos 1 ≤ℤ z)
positive_iff (pos zero) = ground arith
positive_iff (pos (suc n)) = ground arith
positive_iff (negsuc n) = ground arith

check_resource-IsUsable : (r : TestResource) → (check_resource r ≡ none) ↔ IsUsable r
unfolding check_resource
check_resource-IsUsable r =
    let (apart, together) =
      none_if (valid_resource_name r.name) (leb_ℤ r.capacity (pos 0))
        (invalid_name (string_or_empty r.name)) (capacity_not_positive (string_or_empty r.name)) in
    let (low, high) = positive_iff r.capacity in
    (
      (λ e. let (named, room) = apart e in record { name_ok = named; capacity_ok = low room }),
      (λ u. together (u.name_ok, high u.capacity_ok)),
    )

check_request-CanBeMet :
    (graph : Graph) (label : Bytes) (r : TestResourceRequest)
    → (check_request graph label r ≡ none) ↔ CanBeMet graph r
unfolding check_request
check_request-CanBeMet graph label r = elim (Option-cases (find_test_resource graph r.name)) [
  | inl e ↦
      let bad : check_request graph label r ≡ some (unknown_resource label r.name) =
        rw (check_request, e) refl in
      ((λ f. absurd (none-ne_some (sym f ∙ bad))), (λ m. absurd (none-ne_some (sym e ∙ m.found))))
  | inr ((index, p), e) ↦
      let found : check_request graph label r ≡ (
          if leb_ℤ r.amount (pos 0) || not (leb_ℤ r.amount p.capacity)
          then some (bad_amount label r.name r.amount p.capacity)
          else none) =
        rw (check_request, e) refl in
      let (apart, together) =
        none_or (leb_ℤ r.amount (pos 0)) (leb_ℤ r.amount p.capacity)
          (bad_amount label r.name r.amount p.capacity) in
      let (low, high) = positive_iff r.amount in
      (
        (λ f.
            let (more, fits) = apart (sym found ∙ f) in
            record {
              index = index;
              resource = p;
              found = e;
              positive = low more;
              at_most = leb_ℤ→le r.amount p.capacity fits;
            }),
        (λ m.
            let this : m.resource ≡ p = (same_ref (sym m.found ∙ e)).1 in
            let fits : r.amount ≤ℤ p.capacity =
              subst (λ (q : TestResource). r.amount ≤ℤ q.capacity) this m.at_most in
            found ∙ together (high m.positive, le→leb_ℤ r.amount p.capacity fits)),
      )
]

first_error-All :
    {A : Type 0} {P : A → Type 0} (check : A → Option ResourceError)
    → ((x : A) → (check x ≡ none) ↔ P x)
    → (xs : List A) → (first_error check xs ≡ none) ↔ All P xs
unfolding first_error
first_error-All check iff [] = (λ e. tt, λ a. refl)
first_error-All check iff (x ∷ xs) =
    let (there, back) = first_error-All check iff xs in
    let (one, two) = iff x in
    elim (Option-cases (check x)) [
      | inl e ↦
          let goes_on : first_error check (x ∷ xs) ≡ first_error check xs =
            rw (first_error, e) refl in
          ((λ f. (one e, there (sym goes_on ∙ f))), (λ (a, as'). goes_on ∙ back as'))
      | inr (w, e) ↦
          let stops : first_error check (x ∷ xs) ≡ some w = rw (first_error, e) refl in
          (
            (λ f. absurd (none-ne_some (sym f ∙ stops))),
            (λ (a, as'). absurd (none-ne_some (sym (two a) ∙ e))),
          )
    ]

no_test :
    (t : Target) (r : TestResourceRequest) (rs : List TestResourceRequest)
    → (t.test_resources ≡ []) ⊎ (string_or_empty t.kind ≡ codes "test")
    → t.test_resources ≡ r ∷ rs
    → str_eq (string_or_empty t.kind) (codes "test") ≢ false
unfolding str_eq
no_test t r rs (inl f) e k = cc
no_test t r rs (inr g) e k =
    absurd (ground (arith, (str_eq_iff (string_or_empty t.kind) (codes "test")).1 g))

check_target-HasRules :
    (graph : Graph) (t : Target) → (check_target graph t ≡ none) ↔ HasRules graph t
unfolding check_target
check_target-HasRules graph t = elim (List-cases t.test_resources) [
  | inl e ↦ ((λ f. record { is_test = inl e; met = rw e tt }), (λ h. rw (check_target, e) refl))
  | inr (r, rs, e) ↦
      let (there, back) =
        first_error-All (check_request graph (string_or_empty t.label))
          (check_request-CanBeMet graph (string_or_empty t.label)) (r ∷ rs) in
      elim (Bool-cases (str_eq (string_or_empty t.kind) (codes "test"))) [
        | inl k ↦
            let goes_on : check_target graph t
                ≡ first_error (check_request graph (string_or_empty t.label)) (r ∷ rs) =
              simp (check_target, e, k) refl in
            (
              (λ f. record {
                is_test = inr ((str_eq_iff (string_or_empty t.kind) (codes "test")).0 k);
                met = subst (All (CanBeMet graph)) (sym e) (there (sym goes_on ∙ f));
              }),
              (λ h. goes_on ∙ back (subst (All (CanBeMet graph)) e h.met)),
            )
        | inr k ↦
            let stops : check_target graph t ≡ some (not_a_test (string_or_empty t.label)) =
              simp (check_target, e, k) refl in
            (
              (λ f. absurd (none-ne_some (sym f ∙ stops))),
              (λ h. absurd (no_test t r rs h.is_test e k)),
            )
      ]
]

-- The validation succeeds exactly if each resource has a name of the allowed characters and a
-- capacity above 0, and each target that asks for resources is a test that asks for known ones, for
-- more than 0 and at most the capacity.
pub validate_test_resources-HasRules :
    (graph : Graph)
    → (validate_test_resources graph ≡ none)
      ↔ (All IsUsable graph.test_resources × All (HasRules graph) graph.targets)
unfolding validate_test_resources
validate_test_resources-HasRules graph =
    let (one, two) = first_error-All check_resource check_resource-IsUsable graph.test_resources in
    let (there, back) =
      first_error-All (check_target graph) (check_target-HasRules graph) graph.targets in
    elim (Option-cases (first_error check_resource graph.test_resources)) [
      | inl e ↦
          let goes_on : validate_test_resources graph
              ≡ first_error (check_target graph) graph.targets =
            simp (validate_test_resources, e) refl in
          ((λ f. (one e, there (sym goes_on ∙ f))), (λ (a, b). goes_on ∙ back b))
      | inr (w, e) ↦
          let stops : validate_test_resources graph ≡ some w =
            simp (validate_test_resources, e) refl in
          (
            (λ f. absurd (none-ne_some (sym f ∙ stops))),
            (λ (a, b). absurd (none-ne_some (sym (two a) ∙ e))),
          )
    ]
