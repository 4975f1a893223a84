-- ===== src/TestResources/Adding.antt =====
-- The declarations of test resources and the requests for them (src/graph.c).
use qstar.Prelude.{
  ℤ, ◌≡◌, refl, sym, ap, ◌∙◌, inl, inr, Bool, true, false, ◌||◌, List, [], ◌∷◌, ◌++◌, none, some,
  Bytes, string_or_empty, str_eq, str_eq_iff, any, arith, Bool-cases, some-eq_some, none-ne_some,
  subst,
}
use qstar.Graph.Target.{Target, TestResourceRequest}
use qstar.Graph.Lookup.{is_label}
use qstar.TestResources.{requests, add_test_resource_request}
use qstar.TestResources.Shares.{AreDistinct}

or_false : (a b : Bool) → a || b ≡ false → (a ≡ false) × (b ≡ false)
or_false true b e = cc
or_false false b e = (refl, e)

requests_snoc :
    (rs : List TestResourceRequest) (q : TestResourceRequest) (name : Bytes)
    → requests rs name ≡ false
    → str_eq (string_or_empty q.name) name ≡ false
    → requests (rs ++ q ∷ []) name ≡ false
unfolding requests is_label any
requests_snoc [] q name e f = rw f refl
requests_snoc (r ∷ rs) q name e f =
    let (one, rest) = or_false (str_eq (string_or_empty r.name) name) (requests rs name) e in
    rw one (requests_snoc rs q name rest f)

str_eq_sym : (a b : Bytes) → str_eq a b ≡ false → str_eq b a ≡ false
str_eq_sym a b e = elim (Bool-cases (str_eq b a)) [
  | inr f ↦ f
  | inl f ↦
      let same : a ≡ b = sym ((str_eq_iff b a).0 f) in
      absurd (ground (arith, e, (str_eq_iff a b).1 same))
]

AreDistinct-snoc :
    (rs : List TestResourceRequest) (q : TestResourceRequest)
    → AreDistinct rs
    → requests rs (string_or_empty q.name) ≡ false
    → AreDistinct (rs ++ q ∷ [])
unfolding AreDistinct requests is_label any
AreDistinct-snoc [] q d e = (refl, tt)
AreDistinct-snoc (r ∷ rs) q (d, ds) e =
    let (one, rest) =
      or_false (str_eq (string_or_empty r.name) (string_or_empty q.name))
        (requests rs (string_or_empty q.name)) e in
    (
      requests_snoc rs q (string_or_empty r.name) d
          (str_eq_sym (string_or_empty r.name) (string_or_empty q.name) one),
      AreDistinct-snoc rs q ds rest,
    )

-- A request that is accepted leaves the requests of the target distinct and stands behind them.
pub add_test_resource_request-AreDistinct :
    (t : Target) (name : Bytes) (amount : ℤ) (u : Target)
    → AreDistinct t.test_resources
    → add_test_resource_request t name amount ≡ some u
    → AreDistinct u.test_resources
      × (u.test_resources ≡ t.test_resources ++ record { name = some name; amount = amount } ∷ [])
unfolding add_test_resource_request
add_test_resource_request-AreDistinct t name amount u d e =
    elim (Bool-cases (requests t.test_resources name)) [
      | inl f ↦
          let refused : add_test_resource_request t name amount ≡ none =
            simp (add_test_resource_request, f) refl in
          absurd (none-ne_some (sym refused ∙ e))
      | inr f ↦
          let q : TestResourceRequest = record { name = some name; amount = amount } in
          let added : add_test_resource_request t name amount
              ≡ some (record t { test_resources = t.test_resources ++ q ∷ [] }) =
            simp (add_test_resource_request, f) refl in
          let same : t.test_resources ++ q ∷ [] ≡ u.test_resources =
            ap (λ (v : Target). v.test_resources) (some-eq_some (sym added ∙ e)) in
          (subst AreDistinct same (AreDistinct-snoc t.test_resources q d f), sym same)
    ]
