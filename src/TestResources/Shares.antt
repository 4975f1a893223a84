-- ===== src/TestResources/Shares.antt =====
-- What the requests of a test add up to, and the cells of `used` when they are granted or returned.
use qstar.Prelude.{
  ℕ, ℤ, pos, ◌+ℤ◌, ◌-ℤ◌, ◌≤ℤ◌, leb_ℤ, leb_ℤ→le, le→leb_ℤ, int_laws, suc, ◌-◌, ◌≤◌, true, false,
  List, [], ◌∷◌, Option, none, some, Bytes, CString, string_or_empty, str_eq, str_eq_iff, get_elem?,
  if◌then◌else◌, ◌==◌, ◌≡◌, ◌≢◌, refl, sym, ap, ◌∙◌, arith, inl, inr, All, Option-cases, Bool-cases,
  some-eq_some,
}
use qstar.Graph.Target.{TestResourceRequest}
use qstar.Graph.State.{Graph, TestResource}
use qstar.Graph.Lookup.{is_label}
use qstar.TestResources.{
  ResourceRef, find_from, find_test_resource, requests, Used, available, add_at, change,
}

-- The amount of resource `k` that the requests ask for.
unfoldable pub requested : Graph → List TestResourceRequest → ℕ → ℤ
unfolding find_test_resource ◌+ℤ◌
requested graph [] k = pos 0
requested graph (r ∷ rs) k = elim (find_test_resource graph r.name) [
  | none ↦ requested graph rs k
  | some (index, resource) ↦
      if k == index then r.amount +ℤ requested graph rs k else requested graph rs k
]

-- No two requests name the same resource.
unfoldable pub AreDistinct : List TestResourceRequest → Type 0
unfolding requests
AreDistinct [] = Unit
AreDistinct (r ∷ rs) = (requests rs (string_or_empty r.name) ≡ false) × AreDistinct rs

-- A request that the resource can meet at all.
pub record CanBeMet (graph : Graph) (r : TestResourceRequest) : Type 0 where
  pub index : ℕ
  pub resource : TestResource
  pub found : find_test_resource graph r.name ≡ some (index, resource)
  pub positive : pos 1 ≤ℤ r.amount
  pub at_most : r.amount ≤ℤ resource.capacity

pub change-true :
    (graph : Graph) (used : Used) (rs : List TestResourceRequest) (k : ℕ)
    → change graph used rs true k ≡ used k +ℤ requested graph rs k
unfolding change requested add_at
change-true graph used [] k = omega int_laws
change-true graph used (r ∷ rs) k = elim (Option-cases (find_test_resource graph r.name)) [
  | inl e ↦ rw (change, requested, e) (change-true graph used rs k)
  | inr ((index, resource), e) ↦
      rw (change, requested, e, change-true graph (add_at used index r.amount) rs k)
        (elim (Bool-cases (k == index)) [
          | inl h ↦ rw (add_at, h) (omega int_laws)
          | inr h ↦ rw (add_at, h) refl
        ])
]

pub change-false :
    (graph : Graph) (used : Used) (rs : List TestResourceRequest) (k : ℕ)
    → change graph used rs false k ≡ used k -ℤ requested graph rs k
unfolding change requested add_at
change-false graph used [] k = omega int_laws
change-false graph used (r ∷ rs) k = elim (Option-cases (find_test_resource graph r.name)) [
  | inl e ↦ rw (change, requested, e) (change-false graph used rs k)
  | inr ((index, resource), e) ↦
      rw (change, requested, e, change-false graph (add_at used index (pos 0 -ℤ r.amount)) rs k)
        (elim (Bool-cases (k == index)) [
          | inl h ↦ rw (add_at, h) (omega int_laws)
          | inr h ↦ rw (add_at, h) refl
        ])
]

-- A resource that is found stands at its position, has the name, and is the first that has it.
pub record IsFound (i : ℕ) (rs : List TestResource) (name : Bytes) (j : ℕ) (r : TestResource)
    : Type 0 where
  pub at_least : i ≤ j
  pub at_place : get_elem? rs (j - i) ≡ some r
  pub named : string_or_empty r.name ≡ name

pub same_ref : {a b : ResourceRef} → some a ≡ some b → (a.0 ≡ b.0) × (a.1 ≡ b.1)
same_ref e =
    (ap (λ (p : ResourceRef). p.0) (some-eq_some e), ap (λ (p : ResourceRef). p.1) (some-eq_some e))

pub find_from-IsFound :
    (i : ℕ) (rs : List TestResource) (name : Bytes) (j : ℕ) (r : TestResource)
    → find_from i rs name ≡ some (j, r)
    → IsFound i rs name j r
unfolding find_from is_label
find_from-IsFound i [] name j r h = cc
find_from-IsFound i (q ∷ qs) name j r h = elim (Bool-cases (str_eq (string_or_empty q.name) name)) [
  | inl e ↦
      let same : ◌≡◌ {A = Option ResourceRef} (some (i, q)) (some (j, r)) = ground (arith, e, h) in
      let (here, this) = same_ref same in
      let start : j - i ≡ 0 = omega arith in
      record {
        at_least = omega arith;
        at_place = ap (get_elem? (q ∷ qs)) start ∙ ap some this;
        named =
            ap (λ (t : TestResource). string_or_empty t.name) (sym this)
            ∙ (str_eq_iff (string_or_empty q.name) name).0 e;
      }
  | inr e ↦
      let later : find_from (suc i) qs name ≡ some (j, r) = ground (arith, e, h) in
      let rest : IsFound (suc i) qs name j r = find_from-IsFound (suc i) qs name j r later in
      let low : suc i ≤ j = rest.at_least in
      let next : j - i ≡ suc (j - suc i) = omega arith in
      record {
        at_least = omega arith;
        at_place = ap (get_elem? (q ∷ qs)) next ∙ rest.at_place;
        named = rest.named;
      }
]

-- Two names that stand for the same position are the same.
pub same_name :
    (graph : Graph) (a b : CString) (k : ℕ) (p q : TestResource)
    → find_test_resource graph a ≡ some (k, p)
    → find_test_resource graph b ≡ some (k, q)
    → string_or_empty a ≡ string_or_empty b
unfolding find_test_resource
same_name graph none b k p q e f = cc
same_name graph (some a) none k p q e f = cc
same_name graph (some a) (some b) k p q e f =
    let one : IsFound 0 graph.test_resources a k p =
      find_from-IsFound 0 graph.test_resources a k p e in
    let two : IsFound 0 graph.test_resources b k q =
      find_from-IsFound 0 graph.test_resources b k q f in
    let this : p ≡ q = some-eq_some (sym one.at_place ∙ two.at_place) in
    sym one.named ∙ ap (λ (t : TestResource). string_or_empty t.name) this ∙ two.named

requested_none : (graph : Graph) (k : ℕ) → requested graph [] k ≡ pos 0
unfolding requested
requested_none graph k = refl

requested_other :
    (graph : Graph) (r : TestResourceRequest) (rs : List TestResourceRequest) (k i : ℕ)
    (p : TestResource)
    → find_test_resource graph r.name ≡ some (i, p)
    → k ≢ i
    → requested graph (r ∷ rs) k ≡ requested graph rs k
unfolding requested
requested_other graph r rs k i p e ne =
    let apart : (k == i) ≡ false = ground arith in rw (requested, e, apart) refl

requested_this :
    (graph : Graph) (r : TestResourceRequest) (rs : List TestResourceRequest) (k : ℕ)
    (p : TestResource)
    → find_test_resource graph r.name ≡ some (k, p)
    → requested graph (r ∷ rs) k ≡ r.amount +ℤ requested graph rs k
unfolding requested
requested_this graph r rs k p e =
    let same : (k == k) ≡ true = ground arith in rw (requested, e, same) refl

requested_unknown :
    (graph : Graph) (r : TestResourceRequest) (rs : List TestResourceRequest) (k : ℕ)
    → find_test_resource graph r.name ≡ none
    → requested graph (r ∷ rs) k ≡ requested graph rs k
unfolding requested
requested_unknown graph r rs k e = rw (requested, e) refl

-- Nothing is asked of a resource that no request names.
requested_absent :
    (graph : Graph) (rs : List TestResourceRequest) (name : CString) (k : ℕ) (p : TestResource)
    → find_test_resource graph name ≡ some (k, p)
    → requests rs (string_or_empty name) ≡ false
    → requested graph rs k ≡ pos 0
unfolding requests is_label requested
requested_absent graph [] name k p e absent = refl
requested_absent graph (r ∷ rs) name k p e absent =
    let not_head : str_eq (string_or_empty r.name) (string_or_empty name) ≡ false = ground arith in
    let not_tail : requests rs (string_or_empty name) ≡ false = ground arith in
    let rest : requested graph rs k ≡ pos 0 = requested_absent graph rs name k p e not_tail in
    elim (Option-cases (find_test_resource graph r.name)) [
      | inl f ↦ requested_unknown graph r rs k f ∙ rest
      | inr ((i, q), f) ↦ elim (Bool-cases (k == i)) [
        | inr h ↦ requested_other graph r rs k i q f (ground (arith, h)) ∙ rest
        | inl h ↦
            let here : k ≡ i = ground (arith, h) in
            let g : find_test_resource graph r.name ≡ some (k, q) = rw here f in
            let same : string_or_empty r.name ≡ string_or_empty name =
              same_name graph r.name name k q p g e in
            absurd
              (ground (arith, (str_eq_iff (string_or_empty r.name) (string_or_empty name)).1 same))
      ]
    ]

found_at :
    (graph : Graph) (name : CString) (k : ℕ) (p : TestResource)
    → find_test_resource graph name ≡ some (k, p)
    → get_elem? graph.test_resources k ≡ some p
unfolding find_test_resource
found_at graph none k p e = cc
found_at graph (some a) k p e =
    let start : k ≡ k - 0 = omega arith in
    ap (get_elem? graph.test_resources) start
    ∙ (find_from-IsFound 0 graph.test_resources a k p e).at_place

-- What is available can be granted within the capacities.
pub available-requested :
    (graph : Graph) (used : Used) (rs : List TestResourceRequest)
    → AreDistinct rs
    → available graph used rs ≡ true
    → (k : ℕ) (p : TestResource) → get_elem? graph.test_resources k ≡ some p
    → used k ≤ℤ p.capacity
    → used k +ℤ requested graph rs k ≤ℤ p.capacity
unfolding available AreDistinct
available-requested graph used [] d a k p at_k within = rw (requested_none graph k) (omega int_laws)
available-requested graph used (r ∷ rs) (d, ds) a k p at_k within =
    elim (Option-cases (find_test_resource graph r.name)) [
      | inl e ↦ absurd (ground (arith, e, a))
      | inr ((i, q), e) ↦
          let room : leb_ℤ (used i +ℤ r.amount) q.capacity ≡ true = ground (arith, e, a) in
          let rest : available graph used rs ≡ true = ground (arith, e, a) in
          elim (Bool-cases (k == i)) [
            | inr h ↦
                rw (requested_other graph r rs k i q e (ground (arith, h)))
                  (available-requested graph used rs ds rest k p at_k within)
            | inl h ↦
                let here : k ≡ i = ground (arith, h) in
                let f : find_test_resource graph r.name ≡ some (k, q) = rw here e in
                let zero_rest : requested graph rs k ≡ pos 0 =
                  requested_absent graph rs r.name k q f d in
                let this : q ≡ p = some-eq_some (sym (found_at graph r.name k q f) ∙ at_k) in
                let cap : used k +ℤ r.amount ≤ℤ p.capacity =
                  rw (here, sym this) (leb_ℤ→le (used i +ℤ r.amount) q.capacity room) in
                let sum : requested graph (r ∷ rs) k ≡ r.amount +ℤ requested graph rs k =
                  requested_this graph r rs k q f in
                rw (sum, zero_rest) (omega int_laws)
          ]
    ]

-- With nothing in use, all that can be met at all is available.
pub idle-available :
    (graph : Graph) (used : Used) (rs : List TestResourceRequest)
    → ((k : ℕ) → used k ≡ pos 0)
    → All (CanBeMet graph) rs
    → available graph used rs ≡ true
unfolding available
idle-available graph used [] idle met = refl
idle-available graph used (r ∷ rs) idle (m, ms) =
    let rest : available graph used rs ≡ true = idle-available graph used rs idle ms in
    let low : used m.index +ℤ r.amount ≤ℤ m.resource.capacity =
      rw (idle m.index) (omega (int_laws, m.at_most)) in
    rw (available, m.found, le→leb_ℤ (used m.index +ℤ r.amount) m.resource.capacity low, rest) refl

-- No less than nothing is asked for.
pub requested_nonneg :
    (graph : Graph) (rs : List TestResourceRequest) (k : ℕ)
    → All (CanBeMet graph) rs
    → pos 0 ≤ℤ requested graph rs k
requested_nonneg graph [] k met = rw (requested_none graph k) (omega arith)
requested_nonneg graph (r ∷ rs) k (m, ms) =
    let rest : pos 0 ≤ℤ requested graph rs k = requested_nonneg graph rs k ms in
    elim (Bool-cases (k == m.index)) [
      | inr h ↦
          rw (requested_other graph r rs k m.index m.resource m.found (ground (arith, h))) rest
      | inl h ↦
          let here : k ≡ m.index = ground (arith, h) in
          let low : pos 1 ≤ℤ r.amount = m.positive in
          let sum : requested graph (r ∷ rs) k ≡ r.amount +ℤ requested graph rs k =
            requested_this graph r rs k m.resource (rw here m.found) in
          rw sum (omega int_laws)
    ]
