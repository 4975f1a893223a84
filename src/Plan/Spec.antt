-- ===== src/Plan/Spec.antt =====
-- What the visit of a target is to do: end within its fuel, read inside the arrays, and either finish
-- the target behind its dependencies or report an error that is there.
use mathlib.Core.List.{Memᴰ}
use mathlib.Core.List.Memᴰ
use mathlib.Core.Logic.{⊎_elim}
use qstar.Prelude.{
  ℕ, ◌≤◌, ◌<◌, ◌≡◌, ◌↔◌, ◌⊎◌, inr, false, List, [], ◌++◌, Option, none, some, Bytes, length,
  get_elem?, arith,
}
use qstar.Graph.Target.{Target}
use qstar.Graph.State.{Graph}
use qstar.Graph.Lookup.{target_index, graph_find_genrule}
use qstar.Plan.{
  Mark, active, finished, Plan, PlanError, cycle, unresolved_package, unknown_dependency,
  unknown_target, Outcome, done, failed, fault, out_of_fuel, ◌>>=◌, label_of, external_dep_resolved,
}
use qstar.Plan.Paths.{dep_labels, Reach, Chain, Ordered}
use qstar.Plan.Marks.{unvisited_count}

-- The outcome is a value with `P` or an error with `E`: neither a fault nor a lack of fuel.
abbrev pub Ensures : {A : Type 0} → (A → Type 0) → (PlanError → Type 0) → Outcome A → Type 0
Ensures P E (done a) = P a
Ensures P E (failed e) = E e
Ensures P E fault = ⊥
Ensures P E out_of_fuel = ⊥

pub Ensures-bind :
    {A B : Type 0} (P : A → Type 0) (Q : B → Type 0) (E : PlanError → Type 0) (m : Outcome A)
    (f : A → Outcome B)
    → Ensures P E m
    → ((a : A) → P a → Ensures Q E (f a))
    → Ensures Q E (m >>= f)
Ensures-bind P Q E (done a) f h k = k a h
Ensures-bind P Q E (failed e) f h k = h
Ensures-bind P Q E fault f h k = h
Ensures-bind P Q E out_of_fuel f h k = h

pub Ensures-map :
    {A : Type 0} (P Q : A → Type 0) (E : PlanError → Type 0) (m : Outcome A)
    → Ensures P E m
    → ((a : A) → P a → Q a)
    → Ensures Q E m
Ensures-map P Q E (done a) h k = k a h
Ensures-map P Q E (failed e) h k = h
Ensures-map P Q E fault h k = h
Ensures-map P Q E out_of_fuel h k = h

abbrev pub IfSome : {A : Type 0} → (A → Type 0) → Option A → Type 0
IfSome P none = Unit {0}
IfSome P (some a) = P a

pub IfSome-Ensures :
    {A : Type 0} (P : A → Type 0) (E : PlanError → Type 0) (a : A) (o : Option PlanError)
    → P a
    → IfSome E o
    → Ensures P E (elim o [ none ↦ done a | some e ↦ failed e ])
IfSome-Ensures P E a none h k = h
IfSome-Ensures P E a (some e) h k = k

-- The target `owner` of the graph names `dep`, which is no target.
pub record Dangling (g : Graph) (owner dep : Bytes) : Type 0 where
  pub index : ℕ
  pub target : Target
  pub at_index : get_elem? g.targets index ≡ some target
  pub labelled : label_of target ≡ owner
  pub named : Memᴰ dep (dep_labels target)
  pub absent : target_index g dep ≡ none

-- A target with this label that depends on itself.
pub record Cycle (g : Graph) (label : Bytes) : Type 0 where
  pub index : ℕ
  pub target : Target
  pub at_index : get_elem? g.targets index ≡ some target
  pub labelled : label_of target ≡ label
  pub chain : Chain g index index

-- What an error says of the graph.
abbrev pub Explained : Graph → PlanError → Type 0
Explained g (cycle label) = Cycle g label
Explained g (unresolved_package field dep owner) =
    Dangling g owner dep × (external_dep_resolved g dep ≡ false)
Explained g (unknown_dependency field dep owner) =
    Dangling g owner dep × (graph_find_genrule g dep ≡ none)
Explained g (unknown_target label) = target_index g label ≡ none

abbrev pub at : Plan → ℕ → Option Mark
at p i = get_elem? p.state i

-- `order` holds the finished targets, each behind its dependencies.
pub record IsValid (g : Graph) (p : Plan) : Type 0 where
  pub size : length p.state ≡ length g.targets
  pub listed : (i : ℕ) → Memᴰ i p.order → at p i ≡ some finished
  pub complete : (i : ℕ) → at p i ≡ some finished → Memᴰ i p.order
  pub ordered : Ordered g [] p.order

-- From `p` to `q` targets were finished, and no other mark changed for good.
pub record Grows (p q : Plan) : Type 0 where
  pub work : unvisited_count q.state ≤ unvisited_count p.state
  pub same : (j : ℕ) → (at q j ≡ some active) ↔ (at p j ≡ some active)
  pub keeps : (j : ℕ) → at p j ≡ some finished → at q j ≡ some finished

pub Grows-refl : (p : Plan) → Grows p p
Grows-refl p = record { work = omega arith; same = λ j. (λ h. h, λ h. h); keeps = λ j h. h }

pub Grows-trans : {p q r : Plan} → Grows p q → Grows q r → Grows p r
Grows-trans a b = record {
  work = omega (arith, a.work, b.work);
  same = λ j. (λ h. (a.same j).0 ((b.same j).0 h), λ h. (b.same j).1 ((a.same j).1 h));
  keeps = λ j h. b.keeps j (a.keeps j h);
}

-- What holds behind a visit of `i` that began at `p`.
pub record Visited (g : Graph) (i : ℕ) (p q : Plan) : Type 0 where
  pub valid : IsValid g q
  pub grows : Grows p q
  pub reached : at q i ≡ some finished
  pub only : (j : ℕ) → at q j ≡ some finished → (at p j ≡ some finished) ⊎ Reach g i j

-- What a visit of `i` needs: fuel for the unvisited targets, and that the active targets depend on `i`.
pub record CanVisit (g : Graph) (fuel i : ℕ) (p : Plan) : Type 0 where
  pub valid : IsValid g p
  pub in_range : i < length g.targets
  pub enough : unvisited_count p.state < fuel
  pub behind : (j : ℕ) → at p j ≡ some active → Chain g j i

-- The loop over labels of the target `i`, which is active, may go on from `p`.
pub record CanLoop (g : Graph) (fuel i : ℕ) (p : Plan) : Type 0 where
  pub valid : IsValid g p
  pub enough : unvisited_count p.state < fuel
  pub behind : (j : ℕ) → at p j ≡ some active → (j ≡ i) ⊎ Chain g j i

-- What holds behind the loop over `labels` from `p`.
pub record Looped (g : Graph) (i : ℕ) (labels : List Bytes) (p q : Plan) : Type 0 where
  pub valid : IsValid g q
  pub grows : Grows p q
  pub all_done :
      (l : Bytes) → Memᴰ l labels → (j : ℕ) → target_index g l ≡ some j → at q j ≡ some finished
  pub only : (j : ℕ) → at q j ≡ some finished → (at p j ≡ some finished) ⊎ Reach g i j

pub Looped-append :
    (g : Graph) (i : ℕ) (xs ys : List Bytes) (p q r : Plan)
    → Looped g i xs p q
    → Looped g i ys q r
    → Looped g i (xs ++ ys) p r
Looped-append g i xs ys p q r a b = record {
  valid = b.valid;
  grows = Grows-trans a.grows b.grows;
  all_done = λ l m j found.
      ⊎_elim (λ n. b.grows.keeps j (a.all_done l n j found)) (λ n. b.all_done l n j found)
        (Memᴰ.append_cases xs m);
  only = λ j h. ⊎_elim (a.only j) inr (b.only j h);
}
