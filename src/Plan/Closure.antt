-- ===== src/Plan/Closure.antt =====
-- The closure of a label, and of the whole graph.
use mathlib.Core.List.{Memᴰ}
use mathlib.Core.List.Memᴰ
use mathlib.Core.Logic.{⊎_elim}
use qstar.Prelude.{
  some-eq_some, ℕ, zero, suc, ◌<◌, ◌≡◌, ◌≢◌, refl, sym, ap, ◌∙◌, subst, ◌↔◌, ◌⊎◌, inl, inr,
  Option-cases, List, [], ◌∷◌, map, none, some, Bytes, length, get_elem?, arith,
}
use qstar.Graph.Target.{Target}
use qstar.Graph.State.{Graph}
use qstar.Graph.Lookup.{target_index}
use qstar.Plan.{
  Mark, unvisited, active, finished, Plan, PlanError, Outcome, done, failed, fault, out_of_fuel,
  visit_all, start_plan, build_closure, sort_indices, indices_from,
}
use qstar.Plan.Paths.{Reach, Chain, Ordered, Ordered-Reach, Ordered-acyclic}
use qstar.Plan.Marks.{unvisited_count-le, lt-length_of_get_elem?}
use qstar.Plan.Spec.{
  Ensures, Ensures-bind, Ensures-map, Explained, at, IsValid, Grows, Grows-refl, Grows-trans,
  Visited, CanVisit,
}
use qstar.Plan.Lists.{target_index-lt}
use qstar.Plan.Step.{visit_target-Visited}
use qstar.Plan.Sorting.{Memᴰ-sort_indices, indices_from-lt, lt-indices_from}

-- `order` has what `roots` reach, each target once and behind its dependencies.
pub record IsClosure (g : Graph) (roots order : List ℕ) : Type 0 where
  pub ordered : Ordered g [] order
  pub complete : (r j : ℕ) → Memᴰ r roots → Reach g r j → Memᴰ j order
  pub exact : (j : ℕ) → Memᴰ j order → (r : ℕ) × Memᴰ r roots × Reach g r j

-- A plan without active marks, from which any target can be visited.
record IsIdle (g : Graph) (p : Plan) : Type 0 where
  valid : IsValid g p
  idle : (j : ℕ) → at p j ≢ some active

get_elem?-map_unvisited :
    (ts : List Target) (j : ℕ) (m : Mark)
    → get_elem? (map (λ t. unvisited) ts) j ≡ some m
    → m ≡ unvisited
get_elem?-map_unvisited [] j m h = cc
get_elem?-map_unvisited (t ∷ ts) zero m h = cc
get_elem?-map_unvisited (t ∷ ts) (suc j) m h = get_elem?-map_unvisited ts j m h

length-map_unvisited : (ts : List Target) → length (map (λ t. unvisited) ts) ≡ length ts
length-map_unvisited [] = refl
length-map_unvisited (t ∷ ts) = ap suc (length-map_unvisited ts)

start_plan-IsIdle : (g : Graph) → IsIdle g (start_plan g)
start_plan-IsIdle g = record {
  valid = record {
    size = length-map_unvisited g.targets;
    listed = λ i m. absurd (Memᴰ.not-nil m);
    complete = λ i h. cc (get_elem?-map_unvisited g.targets i finished h);
    ordered = tt;
  };
  idle = λ j h. cc (get_elem?-map_unvisited g.targets j active h);
}

IsIdle-CanVisit :
    (g : Graph) (i : ℕ) (p : Plan)
    → IsIdle g p
    → i < length g.targets
    → CanVisit g (suc (length g.targets)) i p
IsIdle-CanVisit g i p h small = record {
  valid = h.valid;
  in_range = small;
  enough = omega (arith, unvisited_count-le p.state, h.valid.size);
  behind = λ j e. absurd (h.idle j e);
}

IsIdle-Grows : (g : Graph) (p q : Plan) → IsIdle g p → IsValid g q → Grows p q → IsIdle g q
IsIdle-Grows g p q h v grows = record { valid = v; idle = λ j e. h.idle j ((grows.same j).0 e) }

-- What holds behind visits of all of `roots`.
record AllVisited (g : Graph) (roots : List ℕ) (p q : Plan) : Type 0 where
  valid : IsValid g q
  grows : Grows p q
  reached : (r : ℕ) → Memᴰ r roots → at q r ≡ some finished
  only :
      (j : ℕ)
      → at q j ≡ some finished
      → (at p j ≡ some finished) ⊎ ((r : ℕ) × Memᴰ r roots × Reach g r j)

AllVisited-cons :
    (g : Graph) (r : ℕ) (rs : List ℕ) (p q s : Plan)
    → Visited g r p q
    → AllVisited g rs q s
    → AllVisited g (r ∷ rs) p s
AllVisited-cons g r rs p q s v w = record {
  valid = w.valid;
  grows = Grows-trans v.grows w.grows;
  reached = λ k m.
      ⊎_elim (λ e. subst (λ x. at s x ≡ some finished) (sym e) (w.grows.keeps r v.reached))
        (λ n. w.reached k n) (Memᴰ.cases_cons m);
  only = λ j h.
      ⊎_elim (λ f. ⊎_elim inl (λ reach. inr (r, Memᴰ.head refl, reach)) (v.only j f))
        (λ (k, m, reach). inr (k, Memᴰ.tail m, reach)) (w.only j h);
}

visit_all-AllVisited :
    (g : Graph) (roots : List ℕ) (p : Plan)
    → IsIdle g p
    → ((r : ℕ) → Memᴰ r roots → r < length g.targets)
    → Ensures (AllVisited g roots p) (Explained g) (visit_all (suc (length g.targets)) g roots p)
unfolding visit_all
visit_all-AllVisited g [] p h small = record {
  valid = h.valid;
  grows = Grows-refl p;
  reached = λ r m. absurd (Memᴰ.not-nil m);
  only = λ j e. inl e;
}
visit_all-AllVisited g (r ∷ rs) p h small =
    Ensures-bind (Visited g r p) (AllVisited g (r ∷ rs) p) (Explained g) _ _
      (visit_target-Visited (suc (length g.targets)) g r p
        (IsIdle-CanVisit g r p h (small r (Memᴰ.head refl))))
      (λ q v.
        Ensures-map (AllVisited g rs q) (AllVisited g (r ∷ rs) p) (Explained g) _
          (visit_all-AllVisited g rs q (IsIdle-Grows g p q h v.valid v.grows)
            (λ k m. small k (Memᴰ.tail m)))
          (λ s w. AllVisited-cons g r rs p q s v w))

AllVisited-IsClosure :
    (g : Graph) (roots : List ℕ) (q : Plan)
    → AllVisited g roots (start_plan g) q
    → IsClosure g roots q.order
AllVisited-IsClosure g roots q v = record {
  ordered = v.valid.ordered;
  complete = λ r j m reach.
      Ordered-Reach g q.order r v.valid.ordered (v.valid.complete r (v.reached r m)) reach;
  exact = λ j m.
      ⊎_elim (λ old. cc (get_elem?-map_unvisited g.targets j finished old)) (λ w. w)
        (v.only j (v.valid.listed j m));
}

-- A single visit.
one-Visited :
    (g : Graph) (r : ℕ) (q : Plan)
    → Visited g r (start_plan g) q
    → AllVisited g (r ∷ []) (start_plan g) q
one-Visited g r q v = AllVisited-cons g r [] (start_plan g) q q v (record {
  valid = v.valid;
  grows = Grows-refl q;
  reached = λ k m. absurd (Memᴰ.not-nil m);
  only = λ j e. inl e;
})

-- For a label, `build_closure` returns, within its fuel and inside its arrays. If it succeeds, the
-- order holds exactly the targets that the labelled one reaches, each once and behind its
-- dependencies; if it fails, the error names a label that is unknown, or a target that depends on
-- itself, or a dependency of a target that is neither a target, nor a generated action, nor an external
-- package with a known alias.
pub build_closure_label :
    (g : Graph) (c : ℕ) (s : Bytes)
    → Ensures
        (λ p. (r : ℕ) × (target_index g (c ∷ s) ≡ some r) × IsClosure g (r ∷ []) p.order)
        (Explained g)
        (build_closure g (some (c ∷ s)))
unfolding build_closure
build_closure_label g c s = elim (Option-cases (target_index g (c ∷ s))) [
  | inl lost ↦ rw (build_closure, lost) lost
  | inr (r, found) ↦
      rw (build_closure, found)
        (Ensures-map (Visited g r (start_plan g)) _ (Explained g) _
          (visit_target-Visited (suc (length g.targets)) g r (start_plan g) (
            IsIdle-CanVisit g r (start_plan g) (start_plan-IsIdle g)
              (target_index-lt g (c ∷ s) r found)))
          (λ q v. (r, refl, AllVisited-IsClosure g (r ∷ []) q (one-Visited g r q v))))
]

-- The same for the whole graph: the order holds every target once, behind its dependencies.
pub build_closure_all :
    (g : Graph)
    → Ensures
        (λ p. Ordered g [] p.order × ((i : ℕ) → Memᴰ i p.order ↔ (i < length g.targets)))
        (Explained g)
        (build_closure g none)
unfolding build_closure
build_closure_all g =
    let roots = sort_indices g (indices_from 0 g.targets) in
    let is_target = λ (i : ℕ). Memᴰ-sort_indices g i (indices_from 0 g.targets) in
    Ensures-map (AllVisited g roots (start_plan g)) _ (Explained g) _
      (visit_all-AllVisited g roots (start_plan g) (start_plan-IsIdle g)
        (λ r m. omega (arith, indices_from-lt 0 g.targets r ((is_target r).0 m))))
      (λ q v. (
        v.valid.ordered,
        λ i. (
          λ m. omega (arith, v.valid.size, lt-length_of_get_elem? q.state i (v.valid.listed i m)),
          λ h. v.valid.complete i (
              v.reached i
                ((is_target i).1 (lt-indices_from 0 g.targets i (omega arith) (omega arith)))),
        ),
      ))

-- If the labelled target reaches, by dependencies, a target that depends on itself, then
-- `build_closure` fails.
pub build_closure-Chain :
    (g : Graph) (c : ℕ) (s : Bytes) (r i : ℕ)
    → target_index g (c ∷ s) ≡ some r
    → Reach g r i
    → Chain g i i
    → (e : PlanError) × (build_closure g (some (c ∷ s)) ≡ failed e)
build_closure-Chain g c s r i found reach chain =
    fails (build_closure g (some (c ∷ s))) (build_closure_label g c s)
  where
    fails :
        (m : Outcome Plan)
        → Ensures
            (λ p. (r : ℕ) × (target_index g (c ∷ s) ≡ some r) × IsClosure g (r ∷ []) p.order)
            (Explained g)
            m
        → (e : PlanError) × (m ≡ failed e)
    fails (done p) (k, at_k, closure) =
        let same : r ≡ k = some-eq_some (sym found ∙ at_k) in
        absurd (
          Ordered-acyclic g p.order i closure.ordered
            (closure.complete k i (Memᴰ.head refl) (subst (λ x. Reach g x i) same reach)) chain)
    fails (failed e) h = (e, refl)
    fails fault h = absurd h
    fails out_of_fuel h = absurd h
