-- ===== src/Plan.antt =====
-- The dependency closure of src/plan.c: targets in an order in which each stands behind what it
-- depends on. A target is named by its index in the graph, as `state` is.
pub mod Paths
pub mod Marks
pub mod Spec
pub mod Lists
pub mod Step
pub mod Sorting
pub mod Ascending
pub mod Closure
use Prim.Native.Nat.{Ordering}
use mathlib.Core.List.{reverse}
use qstar.Prelude.{
  present, ℕ, zero, suc, ◌+◌, Bool, true, false, ◌&&◌, List, [], ◌∷◌, ◌++◌, Option, none, some,
  Bytes, CString, string_or_empty, codes, length, get_elem?, set, head_is, if◌then◌else◌, map,
  strcmp,
}
use qstar.Graph.Target.{Target}
use qstar.Graph.State.{Graph}
use qstar.Graph.Lookup.{target_index, graph_find_genrule, graph_find_package_alias}
use qstar.Label.{label_package_alias, path_max}

-- The values 0, 1 and 2 of `state`.
pub data Mark : Type 0 where
  unvisited active finished : Mark

pub record Plan : Type 0 where
  pub state : List Mark
  pub order : List ℕ

pub data PlanError : Type 0 where
  cycle : Bytes → PlanError
  unresolved_package : Bytes → Bytes → Bytes → PlanError
  unknown_dependency : Bytes → Bytes → Bytes → PlanError
  unknown_target : Bytes → PlanError

-- `fault` is a read outside the arrays.
pub data Outcome (A : Type 0) : Type 0 where
  done : A → Outcome A
  failed : PlanError → Outcome A
  fault out_of_fuel : Outcome A

infixl 5 ◌>>=◌
abbrev pub ◌>>=◌ : {A B : Type 0} → Outcome A → (A → Outcome B) → Outcome B
done a >>= f = f a
failed e >>= f = failed e
fault >>= f = fault
out_of_fuel >>= f = out_of_fuel

abbrev pub label_of : Target → Bytes
label_of t = string_or_empty t.label

-- `external_dep_resolved`
unfoldable pub external_dep_resolved : Graph → Bytes → Bool
unfolding label_package_alias graph_find_package_alias
external_dep_resolved graph dep = elim (label_package_alias dep path_max) [
  | none ↦ false
  | some alias ↦ elim (graph_find_package_alias graph alias) [ none ↦ false | some p ↦ true ]
]

-- A dependency that is no target of the graph: `none` if the loop goes on.
unfoldable pub outside_error : Graph → Bytes → Bytes → Bool → Bytes → Option PlanError
unfolding external_dep_resolved graph_find_genrule head_is
outside_error graph owner field allow_external dep =
    if allow_external && head_is b'@' dep
    then if external_dep_resolved graph dep then none else some (unresolved_package field dep owner)
    else elim (graph_find_genrule graph dep) [
      | some g ↦ none
      | none ↦ some (unknown_dependency field dep owner)
    ]

module _ (graph : Graph) (visit : ℕ → Plan → Outcome Plan) (owner field : Bytes)
    (allow_external : Bool) where
  -- One round of VISIT_TARGET_LABEL_LIST.
  unfoldable pub visit_dep : Bytes → Plan → Outcome Plan
  unfolding target_index outside_error
  visit_dep dep plan = elim (target_index graph dep) [
    | some index ↦ visit index plan
    | none ↦ elim (outside_error graph owner field allow_external dep) [
      | none ↦ done plan
      | some e ↦ failed e
    ]
  ]

  unfoldable pub visit_label_list : List Bytes → Plan → Outcome Plan
  unfolding visit_dep
  visit_label_list [] plan = done plan
  visit_label_list (dep ∷ deps) plan = visit_dep dep plan >>= visit_label_list deps

unfoldable pub plan_push : Plan → ℕ → Plan
plan_push plan index = record plan { order = plan.order ++ index ∷ [] }

-- `plan->state[index] = mark`
unfoldable pub mark : Plan → ℕ → Mark → Plan
mark plan index m = record plan { state = set plan.state index m }

-- The three lists of `visit_target`, between the two marks.
unfoldable pub visit_lists : Graph → (ℕ → Plan → Outcome Plan) → Target → Plan → Outcome Plan
unfolding visit_label_list
visit_lists graph visit target plan = do
  p ← visit_label_list graph visit (label_of target) (codes "objects") false target.objects plan
  q ← visit_label_list graph visit (label_of target) (codes "deps") true target.deps p
  visit_label_list graph visit (label_of target) (codes "private_deps") true target.private_deps q

-- The recursion goes no deeper than there are unvisited targets, which the fuel counts.
unfoldable pub visit_target : ℕ → Graph → ℕ → Plan → Outcome Plan
unfolding visit_lists mark plan_push
visit_target zero graph index plan = out_of_fuel
visit_target (suc fuel) graph index plan = elim (get_elem? plan.state index) [
  | none ↦ fault
  | some finished ↦ done plan
  | some m ↦ elim (get_elem? graph.targets index) [
    | none ↦ fault
    | some target ↦ elim m [
      | active ↦ failed (cycle (label_of target))
      | _ ↦ visit_lists graph (visit_target fuel graph) target (mark plan index active) >>= λ p.
          done (plan_push (mark p index finished) index)
    ]
  ]
]

-- `strcmp(targets[i].label, targets[j].label) > 0`
unfoldable pub label_after : Graph → ℕ → ℕ → Bool
unfolding strcmp
label_after graph i j = elim (get_elem? graph.targets i) [
  | none ↦ false
  | some t ↦ elim (get_elem? graph.targets j) [
    | none ↦ false
    | some u ↦ elim (strcmp (label_of t) (label_of u)) [ Ordering.gt ↦ true | _ ↦ false ]
  ]
]

-- The inner loop of `sort_indices`: the sorted part, last index first, makes room for `v`.
unfoldable pub insert_index : Graph → ℕ → List ℕ → List ℕ
unfolding label_after
insert_index graph v [] = v ∷ []
insert_index graph v (u ∷ us) =
    let later = u ∷ insert_index graph v us in if label_after graph u v then later else v ∷ u ∷ us

unfoldable pub sort_indices_from : Graph → List ℕ → List ℕ → List ℕ
unfolding insert_index
sort_indices_from graph sorted [] = reverse sorted
sort_indices_from graph sorted (v ∷ vs) = sort_indices_from graph (insert_index graph v sorted) vs

unfoldable pub sort_indices : Graph → List ℕ → List ℕ
unfolding sort_indices_from
sort_indices graph indices = sort_indices_from graph [] indices

-- `indices[i] = i`, from `start`
unfoldable pub indices_from : {A : Type 0} → ℕ → List A → List ℕ
indices_from start [] = []
indices_from start (x ∷ xs) = start ∷ indices_from (suc start) xs

unfoldable pub visit_all : ℕ → Graph → List ℕ → Plan → Outcome Plan
unfolding visit_target
visit_all fuel graph [] plan = done plan
visit_all fuel graph (i ∷ is) plan = visit_target fuel graph i plan >>= visit_all fuel graph is

-- `calloc` of the marks.
abbrev pub start_plan : Graph → Plan
start_plan graph = record { state = map (λ t. unvisited) graph.targets; order = [] }

unfoldable pub build_closure : Graph → CString → Outcome Plan
unfolding visit_target visit_all sort_indices indices_from target_index
build_closure graph label =
    let fuel = suc (length graph.targets) in
    if present label
    then (elim (target_index graph (string_or_empty label)) [
      | none ↦ failed (unknown_target (string_or_empty label))
      | some index ↦ visit_target fuel graph index (start_plan graph)
    ])
    else visit_all fuel graph (sort_indices graph (indices_from 0 graph.targets)) (start_plan graph)
