-- ===== src/Batch/Validated.antt =====
-- The batch of a graph that `qstar_graph_validate_test_resources` has passed (src/test_resources.c).
use qstar.Prelude.{
  ℕ, pos, ◌≤ℤ◌, zero, suc, ◌*◌, ◌≤◌, ◌≡◌, sym, List, [], ◌∷◌, Option, none, some, arith, All, map,
  get_elem?, subst, some-eq_some,
}
use mathlib.Core.List.{Memᴰ}
use mathlib.Core.List.Memᴰ
use qstar.Graph.Target.{Target}
use qstar.Graph.State.{Graph, TestResource}
use qstar.TestResources.Shares.{AreDistinct}
use qstar.TestResources.Rules.{
  validate_test_resources, validate_test_resources-HasRules, IsUsable, HasRules,
}
use qstar.Batch.{Run, Env}
use qstar.Batch.Loop.{BatchOptions, timeout_sec, finished, execute_test_batch}
use qstar.Batch.Sums.{HasRequests}
use qstar.Batch.Responsive.{IsResponsive}
use qstar.Batch.Outcome.{HasCapacities}
use qstar.Batch.Verdict.{IsFinal, steps_of, execute_test_batch-ends}

All-get_elem? :
    (rs : List TestResource) (k : ℕ) (p : TestResource)
    → All IsUsable rs
    → get_elem? rs k ≡ some p
    → pos 0 ≤ℤ p.capacity
All-get_elem? [] k p a e = cc
All-get_elem? (r ∷ rs) zero p (u, us) e =
    let low : pos 1 ≤ℤ r.capacity = u.capacity_ok in
    subst (λ (q : TestResource). pos 0 ≤ℤ q.capacity) (some-eq_some e) (omega arith)
All-get_elem? (r ∷ rs) (suc k) p (u, us) e = All-get_elem? rs k p us e

member_rules :
    (graph : Graph) (ts : List Target) (t : Target)
    → All (HasRules graph) ts
    → Memᴰ t ts
    → HasRules graph t
member_rules graph [] t a m = absurd (Memᴰ.not-nil m)
member_rules graph (u ∷ us) t (a, as') (Memᴰ.head e) = subst (HasRules graph) (sym e) a
member_rules graph (u ∷ us) t (a, as') (Memᴰ.tail m) = member_rules graph us t as' m

-- A test of the graph with distinct requests, and a short time.
pub record IsTest (graph : Graph) (limit : ℕ) (t : Target) : Type 0 where
  pub member : Memᴰ t graph.targets
  pub distinct : AreDistinct t.test_resources
  pub short : timeout_sec t ≤ limit

All-requests :
    (graph : Graph) (limit : ℕ) (targets : List Target)
    → All (HasRules graph) graph.targets
    → All (IsTest graph limit) targets
    → All (HasRequests graph) targets × All (λ t. timeout_sec t ≤ limit) targets
All-requests graph limit [] rules h = (tt, tt)
All-requests graph limit (t ∷ ts) rules (h, hs) =
    let (rest, shorts) = All-requests graph limit ts rules hs in
    let rule : HasRules graph t = member_rules graph graph.targets t rules h.member in
    ((record { distinct = h.distinct; met = rule.met }, rest), (h.short, shorts))

-- On a graph that the validation has passed, a batch of its tests whose requests are distinct ends,
-- with a result for each, if waiting for a process never fails and clocks go on.
pub execute_test_batch-validated :
    (graph : Graph) (env : Env) (options : Option BatchOptions) (rate limit fuel : ℕ)
    (targets : List Target)
    → validate_test_resources graph ≡ none
    → All (IsTest graph limit) targets
    → IsResponsive env rate
    → suc (steps_of targets) * suc (rate * limit) ≤ fuel
    → (last : List Run) × (execute_test_batch fuel graph env options targets ≡ finished last)
      × (map (λ (r : Run). r.target) last ≡ targets)
      × All IsFinal last
execute_test_batch-validated graph env options rate limit fuel targets v h c f =
    let (usable, rules) = (validate_test_resources-HasRules graph).0 v in
    let (met, short) = All-requests graph limit targets rules h in
    let room : HasCapacities graph = λ k p e. All-get_elem? graph.test_resources k p usable e in
    execute_test_batch-ends graph env options rate limit fuel targets room met c short f
