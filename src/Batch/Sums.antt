-- ===== src/Batch/Sums.antt =====
-- What the runs of src/test_resources.c hold together, and how a pass over them changes it.
use qstar.Prelude.{
  ℕ, ℤ, pos, ◌+ℤ◌, ◌≤ℤ◌, int_laws, pos_part, neg_part, suc, ◌+◌, ◌≤◌, ◌<◌, ◌≡◌, refl, sym, ap, ◌∙◌,
  ◌⊎◌, inl, inr, false, List, [], ◌∷◌, some, map, get_elem?, arith, All, subst,
}
use qstar.Graph.Target.{Target}
use qstar.Graph.State.{Graph, TestResource}
use qstar.TestResources.{Used}
use qstar.TestResources.Shares.{AreDistinct, CanBeMet}
use qstar.Batch.{Phase, Run, Env, Shared}
use qstar.Batch.Loop.{count_done}
use qstar.Batch.Invariant.{held, holds, dones, RunOk, weight, Moved}
use qstar.Batch.Steps.{Stepped}

unfoldable pub held_sum : Graph → List Run → ℕ → ℤ
unfolding held ◌+ℤ◌
held_sum graph [] k = pos 0
held_sum graph (r ∷ rs) k = held graph r k +ℤ held_sum graph rs k

unfoldable pub held_count : List Run → ℕ
held_count [] = 0
held_count (r ∷ rs) = holds r + held_count rs

unfoldable pub total_weight : List Run → ℕ
total_weight [] = 0
total_weight (r ∷ rs) = weight r + total_weight rs

-- The requests of the target can be met, and no two are for the same resource.
pub record HasRequests (graph : Graph) (target : Target) : Type 0 where
  pub distinct : AreDistinct target.test_resources
  pub met : All (CanBeMet graph) target.test_resources

-- The process of the run, if it has one, was started in a round up to this one.
pub record WasStarted (env : Env) (round index : ℕ) (run : Run) : Type 0 where
  pub began : ℕ
  pub phase : Phase
  pub by_now : began ≤ round
  pub start_eq : run.start ≡ env.started_at began index phase

pub record RunInv (graph : Graph) (env : Env) (round index : ℕ) (run : Run) : Type 0 where
  pub ok : RunOk run
  pub target_ok : HasRequests graph run.target
  pub start_ok : (run.running ≡ false) ⊎ WasStarted env round index run

abbrev pub AllInv : Graph → Env → ℕ → ℕ → List Run → Type 0
AllInv graph env round index [] = Unit
AllInv graph env round index (r ∷ rs) =
    RunInv graph env round index r × AllInv graph env round (suc index) rs

-- No resource is used beyond its capacity.
pub record IsWithin (graph : Graph) (used : Used) : Type 0 where
  pub at_cell :
      (k : ℕ) (p : TestResource) → get_elem? graph.test_resources k ≡ some p → used k ≤ℤ p.capacity

-- A step that a pass makes of one run, if it makes one.
pub record StepOk (graph : Graph) (env : Env) (jobs round index : ℕ) (r : Run) (s : Shared)
    (p : Run × Shared) : Type 0 where
  pub step : (p ≡ (r, s)) ⊎ Stepped graph env round index r s p
  pub within : IsWithin graph p.1.used
  pub limit : p.1.holders ≤ jobs

-- A pass over the runs.
pub record Swept (graph : Graph) (env : Env) (jobs round index : ℕ) (runs : List Run) (s : Shared)
    (p : List Run × Shared) : Type 0 where
  pub each : AllInv graph env round index p.0
  pub same_targets : map (λ r. r.target) p.0 ≡ map (λ r. r.target) runs
  pub used_moved : (k : ℕ) → p.1.used k +ℤ held_sum graph runs k ≡ s.used k +ℤ held_sum graph p.0 k
  pub holders_moved : p.1.holders + held_count runs ≡ s.holders + held_count p.0
  pub done_moved : p.1.done_count + count_done runs ≡ s.done_count + count_done p.0
  pub within : IsWithin graph p.1.used
  pub limit : p.1.holders ≤ jobs
  pub progress : (p ≡ (runs, s)) ⊎ (total_weight p.0 < total_weight runs)

module _ (graph : Graph) (env : Env) (jobs round : ℕ) where
  pub RunInv-step :
      (index : ℕ) (r : Run) (s : Shared) (p : Run × Shared)
      → RunInv graph env round index r
      → (p ≡ (r, s)) ⊎ Stepped graph env round index r s p
      → RunInv graph env round index p.0
  RunInv-step index r s p i (inl e) =
      subst (λ (x : Run × Shared). RunInv graph env round index x.0) (sym e) i
  RunInv-step index r s p i (inr m) = record {
    ok = m.ok;
    target_ok = rw m.moved.same_target i.target_ok;
    start_ok = elim m.started_in [
      | inl e ↦ inl e
      | inr (phase, e) ↦
          inr (record { began = round; phase = phase; by_now = omega arith; start_eq = e })
    ];
  }

  pub step-Moved :
      (index : ℕ) (r : Run) (s : Shared) (p : Run × Shared)
      → (p ≡ (r, s)) ⊎ Stepped graph env round index r s p
      → Moved graph r s p.0 p.1
  step-Moved index r s p (inr m) = m.moved
  step-Moved index r s p (inl e) =
      subst (λ (x : Run × Shared). Moved graph r s x.0 x.1) (sym e)
        (record { same_target = refl; used_moved = λ k. refl; holders_moved = refl })

  step_done :
      (index : ℕ) (r : Run) (s : Shared) (p : Run × Shared)
      → (p ≡ (r, s)) ⊎ Stepped graph env round index r s p
      → p.1.done_count + dones r ≡ s.done_count + dones p.0
  step_done index r s p (inr m) = m.done_moved
  step_done index r s p (inl e) =
      subst (λ (x : Run × Shared). x.1.done_count + dones r ≡ s.done_count + dones x.0) (sym e) refl

  sweep_sums :
      (a b c d e f g : ℤ) → e +ℤ a ≡ c +ℤ b → g +ℤ d ≡ e +ℤ f → g +ℤ (a +ℤ d) ≡ c +ℤ (b +ℤ f)
  sweep_sums a b c d e f g h k =
      omega (int_laws, ap pos_part h, ap neg_part h, ap pos_part k, ap neg_part k)

  sweep_progress :
      (index : ℕ) (r : Run) (s : Shared) (p : Run × Shared) (runs : List Run)
      (q : List Run × Shared)
      → (p ≡ (r, s)) ⊎ Stepped graph env round index r s p
      → (q ≡ (runs, p.1)) ⊎ (total_weight q.0 < total_weight runs)
      → (◌≡◌ {A = List Run × Shared} (p.0 ∷ q.0, q.1) (r ∷ runs, s))
        ⊎ (total_weight (p.0 ∷ q.0) < total_weight (r ∷ runs))
  unfolding total_weight
  sweep_progress index r s p runs q (inr m) (inr l) = inr (omega (arith, m.lighter))
  sweep_progress index r s p runs q (inl e) (inr l) = inr (
      subst (λ (x : Run × Shared). total_weight (x.0 ∷ q.0) < total_weight (r ∷ runs)) (sym e)
        (omega arith))
  sweep_progress index r s p runs q (inl e) (inl f) = inl (
      ap {B = List Run × Shared} (λ (x : List Run × Shared). (p.0 ∷ x.0, x.1)) f
      ∙ ap {B = List Run × Shared} (λ (x : Run × Shared). (x.0 ∷ runs, x.1)) e)
  sweep_progress index r s p runs q (inr m) (inl f) = inr (
      subst (λ (x : List Run × Shared). total_weight (p.0 ∷ x.0) < total_weight (r ∷ runs)) (sym f)
        (omega (arith, m.lighter)))

  pub Swept-cons :
      (index : ℕ) (r : Run) (s : Shared) (p : Run × Shared) (runs : List Run)
      (q : List Run × Shared)
      → RunInv graph env round index r
      → StepOk graph env jobs round index r s p
      → Swept graph env jobs round (suc index) runs p.1 q
      → Swept graph env jobs round index (r ∷ runs) s (p.0 ∷ q.0, q.1)
  unfolding held_sum held_count count_done
  Swept-cons index r s p runs q i a b =
      let m : Moved graph r s p.0 p.1 = step-Moved index r s p a.step in
      record {
        each = (RunInv-step index r s p i a.step, b.each);
        same_targets = rw (m.same_target, b.same_targets) refl;
        used_moved = λ k.
            sweep_sums (held graph r k) (held graph p.0 k) (s.used k) (held_sum graph runs k)
              (p.1.used k) (held_sum graph q.0 k) (q.1.used k) (m.used_moved k) (b.used_moved k);
        holders_moved = omega (arith, m.holders_moved, b.holders_moved);
        done_moved = omega (arith, step_done index r s p a.step, b.done_moved);
        within = b.within;
        limit = b.limit;
        progress = sweep_progress index r s p runs q a.step b.progress;
      }

  pub Swept-nil :
      (index : ℕ) (s : Shared)
      → IsWithin graph s.used
      → s.holders ≤ jobs
      → Swept graph env jobs round index [] s ([], s)
  Swept-nil index s w l = record {
    each = tt;
    same_targets = refl;
    used_moved = λ k. refl;
    holders_moved = refl;
    done_moved = refl;
    within = w;
    limit = l;
    progress = inl refl;
  }
