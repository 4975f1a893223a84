-- ===== src/Batch/Verdict.antt =====
-- The results of `qstar_graph_execute_test_batch` (src/test_resources.c).
use qstar.Prelude.{
  ℕ, suc, ◌+◌, ◌*◌, ◌≤◌, ◌≡◌, ◌↔◌, refl, sym, ◌∙◌, ◌⊎◌, inl, inr, Bool, true, false, List, [], ◌∷◌,
  Option, none, some, Bytes, codes, arith, All, length, map, str_eq, subst, Bool-cases,
  if◌then◌else◌,
}
use native.Mathlib.Nat.{mul-le-mul_right}
use qstar.Graph.Target.{Target}
use qstar.Graph.State.{Graph}
use qstar.Batch.{Phase, pending, setup, body, cleanup, done, Run, Env, is_done}
use qstar.Batch.Loop.{
  BatchOptions, job_limit, is_skipped, first_run, first_shared, count_done, timeout_sec, finished,
  execute_test_batch, is_failure, failed_count,
}
use qstar.Batch.Invariant.{retries, IsVerdict, PhaseOk, weight}
use qstar.Batch.Sums.{total_weight, HasRequests, AllInv}
use qstar.Batch.Rounds.{BatchOk}
use qstar.Batch.Responsive.{IsResponsive}
use qstar.Batch.Termination.{Finishes, run_from-Finishes}
use qstar.Batch.Outcome.{
  HasCapacities, first-BatchOk, Reached-BatchOk, Ended, execute_test_batch-Ended,
}

-- A run at the end of the batch.
pub record IsFinal (run : Run) : Type 0 where
  pub ended : run.phase ≡ done
  pub stopped : run.running ≡ false
  pub freed : run.resources_held ≡ false
  pub verdict : IsVerdict run.status
  pub attempts : run.attempt ≤ suc (retries run.target)

done-IsFinal :
    (phase : Phase) (r : Run) → r.phase ≡ phase → PhaseOk phase r → is_done phase ≡ true → IsFinal r
done-IsFinal pending r e ok d = cc
done-IsFinal setup r e ok d = cc
done-IsFinal body r e ok d = cc
done-IsFinal cleanup r e ok d = cc
done-IsFinal done r e (i, v, a) d = record {
  ended = e;
  stopped = i.not_running;
  freed = i.not_held;
  verdict = v;
  attempts = a;
}

count_done-le : (runs : List Run) → count_done runs ≤ length runs
unfolding count_done
count_done-le [] = omega arith
count_done-le (r ∷ rs) = elim (Bool-cases (is_done r.phase)) [
  | inl e ↦ rw e (omega (arith, count_done-le rs))
  | inr e ↦ rw e (omega (arith, count_done-le rs))
]

all_counted : (b : Bool) (l c : ℕ) → suc l ≤ (if b then 1 else 0) + c → c ≤ l → (b ≡ true) × (l ≤ c)
all_counted true l c h k = (refl, omega arith)
all_counted false l c h k = absurd (omega arith)

none_counted : (b : Bool) (n : ℕ) → ((if b then 1 else 0) + n ≡ 0) ↔ ((b ≡ false) × (n ≡ 0))
none_counted true n = ground arith
none_counted false n = ground arith

module _ (graph : Graph) (env : Env) where
  All-IsFinal :
      (round index : ℕ) (runs : List Run)
      → AllInv graph env round index runs
      → length runs ≤ count_done runs
      → All IsFinal runs
  unfolding count_done
  All-IsFinal round index [] i c = tt
  All-IsFinal round index (r ∷ rs) (i, is) c =
      let (now, rest) =
        all_counted (is_done r.phase) (length rs) (count_done rs) c (count_done-le rs) in
      (done-IsFinal r.phase r refl i.ok now, All-IsFinal round (suc index) rs is rest)

-- A status that is no failure.
abbrev pub IsSuccess : Bytes → Type 0
IsSuccess status = (status ≡ codes "pass") ⊎ (status ≡ codes "skip")

pass_no_failure : is_failure (codes "pass") ≡ false
unfolding is_failure str_eq
pass_no_failure = refl

skip_no_failure : is_failure (codes "skip") ≡ false
unfolding is_failure str_eq
skip_no_failure = refl

IsSuccess-iff : (status : Bytes) → IsVerdict status → (is_failure status ≡ false) ↔ IsSuccess status
IsSuccess-iff status v = (there v, back)
  where
    there : IsVerdict status → is_failure status ≡ false → IsSuccess status
    there (inl e) f = inl e
    there (inr (inl e)) f = inr e
    there (inr (inr g)) f = cc

    back : IsSuccess status → is_failure status ≡ false
    back (inl e) = rw e pass_no_failure
    back (inr e) = rw e skip_no_failure

failed_count_iff :
    (runs : List Run)
    → All IsFinal runs
    → (failed_count runs ≡ 0) ↔ All (λ r. IsSuccess r.status) runs
unfolding failed_count
failed_count_iff [] f = (λ e. tt, λ a. refl)
failed_count_iff (r ∷ rs) (f, fs) =
    let (there, back) = failed_count_iff rs fs in
    let (one, two) = IsSuccess-iff r.status f.verdict in
    let (apart, together) = none_counted (is_failure r.status) (failed_count rs) in
    (
      (λ e. let (now, rest) = apart e in (one now, there rest)),
      (λ (a, as'). together (two a, back as')),
    )

job_limit-positive : (options : Option BatchOptions) → 1 ≤ job_limit options
unfolding job_limit
job_limit-positive none = omega arith
job_limit-positive (some options) = ground arith

-- The rounds that are enough for a target: four for each attempt.
unfoldable pub steps_of : List Target → ℕ
steps_of [] = 0
steps_of (t ∷ ts) = 4 * suc (retries t) + steps_of ts

module _ (graph : Graph) (env : Env) (options : Option BatchOptions) where
  first_run-target : (target : Target) → (first_run options target).target ≡ target
  unfolding first_run
  first_run-target target = elim (Bool-cases (is_skipped options target)) [
    | inl e ↦ rw (first_run, e) refl
    | inr e ↦ rw (first_run, e) refl
  ]

  first_targets :
      (targets : List Target)
      → map (λ (r : Run). r.target) (map (first_run options) targets) ≡ targets
  first_targets [] = refl
  first_targets (t ∷ ts) = λ j. first_run-target t j ∷ first_targets ts j

  first_weight-le : (target : Target) → weight (first_run options target) ≤ 4 * suc (retries target)
  unfolding first_run
  first_weight-le target = elim (Bool-cases (is_skipped options target)) [
    | inl e ↦ rw (first_run, e) (omega arith)
    | inr e ↦ rw (first_run, e) (omega arith)
  ]

  first_total-le :
      (targets : List Target) → total_weight (map (first_run options) targets) ≤ steps_of targets
  unfolding total_weight steps_of
  first_total-le [] = omega arith
  first_total-le (t ∷ ts) = omega (arith, first_weight-le t, first_total-le ts)

  -- A batch that ends has a result for each test, in the order of the targets: it is done, its
  -- process and its resources are given back, its status is one of the five, and it made at most one
  -- attempt more than the target allows retries.
  pub execute_test_batch-IsFinal :
      (fuel : ℕ) (targets : List Target) (last : List Run)
      → HasCapacities graph
      → All (HasRequests graph) targets
      → execute_test_batch fuel graph env options targets ≡ finished last
      → All IsFinal last
  execute_test_batch-IsFinal fuel targets last room h e =
      let end : Ended graph env options targets last =
        execute_test_batch-Ended graph env options fuel targets last e in
      let b : BatchOk graph env (job_limit options) end.round last end.shared =
        Reached-BatchOk graph env options targets false end.round last end.shared room h
          end.reached in
      let counted : length last ≤ end.shared.done_count = end.counted in
      All-IsFinal graph env end.round 0 last b.each (omega (arith, b.done_sum))

  -- The batch reports no failed result exactly if each test passed or was skipped.
  pub failed_count-execute_test_batch :
      (fuel : ℕ) (targets : List Target) (last : List Run)
      → HasCapacities graph
      → All (HasRequests graph) targets
      → execute_test_batch fuel graph env options targets ≡ finished last
      → (failed_count last ≡ 0) ↔ All (λ r. IsSuccess r.status) last
  failed_count-execute_test_batch fuel targets last room h e =
      failed_count_iff last (execute_test_batch-IsFinal fuel targets last room h e)

  -- If waiting for a process never fails and clocks go on, the batch ends, after at most
  -- `rate * limit` idle rounds for each of the four steps of each attempt.
  pub execute_test_batch-ends :
      (rate limit fuel : ℕ) (targets : List Target)
      → HasCapacities graph
      → All (HasRequests graph) targets
      → IsResponsive env rate
      → All (λ t. timeout_sec t ≤ limit) targets
      → suc (steps_of targets) * suc (rate * limit) ≤ fuel
      → (last : List Run) × (execute_test_batch fuel graph env options targets ≡ finished last)
        × (map (λ (r : Run). r.target) last ≡ targets)
        × All IsFinal last
  unfolding execute_test_batch
  execute_test_batch-ends rate limit fuel targets room h c t f =
      let runs : List Run = map (first_run options) targets in
      let b : BatchOk graph env (job_limit options) 0 runs (first_shared runs) =
        first-BatchOk graph env options targets room h in
      let enough : total_weight runs * suc (rate * limit) ≤ steps_of targets * suc (rate * limit) =
        mul-le-mul_right (suc (rate * limit)) (first_total-le targets) in
      let end : Finishes graph env (job_limit options) fuel 0 runs (first_shared runs) =
        run_from-Finishes graph env (job_limit options) rate limit fuel 0 0 runs (first_shared runs)
          c (job_limit-positive options)
          (subst (All (λ t. timeout_sec t ≤ limit)) (sym (first_targets targets)) t) b.each b
          (omega arith) (omega arith) in
      (
        end.last,
        end.end_eq,
        end.same_targets ∙ first_targets targets,
        All-IsFinal graph env end.last_round 0 end.last end.last_ok.each
            (omega (arith, end.all_counted, end.last_ok.done_sum)),
      )
