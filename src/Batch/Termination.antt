-- ===== src/Batch/Termination.antt =====
-- The loop of src/test_resources.c comes to its end.
use qstar.Prelude.{
  ℕ, zero, suc, ◌+◌, ◌-◌, ◌*◌, ◌≤◌, ◌<◌, ◌≡◌, refl, sym, ap, ◌∙◌, inl, inr, true, List, arith, All,
  length, map, ltb, lt→ltb, ltb→lt, subst, Bool-cases,
}
use native.Mathlib.Nat.{mul-le-mul_right}
use qstar.Graph.State.{Graph}
use qstar.Batch.{Run, Env, Shared}
use qstar.Batch.Loop.{timeout_sec, scan, finished, run_from}
use qstar.Batch.Sums.{total_weight, AllInv}
use qstar.Batch.Rounds.{BatchOk, BatchOk-later}
use qstar.Batch.Stuck.{AllLeft}
use qstar.Batch.Responsive.{IsResponsive, over_time, scan-total_weight, Round, Round-Round}

-- The loop ends in a state where all is done.
pub record Finishes (graph : Graph) (env : Env) (jobs fuel round : ℕ) (runs : List Run) (s : Shared)
    : Type 0 where
  pub last : List Run
  pub last_shared : Shared
  pub last_round : ℕ
  pub end_eq : run_from fuel graph env jobs round runs s ≡ finished last
  pub last_ok : BatchOk graph env jobs last_round last last_shared
  pub all_counted : length last ≤ last_shared.done_count
  pub same_targets : map (λ r. r.target) last ≡ map (λ r. r.target) runs

mul_step : (v w m : ℕ) → v < w → v * m + m ≤ w * m
mul_step v w m h = omega (arith, mul-le-mul_right m h)

module _ (graph : Graph) (env : Env) (jobs rate limit : ℕ) where
  -- The rounds that may pass before a process is killed.
  abbrev pub patience : ℕ
  patience = rate * limit

  abbrev IsShort : List Run → Type 0
  IsShort runs = All (λ t. timeout_sec t ≤ limit) (map (λ (r : Run). r.target) runs)

  -- Nothing stays as it is for longer than that.
  not_stuck :
      (k idle : ℕ) (runs : List Run) (s : Shared)
      → IsResponsive env rate
      → 1 ≤ jobs
      → IsShort runs
      → AllInv graph env k 0 runs
      → BatchOk graph env jobs (k + idle) runs s
      → s.done_count < length runs
      → AllLeft graph env jobs (k + idle) 0 runs
      → scan graph env jobs (k + idle) 0 runs s ≡ (runs, s)
      → idle < patience
  not_stuck k idle runs s c j h i b d left e = elim (Bool-cases (ltb idle patience)) [
    | inl f ↦ ltb→lt idle patience f
    | inr f ↦
        let long : patience ≤ idle = ground (arith, f) in
        let less : total_weight (scan graph env jobs (k + idle) 0 runs s).0 < total_weight runs =
          scan-total_weight graph env jobs (k + idle) runs s b j d
            (over_time graph env jobs rate limit idle k 0 runs c long h i left) in
        let same : total_weight (scan graph env jobs (k + idle) 0 runs s).0 ≡ total_weight runs =
          ap (λ (x : List Run × Shared). total_weight x.0) e in
        absurd (omega arith)
  ]

  -- One more round.
  again :
      (fuel round : ℕ) (runs : List Run) (s : Shared)
      → s.done_count < length runs
      → (r : Round graph env jobs round runs s)
      → Finishes graph env jobs fuel (suc round) r.after.0 r.after.1
      → Finishes graph env jobs (suc fuel) round runs s
  unfolding run_from
  again fuel round runs s d r f =
      let e : ltb s.done_count (length runs) ≡ true = lt→ltb s.done_count (length runs) d in
      record {
        last = f.last;
        last_shared = f.last_shared;
        last_round = f.last_round;
        end_eq = rw (run_from, e, r.after_eq) f.end_eq;
        last_ok = f.last_ok;
        all_counted = f.all_counted;
        same_targets = f.same_targets ∙ r.same_targets;
      }

  pub run_from-Finishes :
      (fuel k idle : ℕ) (runs : List Run) (s : Shared)
      → IsResponsive env rate
      → 1 ≤ jobs
      → IsShort runs
      → AllInv graph env k 0 runs
      → BatchOk graph env jobs (k + idle) runs s
      → idle ≤ patience
      → total_weight runs * suc patience + (suc patience - idle) ≤ fuel
      → Finishes graph env jobs fuel (k + idle) runs s
  unfolding run_from
  run_from-Finishes zero k idle runs s c j h i b l f = absurd (omega arith)
  run_from-Finishes (suc fuel) k idle runs s c j h i b l f =
      elim (Bool-cases (ltb s.done_count (length runs))) [
        | inr e ↦ record {
          last = runs;
          last_shared = s;
          last_round = k + idle;
          end_eq = rw (run_from, e) refl;
          last_ok = b;
          all_counted = ground (arith, e);
          same_targets = refl;
        }
        | inl e ↦
            let d : s.done_count < length runs = ltb→lt s.done_count (length runs) e in
            let r : Round graph env jobs (k + idle) runs s =
              Round-Round graph env jobs rate (k + idle) runs s c b in
            again fuel (k + idle) runs s d r (elim r.progress [
              | inl less ↦
                  let later : BatchOk graph env jobs (suc (k + idle)) r.after.0 r.after.1 =
                    BatchOk-later graph env jobs (k + idle) r.after.0 r.after.1 r.after_ok in
                  let step : total_weight r.after.0 * suc patience + suc patience
                      ≤ total_weight runs * suc patience =
                    mul_step (total_weight r.after.0) (total_weight runs) (suc patience) less in
                  let start : suc (k + idle) + 0 ≡ suc (k + idle) = omega arith in
                  subst (λ (n : ℕ). Finishes graph env jobs fuel n r.after.0 r.after.1) start
                    (run_from-Finishes fuel (suc (k + idle)) 0 r.after.0 r.after.1 c j
                      (subst (All (λ t. timeout_sec t ≤ limit)) (sym r.same_targets) h) later.each
                      (subst (λ (n : ℕ). BatchOk graph env jobs n r.after.0 r.after.1) (sym start)
                        later)
                      (omega arith) (omega arith))
              | inr (same, left, stays) ↦
                  let more : idle < patience = not_stuck k idle runs s c j h i b d left stays in
                  let next : k + suc idle ≡ suc (k + idle) = omega arith in
                  subst
                    (λ (x : List Run × Shared).
                      Finishes graph env jobs fuel (suc (k + idle)) x.0 x.1)
                    (sym same)
                    (subst (λ (n : ℕ). Finishes graph env jobs fuel n runs s) next
                      (run_from-Finishes fuel k (suc idle) runs s c j h i
                        (subst (λ (n : ℕ). BatchOk graph env jobs n runs s) (sym next)
                          (BatchOk-later graph env jobs (k + idle) runs s b))
                        more (omega arith)))
            ])
      ]
