-- ===== src/Batch/Loop.antt =====
-- The loop of `qstar_graph_execute_test_batch`: each round starts what can start and then polls what
-- runs.
use qstar.Prelude.{
  ℕ, ℤ, pos, nonzero, leb_ℤ, pos_part, zero, suc, ◌+◌, Bool, true, false, not, ◌&&◌, ◌||◌, List, [],
  ◌∷◌, Option, none, some, Bytes, present, codes, str_eq, leb, ltb, if◌then◌else◌, map, length,
}
use qstar.Graph.Target.{Target}
use qstar.Graph.State.{Graph}
use qstar.TestResources.{resources_available}
use qstar.Batch.{
  Phase, pending, done, Run, ExitStatus, exited, lost, busy, ended, Env, Shared, is_done,
  set_phase_result, advance_after_phase, start_attempt,
}

-- The members of `struct qstar_test_options` that the batch reads.
pub record BatchOptions : Type 0 where
  pub jobs : ℤ
  pub include_manual : ℤ

unfoldable pub job_limit : Option BatchOptions → ℕ
job_limit none = 1
job_limit (some options) = if leb_ℤ options.jobs (pos 0) then 1 else pos_part options.jobs

unfoldable pub is_skipped : Option BatchOptions → Target → Bool
is_skipped options target =
    let wanted : Bool = elim options [ none ↦ false | some o ↦ nonzero o.include_manual ] in
    present target.test_skip_reason || nonzero target.test_manual && not wanted

-- An element of the array `runs` after the loop that fills it.
unfoldable pub first_run : Option BatchOptions → Target → Run
unfolding is_skipped
first_run options target =
    let r : Run = record {
      target = target;
      phase = pending;
      start = 0;
      running = false;
      resources_held = false;
      attempt = 0;
      exit_code = pos 0;
      status = [];
    } in
    if is_skipped options target then record r { phase = done; status = codes "skip" } else r

unfoldable pub count_done : List Run → ℕ
count_done [] = 0
count_done (r ∷ rs) = (if is_done r.phase then 1 else 0) + count_done rs

-- `if (phase == QSTAR_TEST_DONE) done_count++`
unfoldable pub note_done : Run × Shared → Run × Shared
note_done (run, shared) =
    if is_done run.phase
    then (run, record shared { done_count = suc shared.done_count })
    else (run, shared)

abbrev pub is_pending : Phase → Bool
is_pending pending = true
is_pending _ = false

-- `QSTAR_TEST_DEFAULT_TIMEOUT_SEC`
abbrev pub default_timeout_sec : ℕ
default_timeout_sec = 5

unfoldable pub timeout_sec : Target → ℕ
timeout_sec target =
    if leb_ℤ target.test_timeout_sec (pos 0)
    then default_timeout_sec
    else pos_part target.test_timeout_sec

module _ (graph : Graph) (env : Env) (jobs round : ℕ) where
  unfoldable pub can_start : Run → Shared → Bool
  unfolding resources_available
  can_start run shared =
      ltb shared.holders jobs
      && (is_pending run.phase && resources_available graph shared.used run.target)

  -- A round of the first inner loop.
  unfoldable pub scan_one : ℕ → Run → Shared → Run × Shared
  unfolding can_start start_attempt note_done
  scan_one index run shared =
      if can_start run shared
      then note_done (start_attempt graph env round index run shared)
      else (run, shared)

  -- The loop ends when `jobs` runs hold resources, which then stays so.
  unfoldable pub scan : ℕ → List Run → Shared → List Run × Shared
  unfolding scan_one
  scan index [] shared = ([], shared)
  scan index (run ∷ runs) shared =
      let (r, s) = scan_one index run shared in
      let (rs, s') = scan (suc index) runs s in (r ∷ rs, s')

  -- A process has ended or is killed: the end of its phase.
  unfoldable pub phase_over : ℕ → Run → ExitStatus → Bool → Shared → Run × Shared
  unfolding set_phase_result advance_after_phase note_done
  phase_over index run status timed_out shared = note_done (
      advance_after_phase graph env round index
        (set_phase_result (record run { running = false }) run.phase status timed_out) run.phase
        shared)

  -- A round of the second inner loop. The status of a killed process is not looked at.
  unfoldable pub poll_one : ℕ → Run → Shared → Option (Run × Shared)
  unfolding phase_over timeout_sec
  poll_one index run shared =
      if run.running
      then (elim (env.wait round index) [
        | lost ↦ none
        | ended status ↦ some (phase_over index run status false shared)
        | busy ↦
            if leb (run.start + timeout_sec run.target) (env.polled_at round index)
            then some (phase_over index run (exited (pos 0)) true shared)
            else some (run, shared)
      ])
      else some (run, shared)

  unfoldable pub poll : ℕ → List Run → Shared → Option (List Run × Shared)
  unfolding poll_one
  poll index [] shared = some ([], shared)
  poll index (run ∷ runs) shared = elim (poll_one index run shared) [
    | none ↦ none
    | some (r, s) ↦ elim (poll (suc index) runs s) [
      | none ↦ none
      | some (rs, s') ↦ some (r ∷ rs, s')
    ]
  ]

  unfoldable pub round_of : List Run → Shared → Option (List Run × Shared)
  unfolding scan poll
  round_of runs shared = let (rs, s) = scan 0 runs shared in poll 0 rs s

pub data BatchEnd : Type 0 where
  wait_failed out_of_fuel : BatchEnd
  finished : List Run → BatchEnd

unfoldable pub run_from : ℕ → Graph → Env → ℕ → ℕ → List Run → Shared → BatchEnd
unfolding round_of
run_from zero graph env jobs round runs shared = out_of_fuel
run_from (suc fuel) graph env jobs round runs shared = elim (ltb shared.done_count (length runs)) [
  | false ↦ finished runs
  | true ↦ elim (round_of graph env jobs round runs shared) [
    | none ↦ wait_failed
    | some (rs, s) ↦ run_from fuel graph env jobs (suc round) rs s
  ]
]

-- The array `used` is all 0, and nothing runs.
abbrev pub first_shared : List Run → Shared
first_shared runs = record { used = λ k. pos 0; holders = 0; done_count = count_done runs }

unfoldable pub execute_test_batch : ℕ → Graph → Env → Option BatchOptions → List Target → BatchEnd
unfolding run_from first_run job_limit count_done
execute_test_batch fuel graph env options targets =
    let runs : List Run = map (first_run options) targets in
    run_from fuel graph env (job_limit options) 0 runs (first_shared runs)

-- Which of the results count as failures.
unfoldable pub is_failure : Bytes → Bool
unfolding str_eq
is_failure status =
    str_eq status (codes "fail")
    || (str_eq status (codes "error") || str_eq status (codes "timeout"))

unfoldable pub failed_count : List Run → ℕ
unfolding is_failure
failed_count [] = 0
failed_count (r ∷ rs) = (if is_failure r.status then 1 else 0) + failed_count rs
