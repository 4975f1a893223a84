-- ===== src/Batch.antt =====
-- The runs of tests of src/test_resources.c: attempts with their setup, body and cleanup, and the
-- resources they hold. What processes and clocks do is an argument, `Env`; log files, reports and
-- what is printed are left out.
pub mod Loop
pub mod Invariant
pub mod Phases
pub mod Attempts
pub mod Advance
pub mod Steps
pub mod Starts
pub mod Sums
pub mod Single
pub mod Polling
pub mod Rounds
pub mod Stuck
pub mod Beginning
pub mod Responsive
pub mod Termination
pub mod Outcome
pub mod Capacity
pub mod Verdict
pub mod Validated
use qstar.Prelude.{
  ℕ, ℤ, pos, leb_ℤ, zero, suc, ◌+◌, ◌-◌, Bool, true, false, not, ◌&&◌, List, [], ◌∷◌, Option, none,
  some, Bytes, codes, str_eq, leb, ltb, ◌==◌, any, if◌then◌else◌,
}
use qstar.Graph.Target.{Target}
use qstar.Graph.State.{Graph}
use qstar.TestResources.{Used, change_resources}

pub data Phase : Type 0 where
  pending setup body cleanup done : Phase

pub record Run : Type 0 where
  pub target : Target
  pub phase : Phase
  pub start : ℕ
  pub running : Bool
  pub resources_held : Bool
  pub attempt : ℕ
  pub exit_code : ℤ
  pub status : Bytes

-- The exit status of a process: it has an exit code, or a signal ended it.
pub data ExitStatus : Type 0 where
  exited : ℤ → ExitStatus
  signalled : ℕ → ExitStatus

-- The answer of `qstar_platform_process_wait_nohang`: an error, or the process runs on, or it ended.
pub data Wait : Type 0 where
  lost busy : Wait
  ended : ExitStatus → Wait

-- What the operating system does. A phase of an attempt is started at most once, so a process is
-- named by the index of its run, the attempt and the phase. `starts` is whether all of it succeeds:
-- the paths of the logs, the command line and the process. The rest is by the round of the loop.
pub record Env : Type 0 where
  pub starts : ℕ → ℕ → Phase → Bool
  pub started_at : ℕ → ℕ → Phase → ℕ
  pub wait : ℕ → ℕ → Wait
  pub polled_at : ℕ → ℕ → ℕ

-- The variables that the runs share.
pub record Shared : Type 0 where
  pub used : Used
  pub holders : ℕ
  pub done_count : ℕ

abbrev pub no_status : Bytes → Bool
no_status [] = true
no_status (_ ∷ _) = false

abbrev pub is_done : Phase → Bool
is_done done = true
is_done _ = false

-- Whether a process runs after an attempt to start one.
pub data Started : Type 0 where
  going stopped : Run → Started

module _ (env : Env) (round index : ℕ) where
  unfoldable pub start_phase : Run → Phase → Started
  start_phase run phase =
      let r : Run = record run { phase = phase } in
      if env.starts index run.attempt phase
      then going (record r { start = env.started_at round index phase; running = true })
      else stopped r

  -- `start_phase`, and its failure noted.
  unfoldable pub try_phase : Run → Phase → Started
  unfolding start_phase
  try_phase run phase = elim (start_phase run phase) [
    | going r ↦ going r
    | stopped r ↦ stopped (record r { status = codes "error"; exit_code = pos 127 })
  ]

unfoldable pub retry_allowed : Target → Bytes → Bool
unfolding any str_eq
retry_allowed target status = any (λ s. str_eq s status) target.test_retry_on

abbrev pub exited_success : ExitStatus → Bool
exited_success (exited (pos zero)) = true
exited_success _ = false

abbrev pub has_exit_code : ExitStatus → Bool
has_exit_code (exited code) = true
has_exit_code (signalled n) = false

-- The exit code, or 128 and the number of the signal.
abbrev pub result_code : ExitStatus → ℤ
result_code (exited code) = code
result_code (signalled n) = pos (128 + n)

abbrev pub is_cleanup : Phase → Bool
is_cleanup cleanup = true
is_cleanup _ = false

abbrev pub is_body : Phase → Bool
is_body body = true
is_body _ = false

unfoldable pub set_phase_result : Run → Phase → ExitStatus → Bool → Run
set_phase_result run phase status timed_out =
    if timed_out
    then record run {
      status = if is_cleanup phase then codes "error" else codes "timeout";
      exit_code = pos 124;
    }
    else if exited_success status
    then run
    else record run {
      status = if is_body phase && has_exit_code status then codes "fail" else codes "error";
      exit_code = result_code status;
    }

unfoldable pub finish_attempt : Graph → Run → Shared → Run × Shared
unfolding change_resources retry_allowed
finish_attempt graph run shared =
    let r : Run = record run { resources_held = false } in
    let s : Shared = record shared {
      used = change_resources graph shared.used run.target false;
      holders = shared.holders - 1;
    } in
    if leb_ℤ (pos run.attempt) run.target.test_retry_count && retry_allowed run.target run.status
    then (record r { phase = pending; status = []; exit_code = pos 0 }, s)
    else (record r { phase = done }, s)

-- `completed != QSTAR_TEST_CLEANUP && run->target->test_cleanup.len > 0`
unfoldable pub needs_cleanup : Phase → Target → Bool
needs_cleanup cleanup target = false
needs_cleanup completed target = elim target.test_cleanup [ [] ↦ false | _ ∷ _ ↦ true ]

unfoldable pub try_cleanup : Env → ℕ → ℕ → Run → Phase → Started
unfolding needs_cleanup try_phase
try_cleanup env round index run completed =
    if needs_cleanup completed run.target
    then try_phase env round index run cleanup
    else stopped run

-- The body, if the setup has ended well.
unfoldable pub try_body : Env → ℕ → ℕ → Run → Phase → Started
unfolding try_phase
try_body env round index run setup =
    if no_status run.status then try_phase env round index run body else stopped run
try_body env round index run completed = stopped run

unfoldable pub pass_if_open : Run → Run
pass_if_open run = if no_status run.status then record run { status = codes "pass" } else run

-- What follows the end of a phase, unless the body starts.
unfoldable pub end_attempt : Graph → Env → ℕ → ℕ → Run → Phase → Shared → Run × Shared
unfolding try_cleanup pass_if_open finish_attempt
end_attempt graph env round index run completed shared =
    elim (try_cleanup env round index run completed) [
      | going r ↦ (r, shared)
      | stopped r ↦ finish_attempt graph (pass_if_open r) shared
    ]

unfoldable pub advance_after_phase : Graph → Env → ℕ → ℕ → Run → Phase → Shared → Run × Shared
unfolding try_body end_attempt
advance_after_phase graph env round index run completed shared =
    elim (try_body env round index run completed) [
      | going r ↦ (r, shared)
      | stopped r ↦ end_attempt graph env round index r completed shared
    ]

unfoldable pub first_phase : Target → Phase
first_phase target = elim target.test_setup [ [] ↦ body | _ ∷ _ ↦ setup ]

-- What follows `run->attempt++`.
unfoldable pub begin_attempt : Graph → Env → ℕ → ℕ → Run → Phase → Shared → Run × Shared
unfolding try_phase advance_after_phase
begin_attempt graph env round index run phase shared = elim (try_phase env round index run phase) [
  | going q ↦ (q, shared)
  | stopped q ↦ advance_after_phase graph env round index q phase shared
]

unfoldable pub start_attempt : Graph → Env → ℕ → ℕ → Run → Shared → Run × Shared
unfolding change_resources begin_attempt first_phase
start_attempt graph env round index run shared =
    begin_attempt graph env round index
      (record run { resources_held = true; attempt = suc run.attempt }) (first_phase run.target)
      (record shared {
        used = change_resources graph shared.used run.target true;
        holders = suc shared.holders;
      })
