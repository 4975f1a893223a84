-- ===== src/Batch/Invariant.antt =====
-- What a run holds, and what its fields are in each phase (`struct qstar_test_run` of
-- src/test_resources.c).
use qstar.Prelude.{
  ℕ, ℤ, pos, ◌+ℤ◌, pos_part, suc, ◌+◌, ◌-◌, ◌*◌, ◌≤◌, ◌≡◌, ◌⊎◌, true, false, [], Bytes, codes,
  if◌then◌else◌,
}
use qstar.Graph.Target.{Target}
use qstar.Graph.State.{Graph}
use qstar.TestResources.Shares.{requested}
use qstar.Batch.{Phase, pending, setup, body, cleanup, done, Run, Env, Shared, is_done}
use qstar.Batch.Loop.{is_failure}

-- `test_retry_count`, or 0 if it is negative
abbrev pub retries : Target → ℕ
retries target = pos_part target.test_retry_count

-- How much of resource `k` the run holds.
unfoldable pub held : Graph → Run → ℕ → ℤ
held graph run k = if run.resources_held then requested graph run.target.test_resources k else pos 0

abbrev pub holds : Run → ℕ
holds run = if run.resources_held then 1 else 0

abbrev pub dones : Run → ℕ
dones run = if is_done run.phase then 1 else 0

-- The status while the phases of an attempt still run.
abbrev pub IsOpen : Bytes → Type 0
IsOpen status = (status ≡ []) ⊎ (is_failure status ≡ true)

abbrev pub IsVerdict : Bytes → Type 0
IsVerdict status = (status ≡ codes "pass") ⊎ ((status ≡ codes "skip") ⊎ (is_failure status ≡ true))

-- A run that has not started an attempt, or whose attempts are over.
pub record IsIdle (run : Run) : Type 0 where
  pub not_running : run.running ≡ false
  pub not_held : run.resources_held ≡ false

-- A run with a process.
pub record IsActive (run : Run) : Type 0 where
  pub is_running : run.running ≡ true
  pub is_held : run.resources_held ≡ true
  pub started : 1 ≤ run.attempt
  pub bounded : run.attempt ≤ suc (retries run.target)

abbrev pub PhaseOk : Phase → Run → Type 0
PhaseOk pending run = IsIdle run × (run.status ≡ []) × (run.attempt ≤ retries run.target)
PhaseOk setup run = IsActive run × (run.status ≡ [])
PhaseOk body run = IsActive run × (run.status ≡ [])
PhaseOk cleanup run = IsActive run × IsOpen run.status
PhaseOk done run = IsIdle run × IsVerdict run.status × (run.attempt ≤ suc (retries run.target))

abbrev pub RunOk : Run → Type 0
RunOk run = PhaseOk run.phase run

-- The steps that can be left before the run is done: four for each attempt that is not started.
abbrev pub phase_weight : Phase → ℕ
phase_weight pending = 0
phase_weight setup = 3
phase_weight body = 2
phase_weight cleanup = 1
phase_weight done = 0

abbrev pub attempts_left : Run → ℕ
attempts_left run = suc (retries run.target) - run.attempt

abbrev pub weight : Run → ℕ
weight run = if is_done run.phase then 0 else 4 * attempts_left run + phase_weight run.phase

-- One step of one run: what it takes and gives back is taken from and given back to what is shared.
pub record Moved (graph : Graph) (r : Run) (s : Shared) (q : Run) (t : Shared) : Type 0 where
  pub same_target : q.target ≡ r.target
  pub used_moved : (k : ℕ) → t.used k +ℤ held graph r k ≡ s.used k +ℤ held graph q k
  pub holders_moved : t.holders + holds r ≡ s.holders + holds q

-- The process of the run was started in the round.
abbrev pub StartedIn : Env → ℕ → ℕ → Run → Type 0
StartedIn env round index run =
    (run.running ≡ false) ⊎ ((phase : Phase) × (run.start ≡ env.started_at round index phase))
