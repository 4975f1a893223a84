-- ===== src/Batch/Phases.antt =====
-- A single run of src/test_resources.c between two phases: `finish_attempt`, `advance_after_phase`.
use qstar.Prelude.{
  ℕ, pos, ◌+ℤ◌, leb_ℤ, leb_ℤ→le, int_laws, suc, ◌-◌, ◌*◌, ◌≤◌, ◌<◌, ◌≡◌, refl, ap, ◌∙◌, inl, inr,
  Bool, true, false, ◌&&◌, [], arith, Bool-cases,
}
use qstar.Graph.State.{Graph}
use qstar.TestResources.{Used, change_resources}
use qstar.TestResources.Shares.{change-false}
use qstar.Batch.{pending, done, Run, Env, Shared, retry_allowed, finish_attempt}
use qstar.Batch.Invariant.{retries, held, IsVerdict, RunOk, attempts_left, weight, Moved, StartedIn}

-- A run that holds its resources and has no process.
pub record IsBetween (run : Run) : Type 0 where
  pub not_running : run.running ≡ false
  pub is_held : run.resources_held ≡ true
  pub started : 1 ≤ run.attempt
  pub bounded : run.attempt ≤ suc (retries run.target)

-- What a step that starts at `r` and `s` gives, if less than `w` steps are left behind it.
pub record Advanced (graph : Graph) (env : Env) (round index : ℕ) (r : Run) (s : Shared) (w : ℕ)
    (p : Run × Shared) : Type 0 where
  pub moved : Moved graph r s p.0 p.1
  pub same_done : p.1.done_count ≡ s.done_count
  pub ok : RunOk p.0
  pub lighter : weight p.0 < w
  pub started_in : StartedIn env round index p.0

module _ (graph : Graph) (env : Env) (round index : ℕ) where
  -- The retry, if there is one.
  may_retry : Run → Bool
  may_retry r = leb_ℤ (pos r.attempt) r.target.test_retry_count && retry_allowed r.target r.status

  finish_attempt-retry :
      (r : Run) (s : Shared)
      → may_retry r ≡ true
      → finish_attempt graph r s ≡ (
        record r { resources_held = false; phase = pending; status = []; exit_code = pos 0 },
        record s { used = change_resources graph s.used r.target false; holders = s.holders - 1 },
      )
  unfolding finish_attempt may_retry
  finish_attempt-retry r s e = rw e refl

  finish_attempt-done :
      (r : Run) (s : Shared)
      → may_retry r ≡ false
      → finish_attempt graph r s ≡ (
        record r { resources_held = false; phase = done },
        record s { used = change_resources graph s.used r.target false; holders = s.holders - 1 },
      )
  unfolding finish_attempt may_retry
  finish_attempt-done r s e = rw e refl

  may_retry-le : (r : Run) → may_retry r ≡ true → r.attempt ≤ retries r.target
  unfolding may_retry
  may_retry-le r e =
      let low : leb_ℤ (pos r.attempt) r.target.test_retry_count ≡ true = ground arith in
      omega (arith, leb_ℤ→le (pos r.attempt) r.target.test_retry_count low)

  -- What a run holds is given back.
  returned :
      (r : Run) (used : Used) (k : ℕ)
      → r.resources_held ≡ true
      → change_resources graph used r.target false k +ℤ held graph r k ≡ used k +ℤ pos 0
  unfolding held change_resources
  returned r used k e =
      rw (held, e, change-false graph used r.target.test_resources k) (omega int_laws)

  -- What a step back to idle moves.
  Moved-back :
      (r : Run) (s : Shared) (q : Run) (count : ℕ)
      → r.resources_held ≡ true
      → q.target ≡ r.target
      → q.resources_held ≡ false
      → suc count ≡ s.holders
      → Moved graph r s q
          (record s { used = change_resources graph s.used r.target false; holders = count })
  unfolding held
  Moved-back r s q count e t f c = record {
    same_target = t;
    used_moved = λ k. returned r s.used k e ∙ ap (◌+ℤ◌ (s.used k)) (nothing k);
    holders_moved = rw (e, f) (omega arith);
  }
    where
      nothing : (k : ℕ) → pos 0 ≡ held graph q k
      nothing k = rw (held, f) refl

  pub finish_attempt-Advanced :
      (r : Run) (s : Shared)
      → IsBetween r
      → IsVerdict r.status
      → 1 ≤ s.holders
      → Advanced graph env round index r s (suc (4 * attempts_left r)) (finish_attempt graph r s)
  finish_attempt-Advanced r s b v h = elim (Bool-cases (may_retry r)) [
    | inl e ↦ rw (finish_attempt-retry r s e) (record {
      moved = Moved-back r s _ (s.holders - 1) b.is_held refl refl (omega arith);
      same_done = refl;
      ok = (record { not_running = b.not_running; not_held = refl }, refl, may_retry-le r e);
      lighter = omega arith;
      started_in = inl b.not_running;
    })
    | inr e ↦ rw (finish_attempt-done r s e) (record {
      moved = Moved-back r s _ (s.holders - 1) b.is_held refl refl (omega arith);
      same_done = refl;
      ok = (record { not_running = b.not_running; not_held = refl }, v, b.bounded);
      lighter = omega arith;
      started_in = inl b.not_running;
    })
  ]

  pub lighten :
      (r : Run) (s : Shared) (v w : ℕ) (p : Run × Shared)
      → v ≤ w
      → Advanced graph env round index r s v p
      → Advanced graph env round index r s w p
  lighten r s v w p l a = record {
    moved = a.moved;
    same_done = a.same_done;
    ok = a.ok;
    lighter = omega (arith, a.lighter);
    started_in = a.started_in;
  }
