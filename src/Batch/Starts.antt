-- ===== src/Batch/Starts.antt =====
-- An attempt that starts, in the loop of src/test_resources.c.
use qstar.Prelude.{
  ℕ, ◌+ℤ◌, int_laws, suc, ◌+◌, ◌*◌, ◌≤◌, ◌<◌, ◌≡◌, refl, ◌⊎◌, inl, inr, true, false, [], arith,
  List-cases,
}
use qstar.Graph.Target.{Target}
use qstar.Graph.State.{Graph}
use qstar.TestResources.{Used, change_resources}
use qstar.TestResources.Shares.{requested, change-true}
use qstar.Batch.{
  Phase, pending, setup, body, Run, Env, Shared, first_phase, is_done, begin_attempt, start_attempt,
}
use qstar.Batch.Loop.{note_done}
use qstar.Batch.Invariant.{held, IsActive, PhaseOk, attempts_left, phase_weight, weight, Moved}
use qstar.Batch.Phases.{IsBetween, Advanced, lighten}
use qstar.Batch.Attempts.{
  error-is_failure, begun, not_begun, try_phase-cases, begun-Advanced, rebase,
}
use qstar.Batch.Advance.{advance_after_phase-Advanced}
use qstar.Batch.Steps.{Stepped, Moved-trans, note_done-Stepped}

module _ (graph : Graph) (env : Env) (jobs round index : ℕ) where
  -- The resources are granted.
  granted_sum :
      (r : Run) (used : Used) (k : ℕ)
      → r.resources_held ≡ false
      → change_resources graph used r.target true k +ℤ held graph r k
        ≡ used k +ℤ requested graph r.target.test_resources k
  unfolding held change_resources
  granted_sum r used k e =
      rw (held, e, change-true graph used r.target.test_resources k) (omega int_laws)

  granted :
      (r : Run) (s : Shared)
      → r.resources_held ≡ false
      → Moved graph r s
          (record r { resources_held = true; attempt = suc r.attempt })
          (record s { used = change_resources graph s.used r.target true; holders = suc s.holders })
  unfolding held
  granted r s e = record {
    same_target = refl;
    used_moved = λ k. granted_sum r s.used k e;
    holders_moved = rw e (omega arith);
  }

  begin_attempt-Advanced :
      (r : Run) (phase : Phase) (s : Shared) (w : ℕ)
      → IsBetween r
      → r.status ≡ []
      → 1 ≤ s.holders
      → 1 ≤ phase_weight phase
      → PhaseOk phase (begun graph env round index r phase)
      → 4 * attempts_left r + phase_weight phase < w
      → is_done phase ≡ false
      → Advanced graph env round index r s w (begin_attempt graph env round index r phase s)
  unfolding begin_attempt
  begin_attempt-Advanced r phase s w b e h n ok l d =
      elim (try_phase-cases graph env round index r phase) [
        | inl f ↦
            rw (begin_attempt, f)
              (begun-Advanced graph env round index r phase s w b.is_held ok (rw d (omega arith)))
        | inr f ↦
            rw (begin_attempt, f)
              (lighten graph env round index _ s _ w _ (omega arith) (
                rebase graph env round index r (not_begun graph env round index r phase) s _ _ refl
                  refl
                  (advance_after_phase-Advanced graph env round index
                    (not_begun graph env round index r phase) phase s
                    (record {
                      not_running = b.not_running;
                      is_held = b.is_held;
                      started = b.started;
                      bounded = b.bounded;
                    })
                    (inr error-is_failure) h n)))
      ]

  first_phase-cases : (target : Target) → (first_phase target ≡ setup) ⊎ (first_phase target ≡ body)
  unfolding first_phase
  first_phase-cases target = elim (List-cases target.test_setup) [
    | inl e ↦ inr (rw (first_phase, e) refl)
    | inr (c, cs, e) ↦ inl (rw (first_phase, e) refl)
  ]

  -- The same for the two phases that can be first.
  pub begin_first-Advanced :
      (r : Run) (phase : Phase) (s : Shared) (w : ℕ)
      → (phase ≡ setup) ⊎ (phase ≡ body)
      → IsBetween r
      → r.status ≡ []
      → 1 ≤ s.holders
      → 4 * attempts_left r + 3 < w
      → Advanced graph env round index r s w (begin_attempt graph env round index r phase s)
  begin_first-Advanced r phase s w (inl e) b o h l =
      rw e (begin_attempt-Advanced r setup s w b o h (omega arith) (began, o) l refl)
    where
      began : IsActive (begun graph env round index r setup)
      began = record {
        is_running = refl;
        is_held = b.is_held;
        started = b.started;
        bounded = b.bounded;
      }
  begin_first-Advanced r phase s w (inr e) b o h l =
      rw e (begin_attempt-Advanced r body s w b o h (omega arith) (began, o) (omega arith) refl)
    where
      began : IsActive (begun graph env round index r body)
      began = record {
        is_running = refl;
        is_held = b.is_held;
        started = b.started;
        bounded = b.bounded;
      }

  pub start_attempt-Stepped :
      (r : Run) (s : Shared)
      → PhaseOk pending r
      → r.phase ≡ pending
      → Stepped graph env round index r s (note_done (start_attempt graph env round index r s))
  unfolding start_attempt
  start_attempt-Stepped r s (i, o, b) e =
      let r' : Run = record r { resources_held = true; attempt = suc r.attempt } in
      let s' : Shared = record s {
        used = change_resources graph s.used r.target true;
        holders = suc s.holders;
      } in
      let a : Advanced graph env round index r' s' (weight r)
          (start_attempt graph env round index r s) =
        begin_first-Advanced r' (first_phase r.target) s' (weight r) (first_phase-cases r.target)
          (record {
            not_running = i.not_running;
            is_held = refl;
            started = omega arith;
            bounded = omega arith;
          })
          o (omega arith) (rw e (omega arith)) in
      note_done-Stepped graph env jobs round index r s _ (rw e refl) (record {
        moved =
            Moved-trans graph env jobs round index r s r' s' _ _ (granted r s i.not_held) a.moved;
        same_done = a.same_done;
        ok = a.ok;
        lighter = a.lighter;
        started_in = a.started_in;
      })
