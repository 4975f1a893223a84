-- ===== src/Batch/Advance.antt =====
-- What follows a phase of a run of src/test_resources.c: `advance_after_phase`.
use qstar.Prelude.{
  ℕ, ◌+◌, ◌*◌, ◌≤◌, ◌<◌, ◌≡◌, refl, ◌⊎◌, inl, inr, true, [], codes, arith, Bool-cases, List-cases,
  str_eq,
}
use qstar.Graph.State.{Graph}
use qstar.Batch.{
  Phase, pending, setup, body, cleanup, done, Run, Env, Shared, no_status, going, stopped,
  finish_attempt, try_body, pass_if_open, end_attempt, advance_after_phase,
}
use qstar.Batch.Loop.{is_failure}
use qstar.Batch.Invariant.{IsOpen, attempts_left, phase_weight}
use qstar.Batch.Phases.{IsBetween, Advanced, finish_attempt-Advanced, lighten}
use qstar.Batch.Attempts.{
  error-is_failure, no_status-nil, begun, not_begun, try_phase-cases, try_cleanup-cases, rebase,
  begun-Advanced,
}

module _ (graph : Graph) (env : Env) (round index : ℕ) where
  pass_if_open-cases :
      (r : Run)
      → IsOpen r.status
      → (pass_if_open r ≡ record r { status = codes "pass" })
        ⊎ ((pass_if_open r ≡ r) × (is_failure r.status ≡ true))
  unfolding pass_if_open is_failure str_eq
  pass_if_open-cases r (inl e) = inl (rw (pass_if_open, e) refl)
  pass_if_open-cases r (inr e) = elim (List-cases r.status) [
    | inl f ↦ absurd (ground (arith, e, f))
    | inr (c, cs, f) ↦ inr (rw (pass_if_open, f) refl, e)
  ]

  -- The attempt ends when nothing else is to be started.
  closed-Advanced :
      (r : Run) (s : Shared) (w : ℕ)
      → IsBetween r
      → IsOpen r.status
      → 1 ≤ s.holders
      → 4 * attempts_left r < w
      → Advanced graph env round index r s w (finish_attempt graph (pass_if_open r) s)
  closed-Advanced r s w b o h l = elim (pass_if_open-cases r o) [
    | inl e ↦ rw e (
        rebase graph env round index r (record r { status = codes "pass" }) s w _ refl refl
          (lighten graph env round index _ s _ w _ (omega arith) (
            finish_attempt-Advanced graph env round index (record r { status = codes "pass" }) s
              (between_pass b) (inl refl) h)))
    | inr (e, f) ↦ rw e (
        lighten graph env round index _ s _ w _ (omega arith)
          (finish_attempt-Advanced graph env round index r s b (inr (inr f)) h))
  ]
    where
      between_pass : IsBetween r → IsBetween (record r { status = codes "pass" })
      between_pass b = record {
        not_running = b.not_running;
        is_held = b.is_held;
        started = b.started;
        bounded = b.bounded;
      }

  pub end_attempt-Advanced :
      (r : Run) (completed : Phase) (s : Shared)
      → IsBetween r
      → IsOpen r.status
      → 1 ≤ s.holders
      → 1 ≤ phase_weight completed
      → Advanced graph env round index r s
          (4 * attempts_left r + phase_weight completed)
          (end_attempt graph env round index r completed s)
  unfolding end_attempt
  end_attempt-Advanced r completed s b o h l =
      elim (try_cleanup-cases graph env round index r completed l) [
        | inl (e, m) ↦
            rw (end_attempt, e)
              (begun-Advanced graph env round index r cleanup s _ b.is_held
                (
                  record {
                    is_running = refl;
                    is_held = b.is_held;
                    started = b.started;
                    bounded = b.bounded;
                  },
                  o,
                )
                (omega arith))
        | inr (inl e) ↦ rw (end_attempt, e) (closed-Advanced r s _ b o h (omega arith))
        | inr (inr e) ↦
            rw (end_attempt, e)
              (rebase graph env round index r (not_begun graph env round index r cleanup) s _ _ refl
                refl
                (closed-Advanced (not_begun graph env round index r cleanup) s _
                  (record {
                    not_running = b.not_running;
                    is_held = b.is_held;
                    started = b.started;
                    bounded = b.bounded;
                  })
                  (inr error-is_failure) h (omega arith)))
      ]

  try_body-cases :
      (r : Run) (completed : Phase)
      → ((try_body env round index r completed ≡ going (begun graph env round index r body))
          × (2 < phase_weight completed)
          × (r.status ≡ []))
        ⊎ ((try_body env round index r completed ≡ stopped r)
            ⊎ (try_body env round index r completed
                ≡ stopped (not_begun graph env round index r body)))
  unfolding try_body
  try_body-cases r pending = inr (inl refl)
  try_body-cases r body = inr (inl refl)
  try_body-cases r cleanup = inr (inl refl)
  try_body-cases r done = inr (inl refl)
  try_body-cases r setup = elim (Bool-cases (no_status r.status)) [
    | inr e ↦ inr (inl (rw (try_body, e) refl))
    | inl e ↦ elim (try_phase-cases graph env round index r body) [
      | inl f ↦ inl (rw (try_body, e) f, omega arith, no_status-nil r.status e)
      | inr f ↦ inr (inr (rw (try_body, e) f))
    ]
  ]

  pub advance_after_phase-Advanced :
      (r : Run) (completed : Phase) (s : Shared)
      → IsBetween r
      → IsOpen r.status
      → 1 ≤ s.holders
      → 1 ≤ phase_weight completed
      → Advanced graph env round index r s
          (4 * attempts_left r + phase_weight completed)
          (advance_after_phase graph env round index r completed s)
  unfolding advance_after_phase
  advance_after_phase-Advanced r completed s b o h l = elim (try_body-cases r completed) [
    | inl (e, m, open') ↦
        rw (advance_after_phase, e)
          (begun-Advanced graph env round index r body s _ b.is_held
            (
              record {
                is_running = refl;
                is_held = b.is_held;
                started = b.started;
                bounded = b.bounded;
              },
              open',
            )
            (omega arith))
    | inr (inl e) ↦ rw (advance_after_phase, e) (end_attempt-Advanced r completed s b o h l)
    | inr (inr e) ↦
        rw (advance_after_phase, e)
          (rebase graph env round index r (not_begun graph env round index r body) s _ _ refl refl (
            end_attempt-Advanced (not_begun graph env round index r body) completed s
              (record {
                not_running = b.not_running;
                is_held = b.is_held;
                started = b.started;
                bounded = b.bounded;
              })
              (inr error-is_failure) h l))
  ]
