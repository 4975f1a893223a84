-- ===== src/Batch/Steps.antt =====
-- A phase that is over, in the loop of src/test_resources.c.
use qstar.Prelude.{
  ℕ, ℤ, pos, ◌+ℤ◌, int_laws, pos_part, neg_part, ◌+◌, ◌*◌, ◌≤◌, ◌<◌, ◌≡◌, refl, ap, ◌∙◌, inl, inr,
  Bool, true, false, ◌&&◌, Bytes, codes, arith, if◌then◌else◌, Bool-cases, str_eq, subst,
}
use qstar.Graph.State.{Graph}
use qstar.Batch.{
  Phase, pending, setup, body, cleanup, done, Run, ExitStatus, Env, Shared, set_phase_result,
  exited_success, is_body, is_cleanup, has_exit_code, is_done, advance_after_phase,
}
use qstar.Batch.Loop.{is_failure, note_done, phase_over}
use qstar.Batch.Invariant.{
  held, dones, IsOpen, IsActive, PhaseOk, RunOk, attempts_left, phase_weight, weight, Moved,
  StartedIn,
}
use qstar.Batch.Phases.{Advanced}
use qstar.Batch.Attempts.{rebase}
use qstar.Batch.Advance.{advance_after_phase-Advanced}

-- The result of a phase leaves all but the status and the exit code.
record Resulted (r q : Run) : Type 0 where
  same_target : q.target ≡ r.target
  same_running : q.running ≡ r.running
  same_held : q.resources_held ≡ r.resources_held
  same_attempt : q.attempt ≡ r.attempt
  open_status : IsOpen q.status

with_result :
    (r : Run) (status : Bytes) (code : ℤ)
    → is_failure status ≡ true
    → Resulted r (record r { status = status; exit_code = code })
with_result r status code f = record {
  same_target = refl;
  same_running = refl;
  same_held = refl;
  same_attempt = refl;
  open_status = inr f;
}

timeout-is_failure : (b : Bool) → is_failure (if b then codes "error" else codes "timeout") ≡ true
unfolding is_failure str_eq
timeout-is_failure true = refl
timeout-is_failure false = refl

fail-is_failure : (b : Bool) → is_failure (if b then codes "fail" else codes "error") ≡ true
unfolding is_failure str_eq
fail-is_failure true = refl
fail-is_failure false = refl

set_phase_result-Resulted :
    (r : Run) (phase : Phase) (status : ExitStatus) (timed_out : Bool)
    → IsOpen r.status
    → Resulted r (set_phase_result r phase status timed_out)
unfolding set_phase_result
set_phase_result-Resulted r phase status true o =
    with_result r _ (pos 124) (timeout-is_failure (is_cleanup phase))
set_phase_result-Resulted r phase status false o = elim (Bool-cases (exited_success status)) [
  | inl e ↦ rw e (record {
    same_target = refl;
    same_running = refl;
    same_held = refl;
    same_attempt = refl;
    open_status = o;
  })
  | inr e ↦ rw e (with_result r _ _ (fail-is_failure (is_body phase && has_exit_code status)))
]

-- A run with a process is in a phase that has one.
pub PhaseOk-running :
    (phase : Phase) (r : Run)
    → PhaseOk phase r
    → r.running ≡ true
    → IsActive r × IsOpen r.status × (1 ≤ phase_weight phase) × (is_done phase ≡ false)
PhaseOk-running pending r (i, o, b) run = absurd (ground (arith, i.not_running, run))
PhaseOk-running setup r (a, o) run = (a, inl o, omega arith, refl)
PhaseOk-running body r (a, o) run = (a, inl o, omega arith, refl)
PhaseOk-running cleanup r (a, o) run = (a, o, omega arith, refl)
PhaseOk-running done r (i, v, b) run = absurd (ground (arith, i.not_running, run))

-- One step of a run in the loop.
pub record Stepped (graph : Graph) (env : Env) (round index : ℕ) (r : Run) (s : Shared)
    (p : Run × Shared) : Type 0 where
  pub moved : Moved graph r s p.0 p.1
  pub done_moved : p.1.done_count + dones r ≡ s.done_count + dones p.0
  pub ok : RunOk p.0
  pub lighter : weight p.0 < weight r
  pub started_in : StartedIn env round index p.0

trans_sums : (r s t u p q : ℤ) → t +ℤ r ≡ s +ℤ q → u +ℤ q ≡ t +ℤ p → u +ℤ r ≡ s +ℤ p
trans_sums r s t u p q h k =
    omega (int_laws, ap pos_part h, ap neg_part h, ap pos_part k, ap neg_part k)

module _ (graph : Graph) (env : Env) (jobs round index : ℕ) where
  pub Moved-trans :
      (r : Run) (s : Shared) (q : Run) (t : Shared) (p : Run) (u : Shared)
      → Moved graph r s q t
      → Moved graph q t p u
      → Moved graph r s p u
  Moved-trans r s q t p u m n = record {
    same_target = n.same_target ∙ m.same_target;
    used_moved = λ k.
        trans_sums (held graph r k) (s.used k) (t.used k) (u.used k) (held graph p k)
          (held graph q k) (m.used_moved k) (n.used_moved k);
    holders_moved = omega (arith, m.holders_moved, n.holders_moved);
  }

  pub note_done-Stepped :
      (r : Run) (s : Shared) (p : Run × Shared)
      → dones r ≡ 0
      → Advanced graph env round index r s (weight r) p
      → Stepped graph env round index r s (note_done p)
  unfolding note_done
  note_done-Stepped r s (q, t) d a = elim (Bool-cases (is_done q.phase)) [
    | inl e ↦
        rw (note_done, e)
          (record {
            moved = record {
              same_target = a.moved.same_target;
              used_moved = a.moved.used_moved;
              holders_moved = a.moved.holders_moved;
            };
            done_moved = rw (d, e) (omega (arith, a.same_done));
            ok = a.ok;
            lighter = a.lighter;
            started_in = a.started_in;
          })
    | inr e ↦
        rw (note_done, e)
          (record {
            moved = a.moved;
            done_moved = rw (d, e) (omega (arith, a.same_done));
            ok = a.ok;
            lighter = a.lighter;
            started_in = a.started_in;
          })
  ]

  Resulted-Advanced :
      (r b : Run) (s : Shared)
      → Resulted (record r { running = false }) b
      → IsActive r
      → 1 ≤ s.holders
      → 1 ≤ phase_weight r.phase
      → is_done r.phase ≡ false
      → Advanced graph env round index r s
          (weight r)
          (advance_after_phase graph env round index b r.phase s)
  Resulted-Advanced r b s res a h w d =
      rebase graph env round index r b s _ _ res.same_target res.same_held (
        subst
          (λ (n : ℕ).
            Advanced graph env round index b s n
              (advance_after_phase graph env round index b r.phase s))
          same_weight
          (advance_after_phase-Advanced graph env round index b r.phase s
            (record {
              not_running = res.same_running;
              is_held = res.same_held ∙ a.is_held;
              started = omega (arith, res.same_attempt, a.started);
              bounded = rw (res.same_target, res.same_attempt) a.bounded;
            })
            res.open_status h w))
    where
      same_weight : 4 * attempts_left b + phase_weight r.phase ≡ weight r
      same_weight = rw (res.same_target, res.same_attempt, d) refl

  pub phase_over-Stepped :
      (r : Run) (s : Shared) (status : ExitStatus) (timed_out : Bool)
      → RunOk r
      → r.running ≡ true
      → 1 ≤ s.holders
      → Stepped graph env round index r s
          (phase_over graph env jobs round index r status timed_out s)
  unfolding phase_over
  phase_over-Stepped r s status timed_out ok run h =
      let (a, o, w, d) = PhaseOk-running r.phase r ok run in
      note_done-Stepped r s
        (advance_after_phase graph env round index
          (set_phase_result (record r { running = false }) r.phase status timed_out) r.phase s)
        (rw d refl)
        (Resulted-Advanced r
          (set_phase_result (record r { running = false }) r.phase status timed_out) s
          (set_phase_result-Resulted (record r { running = false }) r.phase status timed_out o) a h
          w d)
