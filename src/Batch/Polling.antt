-- ===== src/Batch/Polling.antt =====
-- What the second pass of the loop of src/test_resources.c does to one run.
use qstar.Prelude.{
  ℕ, pos, ◌+◌, ◌≤◌, ◌<◌, ◌≡◌, refl, sym, ◌∙◌, ◌⊎◌, inl, inr, Bool, true, false, none, some, arith,
  if◌then◌else◌, Bool-cases, some-eq_some, subst, leb, none-ne_some,
}
use qstar.Graph.State.{Graph}
use qstar.Batch.{Run, ExitStatus, exited, Wait, lost, busy, ended, Env, Shared}
use qstar.Batch.Loop.{phase_over, poll_one, timeout_sec}
use qstar.Batch.Invariant.{holds}
use qstar.Batch.Steps.{Stepped, PhaseOk-running, phase_over-Stepped}
use qstar.Batch.Sums.{RunInv, IsWithin, StepOk}
use qstar.Batch.Single.{holds-le, IsWithin-release, unchanged}

Wait-cases : (w : Wait) → (w ≡ lost) ⊎ ((w ≡ busy) ⊎ ((status : ExitStatus) × (w ≡ ended status)))
Wait-cases lost = inl refl
Wait-cases busy = inr (inl refl)
Wait-cases (ended status) = inr (inr (status, refl))

module _ (graph : Graph) (env : Env) (jobs round : ℕ) where
  phase_over-StepOk :
      (index : ℕ) (r : Run) (s : Shared) (status : ExitStatus) (timed_out : Bool)
      → RunInv graph env round index r
      → IsWithin graph s.used
      → s.holders ≤ jobs
      → holds r ≤ s.holders
      → r.running ≡ true
      → StepOk graph env jobs round index r s
          (phase_over graph env jobs round index r status timed_out s)
  phase_over-StepOk index r s status timed_out i w l h run =
      let p : Run × Shared = phase_over graph env jobs round index r status timed_out s in
      let held_now : r.resources_held ≡ true = (PhaseOk-running r.phase r i.ok run).0.is_held in
      let one : holds r ≡ 1 = rw held_now refl in
      let m : Stepped graph env round index r s p =
        phase_over-Stepped graph env jobs round index r s status timed_out i.ok run (omega arith) in
      record {
        step = inr m;
        within = IsWithin-release graph env jobs round r s p.0 p.1 m.moved i.target_ok held_now w;
        limit = omega (arith, m.moved.holders_moved, holds-le graph env jobs round p.0);
      }

  -- The process of the run has not ended, and its time is not up.
  pub record IsLeft (index : ℕ) (r : Run) : Type 0 where
    pub is_busy : env.wait round index ≡ busy
    pub in_time : env.polled_at round index < r.start + timeout_sec r.target

  poll_ended :
      (index : ℕ) (r : Run) (s : Shared) (status : ExitStatus)
      → r.running ≡ true
      → env.wait round index ≡ ended status
      → poll_one graph env jobs round index r s
        ≡ some (phase_over graph env jobs round index r status false s)
  unfolding poll_one
  poll_ended index r s status e f = rw (poll_one, e, f) refl

  poll_busy :
      (index : ℕ) (r : Run) (s : Shared)
      → r.running ≡ true
      → env.wait round index ≡ busy
      → poll_one graph env jobs round index r s ≡ (
          if leb (r.start + timeout_sec r.target) (env.polled_at round index)
          then some (phase_over graph env jobs round index r (exited (pos 0)) true s)
          else some (r, s))
  unfolding poll_one
  poll_busy index r s e f = simp (poll_one, e, f) refl

  pub poll_one-cases :
      (index : ℕ) (r : Run) (s : Shared)
      → ((poll_one graph env jobs round index r s ≡ none) × (env.wait round index ≡ lost))
        ⊎ (((poll_one graph env jobs round index r s ≡ some (r, s))
              × ((r.running ≡ false) ⊎ IsLeft index r))
            ⊎ ((status : ExitStatus) × (timed_out : Bool) × (r.running ≡ true)
                × (poll_one graph env jobs round index r s
                    ≡ some (phase_over graph env jobs round index r status timed_out s))))
  unfolding poll_one
  poll_one-cases index r s = elim (Bool-cases r.running) [
    | inr e ↦ inr (inl (rw (poll_one, e) refl, inl e))
    | inl e ↦ elim (Wait-cases (env.wait round index)) [
      | inl f ↦ inl (rw (poll_one, e, f) refl, f)
      | inr (inr (status, f)) ↦ inr (inr (status, false, e, poll_ended index r s status e f))
      | inr (inl f) ↦
          elim (Bool-cases (leb (r.start + timeout_sec r.target) (env.polled_at round index))) [
            | inl g ↦ inr (inr (exited (pos 0), true, e, poll_busy index r s e f ∙ rw g refl))
            | inr g ↦ inr (
                inl (
                  poll_busy index r s e f ∙ rw g refl,
                  inr (record { is_busy = f; in_time = ground (arith, g) }),
                ))
          ]
    ]
  ]

  pub poll_one-StepOk :
      (index : ℕ) (r : Run) (s : Shared) (p : Run × Shared)
      → RunInv graph env round index r
      → IsWithin graph s.used
      → s.holders ≤ jobs
      → holds r ≤ s.holders
      → poll_one graph env jobs round index r s ≡ some p
      → StepOk graph env jobs round index r s p
  poll_one-StepOk index r s p i w l h e = elim (poll_one-cases index r s) [
    | inl (f, g) ↦ absurd (none-ne_some (sym f ∙ e))
    | inr (inl (f, g)) ↦
        subst (StepOk graph env jobs round index r s) (some-eq_some (sym f ∙ e))
          (unchanged graph env jobs round index r s w l)
    | inr (inr (status, timed_out, run, f)) ↦
        subst (StepOk graph env jobs round index r s) (some-eq_some (sym f ∙ e))
          (phase_over-StepOk index r s status timed_out i w l h run)
  ]
