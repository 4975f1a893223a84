-- ===== src/Batch/Attempts.antt =====
-- Phases of a run of src/test_resources.c that are tried: `start_phase`, and what comes of it.
use qstar.Prelude.{
  ℕ, pos, ◌+ℤ◌, ◌+◌, ◌≤◌, ◌<◌, ◌≡◌, refl, sym, ap, ◌∙◌, ◌⊎◌, inl, inr, Bool, true, [], ◌∷◌, Bytes,
  codes, arith, if◌then◌else◌, Bool-cases, str_eq, subst,
}
use qstar.Graph.Target.{Target}
use qstar.Graph.State.{Graph}
use qstar.Batch.{
  Phase, pending, setup, body, cleanup, done, Run, Env, Shared, no_status, going, stopped,
  start_phase, try_phase, needs_cleanup, try_cleanup,
}
use qstar.Batch.Loop.{is_failure}
use qstar.Batch.Invariant.{held, holds, RunOk, phase_weight, weight}
use qstar.Batch.Phases.{Advanced}

pub error-is_failure : is_failure (codes "error") ≡ true
unfolding is_failure str_eq
error-is_failure = refl

pub no_status-nil : (status : Bytes) → no_status status ≡ true → status ≡ []
no_status-nil [] e = refl
no_status-nil (c ∷ cs) e = cc

module _ (graph : Graph) (env : Env) (round index : ℕ) where
  -- The run when the process has started, and when it has not.
  abbrev pub begun : Run → Phase → Run
  begun r phase = record r {
    phase = phase;
    start = env.started_at round index phase;
    running = true;
  }

  abbrev pub not_begun : Run → Phase → Run
  not_begun r phase = record r { phase = phase; status = codes "error"; exit_code = pos 127 }

  pub try_phase-cases :
      (r : Run) (phase : Phase)
      → (try_phase env round index r phase ≡ going (begun r phase))
        ⊎ (try_phase env round index r phase ≡ stopped (not_begun r phase))
  unfolding try_phase start_phase
  try_phase-cases r phase = elim (Bool-cases (env.starts index r.attempt phase)) [
    | inl e ↦ inl (rw (try_phase, start_phase, e) refl)
    | inr e ↦ inr (rw (try_phase, start_phase, e) refl)
  ]

  needs_cleanup-lt :
      (completed : Phase) (target : Target)
      → needs_cleanup completed target ≡ true
      → 1 ≤ phase_weight completed
      → 1 < phase_weight completed
  unfolding needs_cleanup
  needs_cleanup-lt pending target e h = absurd (omega arith)
  needs_cleanup-lt setup target e h = omega arith
  needs_cleanup-lt body target e h = omega arith
  needs_cleanup-lt cleanup target e h = cc
  needs_cleanup-lt done target e h = absurd (omega arith)

  pub try_cleanup-cases :
      (r : Run) (completed : Phase)
      → 1 ≤ phase_weight completed
      → ((try_cleanup env round index r completed ≡ going (begun r cleanup))
          × (1 < phase_weight completed))
        ⊎ ((try_cleanup env round index r completed ≡ stopped r)
            ⊎ (try_cleanup env round index r completed ≡ stopped (not_begun r cleanup)))
  unfolding try_cleanup
  try_cleanup-cases r completed h = elim (Bool-cases (needs_cleanup completed r.target)) [
    | inr e ↦ inr (inl (rw (try_cleanup, e) refl))
    | inl e ↦ elim (try_phase-cases r cleanup) [
      | inl f ↦ inl (rw (try_cleanup, e) f, needs_cleanup-lt completed r.target e h)
      | inr f ↦ inr (inr (rw (try_cleanup, e) f))
    ]
  ]

  -- What counts of a run between two phases is its target, what it holds and the attempt.
  held_eq :
      (q r : Run) (k : ℕ)
      → q.target ≡ r.target
      → q.resources_held ≡ r.resources_held
      → held graph q k ≡ held graph r k
  unfolding held
  held_eq q r k e f = rw (held, e, f) refl

  pub rebase :
      (r q : Run) (s : Shared) (w : ℕ) (p : Run × Shared)
      → q.target ≡ r.target
      → q.resources_held ≡ r.resources_held
      → Advanced graph env round index q s w p
      → Advanced graph env round index r s w p
  rebase r q s w p e f a = record {
    moved = record {
      same_target = a.moved.same_target ∙ e;
      used_moved = λ k. ap (◌+ℤ◌ (p.1.used k)) (sym (same_held k)) ∙ a.moved.used_moved k;
      holders_moved =
          subst (λ (b : Bool). p.1.holders + (if b then 1 else 0) ≡ s.holders + holds p.0) f
            a.moved.holders_moved;
    };
    same_done = a.same_done;
    ok = a.ok;
    lighter = a.lighter;
    started_in = a.started_in;
  }
    where
      same_held : (k : ℕ) → held graph q k ≡ held graph r k
      same_held k = held_eq q r k e f

  -- A phase has started.
  pub begun-Advanced :
      (r : Run) (phase : Phase) (s : Shared) (w : ℕ)
      → r.resources_held ≡ true
      → RunOk (begun r phase)
      → weight (begun r phase) < w
      → Advanced graph env round index r s w (begun r phase, s)
  begun-Advanced r phase s w e ok l = record {
    moved = record {
      same_target = refl;
      used_moved = λ k. ap (◌+ℤ◌ (s.used k)) (held_eq r (begun r phase) k refl refl);
      holders_moved = refl;
    };
    same_done = refl;
    ok = ok;
    lighter = l;
    started_in = inr (phase, refl);
  }
