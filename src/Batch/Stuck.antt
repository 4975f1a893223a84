-- ===== src/Batch/Stuck.antt =====
-- A round of the loop of src/test_resources.c that changes nothing.
use qstar.Prelude.{
  ℕ, pos, int_laws, suc, ◌≤◌, ◌<◌, ◌≡◌, refl, sym, ap, ◌∙◌, ◌⊎◌, inl, inr, true, false, List, [],
  ◌∷◌, some, arith, All, length, some-eq_some, none-ne_some, Bool-cases,
}
use qstar.Graph.State.{Graph}
use qstar.Batch.{Phase, pending, setup, body, cleanup, done, Run, Env, Shared, is_done}
use qstar.Batch.Loop.{count_done, is_pending, can_start, scan_one, scan, poll_one, poll, phase_over}
use qstar.Batch.Invariant.{holds, PhaseOk, RunOk, weight}
use qstar.Batch.Steps.{Stepped, PhaseOk-running, phase_over-Stepped}
use qstar.Batch.Sums.{held_sum, held_count, RunInv, AllInv, IsWithin, StepOk}
use qstar.Batch.Single.{scan_one-StepOk, scan_one-Stepped, held-false}
use qstar.Batch.Polling.{IsLeft, poll_one-StepOk, poll_one-cases}
use qstar.Batch.Rounds.{PollCons, poll-PollCons}

-- The first elements and the rests of equal lists.
cons_eq : {r q : Run} {rs qs : List Run} → r ∷ rs ≡ q ∷ qs → (r ≡ q) × (rs ≡ qs)
cons_eq {r = r} {rs = rs} e = (
  ap (λ (l : List Run). elim l [ [] ↦ r | x ∷ xs ↦ x ]) e,
  ap (λ (l : List Run). elim l [ [] ↦ rs | x ∷ xs ↦ xs ]) e,
)

holds-running : (r : Run) → RunOk r → r.running ≡ true → holds r ≡ 1
holds-running r ok run =
    let held_now : r.resources_held ≡ true = (PhaseOk-running r.phase r ok run).0.is_held in
    rw held_now refl

not_held :
    (phase : Phase) (r : Run) → PhaseOk phase r → r.running ≡ false → r.resources_held ≡ false
not_held pending r (i, o, b) q = i.not_held
not_held setup r (a, o) q = absurd (ground (arith, a.is_running))
not_held body r (a, o) q = absurd (ground (arith, a.is_running))
not_held cleanup r (a, o) q = absurd (ground (arith, a.is_running))
not_held done r (i, v, b) q = i.not_held

done_now :
    (phase : Phase) (r : Run)
    → PhaseOk phase r
    → r.running ≡ false
    → is_pending phase ≡ false
    → is_done phase ≡ true
done_now pending r ok q p = cc
done_now setup r (a, o) q p = absurd (ground (arith, a.is_running))
done_now body r (a, o) q p = absurd (ground (arith, a.is_running))
done_now cleanup r (a, o) q p = absurd (ground (arith, a.is_running))
done_now done r ok q p = refl

module _ (graph : Graph) (env : Env) (jobs round : ℕ) where
  -- A step changes the run.
  step_same :
      (index : ℕ) (r : Run) (s : Shared) (p : Run × Shared)
      → StepOk graph env jobs round index r s p
      → p.0 ≡ r
      → p ≡ (r, s)
  step_same index r s p a e = elim a.step [
    | inl f ↦ f
    | inr m ↦
        let less : weight p.0 < weight r = m.lighter in
        let same : weight p.0 ≡ weight r = ap weight e in absurd (omega arith)
  ]

  -- A poll that leaves the run as it is.
  first-IsLeft :
      (index : ℕ) (r : Run) (s : Shared) (p : Run × Shared)
      → RunInv graph env round index r
      → holds r ≤ s.holders
      → poll_one graph env jobs round index r s ≡ some p
      → p.0 ≡ r
      → (r.running ≡ false) ⊎ IsLeft graph env jobs round index r
  first-IsLeft index r s p i h e same = elim (poll_one-cases graph env jobs round index r s) [
    | inl (f, g) ↦ absurd (none-ne_some (sym f ∙ e))
    | inr (inl (f, left)) ↦ left
    | inr (inr (status, timed_out, run, f)) ↦
        let q : Run × Shared = phase_over graph env jobs round index r status timed_out s in
        let one : holds r ≡ 1 = holds-running r i.ok run in
        let m : Stepped graph env round index r s q =
          phase_over-Stepped graph env jobs round index r s status timed_out i.ok run
            (omega arith) in
        let there : q ≡ p = some-eq_some (sym f ∙ e) in
        let less : weight q.0 < weight r = m.lighter in
        let equal : weight q.0 ≡ weight r =
          ap (λ (x : Run × Shared). weight x.0) there ∙ ap weight same in
        absurd (omega arith)
  ]

  -- A pass of the first loop that leaves the run as it is.
  first_blocked :
      (index : ℕ) (r : Run) (s : Shared)
      → RunInv graph env round index r
      → (scan_one graph env jobs round index r s).0 ≡ r
      → can_start graph env jobs round r s ≡ false
  first_blocked index r s i same = elim (Bool-cases (can_start graph env jobs round r s)) [
    | inr e ↦ e
    | inl e ↦
        let less : weight (scan_one graph env jobs round index r s).0 < weight r =
          (scan_one-Stepped graph env jobs round index r s i e).lighter in
        let equal : weight (scan_one graph env jobs round index r s).0 ≡ weight r =
          ap weight same in
        absurd (omega arith)
  ]

  -- No process has ended, and no time is up.
  abbrev pub AllLeft : ℕ → List Run → Type 0
  AllLeft index [] = Unit
  AllLeft index (r ∷ rs) =
      ((r.running ≡ false) ⊎ IsLeft graph env jobs round index r) × AllLeft (suc index) rs

  pub poll_same :
      (index : ℕ) (runs : List Run) (s : Shared)
      → AllInv graph env round index runs
      → IsWithin graph s.used
      → s.holders ≤ jobs
      → held_count runs ≤ s.holders
      → poll graph env jobs round index runs s ≡ some (runs, s)
      → AllLeft index runs
  unfolding held_count
  poll_same index [] s i w l h e = tt
  poll_same index (r ∷ rs) s (i, is) w l h e =
      let c : PollCons graph env jobs round index r rs s (r ∷ rs, s) =
        poll-PollCons graph env jobs round index r rs s (r ∷ rs, s) e in
      let (one, others) = cons_eq (ap (λ (x : List Run × Shared). x.0) c.all_eq) in
      let a : StepOk graph env jobs round index r s c.first =
        poll_one-StepOk graph env jobs round index r s c.first i w l (omega arith) c.first_eq in
      let same : c.first ≡ (r, s) = step_same index r s c.first a one in
      let shared : c.rest.1 ≡ s = ap (λ (x : List Run × Shared). x.1) c.all_eq in
      let all_rest : c.rest ≡ (rs, s) = λ j. (others j, shared j) in
      let rest : poll graph env jobs round (suc index) rs s ≡ some (rs, s) =
        ap (λ (x : Run × Shared). poll graph env jobs round (suc index) rs x.1) (sym same)
        ∙ c.rest_eq
        ∙ ap some all_rest in
      (
        first-IsLeft index r s c.first i (omega arith) c.first_eq one,
        poll_same (suc index) rs s is w l (omega arith) rest,
      )

  abbrev pub AllBlocked : Shared → List Run → Type 0
  AllBlocked s = All (λ r. can_start graph env jobs round r s ≡ false)

  pub scan_same :
      (index : ℕ) (runs : List Run) (s : Shared)
      → AllInv graph env round index runs
      → IsWithin graph s.used
      → s.holders ≤ jobs
      → scan graph env jobs round index runs s ≡ (runs, s)
      → AllBlocked s runs
  unfolding scan
  scan_same index [] s i w l e = tt
  scan_same index (r ∷ rs) s (i, is) w l e =
      let p : Run × Shared = scan_one graph env jobs round index r s in
      let q : List Run × Shared = scan graph env jobs round (suc index) rs p.1 in
      let (one, others) = cons_eq (ap (λ (x : List Run × Shared). x.0) e) in
      let shared : q.1 ≡ s = ap (λ (x : List Run × Shared). x.1) e in
      let all_rest : q ≡ (rs, s) = λ j. (others j, shared j) in
      let same : p ≡ (r, s) =
        step_same index r s p (scan_one-StepOk graph env jobs round index r s i w l) one in
      let rest : scan graph env jobs round (suc index) rs s ≡ (rs, s) =
        ap (λ (x : Run × Shared). scan graph env jobs round (suc index) rs x.1) (sym same)
        ∙ all_rest in
      (first_blocked index r s i one, scan_same (suc index) rs s is w l rest)

  -- Where nothing runs nothing is held, and where nothing waits either all is done.
  pub quiet :
      (index : ℕ) (runs : List Run)
      → AllInv graph env round index runs
      → All (λ r. r.running ≡ false) runs
      → ((k : ℕ) → held_sum graph runs k ≡ pos 0) × (held_count runs ≡ 0)
  unfolding held_sum held_count
  quiet index [] i q = (λ k. refl, refl)
  quiet index (r ∷ rs) (i, is) (q, qs) =
      let (sums, count) = quiet (suc index) rs is qs in
      let free : r.resources_held ≡ false = not_held r.phase r i.ok q in
      (
        (λ k. rw (held-false graph env jobs round r k free, sums k) (omega int_laws)),
        rw free (omega (arith, count)),
      )

  pub All-done :
      (index : ℕ) (runs : List Run)
      → AllInv graph env round index runs
      → All (λ r. r.running ≡ false) runs
      → All (λ r. is_pending r.phase ≡ false) runs
      → count_done runs ≡ length runs
  unfolding count_done
  All-done index [] i q p = refl
  All-done index (r ∷ rs) (i, is) (q, qs) (p, ps) =
      let rest : count_done rs ≡ length rs = All-done (suc index) rs is qs ps in
      let this : is_done r.phase ≡ true = done_now r.phase r i.ok q p in rw this (omega arith)
