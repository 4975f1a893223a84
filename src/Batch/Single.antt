-- ===== src/Batch/Single.antt =====
-- What the first pass of the loop of src/test_resources.c does to one run.
use qstar.Prelude.{
  ℕ, ℤ, pos, ◌+ℤ◌, ◌≤ℤ◌, int_laws, pos_part, neg_part, ◌≤◌, ◌<◌, ◌≡◌, refl, sym, ap, ◌∙◌, inl, inr,
  true, false, ◌&&◌, arith, Bool-cases, subst, ltb, ltb→lt, &&-both,
}
use qstar.Graph.Target.{Target}
use qstar.Graph.State.{Graph}
use qstar.TestResources.{resources_available}
use qstar.TestResources.Shares.{requested, available-requested, requested_nonneg}
use qstar.Batch.{Phase, pending, setup, body, cleanup, done, Run, Env, Shared}
use qstar.Batch.Loop.{is_pending, can_start, scan_one}
use qstar.Batch.Invariant.{held, holds, PhaseOk, Moved}
use qstar.Batch.Steps.{Stepped}
use qstar.Batch.Starts.{start_attempt-Stepped}
use qstar.Batch.Sums.{HasRequests, RunInv, IsWithin, StepOk}

-- A run that is waiting.
pending_ok :
    (phase : Phase) (r : Run) → PhaseOk phase r → is_pending phase ≡ true → PhaseOk pending r
pending_ok pending r ok e = ok
pending_ok setup r ok e = cc
pending_ok body r ok e = cc
pending_ok cleanup r ok e = cc
pending_ok done r ok e = cc

is_pending-eq : (phase : Phase) → is_pending phase ≡ true → phase ≡ pending
is_pending-eq pending e = refl
is_pending-eq setup e = cc
is_pending-eq body e = cc
is_pending-eq cleanup e = cc
is_pending-eq done e = cc

module _ (graph : Graph) (env : Env) (jobs round : ℕ) where
  -- What a run holds, by its flag.
  held-true :
      (r : Run) (k : ℕ)
      → r.resources_held ≡ true
      → held graph r k ≡ requested graph r.target.test_resources k
  unfolding held
  held-true r k e = rw (held, e) refl

  pub held-false : (r : Run) (k : ℕ) → r.resources_held ≡ false → held graph r k ≡ pos 0
  unfolding held
  held-false r k e = rw (held, e) refl

  held-le :
      (q : Run) (k : ℕ)
      → HasRequests graph q.target
      → held graph q k ≤ℤ requested graph q.target.test_resources k
  held-le q k g =
      let low : pos 0 ≤ℤ requested graph q.target.test_resources k =
        requested_nonneg graph q.target.test_resources k g.met in
      elim (Bool-cases q.resources_held) [
        | inl e ↦ rw (held-true q k e) (omega arith)
        | inr e ↦ rw (held-false q k e) low
      ]

  held_after :
      (r q : Run) (k : ℕ)
      → q.target ≡ r.target
      → HasRequests graph r.target
      → held graph q k ≤ℤ requested graph r.target.test_resources k
  held_after r q k e g =
      subst (λ (t : Target). held graph q k ≤ℤ requested graph t.test_resources k) e
        (held-le q k (subst (HasRequests graph) (sym e) g))

  release_sum : (t r s q c : ℤ) → t +ℤ r ≡ s +ℤ q → q ≤ℤ r → s ≤ℤ c → t ≤ℤ c
  release_sum t r s q c h l w = omega (int_laws, ap pos_part h, ap neg_part h)

  grant_sum : (t s q r c : ℤ) → t +ℤ pos 0 ≡ s +ℤ q → q ≤ℤ r → s +ℤ r ≤ℤ c → t ≤ℤ c
  grant_sum t s q r c h l w = omega (int_laws, ap pos_part h, ap neg_part h)

  -- A step of a run that holds its resources uses no more of them.
  pub IsWithin-release :
      (r : Run) (s : Shared) (q : Run) (t : Shared)
      → Moved graph r s q t
      → HasRequests graph r.target
      → r.resources_held ≡ true
      → IsWithin graph s.used
      → IsWithin graph t.used
  IsWithin-release r s q t m g e w = record {
    at_cell = λ k p at_k.
        release_sum (t.used k) (requested graph r.target.test_resources k) (s.used k)
          (held graph q k) p.capacity
          (ap (◌+ℤ◌ (t.used k)) (sym (held-true r k e)) ∙ m.used_moved k)
          (held_after r q k m.same_target g) (w.at_cell k p at_k);
  }

  -- A step of a run that was granted its resources uses at most these in addition.
  IsWithin-grant :
      (r : Run) (s : Shared) (q : Run) (t : Shared)
      → Moved graph r s q t
      → HasRequests graph r.target
      → r.resources_held ≡ false
      → resources_available graph s.used r.target ≡ true
      → IsWithin graph s.used
      → IsWithin graph t.used
  unfolding resources_available
  IsWithin-grant r s q t m g e a w = record {
    at_cell = λ k p at_k.
        grant_sum (t.used k) (s.used k) (held graph q k) (requested graph r.target.test_resources k)
          p.capacity (ap (◌+ℤ◌ (t.used k)) (sym (held-false r k e)) ∙ m.used_moved k)
          (held_after r q k m.same_target g)
          (available-requested graph s.used r.target.test_resources g.distinct a k p at_k
            (w.at_cell k p at_k));
  }

  pub unchanged :
      (index : ℕ) (r : Run) (s : Shared)
      → IsWithin graph s.used
      → s.holders ≤ jobs
      → StepOk graph env jobs round index r s (r, s)
  unchanged index r s w l = record { step = inl refl; within = w; limit = l }

  pub holds-le : (q : Run) → holds q ≤ 1
  holds-le q = elim (Bool-cases q.resources_held) [
    | inl e ↦ rw e (omega arith)
    | inr e ↦ rw e (omega arith)
  ]

  can_start-conditions :
      (r : Run) (s : Shared)
      → can_start graph env jobs round r s ≡ true
      → (s.holders < jobs)
        × (is_pending r.phase ≡ true)
        × (resources_available graph s.used r.target ≡ true)
  unfolding can_start
  can_start-conditions r s e =
      let (room, rest) =
        &&-both (ltb s.holders jobs)
          (is_pending r.phase && resources_available graph s.used r.target) e in
      let (waits, free) =
        &&-both (is_pending r.phase) (resources_available graph s.used r.target) rest in
      (ltb→lt s.holders jobs room, waits, free)

  pub scan_one-Stepped :
      (index : ℕ) (r : Run) (s : Shared)
      → RunInv graph env round index r
      → can_start graph env jobs round r s ≡ true
      → Stepped graph env round index r s (scan_one graph env jobs round index r s)
  unfolding scan_one
  scan_one-Stepped index r s i e =
      let (room, waits, free) = can_start-conditions r s e in
      rw (scan_one, e)
        (start_attempt-Stepped graph env jobs round index r s (pending_ok r.phase r i.ok waits)
          (is_pending-eq r.phase waits))

  pub scan_one-StepOk :
      (index : ℕ) (r : Run) (s : Shared)
      → RunInv graph env round index r
      → IsWithin graph s.used
      → s.holders ≤ jobs
      → StepOk graph env jobs round index r s (scan_one graph env jobs round index r s)
  unfolding scan_one
  scan_one-StepOk index r s i w l = elim (Bool-cases (can_start graph env jobs round r s)) [
    | inr e ↦ rw (scan_one, e) (unchanged index r s w l)
    | inl e ↦
        let (room, waits, free) = can_start-conditions r s e in
        let idle : r.resources_held ≡ false = (pending_ok r.phase r i.ok waits).0.not_held in
        let p : Run × Shared = scan_one graph env jobs round index r s in
        let m : Stepped graph env round index r s p = scan_one-Stepped index r s i e in
        record {
          step = inr m;
          within = IsWithin-grant r s p.0 p.1 m.moved i.target_ok idle free w;
          limit = omega (arith, m.moved.holders_moved, holds-le p.0, room);
        }
  ]
