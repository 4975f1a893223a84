-- ===== src/Batch/Capacity.antt =====
-- The sums of `used` in src/test_resources.c, which are of type `int`.
use qstar.Prelude.{
  ℕ, ℤ, pos, ◌+ℤ◌, ◌≤ℤ◌, int_laws, suc, ◌≡◌, inl, inr, Bool, List, [], ◌∷◌, Option, none, some, ap,
  pos_part, neg_part, ◌≤◌, Option-cases, get_elem?, arith, All, Bool-cases,
}
use qstar.Graph.Target.{Target}
use qstar.Graph.State.{Graph, TestResource}
use qstar.TestResources.{Used}
use qstar.TestResources.Shares.{requested_nonneg}
use qstar.Batch.{Run, Env, Shared}
use qstar.Batch.Loop.{BatchOptions, job_limit, scan_one, poll_one}
use qstar.Batch.Invariant.{held, Moved}
use qstar.Batch.Sums.{
  held_sum, held_count, HasRequests, RunInv, AllInv, IsWithin, StepOk, step-Moved, RunInv-step,
}
use qstar.Batch.Single.{scan_one-StepOk}
use qstar.Batch.Polling.{poll_one-StepOk}
use qstar.Batch.Rounds.{BatchOk, rest_held}
use qstar.Batch.Outcome.{Reached, Reached-BatchOk}

abbrev pub int_max : ℕ
int_max = 2147483647

-- No capacity is below 0, or more than half of what an `int` holds.
abbrev pub HasSmallCapacities : Graph → Type 0
HasSmallCapacities graph =
    (k : ℕ) (p : TestResource)
    → get_elem? graph.test_resources k ≡ some p
    → (pos 0 ≤ℤ p.capacity) × (p.capacity ≤ℤ pos 1073741823)

-- What is in use of each resource is from 0 to its capacity, and with an amount of up to the capacity it is
-- still an `int`.
pub record IsInInt (graph : Graph) (used : Used) (k : ℕ) (p : TestResource) : Type 0 where
  pub at_least : pos 0 ≤ℤ used k
  pub at_most : used k ≤ℤ p.capacity
  pub sum_fits : (amount : ℤ) → amount ≤ℤ p.capacity → used k +ℤ amount ≤ℤ pos int_max

-- All cells are in these bounds.
pub record UsedFits (graph : Graph) (used : Used) : Type 0 where
  pub at_cell :
      (k : ℕ) (p : TestResource)
      → get_elem? graph.test_resources k ≡ some p
      → IsInInt graph used k p

held_nonneg :
    (graph : Graph) (r : Run) (k : ℕ) → HasRequests graph r.target → pos 0 ≤ℤ held graph r k
unfolding held
held_nonneg graph r k h = elim (Bool-cases r.resources_held) [
  | inl e ↦ rw (held, e) (requested_nonneg graph r.target.test_resources k h.met)
  | inr e ↦ rw (held, e) (omega arith)
]

held_sum_nonneg :
    (graph : Graph) (env : Env) (round index : ℕ) (runs : List Run) (k : ℕ)
    → AllInv graph env round index runs
    → pos 0 ≤ℤ held_sum graph runs k
unfolding held_sum
held_sum_nonneg graph env round index [] k i = omega arith
held_sum_nonneg graph env round index (r ∷ rs) k (i, is) =
    let one : pos 0 ≤ℤ held graph r k = held_nonneg graph r k i.target_ok in
    let rest : pos 0 ≤ℤ held_sum graph rs k = held_sum_nonneg graph env round (suc index) rs k is in
    omega int_laws

module _ (graph : Graph) (env : Env) (jobs round : ℕ) where
  -- The cells are in bounds before each step of a scan, and behind it.
  abbrev pub ScanFits : ℕ → List Run → Shared → Type 0
  ScanFits index [] s = UsedFits graph s.used
  ScanFits index (r ∷ rs) s =
      UsedFits graph s.used × ScanFits (suc index) rs (scan_one graph env jobs round index r s).1

  -- And so with polling, as far as it gets.
  abbrev pub PollFits : ℕ → List Run → Shared → Type 0
  PollFits index [] s = UsedFits graph s.used
  PollFits index (r ∷ rs) s =
      UsedFits graph s.used × (elim (poll_one graph env jobs round index r s) [
        | none ↦ Unit {0}
        | some p ↦ PollFits (suc index) rs p.1
      ])

  -- What the runs of a list hold is in use.
  abbrev Covers : List Run → Shared → Type 0
  Covers runs s = (k : ℕ) → held_sum graph runs k ≤ℤ s.used k

  Covers-UsedFits :
      (index : ℕ) (runs : List Run) (s : Shared)
      → HasSmallCapacities graph
      → AllInv graph env round index runs
      → IsWithin graph s.used
      → Covers runs s
      → UsedFits graph s.used
  Covers-UsedFits index runs s small i w c = record {
    at_cell = λ k p e.
        let low : pos 0 ≤ℤ held_sum graph runs k = held_sum_nonneg graph env round index runs k i in
        let more : held_sum graph runs k ≤ℤ s.used k = c k in
        let cap : s.used k ≤ℤ p.capacity = w.at_cell k p e in
        let limit : p.capacity ≤ℤ pos 1073741823 = (small k p e).1 in
        record { at_least = omega int_laws; at_most = cap; sum_fits = λ amount l. omega int_laws };
  }

  Covers-rest :
      (index : ℕ) (r : Run) (rs : List Run) (s : Shared) (p : Run × Shared)
      → RunInv graph env round index r
      → StepOk graph env jobs round index r s p
      → Covers (r ∷ rs) s
      → Covers rs p.1
  unfolding held_sum
  Covers-rest index r rs s p i a c k =
      let kept : held graph r k +ℤ held_sum graph rs k ≤ℤ s.used k = c k in
      let m : Moved graph r s p.0 p.1 = step-Moved graph env jobs round index r s p a.step in
      let moved : p.1.used k +ℤ held graph r k ≡ s.used k +ℤ held graph p.0 k = m.used_moved k in
      let low : pos 0 ≤ℤ held graph p.0 k =
        held_nonneg graph p.0 k (RunInv-step graph env jobs round index r s p i a.step).target_ok in
      omega (int_laws, ap pos_part moved, ap neg_part moved)

  scan-ScanFits :
      (index : ℕ) (runs : List Run) (s : Shared)
      → HasSmallCapacities graph
      → AllInv graph env round index runs
      → IsWithin graph s.used
      → s.holders ≤ jobs
      → Covers runs s
      → ScanFits index runs s
  scan-ScanFits index [] s small i w l c = Covers-UsedFits index [] s small i w c
  scan-ScanFits index (r ∷ rs) s small (i, is) w l c =
      let p : Run × Shared = scan_one graph env jobs round index r s in
      let a : StepOk graph env jobs round index r s p =
        scan_one-StepOk graph env jobs round index r s i w l in
      (
        Covers-UsedFits index (r ∷ rs) s small (i, is) w c,
        scan-ScanFits (suc index) rs p.1 small is a.within a.limit
            (Covers-rest index r rs s p i a c),
      )

  poll-PollFits :
      (index : ℕ) (runs : List Run) (s : Shared)
      → HasSmallCapacities graph
      → AllInv graph env round index runs
      → IsWithin graph s.used
      → s.holders ≤ jobs
      → held_count runs ≤ s.holders
      → Covers runs s
      → PollFits index runs s
  unfolding held_count
  poll-PollFits index [] s small i w l h c = Covers-UsedFits index [] s small i w c
  poll-PollFits index (r ∷ rs) s small (i, is) w l h c =
      let now = Covers-UsedFits index (r ∷ rs) s small (i, is) w c in
      elim (Option-cases (poll_one graph env jobs round index r s)) [
        | inl e ↦ rw e (now, tt)
        | inr (p, e) ↦
            let a : StepOk graph env jobs round index r s p =
              poll_one-StepOk graph env jobs round index r s p i w l (omega arith) e in
            rw e (
              now,
              poll-PollFits (suc index) rs p.1 small is a.within a.limit
                  (rest_held graph env jobs round index r s p rs a h)
                  (Covers-rest index r rs s p i a c),
            )
      ]

-- A state between the passes: it counts what the runs hold, and in the pass that follows, be it a scan or
-- polling, the cells stay in bounds.
pub record BatchFits (graph : Graph) (env : Env) (jobs round : ℕ) (runs : List Run) (s : Shared)
    : Type 0 where
  pub counts : BatchOk graph env jobs round runs s
  pub fits : UsedFits graph s.used
  pub scan_fits : ScanFits graph env jobs round 0 runs s
  pub poll_fits : PollFits graph env jobs round 0 runs s

-- With capacities from 0 to half of what an `int` holds and requests that can be met: in every state that
-- the loop goes through between its passes what is in use of a resource is what the runs hold together, as
-- many runs hold resources as are counted and at most as many as there may be, the finished runs are
-- counted, and each run is as its phase says. There and before each step of a pass what is in use of a
-- resource is from 0 to its capacity, and its sum with an amount of up to the capacity does not overflow.
pub Reached-BatchFits :
    (graph : Graph) (env : Env) (options : Option BatchOptions) (targets : List Target)
    (over : Bool) (round : ℕ) (runs : List Run) (s : Shared)
    → HasSmallCapacities graph
    → All (HasRequests graph) targets
    → Reached graph env options targets over round runs s
    → BatchFits graph env (job_limit options) round runs s
Reached-BatchFits graph env options targets over round runs s small h r =
    let b : BatchOk graph env (job_limit options) round runs s =
      Reached-BatchOk graph env options targets over round runs s (λ k p e. (small k p e).0) h r in
    let covers : (k : ℕ) → held_sum graph runs k ≤ℤ s.used k =
      λ k. rw (b.used_sum k) (omega int_laws) in
    let jobs : ℕ = job_limit options in
    record {
      counts = b;
      fits = Covers-UsedFits graph env jobs round 0 runs s small b.each b.within covers;
      scan_fits = scan-ScanFits graph env jobs round 0 runs s small b.each b.within b.limit covers;
      poll_fits =
          poll-PollFits graph env jobs round 0 runs s small b.each b.within b.limit
            (omega (arith, b.holders_sum)) covers;
    }
