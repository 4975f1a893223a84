-- ===== src/Batch/Responsive.antt =====
-- The rounds of the loop of src/test_resources.c where processes and clocks behave.
use qstar.Prelude.{
  ℕ, pos, suc, ◌+◌, ◌-◌, ◌*◌, ◌≤◌, ◌<◌, ◌≡◌, ◌≢◌, refl, sym, ap, ◌∙◌, ◌⊎◌, inl, inr, true, false,
  List, [], ◌∷◌, some, arith, All, length, map, lt→ltb, none-ne_some, Bool-cases, Option-cases,
}
use qstar.Graph.State.{Graph}
use qstar.TestResources.{resources_available}
use qstar.TestResources.Shares.{idle-available}
use qstar.Batch.{Phase, lost, Run, Env, Shared}
use qstar.Batch.Loop.{
  count_done, is_pending, timeout_sec, can_start, scan, poll_one, poll, round_of,
}
use qstar.Batch.Sums.{total_weight, HasRequests, WasStarted, AllInv, Swept}
use qstar.Batch.Polling.{IsLeft, poll_one-cases}
use qstar.Batch.Rounds.{BatchOk, Swept-BatchOk, scan-BatchOk, poll-BatchOk}
use qstar.Batch.Stuck.{AllLeft, poll_same, AllBlocked, scan_same, quiet, All-done}

-- Waiting for a process does not fail, and after `rate * d` further rounds at least `d` seconds have
-- passed since a process was started.
pub record IsResponsive (env : Env) (rate : ℕ) : Type 0 where
  pub answers : (k i : ℕ) → env.wait k i ≢ lost
  pub keeps_time :
      (k n d i : ℕ) (phase : Phase)
      → rate * d ≤ n
      → env.started_at k i phase + d ≤ env.polled_at (k + n) i

module _ (graph : Graph) (env : Env) (jobs : ℕ) where
  can_start-pending :
      (round : ℕ) (r : Run) (s : Shared)
      → HasRequests graph r.target
      → ((k : ℕ) → s.used k ≡ pos 0)
      → s.holders < jobs
      → can_start graph env jobs round r s ≡ false
      → is_pending r.phase ≡ false
  unfolding can_start resources_available
  can_start-pending round r s i idle room e =
      let free : resources_available graph s.used r.target ≡ true =
        idle-available graph s.used r.target.test_resources idle i.met in
      elim (Bool-cases (is_pending r.phase)) [
        | inr f ↦ f
        | inl f ↦ absurd (ground (arith, e, f, free, lt→ltb s.holders jobs room))
      ]

  pub none_pending :
      (round index : ℕ) (runs : List Run) (s : Shared)
      → AllInv graph env round index runs
      → ((k : ℕ) → s.used k ≡ pos 0)
      → s.holders < jobs
      → AllBlocked graph env jobs round s runs
      → All (λ r. is_pending r.phase ≡ false) runs
  none_pending round index [] s i idle room b = tt
  none_pending round index (r ∷ rs) s (i, is) idle room (b, bs) = (
    can_start-pending round r s i.target_ok idle room b,
    none_pending round (suc index) rs s is idle room bs,
  )

  -- If no process runs and not all is done, less is left behind the scan.
  pub scan-total_weight :
      (round : ℕ) (runs : List Run) (s : Shared)
      → BatchOk graph env jobs round runs s
      → 1 ≤ jobs
      → s.done_count < length runs
      → All (λ r. r.running ≡ false) runs
      → total_weight (scan graph env jobs round 0 runs s).0 < total_weight runs
  scan-total_weight round runs s b j d q =
      elim (scan-BatchOk graph env jobs round runs s b).progress [
        | inr l ↦ l
        | inl e ↦
            let (sums, count) = quiet graph env jobs round 0 runs b.each q in
            let idle : (k : ℕ) → s.used k ≡ pos 0 = λ k. b.used_sum k ∙ sums k in
            let room : s.holders < jobs = omega (arith, b.holders_sum, count) in
            let blocked : AllBlocked graph env jobs round s runs =
              scan_same graph env jobs round 0 runs s b.each b.within b.limit e in
            let all : count_done runs ≡ length runs =
              All-done graph env jobs round 0 runs b.each q
                (none_pending round 0 runs s b.each idle room blocked) in
            absurd (omega (arith, b.done_sum))
      ]

  -- Once the time of each process is up no process is left.
  pub over_time :
      (rate limit n k index : ℕ) (runs : List Run)
      → IsResponsive env rate
      → rate * limit ≤ n
      → All (λ t. timeout_sec t ≤ limit) (map (λ (r : Run). r.target) runs)
      → AllInv graph env k index runs
      → AllLeft graph env jobs (k + n) index runs
      → All (λ r. r.running ≡ false) runs
  over_time rate limit n k index [] c h t i left = tt
  over_time rate limit n k index (r ∷ rs) c h (t, ts) (i, is) (left, lefts) =
      (stopped i.start_ok left, over_time rate limit n k (suc index) rs c h ts is lefts)
    where
      stopped :
          (r.running ≡ false) ⊎ WasStarted env k index r
          → (r.running ≡ false) ⊎ IsLeft graph env jobs (k + n) index r
          → r.running ≡ false
      stopped (inl e) l = e
      stopped (inr w) (inl e) = e
      stopped (inr w) (inr l) =
          let later : ℕ = (k - w.began) + n in
          let same : w.began + later ≡ k + n = omega (arith, w.by_now) in
          let passed : env.started_at w.began index w.phase + limit
              ≤ env.polled_at (w.began + later) index =
            c.keeps_time w.began later limit index w.phase (omega arith) in
          let polled : env.polled_at (w.began + later) index ≡ env.polled_at (k + n) index =
            ap (λ (x : ℕ). env.polled_at x index) same in
          let soon : env.polled_at (k + n) index < r.start + timeout_sec r.target = l.in_time in
          absurd (omega (arith, w.start_eq))

  poll_total :
      (rate round index : ℕ) (runs : List Run) (s : Shared)
      → IsResponsive env rate
      → (q : List Run × Shared) × (poll graph env jobs round index runs s ≡ some q)
  unfolding poll
  poll_total rate round index [] s c = (([], s), refl)
  poll_total rate round index (r ∷ rs) s c =
      elim (Option-cases (poll_one graph env jobs round index r s)) [
        | inl e ↦ elim (poll_one-cases graph env jobs round index r s) [
          | inl (f, g) ↦ absurd (c.answers round index g)
          | inr (inl (f, g)) ↦ absurd (none-ne_some (sym e ∙ f))
          | inr (inr (status, timed_out, run, f)) ↦ absurd (none-ne_some (sym e ∙ f))
        ]
        | inr (p, e) ↦
            let (t, f) = poll_total rate round (suc index) rs p.1 c in
            ((p.0 ∷ t.0, t.1), rw (poll, e, f) refl)
      ]

  -- A round that goes on: less is left, or all is as before and no time is up.
  pub record Round (round : ℕ) (runs : List Run) (s : Shared) : Type 0 where
    pub after : List Run × Shared
    pub after_eq : round_of graph env jobs round runs s ≡ some after
    pub after_ok : BatchOk graph env jobs round after.0 after.1
    pub same_targets : map (λ r. r.target) after.0 ≡ map (λ r. r.target) runs
    pub progress :
        (total_weight after.0 < total_weight runs)
        ⊎ ((after ≡ (runs, s))
            × AllLeft graph env jobs round 0 runs
            × (scan graph env jobs round 0 runs s ≡ (runs, s)))

  pub Round-Round :
      (rate round : ℕ) (runs : List Run) (s : Shared)
      → IsResponsive env rate
      → BatchOk graph env jobs round runs s
      → Round round runs s
  unfolding round_of
  Round-Round rate round runs s c b =
      let p : List Run × Shared = scan graph env jobs round 0 runs s in
      let w : Swept graph env jobs round 0 runs s p = scan-BatchOk graph env jobs round runs s b in
      let b' : BatchOk graph env jobs round p.0 p.1 =
        Swept-BatchOk graph env jobs round runs s p b w in
      let (q, e) = poll_total rate round 0 p.0 p.1 c in
      let v : Swept graph env jobs round 0 p.0 p.1 q =
        poll-BatchOk graph env jobs round p.0 p.1 q b' e in
      record {
        after = q;
        after_eq = e;
        after_ok = Swept-BatchOk graph env jobs round p.0 p.1 q b' v;
        same_targets = v.same_targets ∙ w.same_targets;
        progress = progress p q w.progress v.progress e;
      }
    where
      progress :
          (p q : List Run × Shared)
          → (p ≡ (runs, s)) ⊎ (total_weight p.0 < total_weight runs)
          → (q ≡ (p.0, p.1)) ⊎ (total_weight q.0 < total_weight p.0)
          → poll graph env jobs round 0 p.0 p.1 ≡ some q
          → (total_weight q.0 < total_weight runs)
            ⊎ ((q ≡ (runs, s)) × AllLeft graph env jobs round 0 runs × (p ≡ (runs, s)))
      progress p q (inr l) (inr m) e = inl (omega arith)
      progress p q (inr l) (inl f) e =
          let same : total_weight q.0 ≡ total_weight p.0 =
            ap (λ (x : List Run × Shared). total_weight x.0) f in
          inl (omega arith)
      progress p q (inl f) (inr m) e =
          let same : total_weight p.0 ≡ total_weight runs =
            ap (λ (x : List Run × Shared). total_weight x.0) f in
          inl (omega arith)
      progress p q (inl f) (inl g) e =
          let here : poll graph env jobs round 0 runs s ≡ some (runs, s) =
            ap (λ (x : List Run × Shared). poll graph env jobs round 0 x.0 x.1) (sym f)
            ∙ e
            ∙ ap some (g ∙ f) in
          inr (
            g ∙ f,
            poll_same graph env jobs round 0 runs s b.each b.within b.limit
                (omega (arith, b.holders_sum)) here,
            f,
          )
