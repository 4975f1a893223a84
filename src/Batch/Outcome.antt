-- ===== src/Batch/Outcome.antt =====
-- The states of `qstar_graph_execute_test_batch` (src/test_resources.c) from its first to its last.
use qstar.Prelude.{
  ℕ, pos, ◌≤ℤ◌, zero, suc, ◌≤◌, ◌<◌, ◌≡◌, ◌≢◌, refl, sym, ap, ◌∙◌, inl, inr, Bool, true, false,
  List, [], ◌∷◌, Option, some, arith, All, length, map, ltb, ltb→lt, get_elem?, subst, Bool-cases,
  Option-cases,
}
use qstar.Graph.Target.{Target}
use qstar.Graph.State.{Graph, TestResource}
use qstar.Batch.{Run, Env, Shared}
use qstar.Batch.Loop.{
  BatchOptions, job_limit, is_skipped, first_run, first_shared, scan, poll, round_of, BatchEnd,
  wait_failed, out_of_fuel, finished, run_from, execute_test_batch,
}
use qstar.Batch.Invariant.{held}
use qstar.Batch.Sums.{held_sum, held_count, HasRequests, RunInv, AllInv}
use qstar.Batch.Rounds.{BatchOk, Swept-BatchOk, scan-BatchOk, poll-BatchOk, BatchOk-later}

-- No resource has a capacity below 0.
abbrev pub HasCapacities : Graph → Type 0
HasCapacities graph =
    (k : ℕ) (p : TestResource) → get_elem? graph.test_resources k ≡ some p → pos 0 ≤ℤ p.capacity

-- The states that the loop goes through, between its passes. The flag is whether the scan of the
-- round is over.
pub data Reached (graph : Graph) (env : Env) (options : Option BatchOptions) (targets : List Target)
    : Bool → ℕ → List Run → Shared → Type 0 where
  first :
      Reached graph env options targets false 0
        (map (first_run options) targets)
        (first_shared (map (first_run options) targets))
  scanned :
      (round : ℕ) (runs : List Run) (s : Shared)
      → Reached graph env options targets false round runs s
      → s.done_count < length runs
      → Reached graph env options targets true round
          (scan graph env (job_limit options) round 0 runs s).0
          (scan graph env (job_limit options) round 0 runs s).1
  polled :
      (round : ℕ) (runs : List Run) (s : Shared) (p : List Run × Shared)
      → Reached graph env options targets true round runs s
      → poll graph env (job_limit options) round 0 runs s ≡ some p
      → Reached graph env options targets false (suc round) p.0 p.1

first_run-RunInv :
    (graph : Graph) (env : Env) (options : Option BatchOptions) (index : ℕ) (target : Target)
    → HasRequests graph target
    → RunInv graph env 0 index (first_run options target)
unfolding first_run
first_run-RunInv graph env options index target h = elim (Bool-cases (is_skipped options target)) [
  | inl e ↦
      rw (first_run, e)
        (record {
          ok = (record { not_running = refl; not_held = refl }, inr (inl refl), omega arith);
          target_ok = h;
          start_ok = inl refl;
        })
  | inr e ↦
      rw (first_run, e)
        (record {
          ok = (record { not_running = refl; not_held = refl }, refl, omega arith);
          target_ok = h;
          start_ok = inl refl;
        })
]

last_eq : {last : List Run} (runs : List Run) → finished runs ≡ finished last → runs ≡ last
last_eq runs e =
    ap (λ (b : BatchEnd). elim b [ wait_failed ↦ runs | out_of_fuel ↦ runs | finished rs ↦ rs ]) e

failed_ne : (last : List Run) → wait_failed ≢ finished last
failed_ne last e = cc

module _ (graph : Graph) (env : Env) (options : Option BatchOptions) where
  first-AllInv :
      (index : ℕ) (targets : List Target)
      → All (HasRequests graph) targets
      → AllInv graph env 0 index (map (first_run options) targets)
  first-AllInv index [] h = tt
  first-AllInv index (t ∷ ts) (h, hs) =
      (first_run-RunInv graph env options index t h, first-AllInv (suc index) ts hs)

  first_run-idle : (target : Target) → (first_run options target).resources_held ≡ false
  unfolding first_run
  first_run-idle target = elim (Bool-cases (is_skipped options target)) [
    | inl e ↦ rw (first_run, e) refl
    | inr e ↦ rw (first_run, e) refl
  ]

  first-sums :
      (targets : List Target)
      → ((k : ℕ) → held_sum graph (map (first_run options) targets) k ≡ pos 0)
        × (held_count (map (first_run options) targets) ≡ 0)
  unfolding held_sum held_count held
  first-sums [] = (λ k. refl, refl)
  first-sums (t ∷ ts) =
      let (sums, count) = first-sums ts in
      (
        (λ k. rw (held, first_run-idle t, sums k) refl),
        rw (first_run-idle t) (omega (arith, count)),
      )

  pub first-BatchOk :
      (targets : List Target)
      → HasCapacities graph
      → All (HasRequests graph) targets
      → BatchOk graph env
          (job_limit options)
          0
          (map (first_run options) targets)
          (first_shared (map (first_run options) targets))
  first-BatchOk targets cap h =
      let (sums, count) = first-sums targets in
      record {
        each = first-AllInv 0 targets h;
        used_sum = λ k. sym (sums k);
        holders_sum = sym count;
        done_sum = refl;
        within = record { at_cell = λ k p at_k. cap k p at_k };
        limit = omega arith;
      }

  -- In every state that the loop goes through what is in use is what the runs hold together and no
  -- more than the capacities, as many runs hold resources as are counted and at most as many as
  -- there may be, the finished runs are counted, and each run is as its phase says.
  pub Reached-BatchOk :
      (targets : List Target) (over : Bool) (round : ℕ) (runs : List Run) (s : Shared)
      → HasCapacities graph
      → All (HasRequests graph) targets
      → Reached graph env options targets over round runs s
      → BatchOk graph env (job_limit options) round runs s
  Reached-BatchOk targets over round runs s cap h first = first-BatchOk targets cap h
  Reached-BatchOk targets over round runs s cap h (scanned k rs t r d) =
      let b : BatchOk graph env (job_limit options) k rs t =
        Reached-BatchOk targets false k rs t cap h r in
      Swept-BatchOk graph env (job_limit options) k rs t
        (scan graph env (job_limit options) k 0 rs t) b
        (scan-BatchOk graph env (job_limit options) k rs t b)
  Reached-BatchOk targets over round runs s cap h (polled k rs t p r e) =
      let b : BatchOk graph env (job_limit options) k rs t =
        Reached-BatchOk targets true k rs t cap h r in
      BatchOk-later graph env (job_limit options) k p.0 p.1 (
        Swept-BatchOk graph env (job_limit options) k rs t p b
          (poll-BatchOk graph env (job_limit options) k rs t p b e))

  -- A batch that ends has gone through such states, and all runs are counted as done in the last.
  pub record Ended (targets : List Target) (runs : List Run) : Type 0 where
    pub round : ℕ
    pub shared : Shared
    pub reached : Reached graph env options targets false round runs shared
    pub counted : length runs ≤ shared.done_count

  run_from-Ended :
      (targets : List Target) (fuel round : ℕ) (runs : List Run) (s : Shared) (last : List Run)
      → Reached graph env options targets false round runs s
      → run_from fuel graph env (job_limit options) round runs s ≡ finished last
      → Ended targets last
  unfolding run_from round_of
  run_from-Ended targets zero round runs s last r e = cc
  run_from-Ended targets (suc fuel) round runs s last r e =
      elim (Bool-cases (ltb s.done_count (length runs))) [
        | inr f ↦
            let stops : run_from (suc fuel) graph env (job_limit options) round runs s
                ≡ finished runs =
              rw (run_from, f) refl in
            subst (Ended targets) (last_eq runs (sym stops ∙ e))
              (record { round = round; shared = s; reached = r; counted = ground (arith, f) })
        | inl f ↦ elim (Option-cases (round_of graph env (job_limit options) round runs s)) [
          | inl g ↦
              let fails : run_from (suc fuel) graph env (job_limit options) round runs s
                  ≡ wait_failed =
                rw (run_from, f, g) refl in
              absurd (failed_ne last (sym fails ∙ e))
          | inr (p, g) ↦
              let goes_on : run_from (suc fuel) graph env (job_limit options) round runs s
                  ≡ run_from fuel graph env (job_limit options) (suc round) p.0 p.1 =
                rw (run_from, f, g) refl in
              run_from-Ended targets fuel (suc round) p.0 p.1 last
                (polled round _ _ p (scanned round runs s r (ltb→lt s.done_count (length runs) f))
                  g)
                (sym goes_on ∙ e)
        ]
      ]

  pub execute_test_batch-Ended :
      (fuel : ℕ) (targets : List Target) (last : List Run)
      → execute_test_batch fuel graph env options targets ≡ finished last
      → Ended targets last
  unfolding execute_test_batch
  execute_test_batch-Ended fuel targets last e =
      run_from-Ended targets fuel 0 (map (first_run options) targets) _ last first e
