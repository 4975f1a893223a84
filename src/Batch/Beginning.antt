-- ===== src/Batch/Beginning.antt =====
-- What the scan of src/test_resources.c starts.
use qstar.Prelude.{
  ℕ, pos, suc, ◌+◌, ◌≤◌, ◌<◌, ltb, ltb→lt, ◌≡◌, refl, ap, ◌∙◌, ◌⊎◌, inl, inr, true, false, List, [],
  ◌∷◌, some, get_elem?, length, All, arith, Bool-cases,
}
use qstar.Graph.State.{Graph}
use qstar.TestResources.{resources_available}
use qstar.Batch.{
  Phase, pending, setup, body, cleanup, done, Run, Env, Shared, is_done, start_phase, try_phase,
  first_phase, begin_attempt, start_attempt,
}
use qstar.Batch.Loop.{count_done, note_done, is_pending, can_start, scan_one, scan}
use qstar.Batch.Rounds.{BatchOk}
use qstar.Batch.Stuck.{AllBlocked, quiet, All-done}
use qstar.Batch.Responsive.{none_pending}

-- The attempt has a process in the first phase of its test, unless that process cannot be started.
abbrev pub HasBegun : Env → ℕ → Run → Run → Type 0
HasBegun env index before after =
    ((after.running ≡ true)
      × (after.phase ≡ first_phase before.target)
      × (after.attempt ≡ suc before.attempt)
      × (after.resources_held ≡ true))
    ⊎ (env.starts index (suc before.attempt) (first_phase before.target) ≡ false)

module _ (graph : Graph) (env : Env) (jobs round : ℕ) where
  -- A test that waits, for which there is a job and what it asks for, begins an attempt in the scan.
  pub record Begun (first : ℕ) (runs : List Run) (s : Shared) : Type 0 where
    pub place : ℕ
    pub index : ℕ
    pub index_eq : index ≡ first + place
    pub run : Run
    pub shared : Shared
    pub after : Run
    pub at_place : get_elem? runs place ≡ some run
    pub waits : run.phase ≡ pending
    pub has_job : shared.holders < jobs
    pub available : resources_available graph shared.used run.target ≡ true
    pub begins : after ≡ (start_attempt graph env round index run shared).0
    pub has_begun : HasBegun env index run after
    pub after_place : get_elem? (scan graph env jobs round first runs s).0 place ≡ some after

  is_pending-eq : (phase : Phase) → is_pending phase ≡ true → phase ≡ pending
  is_pending-eq pending h = refl
  is_pending-eq setup h = cc
  is_pending-eq body h = cc
  is_pending-eq cleanup h = cc
  is_pending-eq done h = cc

  note_done-run : (p : Run × Shared) → (note_done p).0 ≡ p.0
  unfolding note_done
  note_done-run (r, s) = elim (Bool-cases (is_done r.phase)) [
    | inl e ↦ rw e refl
    | inr e ↦ rw e refl
  ]

  start_attempt-HasBegun :
      (index : ℕ) (r : Run) (s : Shared)
      → HasBegun env index r (start_attempt graph env round index r s).0
  unfolding start_attempt begin_attempt try_phase start_phase
  start_attempt-HasBegun index r s =
      elim (Bool-cases (env.starts index (suc r.attempt) (first_phase r.target))) [
        | inr e ↦ inr e
        | inl e ↦
            rw (start_attempt, begin_attempt, try_phase, start_phase, e)
              (inl (refl, refl, refl, refl))
      ]

  can_start-true :
      (r : Run) (s : Shared)
      → can_start graph env jobs round r s ≡ true
      → (ltb s.holders jobs ≡ true)
        × (is_pending r.phase ≡ true)
        × (resources_available graph s.used r.target ≡ true)
  unfolding can_start
  can_start-true r s e = ground (arith, e)

  scan_one-run :
      (index : ℕ) (r : Run) (s : Shared)
      → can_start graph env jobs round r s ≡ true
      → (scan_one graph env jobs round index r s).0 ≡ (start_attempt graph env round index r s).0
  unfolding scan_one
  scan_one-run index r s e = rw (scan_one, e) (note_done-run _)

  scan_one-blocked :
      (index : ℕ) (r : Run) (s : Shared)
      → can_start graph env jobs round r s ≡ false
      → scan_one graph env jobs round index r s ≡ (r, s)
  unfolding scan_one
  scan_one-blocked index r s e = rw (scan_one, e) refl

  scan_cases :
      (first : ℕ) (runs : List Run) (s : Shared)
      → AllBlocked graph env jobs round s runs ⊎ Begun first runs s
  unfolding scan
  scan_cases first [] s = inl tt
  scan_cases first (r ∷ rs) s = elim (Bool-cases (can_start graph env jobs round r s)) [
    | inl e ↦ inr (record {
      place = 0;
      index = first;
      index_eq = omega arith;
      run = r;
      shared = s;
      after = (start_attempt graph env round first r s).0;
      at_place = refl;
      waits = is_pending-eq r.phase (can_start-true r s e).1;
      has_job = ltb→lt _ _ (can_start-true r s e).0;
      available = (can_start-true r s e).2;
      begins = refl;
      has_begun = start_attempt-HasBegun first r s;
      after_place = ap some (scan_one-run first r s e);
    })
    | inr e ↦ elim (scan_cases (suc first) rs s) [
      | inl b ↦ inl (e, b)
      | inr b ↦
          let same : scan_one graph env jobs round first r s ≡ (r, s) =
            scan_one-blocked first r s e in
          inr (record {
            place = suc b.place;
            index = b.index;
            index_eq = omega (arith, b.index_eq);
            run = b.run;
            shared = b.shared;
            after = b.after;
            at_place = b.at_place;
            waits = b.waits;
            has_job = b.has_job;
            available = b.available;
            begins = b.begins;
            has_begun = b.has_begun;
            after_place =
                ap
                  (λ (x : Run × Shared).
                    get_elem? (scan graph env jobs round (suc first) rs x.1).0 b.place)
                  same
                ∙ b.after_place;
          })
    ]
  ]

  -- If no process runs, not all is done and there may be a job, the scan begins an attempt of a test
  -- that waits and whose resources are available: it has a process then, unless that cannot be started.
  pub scan-starts :
      (runs : List Run) (s : Shared)
      → BatchOk graph env jobs round runs s
      → 1 ≤ jobs
      → s.done_count < length runs
      → All (λ r. r.running ≡ false) runs
      → Begun 0 runs s
  scan-starts runs s b j d q = elim (scan_cases 0 runs s) [
    | inr begun ↦ begun
    | inl blocked ↦
        let (sums, count) = quiet graph env jobs round 0 runs b.each q in
        let idle : (k : ℕ) → s.used k ≡ pos 0 = λ k. b.used_sum k ∙ sums k in
        let room : s.holders < jobs = omega (arith, b.holders_sum, count) in
        let all : count_done runs ≡ length runs =
          All-done graph env jobs round 0 runs b.each q
            (none_pending graph env jobs round 0 runs s b.each idle room blocked) in
        absurd (omega (arith, b.done_sum))
  ]
