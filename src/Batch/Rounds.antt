-- ===== src/Batch/Rounds.antt =====
-- The passes of the loop of src/test_resources.c over all runs, and the states it goes through.
use qstar.Prelude.{
  ℕ, ℤ, ◌+ℤ◌, int_laws, pos_part, neg_part, suc, ◌≤◌, ◌≡◌, refl, sym, ap, ◌∙◌, inl, inr, List, [],
  ◌∷◌, some, arith, Option-cases, some-eq_some, none-ne_some, subst,
}
use qstar.Graph.State.{Graph}
use qstar.Batch.{Run, Env, Shared}
use qstar.Batch.Loop.{count_done, scan_one, scan, poll_one, poll}
use qstar.Batch.Sums.{held_sum, held_count, AllInv, IsWithin, StepOk, Swept, Swept-cons, Swept-nil}
use qstar.Batch.Single.{scan_one-StepOk}
use qstar.Batch.Polling.{poll_one-StepOk}

module _ (graph : Graph) (env : Env) (jobs round : ℕ) where
  pub scan-Swept :
      (index : ℕ) (runs : List Run) (s : Shared)
      → AllInv graph env round index runs
      → IsWithin graph s.used
      → s.holders ≤ jobs
      → Swept graph env jobs round index runs s (scan graph env jobs round index runs s)
  unfolding scan
  scan-Swept index [] s i w l = Swept-nil graph env jobs round index s w l
  scan-Swept index (r ∷ rs) s (i, is) w l =
      let p : Run × Shared = scan_one graph env jobs round index r s in
      let a : StepOk graph env jobs round index r s p =
        scan_one-StepOk graph env jobs round index r s i w l in
      Swept-cons graph env jobs round index r s p rs (scan graph env jobs round (suc index) rs p.1)
        i a (scan-Swept (suc index) rs p.1 is a.within a.limit)

  -- What the rest of the runs hold is still counted.
  pub rest_held :
      (index : ℕ) (r : Run) (s : Shared) (p : Run × Shared) (rs : List Run)
      → StepOk graph env jobs round index r s p
      → held_count (r ∷ rs) ≤ s.holders
      → held_count rs ≤ p.1.holders
  unfolding held_count
  rest_held index r s p rs a h = elim a.step [
    | inl e ↦ subst (λ (x : Run × Shared). held_count rs ≤ x.1.holders) (sym e) (omega arith)
    | inr m ↦ omega (arith, m.moved.holders_moved)
  ]

  -- A pass that does not fail polls the first run and then the others.
  pub record PollCons (index : ℕ) (r : Run) (rs : List Run) (s : Shared) (q : List Run × Shared)
      : Type 0 where
    pub first : Run × Shared
    pub rest : List Run × Shared
    pub first_eq : poll_one graph env jobs round index r s ≡ some first
    pub rest_eq : poll graph env jobs round (suc index) rs first.1 ≡ some rest
    pub all_eq : (first.0 ∷ rest.0, rest.1) ≡ q

  pub poll-PollCons :
      (index : ℕ) (r : Run) (rs : List Run) (s : Shared) (q : List Run × Shared)
      → poll graph env jobs round index (r ∷ rs) s ≡ some q
      → PollCons index r rs s q
  unfolding poll
  poll-PollCons index r rs s q e = elim (Option-cases (poll_one graph env jobs round index r s)) [
    | inl f ↦ absurd (none-ne_some (sym (rw (poll, f) refl) ∙ e))
    | inr (p, f) ↦ elim (Option-cases (poll graph env jobs round (suc index) rs p.1)) [
      | inl g ↦ absurd (none-ne_some (sym (rw (poll, f, g) refl) ∙ e))
      | inr (t, g) ↦
          let all_eq : poll graph env jobs round index (r ∷ rs) s ≡ some (p.0 ∷ t.0, t.1) =
            rw (poll, f, g) refl in
          record {
            first = p;
            rest = t;
            first_eq = f;
            rest_eq = g;
            all_eq = some-eq_some (sym all_eq ∙ e);
          }
    ]
  ]

  pub poll-Swept :
      (index : ℕ) (runs : List Run) (s : Shared) (q : List Run × Shared)
      → AllInv graph env round index runs
      → IsWithin graph s.used
      → s.holders ≤ jobs
      → held_count runs ≤ s.holders
      → poll graph env jobs round index runs s ≡ some q
      → Swept graph env jobs round index runs s q
  unfolding poll held_count
  poll-Swept index [] s q i w l h e =
      subst (Swept graph env jobs round index [] s) (some-eq_some e)
        (Swept-nil graph env jobs round index s w l)
  poll-Swept index (r ∷ rs) s q (i, is) w l h e =
      let c : PollCons index r rs s q = poll-PollCons index r rs s q e in
      let a : StepOk graph env jobs round index r s c.first =
        poll_one-StepOk graph env jobs round index r s c.first i w l (omega arith) c.first_eq in
      let b : Swept graph env jobs round (suc index) rs c.first.1 c.rest =
        poll-Swept (suc index) rs c.first.1 c.rest is a.within a.limit
          (rest_held index r s c.first rs a h) c.rest_eq in
      subst (Swept graph env jobs round index (r ∷ rs) s) c.all_eq
        (Swept-cons graph env jobs round index r s c.first rs c.rest i a b)

-- The state of the loop: what is shared counts what the runs hold.
pub record BatchOk (graph : Graph) (env : Env) (jobs round : ℕ) (runs : List Run) (s : Shared)
    : Type 0 where
  pub each : AllInv graph env round 0 runs
  pub used_sum : (k : ℕ) → s.used k ≡ held_sum graph runs k
  pub holders_sum : s.holders ≡ held_count runs
  pub done_sum : s.done_count ≡ count_done runs
  pub within : IsWithin graph s.used
  pub limit : s.holders ≤ jobs

cancel_sum : (a b c d : ℤ) → a +ℤ b ≡ c +ℤ d → c ≡ b → a ≡ d
cancel_sum a b c d h e =
    omega (int_laws, ap pos_part h, ap neg_part h, ap pos_part e, ap neg_part e)

pub Swept-BatchOk :
    (graph : Graph) (env : Env) (jobs round : ℕ) (runs : List Run) (s : Shared)
    (p : List Run × Shared)
    → BatchOk graph env jobs round runs s
    → Swept graph env jobs round 0 runs s p
    → BatchOk graph env jobs round p.0 p.1
Swept-BatchOk graph env jobs round runs s p b w = record {
  each = w.each;
  used_sum = λ k.
      cancel_sum (p.1.used k) (held_sum graph runs k) (s.used k) (held_sum graph p.0 k)
        (w.used_moved k) (b.used_sum k);
  holders_sum = omega (arith, w.holders_moved, b.holders_sum);
  done_sum = omega (arith, w.done_moved, b.done_sum);
  within = w.within;
  limit = w.limit;
}

module _ (graph : Graph) (env : Env) (jobs round : ℕ) where
  pub scan-BatchOk :
      (runs : List Run) (s : Shared)
      → BatchOk graph env jobs round runs s
      → Swept graph env jobs round 0 runs s (scan graph env jobs round 0 runs s)
  scan-BatchOk runs s b = scan-Swept graph env jobs round 0 runs s b.each b.within b.limit

  pub poll-BatchOk :
      (runs : List Run) (s : Shared) (q : List Run × Shared)
      → BatchOk graph env jobs round runs s
      → poll graph env jobs round 0 runs s ≡ some q
      → Swept graph env jobs round 0 runs s q
  poll-BatchOk runs s q b e =
      poll-Swept graph env jobs round 0 runs s q b.each b.within b.limit
        (omega (arith, b.holders_sum)) e

  -- The next round.
  AllInv-later :
      (index : ℕ) (runs : List Run)
      → AllInv graph env round index runs
      → AllInv graph env (suc round) index runs
  AllInv-later index [] i = tt
  AllInv-later index (r ∷ rs) (i, is) = (
    record {
      ok = i.ok;
      target_ok = i.target_ok;
      start_ok = elim i.start_ok [
        | inl e ↦ inl e
        | inr w ↦ inr (record {
          began = w.began;
          phase = w.phase;
          by_now = omega (arith, w.by_now);
          start_eq = w.start_eq;
        })
      ];
    },
    AllInv-later (suc index) rs is,
  )

  pub BatchOk-later :
      (runs : List Run) (s : Shared)
      → BatchOk graph env jobs round runs s
      → BatchOk graph env jobs (suc round) runs s
  BatchOk-later runs s b = record {
    each = AllInv-later 0 runs b.each;
    used_sum = b.used_sum;
    holders_sum = b.holders_sum;
    done_sum = b.done_sum;
    within = b.within;
    limit = b.limit;
  }
