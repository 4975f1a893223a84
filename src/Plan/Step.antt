-- ===== src/Plan/Step.antt =====
-- One visit: the mark 1, the three lists, the mark 2, and the place in the order.
use mathlib.Core.List.{Memᴰ}
use mathlib.Core.List.Memᴰ
use mathlib.Core.Logic.{⊎_elim}
use native.Mathlib.Decide.{ℕ_discrete}
use qstar.Prelude.{
  some-eq_some, ℕ, zero, suc, ◌<◌, ◌≡◌, ◌≢◌, refl, sym, ◌∙◌, subst, ◌↔◌, ◌⊎◌, inl, inr, [], ◌∷◌,
  Option, some, length, length-set, get_elem?, arith,
}
use qstar.Graph.Target.{Target}
use qstar.Graph.State.{Graph}
use qstar.Plan.{Mark, unvisited, active, finished, Plan, plan_push, mark, visit_target}
use qstar.Plan.Paths.{dep_labels, Dep, Reach, here, Ordered-concat}
use qstar.Plan.Marks.{
  get_elem?-set_self, get_elem?-set_ne, lt-length_of_get_elem?, get_elem?-lt,
  unvisited_count-set_active, unvisited_count-set_finished,
}
use qstar.Plan.Spec.{
  Ensures, Ensures-bind, Explained, at, IsValid, Grows, Grows-refl, Visited, CanVisit, CanLoop,
  Looped,
}
use qstar.Plan.Lists.{visit_lists-Looped}

-- A mark behind a write: the new one at the index, the old ones elsewhere.
at-mark_ne : (p : Plan) (i j : ℕ) (m : Mark) → i ≢ j → at (mark p i m) j ≡ at p j
unfolding mark
at-mark_ne p i j m h = get_elem?-set_ne p.state i j m h

at-mark_self : (p : Plan) (i : ℕ) (m : Mark) → i < length p.state → at (mark p i m) i ≡ some m
unfolding mark
at-mark_self p i m h = get_elem?-set_self p.state i m h

-- A write of another mark than `m` at an index that did not hold `m` leaves the places of `m`.
at-mark_other :
    (p : Plan) (i j : ℕ) (new old m : Mark)
    → at p i ≡ some old
    → new ≢ m
    → old ≢ m
    → (at (mark p i new) j ≡ some m) ↔ (at p j ≡ some m)
at-mark_other p i j new old m here_old n o = elim (ℕ_discrete i j) [
  | yes e ↦ (
    λ h. absurd (
        n (
          some-eq_some (
            sym (
              subst (λ k. at (mark p i new) k ≡ some new) e
                (at-mark_self p i new (lt-length_of_get_elem? p.state i here_old)))
            ∙ h))),
    λ h. absurd (o (some-eq_some (sym (subst (λ k. at p k ≡ some old) e here_old) ∙ h))),
  )
  | no e ↦ (λ h. sym (at-mark_ne p i j new e) ∙ h, λ h. at-mark_ne p i j new e ∙ h)
]

finished-ne-active : {o : Option Mark} → o ≡ some finished → o ≢ some active
finished-ne-active a b = cc

unvisited-ne-active : {o : Option Mark} → o ≡ some unvisited → o ≢ some active
unvisited-ne-active a b = cc

module _ (g : Graph) (i : ℕ) (t : Target) (at_i : get_elem? g.targets i ≡ some t) (p : Plan)
    (new : at p i ≡ some unvisited) where
  abbrev entered : Plan
  entered = mark p i active

  entered-IsValid : IsValid g p → IsValid g entered
  unfolding mark
  entered-IsValid v = record {
    size = length-set p.state i active ∙ v.size;
    listed = λ j m. (at-mark_other p i j active unvisited finished new (cc) (cc)).1 (v.listed j m);
    complete =
        λ j h. v.complete j ((at-mark_other p i j active unvisited finished new (cc) (cc)).0 h);
    ordered = v.ordered;
  }

  entered-CanLoop : (fuel : ℕ) → CanVisit g (suc fuel) i p → CanLoop g fuel i entered
  unfolding mark
  entered-CanLoop fuel c = record {
    valid = entered-IsValid c.valid;
    enough = omega (arith, c.enough, unvisited_count-set_active p.state i new);
    behind = λ j h. elim (ℕ_discrete i j) [
      | yes e ↦ inl (sym e)
      | no e ↦ inr (c.behind j (sym (at-mark_ne p i j active e) ∙ h))
    ];
  }

  module _ (q : Plan) (l : Looped g i (dep_labels t) entered q) (v : IsValid g p) where
    abbrev left : Plan
    left = plan_push (mark q i finished) i

    still_active : at q i ≡ some active
    still_active =
        (l.grows.same i).1 (at-mark_self p i active (lt-length_of_get_elem? p.state i new))

    finished_now : at left i ≡ some finished
    unfolding plan_push
    finished_now = at-mark_self q i finished (lt-length_of_get_elem? q.state i still_active)

    finished-cases : (j : ℕ) → (at left j ≡ some finished) ↔ ((j ≡ i) ⊎ (at q j ≡ some finished))
    unfolding plan_push
    finished-cases j = elim (ℕ_discrete i j) [
      | yes e ↦ (λ h. inl (sym e), λ _. subst (λ k. at left k ≡ some finished) e finished_now)
      | no e ↦ (
        λ h. inr (sym (at-mark_ne q i j finished e) ∙ h),
        λ o. ⊎_elim (λ same. absurd (e (sym same))) (λ h. at-mark_ne q i j finished e ∙ h) o,
      )
    ]

    Dep-finished : (j : ℕ) → Dep g i j → at q j ≡ some finished
    Dep-finished j d =
        let same : d.target ≡ t = some-eq_some (sym d.at_i ∙ at_i) in
        l.all_done d.label (subst (λ u. Memᴰ d.label (dep_labels u)) same d.named) j d.at_j

    left-IsValid : IsValid g left
    unfolding plan_push mark
    left-IsValid = record {
      size = length-set q.state i finished ∙ l.valid.size;
      listed = λ j m. (finished-cases j).1 (
          ⊎_elim (λ n. inr (l.valid.listed j n)) (λ n. inl (Memᴰ.eq_of_singleton n))
            (Memᴰ.append_cases q.order m));
      complete = λ j h.
          ⊎_elim (λ e. Memᴰ.append_right q.order (Memᴰ.head e))
            (λ f. Memᴰ.append_left (i ∷ []) (l.valid.complete j f)) ((finished-cases j).0 h);
      ordered =
          Ordered-concat g [] q.order i l.valid.ordered
            (λ j d. l.valid.complete j (Dep-finished j d))
            (λ m. cc (l.valid.listed i m, still_active));
    }

    left-Grows : Grows p left
    unfolding plan_push mark
    left-Grows = record {
      work = omega (
        arith,
        l.grows.work,
        unvisited_count-set_active p.state i new,
        unvisited_count-set_finished q.state i still_active,
      );
      same = λ j. elim (ℕ_discrete i j) [
        | yes e ↦ (
          λ h.
              absurd (finished-ne-active (subst (λ k. at left k ≡ some finished) e finished_now) h),
          λ h. absurd (unvisited-ne-active (subst (λ k. at p k ≡ some unvisited) e new) h),
        )
        | no e ↦ (
          λ h.
              sym (at-mark_ne p i j active e)
              ∙ (l.grows.same j).0 (sym (at-mark_ne q i j finished e) ∙ h),
          λ h. at-mark_ne q i j finished e ∙ (l.grows.same j).1 (at-mark_ne p i j active e ∙ h),
        )
      ];
      keeps = λ j h. (finished-cases j).1 (
          inr
            (l.grows.keeps j ((at-mark_other p i j active unvisited finished new (cc) (cc)).1 h)));
    }

    left-Visited : Visited g i p left
    left-Visited = record {
      valid = left-IsValid;
      grows = left-Grows;
      reached = finished_now;
      only = λ j h.
          ⊎_elim (λ e. inr (subst (Reach g i) (sym e) here))
            (λ f.
              ⊎_elim
                (λ before.
                  inl ((at-mark_other p i j active unvisited finished new (cc) (cc)).0 before))
                inr (l.only j f))
            ((finished-cases j).0 h);
    }

module _ (g : Graph) (fuel : ℕ)
    (call : (j : ℕ) (p : Plan)
      → CanVisit g fuel j p
      → Ensures (Visited g j p) (Explained g) (visit_target fuel g j p))
    (i : ℕ) (p : Plan) (c : CanVisit g (suc fuel) i p) (t : Target)
    (at_i : get_elem? g.targets i ≡ some t) where
  -- A visit, by the mark that it finds.
  pub visit_target-step :
      (m : Mark)
      → at p i ≡ some m
      → Ensures (Visited g i p) (Explained g) (visit_target (suc fuel) g i p)
  unfolding visit_target
  visit_target-step finished e =
      rw (visit_target, e)
        (record { valid = c.valid; grows = Grows-refl p; reached = e; only = λ j h. inl h })
  visit_target-step active e =
      rw (visit_target, e, at_i)
        (record { index = i; target = t; at_index = at_i; labelled = refl; chain = c.behind i e })
  visit_target-step unvisited e =
      rw (visit_target, e, at_i)
        (Ensures-bind (Looped g i (dep_labels t) (mark p i active)) (Visited g i p) (Explained g) _
          _
          (visit_lists-Looped g fuel (visit_target fuel g) call i t at_i (mark p i active)
            (entered-CanLoop g i t at_i p e fuel c))
          (λ q l. left-Visited g i t at_i p e q l c.valid))

-- A visit that is given fuel for the unvisited targets does what it is to do.
pub visit_target-Visited :
    (fuel : ℕ) (g : Graph) (i : ℕ) (p : Plan)
    → CanVisit g fuel i p
    → Ensures (Visited g i p) (Explained g) (visit_target fuel g i p)
visit_target-Visited zero g i p c = absurd (omega (arith, c.enough))
visit_target-Visited (suc fuel) g i p c =
    let (m, marked) = get_elem?-lt p.state i (omega (arith, c.valid.size, c.in_range)) in
    let (t, at_i) = get_elem?-lt g.targets i c.in_range in
    visit_target-step g fuel (visit_target-Visited fuel g) i p c t at_i m marked
