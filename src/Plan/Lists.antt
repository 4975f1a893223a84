-- ===== src/Plan/Lists.antt =====
-- The loops of a visit over the labels of a target, for any visit of one target.
use mathlib.Core.List.{Memᴰ}
use mathlib.Core.List.Memᴰ
use mathlib.Core.Logic.{⊎_elim}
use qstar.Prelude.{
  ◌&&◌, head_is, ℕ, suc, ◌+◌, ◌<◌, ◌≡◌, refl, sym, subst, ◌⊎◌, inl, inr, Bool, true, false,
  Bool-cases, Option-cases, List, [], ◌∷◌, ◌++◌, none, some, Bytes, codes, length, get_elem?, arith,
}
use qstar.Graph.Target.{Target}
use qstar.Graph.State.{Graph}
use qstar.Graph.Lookup.{target_index, index_from, graph_find_genrule}
use qstar.Plan.{
  finished, Plan, Outcome, label_of, external_dep_resolved, outside_error, visit_dep,
  visit_label_list, visit_lists,
}
use qstar.Plan.Paths.{dep_labels, Dep, here, step, Chain, one, more, Reach-trans}
use qstar.Plan.Spec.{
  Ensures, Ensures-bind, Ensures-map, IfSome, IfSome-Ensures, Dangling, Explained, at, IsValid,
  Grows, Grows-refl, Visited, CanVisit, CanLoop, Looped, Looped-append,
}

index_from-lt :
    (ts : List Target) (n : ℕ) (label : Bytes) (i : ℕ)
    → index_from n ts label ≡ some i
    → i < n + length ts
unfolding index_from
index_from-lt [] n label i h = cc
index_from-lt (t ∷ ts) n label i h = ground (arith, index_from-lt ts (suc n) label i)

pub target_index-lt :
    (g : Graph) (label : Bytes) (i : ℕ) → target_index g label ≡ some i → i < length g.targets
unfolding target_index
target_index-lt g label i h = omega (arith, index_from-lt g.targets 0 label i h)

-- The loop over a list of labels of the target at `i`, which is active.
module _ (g : Graph) (fuel : ℕ) (visit : ℕ → Plan → Outcome Plan)
    (call : (j : ℕ) (p : Plan)
      → CanVisit g fuel j p
      → Ensures (Visited g j p) (Explained g) (visit j p))
    (i : ℕ) (t : Target) (at_i : get_elem? g.targets i ≡ some t) where
  pub CanLoop-Grows :
      {p q : Plan} → CanLoop g fuel i p → IsValid g q → Grows p q → CanLoop g fuel i q
  CanLoop-Grows c v grows = record {
    valid = v;
    enough = omega (arith, c.enough, grows.work);
    behind = λ j h. c.behind j ((grows.same j).0 h);
  }

  Chain-to : (j k : ℕ) → (k ≡ i) ⊎ Chain g k i → Dep g i j → Chain g k j
  Chain-to j k (inl e) d = one (subst (λ m. Dep g m j) (sym e) d)
  Chain-to j k (inr c) d = more c d

  CanVisit-Dep :
      (p : Plan) (j : ℕ)
      → Dep g i j
      → CanLoop g fuel i p
      → j < length g.targets
      → CanVisit g fuel j p
  CanVisit-Dep p j d c small = record {
    valid = c.valid;
    in_range = small;
    enough = c.enough;
    behind = λ k h. Chain-to j k (c.behind k h) d;
  }

  Visited-Looped :
      (dep : Bytes) (p : Plan) (j : ℕ)
      → Dep g i j
      → target_index g dep ≡ some j
      → (q : Plan) → Visited g j p q
      → Looped g i (dep ∷ []) p q
  Visited-Looped dep p j d found q v = record {
    valid = v.valid;
    grows = v.grows;
    all_done = λ l m k at_k.
        let same : k ≡ j = cc (Memᴰ.eq_of_singleton m) in
        subst (λ x. at q x ≡ some finished) (sym same) v.reached;
    only = λ k h. ⊎_elim inl (λ r. inr (Reach-trans (step here d) r)) (v.only k h);
  }

  Looped-nil : (p : Plan) → IsValid g p → Looped g i [] p p
  Looped-nil p v = record {
    valid = v;
    grows = Grows-refl p;
    all_done = λ l m. absurd (Memᴰ.not-nil m);
    only = λ j h. inl h;
  }

  Looped-outside :
      (dep : Bytes) (p : Plan) → target_index g dep ≡ none → IsValid g p → Looped g i (dep ∷ []) p p
  Looped-outside dep p lost v = record {
    valid = v;
    grows = Grows-refl p;
    all_done = λ l m j found. cc (Memᴰ.eq_of_singleton m);
    only = λ j h. inl h;
  }

  module _ (field : Bytes) (allow_external : Bool) where
    outside_error-Explained :
        (dep : Bytes)
        → Dangling g (label_of t) dep
        → IfSome (Explained g) (outside_error g (label_of t) field allow_external dep)
    unfolding outside_error
    outside_error-Explained dep d = elim (Bool-cases (allow_external && head_is b'@' dep)) [
      | inl outer ↦ elim (Bool-cases (external_dep_resolved g dep)) [
        | inl found ↦ rw (outer, found) tt
        | inr lost ↦ rw (outer, lost) (d, lost)
      ]
      | inr inner ↦ elim (Option-cases (graph_find_genrule g dep)) [
        | inl lost ↦ rw (inner, lost) (d, lost)
        | inr (action, found) ↦ rw (inner, found) tt
      ]
    ]

    visit_dep-Looped :
        (dep : Bytes) (p : Plan)
        → Memᴰ dep (dep_labels t)
        → CanLoop g fuel i p
        → Ensures
            (Looped g i (dep ∷ []) p)
            (Explained g)
            (visit_dep g visit (label_of t) field allow_external dep p)
    unfolding visit_dep
    visit_dep-Looped dep p named c = elim (Option-cases (target_index g dep)) [
      | inr (j, found) ↦
          let d : Dep g i j = record {
            target = t;
            at_i = at_i;
            label = dep;
            named = named;
            at_j = found;
          } in
          rw (visit_dep, found)
            (Ensures-map (Visited g j p) (Looped g i (dep ∷ []) p) (Explained g) (visit j p)
              (call j p (CanVisit-Dep p j d c (target_index-lt g dep j found)))
              (Visited-Looped dep p j d found))
      | inl lost ↦
          rw (visit_dep, lost)
            (IfSome-Ensures (Looped g i (dep ∷ []) p) (Explained g) p
              (outside_error g (label_of t) field allow_external dep)
              (Looped-outside dep p lost c.valid)
              (outside_error-Explained dep (record {
                index = i;
                target = t;
                at_index = at_i;
                labelled = refl;
                named = named;
                absent = lost;
              })))
    ]

    pub visit_label_list-Looped :
        (labels : List Bytes) (p : Plan)
        → ((l : Bytes) → Memᴰ l labels → Memᴰ l (dep_labels t))
        → CanLoop g fuel i p
        → Ensures
            (Looped g i labels p)
            (Explained g)
            (visit_label_list g visit (label_of t) field allow_external labels p)
    unfolding visit_label_list
    visit_label_list-Looped [] p sub c = Looped-nil p c.valid
    visit_label_list-Looped (dep ∷ deps) p sub c =
        Ensures-bind (Looped g i (dep ∷ []) p) (Looped g i (dep ∷ deps) p) (Explained g) _ _
          (visit_dep-Looped dep p (sub dep (Memᴰ.head refl)) c)
          (λ q a.
            Ensures-map (Looped g i deps q) (Looped g i (dep ∷ deps) p) (Explained g) _
              (visit_label_list-Looped deps q (λ l m. sub l (Memᴰ.tail m))
                (CanLoop-Grows c a.valid a.grows))
              ((λ r. Looped-append g i (dep ∷ []) deps p q r a)))

  -- The three lists of a target, one behind the other.
  pub visit_lists-Looped :
      (p : Plan)
      → CanLoop g fuel i p
      → Ensures (Looped g i (dep_labels t) p) (Explained g) (visit_lists g visit t p)
  unfolding visit_lists
  visit_lists-Looped p c =
      let rest = t.deps ++ t.private_deps in
      Ensures-bind (Looped g i t.objects p) (Looped g i (dep_labels t) p) (Explained g) _ _
        (visit_label_list-Looped (codes "objects") false t.objects p
          (λ l m. Memᴰ.append_left rest m) c)
        (λ q a.
          Ensures-map (Looped g i rest q) (Looped g i (dep_labels t) p) (Explained g) _
            (Ensures-bind (Looped g i t.deps q) (Looped g i rest q) (Explained g) _ _
              (visit_label_list-Looped (codes "deps") true t.deps q
                (λ l m. Memᴰ.append_right t.objects (Memᴰ.append_left t.private_deps m))
                (CanLoop-Grows c a.valid a.grows))
              (λ r b.
                Ensures-map (Looped g i t.private_deps r) (Looped g i rest q) (Explained g) _
                  (visit_label_list-Looped (codes "private_deps") true t.private_deps r
                    (λ l m. Memᴰ.append_right t.objects (Memᴰ.append_right t.deps m))
                    (CanLoop-Grows (CanLoop-Grows c a.valid a.grows) b.valid b.grows))
                  (λ s d. Looped-append g i t.deps t.private_deps q r s b d)))
            (λ s b. Looped-append g i t.objects rest p q s a b))
