-- ===== src/Plan/Ascending.antt =====
-- The order that `sort_indices` of src/plan.c gives.
use Prim.Native.Nat.{Ordering}
use mathlib.Core.List.{reverse, reverse-cons, Permᴰ}
use mathlib.Core.List.Permᴰ
use qstar.Prelude.{
  ℕ, ◌<◌, ◌≡◌, ◌≢◌, ◌⊎◌, refl, subst, true, false, Bool-cases, Option-cases, append_assoc,
  append-nil, inl, inr, List, [], ◌∷◌, ◌++◌, Option, none, some, Bytes, strcmp, get_elem?, arith,
}
use qstar.Graph.Target.{Target}
use qstar.Graph.State.{Graph}
use qstar.Plan.{label_of, label_after, insert_index, sort_indices_from, sort_indices}

-- One text stands before another in the order of their bytes, or is the same.
abbrev pub LexLe : Bytes → Bytes → Type 0
LexLe [] bs = Unit {0}
LexLe (a ∷ as') [] = ⊥
LexLe (a ∷ as') (b ∷ bs) = (a < b) ⊎ ((a ≡ b) × LexLe as' bs)

-- The order of the labels of two targets, where there are such targets.
abbrev pub LabelLe : Option Target → Option Target → Type 0
LabelLe none u = Unit {0}
LabelLe (some t) none = Unit {0}
LabelLe (some t) (some u) = LexLe (label_of t) (label_of u)

-- Each label stands before the next.
abbrev pub IsAscending : Graph → List ℕ → Type 0
IsAscending g [] = Unit {0}
IsAscending g (i ∷ []) = Unit {0}
IsAscending g (i ∷ j ∷ is) =
    LabelLe (get_elem? g.targets i) (get_elem? g.targets j) × IsAscending g (j ∷ is)

-- The same as the code's comparison says it.
abbrev IsUnbroken : Graph → List ℕ → Type 0
IsUnbroken g [] = Unit {0}
IsUnbroken g (i ∷ []) = Unit {0}
IsUnbroken g (i ∷ j ∷ is) = (label_after g i j ≡ false) × IsUnbroken g (j ∷ is)

-- The same from the last index on, as the loop keeps the sorted part.
abbrev IsDescending : Graph → List ℕ → Type 0
IsDescending g [] = Unit {0}
IsDescending g (i ∷ []) = Unit {0}
IsDescending g (i ∷ j ∷ is) = (label_after g j i ≡ false) × IsDescending g (j ∷ is)

strcmp-lt : (a b : Bytes) → strcmp a b ≡ Ordering.gt → strcmp b a ≡ Ordering.lt
unfolding strcmp
strcmp-lt [] [] h = ground arith
strcmp-lt [] (b ∷ bs) h = ground arith
strcmp-lt (a ∷ as') [] h = ground arith
strcmp-lt (a ∷ as') (b ∷ bs) h = ground (arith, strcmp-lt as' bs)

after-strcmp :
    (g : Graph) (i j : ℕ) (t u : Target)
    → get_elem? g.targets i ≡ some t
    → get_elem? g.targets j ≡ some u
    → label_after g i j ≡ true
    → label_after g j i ≡ false
unfolding label_after
after-strcmp g i j t u e f h = ground (arith, e, f, h, strcmp-lt (label_of t) (label_of u))

label_after-asym : (g : Graph) (i j : ℕ) → label_after g i j ≡ true → label_after g j i ≡ false
unfolding label_after
label_after-asym g i j h = elim (Option-cases (get_elem? g.targets i)) [
  | inl e ↦ ground (arith, e, h)
  | inr (t, e) ↦ elim (Option-cases (get_elem? g.targets j)) [
    | inl f ↦ ground (arith, e, f, h)
    | inr (u, f) ↦ after-strcmp g i j t u e f h
  ]
]

-- `u` may stand in front of `us` in the sorted part.
abbrev MayPrecede : Graph → ℕ → List ℕ → Type 0
MayPrecede g u [] = Unit {0}
MayPrecede g u (x ∷ xs) = label_after g x u ≡ false

IsDescending-cons :
    (g : Graph) (u : ℕ) (us : List ℕ)
    → MayPrecede g u us
    → IsDescending g us
    → IsDescending g (u ∷ us)
IsDescending-cons g u [] h k = tt
IsDescending-cons g u (x ∷ xs) h k = (h, k)

IsDescending-split :
    (g : Graph) (u : ℕ) (us : List ℕ)
    → IsDescending g (u ∷ us)
    → MayPrecede g u us × IsDescending g us
IsDescending-split g u [] h = (tt, tt)
IsDescending-split g u (x ∷ xs) (h, k) = (h, k)

MayPrecede-insert :
    (g : Graph) (u v : ℕ) (us : List ℕ)
    → label_after g v u ≡ false
    → MayPrecede g u us
    → MayPrecede g u (insert_index g v us)
unfolding insert_index
MayPrecede-insert g u v [] h k = h
MayPrecede-insert g u v (x ∷ xs) h k = elim (Bool-cases (label_after g x v)) [
  | inl later ↦ rw later k
  | inr in_place ↦ rw in_place h
]

insert-IsDescending :
    (g : Graph) (v : ℕ) (us : List ℕ) → IsDescending g us → IsDescending g (insert_index g v us)
unfolding insert_index
insert-IsDescending g v [] h = tt
insert-IsDescending g v (u ∷ us) h =
    let (before, rest) = IsDescending-split g u us h in
    elim (Bool-cases (label_after g u v)) [
      | inl later ↦ rw later (
          IsDescending-cons g u (insert_index g v us)
            (MayPrecede-insert g u v us (label_after-asym g u v later) before)
            (insert-IsDescending g v us rest))
      | inr in_place ↦ rw in_place (IsDescending-cons g v (u ∷ us) in_place h)
    ]

reverse-IsUnbroken :
    (g : Graph) (us acc : List ℕ)
    → IsDescending g us
    → IsUnbroken g acc
    → ((u : ℕ) (more : List ℕ) → us ≡ u ∷ more → IsUnbroken g (u ∷ acc))
    → IsUnbroken g (reverse us ++ acc)
reverse-IsUnbroken g [] acc h k join = k
reverse-IsUnbroken g (u ∷ us) acc h k join =
    rw (reverse-cons, append_assoc (reverse us) (u ∷ []) acc)
      (reverse-IsUnbroken g us (u ∷ acc) (IsDescending-split g u us h).1 (join u us refl)
        (λ w more e. (subst (MayPrecede g u) e (IsDescending-split g u us h).0, join u us refl)))

sort_from-IsUnbroken :
    (g : Graph) (sorted vs : List ℕ)
    → IsDescending g sorted
    → IsUnbroken g (sort_indices_from g sorted vs)
unfolding sort_indices_from
sort_from-IsUnbroken g sorted [] h =
    subst (IsUnbroken g) (append-nil (reverse sorted))
      (reverse-IsUnbroken g sorted [] h tt (λ u more e. tt))
sort_from-IsUnbroken g sorted (v ∷ vs) h =
    sort_from-IsUnbroken g (insert_index g v sorted) vs (insert-IsDescending g v sorted h)

insert-Permᴰ : (g : Graph) (v : ℕ) (us : List ℕ) → Permᴰ (insert_index g v us) (v ∷ us)
unfolding insert_index
insert-Permᴰ g v [] = Permᴰ.refl (v ∷ [])
insert-Permᴰ g v (u ∷ us) = elim (Bool-cases (label_after g u v)) [
  | inl later ↦
      rw later (Permᴰ.trans (Permᴰ.cons refl (insert-Permᴰ g v us)) (Permᴰ.swap refl refl))
  | inr in_place ↦ rw in_place (Permᴰ.refl (v ∷ u ∷ us))
]

sort_from-Permᴰ :
    (g : Graph) (sorted vs : List ℕ) → Permᴰ (sort_indices_from g sorted vs) (sorted ++ vs)
unfolding sort_indices_from
sort_from-Permᴰ g sorted [] =
    Permᴰ.trans (Permᴰ.reverse sorted) (Permᴰ.symm (Permᴰ.append-nil sorted))
sort_from-Permᴰ g sorted (v ∷ vs) = Permᴰ.trans (sort_from-Permᴰ g (insert_index g v sorted) vs) (
    Permᴰ.trans (Permᴰ.append_right vs (insert-Permᴰ g v sorted))
      (Permᴰ.symm (Permᴰ.middle v sorted vs)))

strcmp-LexLe : (a b : Bytes) → strcmp a b ≢ Ordering.gt → LexLe a b
unfolding strcmp
strcmp-LexLe [] bs h = tt
strcmp-LexLe (a ∷ as') [] h = absurd (h refl)
strcmp-LexLe (a ∷ as') (b ∷ bs) h = ground (arith, h, strcmp-LexLe as' bs)

not_after-LabelLe :
    (g : Graph) (i j : ℕ)
    → label_after g i j ≡ false
    → LabelLe (get_elem? g.targets i) (get_elem? g.targets j)
unfolding label_after
not_after-LabelLe g i j h = elim (Option-cases (get_elem? g.targets i)) [
  | inl e ↦ rw e tt
  | inr (t, e) ↦ elim (Option-cases (get_elem? g.targets j)) [
    | inl f ↦ rw (e, f) tt
    | inr (u, f) ↦
        rw (e, f) (strcmp-LexLe (label_of t) (label_of u) (λ q. ground (arith, e, f, h, q)))
  ]
]

IsUnbroken-IsAscending : (g : Graph) (is : List ℕ) → IsUnbroken g is → IsAscending g is
IsUnbroken-IsAscending g [] h = tt
IsUnbroken-IsAscending g (i ∷ []) h = tt
IsUnbroken-IsAscending g (i ∷ j ∷ is) (h, k) =
    (not_after-LabelLe g i j h, IsUnbroken-IsAscending g (j ∷ is) k)

-- `sort_indices` gives the same indices, each as often, and the label of each stands before that of the
-- next in the order of their bytes.
pub sort_indices-IsAscending :
    (g : Graph) (vs : List ℕ) → IsAscending g (sort_indices g vs) × Permᴰ (sort_indices g vs) vs
unfolding sort_indices
sort_indices-IsAscending g vs =
    (IsUnbroken-IsAscending g _ (sort_from-IsUnbroken g [] vs tt), sort_from-Permᴰ g [] vs)
