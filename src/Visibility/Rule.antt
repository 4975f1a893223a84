-- ===== src/Visibility/Rule.antt =====
-- When a target may depend on a target (src/source.c).
use mathlib.Core.List.{Memᴰ}
use mathlib.Core.Logic.{⊎_elim}
use qstar.Prelude.{
  ◌<◌, ◌≡◌, ◌↔◌, ◌⊎◌, refl, sym, ◌∙◌, subst, inl, inr, Bool, true, false, ◌||◌, Option-cases, List,
  [], ◌∷◌, Option, none, some, some-eq_some, Bytes, length, leb, any, str_eq, str_eq_iff, arith,
}
use qstar.Label.{path_max, label_package_path}
use qstar.Graph.Target.{Target}
use qstar.Plan.{label_of}
use qstar.Visibility.{visibility_pattern_matches, target_visible_to_label}
use qstar.Visibility.Patterns.{Covers, any-Memᴰ, pattern-Covers, label_package_path-lt}

-- Both labels are labels of this package, and the dependency is in the consumer's package, has no
-- visibility list, or has a pattern in it that covers the consumer.
pub record IsVisible (dep : Target) (consumer : Bytes) : Type 0 where
  pub dep_package : Bytes
  pub consumer_package : Bytes
  pub dep_at : label_package_path (label_of dep) path_max ≡ some dep_package
  pub consumer_at : label_package_path consumer path_max ≡ some consumer_package
  pub rule :
      (dep_package ≡ consumer_package)
      ⊎ ((dep.visibility ≡ [])
          ⊎ ((v : Bytes) × Memᴰ v dep.visibility × Covers v consumer consumer_package))

no_entries : (xs : List Bytes) → (leb (length xs) 0 ≡ true) ↔ (xs ≡ [])
no_entries [] = ground arith
no_entries (x ∷ xs) = ground arith

or3_true : (a b c : Bool) → ((a || b || c) ≡ true) ↔ ((a ≡ true) ⊎ ((b ≡ true) ⊎ (c ≡ true)))
or3_true a b c = ground arith

-- In known packages.
visible_between :
    (dep : Target) (consumer d c : Bytes)
    → length c < path_max
    → ((str_eq d c
          || leb (length dep.visibility) 0
          || any (λ v. visibility_pattern_matches v consumer c) dep.visibility)
        ≡ true)
      ↔ ((d ≡ c)
          ⊎ ((dep.visibility ≡ []) ⊎ ((v : Bytes) × Memᴰ v dep.visibility × Covers v consumer c)))
visible_between dep consumer d c small =
    let f = λ (v : Bytes). visibility_pattern_matches v consumer c in
    let tests = or3_true (str_eq d c) (leb (length dep.visibility) 0) (any f dep.visibility) in
    let entries =
      any-Memᴰ f (λ v. Covers v consumer c) dep.visibility
        (λ v. pattern-Covers v consumer c small) in
    (
      λ h.
          ⊎_elim (λ x. inl ((str_eq_iff d c).0 x))
            (⊎_elim (λ y. inr (inl ((no_entries dep.visibility).0 y)))
              (λ z. inr (inr (entries.0 z))))
            (tests.0 h),
      ⊎_elim (λ x. tests.1 (inl ((str_eq_iff d c).1 x)))
          (⊎_elim (λ y. tests.1 (inr (inl ((no_entries dep.visibility).1 y))))
            (λ z. tests.1 (inr (inr (entries.1 z))))),
    )

some-none : {p : Bytes} → ◌≡◌ {A = Option Bytes} (some p) none → ⊥
some-none h = ground (arith, h)

external_dep :
    (dep : Target) (consumer : Bytes)
    → label_package_path (label_of dep) path_max ≡ none
    → target_visible_to_label dep consumer ≡ false
unfolding target_visible_to_label
external_dep dep consumer e = rw (target_visible_to_label, e) refl

external_consumer :
    (dep : Target) (consumer d : Bytes)
    → label_package_path (label_of dep) path_max ≡ some d
    → label_package_path consumer path_max ≡ none
    → target_visible_to_label dep consumer ≡ false
unfolding target_visible_to_label
external_consumer dep consumer d e f = rw (target_visible_to_label, e, f) refl

both_local :
    (dep : Target) (consumer d c : Bytes)
    → label_package_path (label_of dep) path_max ≡ some d
    → label_package_path consumer path_max ≡ some c
    → target_visible_to_label dep consumer ≡ (
        str_eq d c
        || leb (length dep.visibility) 0
        || any (λ v. visibility_pattern_matches v consumer c) dep.visibility)
unfolding target_visible_to_label
both_local dep consumer d c e f = rw (target_visible_to_label, e, f) refl

never : (b : Bool) (P : Type 0) → b ≡ false → (P → ⊥) → (b ≡ true) ↔ P
never b P e n = (λ h. absurd (ground (arith, h, e)), λ p. absurd (n p))

local_packages :
    (dep : Target) (consumer d c : Bytes)
    → label_package_path (label_of dep) path_max ≡ some d
    → label_package_path consumer path_max ≡ some c
    → (target_visible_to_label dep consumer ≡ true) ↔ IsVisible dep consumer
local_packages dep consumer d c ed ec =
    let known = visible_between dep consumer d c (label_package_path-lt consumer path_max c ec) in
    let code = both_local dep consumer d c ed ec in
    (
      λ h. record {
        dep_package = d;
        consumer_package = c;
        dep_at = ed;
        consumer_at = ec;
        rule = known.0 (sym code ∙ h);
      },
      λ v.
          code
          ∙ known.1 (
              subst
                (λ x.
                  (x ≡ c)
                  ⊎ ((dep.visibility ≡ [])
                      ⊎ ((p : Bytes) × Memᴰ p dep.visibility × Covers p consumer c)))
                (some-eq_some (sym v.dep_at ∙ ed))
                (subst
                  (λ y.
                    (v.dep_package ≡ y)
                    ⊎ ((dep.visibility ≡ [])
                        ⊎ ((p : Bytes) × Memᴰ p dep.visibility × Covers p consumer y)))
                  (some-eq_some (sym v.consumer_at ∙ ec)) v.rule)),
    )

-- The dependency is visible to the consumer exactly if the rule of visibility says so.
pub target_visible_to_label-IsVisible :
    (dep : Target) (consumer : Bytes)
    → (target_visible_to_label dep consumer ≡ true) ↔ IsVisible dep consumer
target_visible_to_label-IsVisible dep consumer =
    elim (Option-cases (label_package_path (label_of dep) path_max)) [
      | inl e ↦ never _ _ (external_dep dep consumer e) (λ v. some-none (sym v.dep_at ∙ e))
      | inr (d, ed) ↦ elim (Option-cases (label_package_path consumer path_max)) [
        | inl e ↦
            never _ _ (external_consumer dep consumer d ed e)
              (λ v. some-none (sym v.consumer_at ∙ e))
        | inr (c, ec) ↦ local_packages dep consumer d c ed ec
      ]
    ]
