-- ===== src/Paths/Between.antt =====
-- Following the components of a path between two directories (src/graph.c).
use qstar.Prelude.{
  suc, ◌≡◌, ◌≢◌, refl, sym, ap, ◌∙◌, subst, false, Bool-cases, inl, inr, List, [], ◌∷◌, ◌++◌,
  append_assoc, append-nil, Bytes, codes, length, if◌then◌else◌, str_eq, str_eq_iff, All, arith,
}
use qstar.Paths.{behind_common, parent_steps}

-- The directory that a component leads to: `..` drops the last one.
abbrev pub drop_last : List Bytes → List Bytes
drop_last [] = []
drop_last (f ∷ []) = []
drop_last (f ∷ g ∷ fs) = f ∷ drop_last (g ∷ fs)

unfoldable pub follow : List Bytes → List Bytes → List Bytes
unfolding str_eq
follow dir [] = dir
follow dir (p ∷ ps) = follow (if str_eq p (codes "..") then drop_last dir else dir ++ p ∷ []) ps

pub follow-append : (ps qs dir : List Bytes) → follow dir (ps ++ qs) ≡ follow (follow dir ps) qs
unfolding follow
follow-append [] qs dir = refl
follow-append (p ∷ ps) qs dir =
    follow-append ps qs (if str_eq p (codes "..") then drop_last dir else dir ++ p ∷ [])

drop_last-append :
    (xs : List Bytes) (y : Bytes) (ys : List Bytes)
    → drop_last (xs ++ y ∷ ys) ≡ xs ++ drop_last (y ∷ ys)
drop_last-append [] y ys = refl
drop_last-append (x ∷ []) y ys = refl
drop_last-append (x ∷ w ∷ xs) y ys = ap (◌∷◌ x) (drop_last-append (w ∷ xs) y ys)

length-drop_last : (y : Bytes) (ys : List Bytes) → length (drop_last (y ∷ ys)) ≡ length ys
length-drop_last y [] = refl
length-drop_last y (z ∷ ys) = ap suc (length-drop_last z ys)

-- As many `..` as there are components behind `xs` lead to `xs`.
follow-parents :
    (us xs ys : List Bytes) → length ys ≡ length us → follow (xs ++ ys) (parent_steps us) ≡ xs
unfolding follow parent_steps
follow-parents [] xs [] h = append-nil xs
follow-parents [] xs (y ∷ ys) h = absurd (omega (arith, h))
follow-parents (u ∷ us) xs [] h = absurd (omega (arith, h))
follow-parents (u ∷ us) xs (y ∷ ys) h =
    ap (λ d. follow d (parent_steps us)) (drop_last-append xs y ys)
    ∙ follow-parents us xs (drop_last (y ∷ ys)) (length-drop_last y ys ∙ omega (arith, h))

not_parent : (p : Bytes) → p ≢ codes ".." → str_eq p (codes "..") ≡ false
not_parent p h = elim (Bool-cases (str_eq p (codes ".."))) [
  | inl e ↦ absurd (h ((str_eq_iff p (codes "..")).0 e))
  | inr e ↦ e
]

-- Components that are not `..` are appended.
pub follow-down : (xs ps : List Bytes) → All (λ p. p ≢ codes "..") ps → follow xs ps ≡ xs ++ ps
unfolding follow
follow-down xs [] h = sym (append-nil xs)
follow-down xs (p ∷ ps) (hp, hps) =
    ap (λ b. follow (if b then drop_last xs else xs ++ p ∷ []) ps) (not_parent p hp)
    ∙ follow-down (xs ++ p ∷ []) ps hps
    ∙ append_assoc xs (p ∷ []) ps

-- The two directories are a common part and what stands behind it.
pub behind_common-parts :
    (fs ts : List Bytes)
    → (common : List Bytes) × (fs ≡ common ++ (behind_common fs ts).0)
      × (ts ≡ common ++ (behind_common fs ts).1)
unfolding behind_common
behind_common-parts [] ts = ([], refl, refl)
behind_common-parts (f ∷ fs) [] = ([], refl, refl)
behind_common-parts (f ∷ fs) (t ∷ ts) = elim (Bool-cases (str_eq f t)) [
  | inl e ↦
      let (common, left, right) = behind_common-parts fs ts in
      rw e (
        f ∷ common,
        ap (◌∷◌ f) left,
        sym (ap (λ x. x ∷ ts) ((str_eq_iff f t).0 e)) ∙ ap (◌∷◌ f) right,
      )
  | inr e ↦ rw e ([], refl, refl)
]

pub All-suffix : (P : Bytes → Type 0) (xs ys : List Bytes) → All P (xs ++ ys) → All P ys
All-suffix P [] ys h = h
All-suffix P (x ∷ xs) ys (hx, h) = All-suffix P xs ys h

-- The components of the result lead from the one directory to the other.
pub follow-behind_common :
    (fs ts : List Bytes)
    → All (λ p. p ≢ codes "..") ts
    → follow fs (parent_steps (behind_common fs ts).0 ++ (behind_common fs ts).1) ≡ ts
follow-behind_common fs ts h =
    let (common, left, right) = behind_common-parts fs ts in
    let up = (behind_common fs ts).0 in
    let down = (behind_common fs ts).1 in
    follow-append (parent_steps up) down fs
    ∙ ap (λ d. follow d down)
        (ap (λ d. follow d (parent_steps up)) left ∙ follow-parents up common up refl)
    ∙ follow-down common down (All-suffix _ common down (subst (All (λ p. p ≢ codes "..")) right h))
    ∙ sym right
