-- ===== src/Paths/Leads.antt =====
-- Where the path that `qstar_path_relative_between_dirs` of src/graph.c prints leads.
use qstar.Prelude.{
  le→leb, lt→ltb, some-eq_some, ℕ, suc, ◌≤◌, ◌<◌, ◌≡◌, ◌≢◌, refl, sym, ap, ◌∙◌, subst, ◌||◌, false,
  Bool-cases, inl, inr, List, [], ◌∷◌, ◌++◌, Option, none, some, Bytes, codes, length,
  length-append, ltb, if◌then◌else◌, str_eq, str_eq_iff, All, arith,
}
use qstar.Label.{path_max}
use qstar.Paths.{
  split_from, split_path_components, append_components, behind_common, parent_steps,
  relative_between, path_relative_between_dirs,
}
use qstar.Paths.Text.{
  IsPart, text_of, append_components-text_of, split_from-text_of, split_from-IsPart,
}
use qstar.Paths.Between.{
  drop_last, follow, follow-append, follow-down, follow-behind_common, behind_common-parts,
  All-suffix,
}

-- A component that names a directory.
abbrev pub IsStep : Bytes → Type 0
IsStep p = (p ≢ codes "..") × (p ≢ codes ".")

text_apart : (p q : Bytes) → p ≢ q → str_eq p q ≡ false
text_apart p q h = elim (Bool-cases (str_eq p q)) [
  | inl e ↦ absurd (h ((str_eq_iff p q).0 e))
  | inr e ↦ e
]

-- The directory that the components of a path lead to: `.` stays, `..` goes up, a name goes down.
unfoldable pub walk : List Bytes → List Bytes → List Bytes
unfolding str_eq
walk dir [] = dir
walk dir (p ∷ ps) =
    if str_eq p (codes ".")
    then walk dir ps
    else if str_eq p (codes "..")
    then walk (drop_last dir) ps
    else walk (dir ++ p ∷ []) ps

walk-follow : (ps dir : List Bytes) → All (λ p. p ≢ codes ".") ps → walk dir ps ≡ follow dir ps
unfolding walk follow
walk-follow [] dir h = refl
walk-follow (p ∷ ps) dir (h, hs) =
    let apart : str_eq p (codes ".") ≡ false = text_apart p (codes ".") h in
    elim (Bool-cases (str_eq p (codes ".."))) [
      | inl e ↦ rw (walk, follow, apart, e) (walk-follow ps (drop_last dir) hs)
      | inr e ↦ rw (walk, follow, apart, e) (walk-follow ps (dir ++ p ∷ []) hs)
    ]

All-append : (P : Bytes → Type 0) (xs ys : List Bytes) → All P xs → All P ys → All P (xs ++ ys)
All-append P [] ys h k = k
All-append P (x ∷ xs) ys (hx, h) k = (hx, All-append P xs ys h k)

All-imp : (P Q : Bytes → Type 0) (xs : List Bytes) → ((p : Bytes) → P p → Q p) → All P xs → All Q xs
All-imp P Q [] f h = tt
All-imp P Q (x ∷ xs) f (hx, h) = (f x hx, All-imp P Q xs f h)

parent_steps-All : (P : Bytes → Type 0) (us : List Bytes) → P (codes "..") → All P (parent_steps us)
unfolding parent_steps
parent_steps-All P [] h = tt
parent_steps-All P (u ∷ us) h = (h, parent_steps-All P us h)

length-parent_steps : (us : List Bytes) → length (parent_steps us) ≡ length us
unfolding parent_steps
length-parent_steps [] = refl
length-parent_steps (u ∷ us) = ap suc (length-parent_steps us)

components-IsPart :
    (path : Bytes) (slots : ℕ) (ps : List Bytes)
    → split_path_components path slots ≡ some ps
    → All IsPart ps × (length ps ≤ slots)
unfolding split_path_components
components-IsPart path slots ps h = elim (Bool-cases (str_eq path [] || str_eq path (codes "."))) [
  | inl e ↦
      let same : [] ≡ ps = some-eq_some (ground (arith, e, h)) in
      subst (λ xs. All IsPart xs × (length xs ≤ slots)) same (tt, omega arith)
  | inr e ↦
      let (parts, few) = split_from-IsPart slots [] path ps tt (ground (arith, e, h)) in
      (parts, omega (arith, few))
]

-- The text of components other than `.` is split into them, also where it is printed as `.`.
abbrev shown : Bytes → Bytes
shown [] = codes "."
shown (c ∷ s) = c ∷ s

not_dot :
    (ps : List Bytes)
    → All IsPart ps
    → All (λ p. p ≢ codes ".") ps
    → length ps ≤ 256
    → text_of ps ≢ codes "."
unfolding split_from
not_dot ps parts steps few e =
    let split : split_from 256 [] (codes ".") ≡ some ps =
      subst (λ t. split_from 256 [] t ≡ some ps) e (split_from-text_of 256 ps few parts) in
    let same : codes "." ∷ [] ≡ ps = some-eq_some split in
    (subst (All (λ p. p ≢ codes ".")) (sym same) steps).0 refl

split-shown :
    (ps : List Bytes)
    → All IsPart ps
    → All (λ p. p ≢ codes ".") ps
    → length ps ≤ 256
    → split_path_components (shown (text_of ps)) 256 ≡ some ps
unfolding split_path_components text_of str_eq
split-shown [] parts steps few = refl
split-shown ([] ∷ ps) (hp, parts) steps few = absurd (omega (arith, hp))
split-shown ((q ∷ qs) ∷ ps) parts steps few =
    elim (Bool-cases (str_eq (text_of ((q ∷ qs) ∷ ps)) (codes "."))) [
      | inl e ↦ absurd (
          not_dot ((q ∷ qs) ∷ ps) parts steps few
            ((str_eq_iff (text_of ((q ∷ qs) ∷ ps)) (codes ".")).0 e))
      | inr e ↦ ground (arith, e, split_from-text_of 256 ((q ∷ qs) ∷ ps) few parts)
    ]

finish :
    (n : ℕ) (t : Bytes) (o : Option Bytes)
    → 2 ≤ n
    → o ≡ (if ltb (length t) n then some t else none)
    → (elim o [
      | none ↦ none
      | some [] ↦ if ltb n 2 then none else some (codes ".")
      | some (c ∷ s) ↦ some (c ∷ s)
    ])
      ≡ (if ltb (length (shown t)) n then some (shown t) else none)
finish n [] o h e = ground (arith, e)
finish n (c ∷ s) o h e = ground (arith, e)

relative_between-text :
    (fs ts : List Bytes) (n : ℕ)
    → 2 ≤ n
    → All IsPart (parent_steps (behind_common fs ts).0 ++ (behind_common fs ts).1)
    → relative_between fs ts n ≡ (
        let rel =
          shown (text_of (parent_steps (behind_common fs ts).0 ++ (behind_common fs ts).1)) in
        if ltb (length rel) n then some rel else none)
unfolding relative_between
relative_between-text fs ts n h parts =
    let steps = parent_steps (behind_common fs ts).0 ++ (behind_common fs ts).1 in
    finish n (text_of steps) (append_components n [] steps) h
      (append_components-text_of n steps (omega arith) parts)

between_parts :
    (from to : Bytes) (fs ts : List Bytes) (n : ℕ)
    → 2 ≤ n
    → length from < path_max
    → length to < path_max
    → split_path_components from 128 ≡ some fs
    → split_path_components to 128 ≡ some ts
    → path_relative_between_dirs (some from) (some to) n ≡ relative_between fs ts n
unfolding path_relative_between_dirs
between_parts from to fs ts n h hf ht ef et =
    rw
      (
        path_relative_between_dirs,
        le→leb 1 n (omega arith),
        lt→ltb (length from) path_max hf,
        lt→ltb (length to) path_max ht,
        ef,
        et,
      )
      refl

walk-back :
    (fs rs ts : List Bytes)
    → All IsStep fs
    → All (λ p. p ≢ codes ".") rs
    → follow fs rs ≡ ts
    → walk [] (fs ++ rs) ≡ ts
walk-back fs rs ts steps no_dot e =
    let first : follow [] fs ≡ fs = follow-down [] fs (All-imp IsStep _ fs (λ p s. s.0) steps) in
    walk-follow (fs ++ rs) [] (All-append _ fs rs (All-imp IsStep _ fs (λ p s. s.1) steps) no_dot)
    ∙ follow-append fs rs []
    ∙ ap (λ d. follow d rs) first
    ∙ e

-- For directories in the buffers' bounds, none of whose components is `.` or `..`: the function prints a
-- certain path exactly if the buffer has room for it; and from the root, the components of the first
-- directory and then those of that path lead to the second.
pub path_relative_between_dirs-walk :
    (from to : Bytes) (fs ts : List Bytes) (n : ℕ)
    → 2 ≤ n
    → length from < path_max
    → length to < path_max
    → split_path_components from 128 ≡ some fs
    → split_path_components to 128 ≡ some ts
    → All IsStep fs
    → All IsStep ts
    → (rel : Bytes) × (rs : List Bytes) × (path_relative_between_dirs (some from) (some to) n
        ≡ (if ltb (length rel) n then some rel else none))
      × (split_path_components rel 256 ≡ some rs)
      × (walk [] (fs ++ rs) ≡ ts)
path_relative_between_dirs-walk from to fs ts n h hf ht ef et from_steps steps =
    let (common, left, right) = behind_common-parts fs ts in
    let up = (behind_common fs ts).0 in
    let down = (behind_common fs ts).1 in
    let rs = parent_steps up ++ down in
    let (fparts, ffew) = components-IsPart from 128 fs ef in
    let (tparts, tfew) = components-IsPart to 128 ts et in
    let parts : All IsPart rs =
      All-append IsPart (parent_steps up) down
        (parent_steps-All IsPart up (omega arith, (omega arith, tt)))
        (All-suffix IsPart common down (subst (All IsPart) right tparts)) in
    let no_dot : All (λ p. p ≢ codes ".") rs =
      All-append _ (parent_steps up) down (parent_steps-All _ up two_dots) (
        All-suffix _ common down
          (subst (All (λ p. p ≢ codes ".")) right (All-imp IsStep _ ts (λ p s. s.1) steps))) in
    let few : length rs ≤ 256 = omega (
      arith,
      length-append (parent_steps up) down,
      length-parent_steps up,
      ffew,
      tfew,
      length-append common up,
      length-append common down,
      ap length left,
      ap length right,
    ) in
    (
      shown (text_of rs),
      rs,
      between_parts from to fs ts n h hf ht ef et ∙ relative_between-text fs ts n h parts,
      split-shown rs parts no_dot few,
      walk-back fs rs ts from_steps no_dot
          (follow-behind_common fs ts (All-imp IsStep _ ts (λ p s. s.0) steps)),
    )
  where
    two_dots : codes ".." ≢ codes "."
    two_dots e = ground (arith, e)
