-- ===== src/Paths/Refusals.antt =====
-- The test of a path in src/graph.c, without its searches.
use qstar.Prelude.{
  ℕ, ◌≡◌, ◌≢◌, ◌↔◌, refl, sym, ap, Bool, true, false, not, ◌&&◌, ◌||◌, inl, inr, Bool-cases, [],
  ◌∷◌, ◌++◌, some, Bytes, codes, arith, starts_with, contains, has_char, head_is, str_eq,
  str_eq_iff, All,
}
use qstar.Paths.{path_is_package_relative, has_drive}

-- `s` starts with `p`.
abbrev pub IsPrefix : Bytes → Bytes → Type 0
IsPrefix p s = (rest : Bytes) × (s ≡ p ++ rest)

-- `p` stands somewhere in `s`.
abbrev pub IsInfix : Bytes → Bytes → Type 0
IsInfix p s = (before : Bytes) × (rest : Bytes) × (s ≡ before ++ (p ++ rest))

pub starts_with-IsPrefix : (p s : Bytes) → (starts_with p s ≡ true) ↔ IsPrefix p s
unfolding starts_with
starts_with-IsPrefix [] s = (λ h. (s, refl), λ h. refl)
starts_with-IsPrefix (p ∷ ps) [] = (λ h. absurd (ground (arith, h)), λ (r, e). cc)
starts_with-IsPrefix (p ∷ ps) (c ∷ s) =
    let ih = starts_with-IsPrefix ps s in
    (
      λ h.
          let same : p ≡ c = ground (arith, h) in
          let (r, e) = ih.0 (ground (arith, h)) in (r, λ j. sym same j ∷ e j),
      λ (r, e). ground (arith, heads e, ih.1 (r, tails e)),
    )
  where
    heads : {a b : ℕ} {x y : Bytes} → a ∷ x ≡ b ∷ y → a ≡ b
    heads {a = a} e = ap (λ (l : Bytes). elim l [ [] ↦ a | z ∷ zs ↦ z ]) e

    tails : {a b : ℕ} {x y : Bytes} → a ∷ x ≡ b ∷ y → x ≡ y
    tails {x = x} e = ap (λ (l : Bytes). elim l [ [] ↦ x | z ∷ zs ↦ zs ]) e

or_cases : (a b : Bool) → a || b ≡ true → (a ≡ false) → b ≡ true
or_cases a b h k = ground (arith, h, k)

pub contains-IsInfix : (p s : Bytes) → (contains p s ≡ true) ↔ IsInfix p s
unfolding contains
contains-IsInfix p [] =
    let first = starts_with-IsPrefix p [] in (λ h. let (r, e) = first.0 h in ([], r, e), back)
  where
    back : IsInfix p [] → contains p [] ≡ true
    back ([], r, e) = (starts_with-IsPrefix p []).1 (r, e)
    back (b ∷ bs, r, e) = cc
contains-IsInfix p (c ∷ s) =
    let first = starts_with-IsPrefix p (c ∷ s) in
    let later = contains-IsInfix p s in
    (
      λ h. elim (Bool-cases (starts_with p (c ∷ s))) [
        | inl k ↦ let (r, e) = first.0 k in ([], r, e)
        | inr k ↦ let (b, r, e) = later.0 (or_cases _ _ h k) in (c ∷ b, r, ap (◌∷◌ c) e)
      ],
      back later,
    )
  where
    back : ((contains p s ≡ true) ↔ IsInfix p s) → IsInfix p (c ∷ s) → contains p (c ∷ s) ≡ true
    back ih ([], r, e) = ground (arith, (starts_with-IsPrefix p (c ∷ s)).1 (r, e))
    back ih (b ∷ bs, r, e) =
        let rest : s ≡ bs ++ (p ++ r) = ap (λ (l : Bytes). elim l [ [] ↦ s | z ∷ zs ↦ zs ]) e in
        ground (arith, ih.1 (bs, r, rest))

pub has_char-All : (c : ℕ) (s : Bytes) → (has_char c s ≡ false) ↔ All (λ d. d ≢ c) s
unfolding has_char
has_char-All c [] = (λ h. tt, λ h. refl)
has_char-All c (d ∷ s) =
    let ih = has_char-All c s in
    (
      λ h. ((λ e. ground (arith, e, h)), ih.0 (ground (arith, h))),
      λ (n, ns). ground (arith, n, ih.1 ns),
    )

-- What a path in a package may be.
pub record IsPackageRelative (path : Bytes) : Type 0 where
  pub not_empty : path ≢ []
  pub not_absolute : (rest : Bytes) → path ≢ b'/' ∷ rest
  pub no_backslash : All (λ d. d ≢ b'\\') path
  pub no_colon : All (λ d. d ≢ b':') path
  pub not_dot : path ≢ codes "."
  pub not_dots : path ≢ codes ".."
  pub not_up : IsPrefix (codes "../") path → ⊥
  pub no_parent : IsInfix (codes "/../") path → ⊥
  pub no_current : IsInfix (codes "/./") path → ⊥
  pub no_empty : IsInfix (codes "//") path → ⊥

-- A drive letter stands before a colon.
has_drive-has_char : (p : Bytes) → has_drive p ≡ true → has_char b':' p ≡ true
unfolding has_drive has_char
has_drive-has_char [] h = h
has_drive-has_char (c ∷ []) h = absurd (ground (arith, h))
has_drive-has_char (c ∷ d ∷ s) h = ground (arith, h)

head_is-cons : (c : ℕ) (p : Bytes) → (head_is c p ≡ true) ↔ ((rest : Bytes) × (p ≡ c ∷ rest))
unfolding head_is
head_is-cons c [] = (λ h. absurd (ground (arith, h)), λ (r, e). cc)
head_is-cons c (d ∷ s) = (
  λ h. let same : d ≡ c = ground (arith, h) in (s, ap (λ x. x ∷ s) same),
  λ (r, e).
      let same : d ≡ c = ap (λ (l : Bytes). elim l [ [] ↦ d | z ∷ zs ↦ z ]) e in
      ground (arith, same),
)

-- None of the tests of the code finds anything.
abbrev Passes : Bytes → Type 0
Passes p =
    (str_eq p [] ≡ false)
    × (head_is b'/' p ≡ false)
    × (has_drive p ≡ false)
    × (has_char b'\\' p ≡ false)
    × (has_char b':' p ≡ false)
    × (str_eq p (codes ".") ≡ false)
    × (str_eq p (codes "..") ≡ false)
    × (starts_with (codes "../") p ≡ false)
    × (contains (codes "/../") p ≡ false)
    × (contains (codes "/./") p ≡ false)
    × (contains (codes "//") p ≡ false)

tests :
    (a b c d e f g h i j k : Bool)
    → ((not (a || b) && not c && not (d || e) && not (f || g) && not (h || i || j || k)) ≡ true) ↔ (
        (a ≡ false)
        × (b ≡ false)
        × (c ≡ false)
        × (d ≡ false)
        × (e ≡ false)
        × (f ≡ false)
        × (g ≡ false)
        × (h ≡ false)
        × (i ≡ false)
        × (j ≡ false)
        × (k ≡ false))
tests a b c d e f g h i j k = ground arith

refuted : {A : Type 0} (b : Bool) → (b ≡ true) ↔ A → (b ≡ false) ↔ (A → ⊥)
refuted true r = (λ h. absurd (ground (arith, h)), λ n. absurd (n (r.0 refl)))
refuted false r = (λ h x. ground (arith, r.1 x), λ n. refl)

text_refuted : (p q : Bytes) → (str_eq p q ≡ false) ↔ (p ≢ q)
text_refuted p q = refuted (str_eq p q) (str_eq_iff p q)

Passes-IsPackageRelative : (p : Bytes) → Passes p → IsPackageRelative p
Passes-IsPackageRelative p (a, b, c, d, e, f, g, h, i, j, k) = record {
  not_empty = (text_refuted p []).0 a;
  not_absolute = λ r q. (refuted (head_is b'/' p) (head_is-cons b'/' p)).0 b (r, q);
  no_backslash = (has_char-All b'\\' p).0 d;
  no_colon = (has_char-All b':' p).0 e;
  not_dot = (text_refuted p (codes ".")).0 f;
  not_dots = (text_refuted p (codes "..")).0 g;
  not_up = (refuted (starts_with (codes "../") p) (starts_with-IsPrefix (codes "../") p)).0 h;
  no_parent = (refuted (contains (codes "/../") p) (contains-IsInfix (codes "/../") p)).0 i;
  no_current = (refuted (contains (codes "/./") p) (contains-IsInfix (codes "/./") p)).0 j;
  no_empty = (refuted (contains (codes "//") p) (contains-IsInfix (codes "//") p)).0 k;
}

no_drive : (p : Bytes) → has_char b':' p ≡ false → has_drive p ≡ false
no_drive p e = elim (Bool-cases (has_drive p)) [
  | inl h ↦ absurd (ground (arith, e, has_drive-has_char p h))
  | inr h ↦ h
]

IsPackageRelative-Passes : (p : Bytes) → IsPackageRelative p → Passes p
IsPackageRelative-Passes p r = (
  (text_refuted p []).1 r.not_empty,
  (refuted (head_is b'/' p) (head_is-cons b'/' p)).1 (λ (s, q). r.not_absolute s q),
  no_drive p ((has_char-All b':' p).1 r.no_colon),
  (has_char-All b'\\' p).1 r.no_backslash,
  (has_char-All b':' p).1 r.no_colon,
  (text_refuted p (codes ".")).1 r.not_dot,
  (text_refuted p (codes "..")).1 r.not_dots,
  (refuted (starts_with (codes "../") p) (starts_with-IsPrefix (codes "../") p)).1 r.not_up,
  (refuted (contains (codes "/../") p) (contains-IsInfix (codes "/../") p)).1 r.no_parent,
  (refuted (contains (codes "/./") p) (contains-IsInfix (codes "/./") p)).1 r.no_current,
  (refuted (contains (codes "//") p) (contains-IsInfix (codes "//") p)).1 r.no_empty,
)

pub path_is_package_relative-IsPackageRelative :
    (path : Bytes) → (path_is_package_relative (some path) ≡ true) ↔ IsPackageRelative path
unfolding path_is_package_relative
path_is_package_relative-IsPackageRelative p =
    let test =
      tests (str_eq p []) (head_is b'/' p) (has_drive p) (has_char b'\\' p) (has_char b':' p)
        (str_eq p (codes ".")) (str_eq p (codes "..")) (starts_with (codes "../") p)
        (contains (codes "/../") p) (contains (codes "/./") p) (contains (codes "//") p) in
    (λ h. Passes-IsPackageRelative p (test.0 h), λ r. test.1 (IsPackageRelative-Passes p r))
