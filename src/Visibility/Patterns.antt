-- ===== src/Visibility/Patterns.antt =====
-- What the visibility patterns of src/source.c stand for.
use mathlib.Core.List.{Memᴰ}
use mathlib.Core.List.Memᴰ
use mathlib.Core.Logic.{⊎_elim}
use qstar.Prelude.{
  ℕ, zero, suc, ◌+◌, ◌-◌, ◌<◌, ◌≡◌, ◌↔◌, ◌⊎◌, refl, sym, ap, ◌∙◌, subst, inl, inr, Bool, true,
  false, ◌||◌, ◌&&◌, le→leb, Bool-cases, Option-cases, List, [], ◌∷◌, ◌++◌, some, Bytes, codes,
  length, length-append, leb, if◌then◌else◌, take, drop, take-append, drop-append, any, str_eq,
  str_eq_iff, starts_with, split_last, arith,
}
use qstar.Label.{path_max, label_package_path}
use qstar.Visibility.{package_pattern_matches, visibility_pattern_matches}

-- The pattern names everything, the label, or the label's package.
abbrev pub Covers : Bytes → Bytes → Bytes → Type 0
Covers pattern label package_path =
    (pattern ≡ codes "//...")
    ⊎ ((pattern ≡ label) ⊎ (pattern ≡ b'/' ∷ b'/' ∷ (package_path ++ codes ":...")))

take-drop : (k : ℕ) (s : Bytes) → take k s ++ drop k s ≡ s
take-drop zero s = refl
take-drop (suc k) [] = refl
take-drop (suc k) (c ∷ s) = ap (◌∷◌ c) (take-drop k s)

gate_true :
    (x y l z : Bool)
    → ((if x && y then (if l then false else z) else false) ≡ true)
      ↔ ((x ≡ true) × (y ≡ true) × (l ≡ false) × (z ≡ true))
gate_true x y l z = ground arith

-- A pattern of four bytes or more behind the slashes.
long_forward :
    (a b c d : ℕ) (s p : Bytes)
    → package_pattern_matches (b'/' ∷ b'/' ∷ a ∷ b ∷ c ∷ d ∷ s) p ≡ true
    → a ∷ b ∷ c ∷ d ∷ s ≡ p ++ codes ":..."
unfolding package_pattern_matches
long_forward a b c d s p h =
    let rest = a ∷ b ∷ c ∷ d ∷ s in
    let pattern = b'/' ∷ b'/' ∷ rest in
    let n = length pattern in
    let (x, dots, l, path) =
      (gate_true (leb 4 n) (str_eq (drop (n - 4) pattern) (codes ":...")) (leb path_max (n - 4 - 2))
          (str_eq (take (n - 4 - 2) (drop 2 pattern)) p)).0
        h in
    let from : n - 4 ≡ suc (suc (length s)) = omega arith in
    let between : n - 4 - 2 ≡ length s = omega arith in
    let behind : drop (length s) rest ≡ codes ":..." =
      ap (λ i. drop i pattern) (sym from) ∙ (str_eq_iff _ _).0 dots in
    let before : take (length s) rest ≡ p =
      ap (λ i. take i rest) (sym between) ∙ (str_eq_iff _ _).0 path in
    sym (take-drop (length s) rest)
    ∙ ap (λ t. t ++ drop (length s) rest) before
    ∙ ap (λ t. p ++ t) behind

backward :
    (p : Bytes)
    → length p < path_max
    → package_pattern_matches (b'/' ∷ b'/' ∷ (p ++ codes ":...")) p ≡ true
unfolding package_pattern_matches
backward p small =
    let dots = codes ":..." in
    let pattern = b'/' ∷ b'/' ∷ (p ++ dots) in
    let size : length pattern ≡ length p + 6 = omega (arith, length-append p dots) in
    let behind : length pattern - 4 ≡ suc (suc (length p)) = omega (arith, size) in
    let between : length pattern - 4 - 2 ≡ length p = omega (arith, size) in
    (gate_true _ _ _ _).1 (
      le→leb 4 (length pattern) (omega (arith, size)),
      (str_eq_iff _ _).1 (ap (λ i. drop i pattern) behind ∙ drop-append p dots),
      ap (leb path_max) between ∙ too_small (length p) small,
      (str_eq_iff _ _).1 (ap (λ i. take i (p ++ dots)) between ∙ take-append p dots),
    )
  where
    too_small : (n : ℕ) → n < path_max → leb path_max n ≡ false
    too_small n h = ground arith

-- The part of the pattern behind the slashes.
tail_parts :
    (rest p : Bytes)
    → length p < path_max
    → (package_pattern_matches (b'/' ∷ b'/' ∷ rest) p ≡ true) ↔ (rest ≡ p ++ codes ":...")
unfolding package_pattern_matches str_eq
tail_parts rest p small = (
  forward rest,
  λ e. subst (λ r. package_pattern_matches (b'/' ∷ b'/' ∷ r) p ≡ true) (sym e) (backward p small),
)
  where
    forward :
        (rest : Bytes)
        → package_pattern_matches (b'/' ∷ b'/' ∷ rest) p ≡ true
        → rest ≡ p ++ codes ":..."
    forward [] h = ground (arith, h)
    forward (a ∷ []) h = ground (arith, h)
    forward (a ∷ b ∷ []) h = ground (arith, h)
    forward (a ∷ b ∷ c ∷ []) h = ground (arith, h)
    forward (a ∷ b ∷ c ∷ d ∷ s) h = long_forward a b c d s p h

slash_pattern :
    (v p : Bytes)
    → length p < path_max
    → ((starts_with (codes "//") v ≡ true) × (package_pattern_matches v p ≡ true))
      ↔ (v ≡ b'/' ∷ b'/' ∷ (p ++ codes ":..."))
unfolding starts_with
slash_pattern v p small = (forward v, back)
  where
    forward :
        (v : Bytes)
        → (starts_with (codes "//") v ≡ true) × (package_pattern_matches v p ≡ true)
        → v ≡ b'/' ∷ b'/' ∷ (p ++ codes ":...")
    forward [] (hs, hm) = ground (arith, hs)
    forward (c ∷ []) (hs, hm) = ground (arith, hs)
    forward (c ∷ d ∷ rest) (hs, hm) =
        let first : c ≡ b'/' = ground (arith, hs) in
        let second : d ≡ b'/' = ground (arith, hs) in
        let same : c ∷ d ∷ rest ≡ b'/' ∷ b'/' ∷ rest = cc in
        same
        ∙ ap (λ r. b'/' ∷ b'/' ∷ r)
            ((tail_parts rest p small).0 (subst (λ w. package_pattern_matches w p ≡ true) same hm))

    back :
        v ≡ b'/' ∷ b'/' ∷ (p ++ codes ":...")
        → (starts_with (codes "//") v ≡ true) × (package_pattern_matches v p ≡ true)
    back e =
        subst (λ w. (starts_with (codes "//") w ≡ true) × (package_pattern_matches w p ≡ true))
          (sym e) (refl, backward p small)

first_true :
    (a b c d : Bool)
    → ((if a then true else if b then true else if c then d else false) ≡ true)
      ↔ ((a ≡ true) ⊎ ((b ≡ true) ⊎ ((c ≡ true) × (d ≡ true))))
first_true a b c d = ground arith

pub pattern-Covers :
    (v label p : Bytes)
    → length p < path_max
    → (visibility_pattern_matches v label p ≡ true) ↔ Covers v label p
unfolding visibility_pattern_matches
pattern-Covers v label p small =
    let tests =
      first_true (str_eq v (codes "//...")) (str_eq v label) (starts_with (codes "//") v)
        (package_pattern_matches v p) in
    let slashes = slash_pattern v p small in
    (
      λ h.
          ⊎_elim (λ a. inl ((str_eq_iff v (codes "//...")).0 a))
            (⊎_elim (λ b. inr (inl ((str_eq_iff v label).0 b))) (λ c. inr (inr (slashes.0 c))))
            (tests.0 h),
      ⊎_elim (λ a. tests.1 (inl ((str_eq_iff v (codes "//...")).1 a)))
          (⊎_elim (λ b. tests.1 (inr (inl ((str_eq_iff v label).1 b))))
            (λ c. tests.1 (inr (inr (slashes.1 c))))),
    )

any_cons :
    (f : Bytes → Bool) (P : Bytes → Type 0) (x : Bytes) (xs : List Bytes)
    → ((v : Bytes) → (f v ≡ true) ↔ P v)
    → (any f xs ≡ true) ↔ ((v : Bytes) × Memᴰ v xs × P v)
    → (any f (x ∷ xs) ≡ true) ↔ ((v : Bytes) × Memᴰ v (x ∷ xs) × P v)
unfolding any
any_cons f P x xs h ih = (forward, back)
  where
    forward : (f x || any f xs) ≡ true → (v : Bytes) × Memᴰ v (x ∷ xs) × P v
    forward e = elim (Bool-cases (f x)) [
      | inl t ↦ (x, Memᴰ.head refl, (h x).0 t)
      | inr n ↦ let (v, m, p) = ih.0 (ground (arith, n, e)) in (v, Memᴰ.tail m, p)
    ]

    either : (a b : Bool) → (a ≡ true) ⊎ (b ≡ true) → (a || b) ≡ true
    either a b e = ground (arith, e)

    back : (v : Bytes) × Memᴰ v (x ∷ xs) × P v → (f x || any f xs) ≡ true
    back (v, m, p) =
        either (f x) (any f xs) (
          ⊎_elim (λ e. inl ((h x).1 (subst P e p))) (λ n. inr (ih.1 (v, n, p))) (Memᴰ.cases_cons m))

pub any-Memᴰ :
    (f : Bytes → Bool) (P : Bytes → Type 0) (xs : List Bytes)
    → ((v : Bytes) → (f v ≡ true) ↔ P v)
    → (any f xs ≡ true) ↔ ((v : Bytes) × Memᴰ v xs × P v)
unfolding any
any-Memᴰ f P [] h = (λ e. absurd (ground (arith, e)), λ (v, m, p). absurd (Memᴰ.not-nil m))
any-Memᴰ f P (x ∷ xs) h = any_cons f P x xs h (any-Memᴰ f P xs h)

pub label_package_path-lt :
    (label : Bytes) (n : ℕ) (p : Bytes) → label_package_path label n ≡ some p → length p < n
unfolding label_package_path
label_package_path-lt [] n p h = ground (arith, h)
label_package_path-lt (a ∷ []) n p h = ground (arith, h)
label_package_path-lt (a ∷ b ∷ start) n p h = elim (Option-cases (split_last b':' start)) [
  | inl e ↦ ground (arith, e, h)
  | inr ((path, name), e) ↦ ground (arith, e, h)
]
