-- ===== src/Label/Sound.antt =====
-- The results of `qstar_label_canonicalize` of src/label.c.
use qstar.Prelude.{
  ℕ, ◌<◌, ◌≡◌, refl, sym, ap, ◌∙◌, subst, inl, inr, true, false, Bool-cases, Option-cases, [], ◌∷◌,
  ◌++◌, none, some, Bytes, CString, codes, length, ◌==◌, ◌&&◌, if◌then◌else◌, split_first,
  starts_with, arith,
}
use qstar.Label.{
  path_max, valid_span, print_to, canonicalize_local, canonicalize_rest, canonicalize_external,
  canonicalize_root, label_canonicalize,
}
use qstar.Label.Split.{split_first-text}
use qstar.Label.Canonical.{IsPath, IsCanonical, IsDir, canonicalize_rest-parts, print_to-some}

local_parts :
    (s text t : Bytes) (n : ℕ)
    → (if valid_span false s then print_to n text else none) ≡ some t
    → (valid_span false s ≡ true) × (t ≡ text) × (length t < n)
local_parts s text t n h = ground (arith, print_to-some n text t)

in_package :
    (path name t : Bytes) (n : ℕ)
    → IsPath path
    → (valid_span false name ≡ true) × (t ≡ b'/' ∷ b'/' ∷ (path ++ b':' ∷ name)) × (length t < n)
    → IsCanonical t × (length t < n)
in_package path name t n p (ok, text, fits) = (
  record {
    alias = [];
    path = path;
    name = name;
    text = text;
    alias_ok = tt;
    path_ok = p;
    name_ok = ok;
  },
  fits,
)

local-IsCanonical :
    (s t : Bytes) (dir : CString) (n : ℕ)
    → IsDir dir
    → canonicalize_local s dir n ≡ some t
    → IsCanonical t × (length t < n)
unfolding canonicalize_local
local-IsCanonical s t none n d h = in_package [] s t n (inl refl) (local_parts s _ t n h)
local-IsCanonical s t (some []) n d h = in_package [] s t n (inl refl) (local_parts s _ t n h)
local-IsCanonical s t (some (c ∷ dir)) n d h = in_package (c ∷ dir) s t n d (local_parts s _ t n h)

external_parts :
    (c a x y n : ℕ) (s pkg rest t : Bytes)
    → split_first (codes "//") (c ∷ s) ≡ some (a ∷ pkg, x ∷ y ∷ rest)
    → canonicalize_external (c ∷ s) n ≡ some t
    → (length pkg < path_max)
      × (valid_span false pkg ≡ true)
      × (canonicalize_rest (c ∷ s) rest n ≡ some t)
unfolding canonicalize_external
external_parts c a x y n s pkg rest t e h = ground (arith, e, h)

slashes :
    (x y : ℕ) (rest : Bytes)
    → starts_with (codes "//") (x ∷ y ∷ rest) ≡ true
    → (x ≡ b'/') × (y ≡ b'/')
unfolding starts_with
slashes x y rest h = ground (arith, h)

cons_slashes :
    (x y : ℕ) (rest r : Bytes) → x ≡ b'/' → y ≡ b'/' → rest ≡ r → x ∷ y ∷ rest ≡ b'/' ∷ b'/' ∷ r
cons_slashes x y rest r hx hy hr = cc

head_eq : (a c : ℕ) (xs ys : Bytes) → a ∷ xs ≡ c ∷ ys → a ≡ c
head_eq a c xs ys h = cc

-- The package name, the slashes and what the rest of the code found behind them.
external_found :
    (c a x y n : ℕ) (s pkg rest t : Bytes)
    → c ≡ b'@'
    → split_first (codes "//") (c ∷ s) ≡ some (a ∷ pkg, x ∷ y ∷ rest)
    → canonicalize_external (c ∷ s) n ≡ some t
    → IsCanonical t × (length t < n)
external_found c a x y n s pkg rest t at e h =
    let (short, valid, inner) = external_parts c a x y n s pkg rest t e h in
    let (path, name, parts, path_ok, name_ok, same, fits) =
      canonicalize_rest-parts (c ∷ s) rest t n inner in
    let (whole, starts) = split_first-text (codes "//") (c ∷ s) (a ∷ pkg) (x ∷ y ∷ rest) e in
    let (x_slash, y_slash) = slashes x y rest starts in
    (
      record {
        alias = a ∷ pkg;
        path = path;
        name = name;
        text =
            same
            ∙ sym whole
            ∙ ap (λ r. (a ∷ pkg) ++ r) (cons_slashes x y rest _ x_slash y_slash parts);
        alias_ok = (head_eq a c _ s whole ∙ at, valid, short);
        path_ok = path_ok;
        name_ok = name_ok;
      },
      subst (λ u. length u < n) (sym same) fits,
    )

external-IsCanonical :
    (c : ℕ) (s t : Bytes) (n : ℕ)
    → c ≡ b'@'
    → canonicalize_external (c ∷ s) n ≡ some t
    → IsCanonical t × (length t < n)
unfolding canonicalize_external
external-IsCanonical c s t n at h = elim (Option-cases (split_first (codes "//") (c ∷ s))) [
  | inl e ↦ ground (arith, e, h)
  | inr (([], rest), e) ↦ ground (arith, e, h)
  | inr ((a ∷ pkg, []), e) ↦ ground (arith, e, h)
  | inr ((a ∷ pkg, x ∷ []), e) ↦ ground (arith, e, h)
  | inr ((a ∷ pkg, x ∷ y ∷ rest), e) ↦ external_found c a x y n s pkg rest t at e h
]

root-IsCanonical :
    (s t : Bytes) (n : ℕ) → canonicalize_root s n ≡ some t → IsCanonical t × (length t < n)
unfolding canonicalize_root
root-IsCanonical [] t n h = ground (arith, h)
root-IsCanonical (c ∷ []) t n h = ground (arith, h)
root-IsCanonical (c ∷ d ∷ rest) t n h = elim (Bool-cases ((c == b'/') && (d == b'/'))) [
  | inl e ↦
      let (path, name, parts, path_ok, name_ok, same, fits) =
        canonicalize_rest-parts (c ∷ d ∷ rest) rest t n (ground (arith, e, h)) in
      in_package path name t n path_ok (
        name_ok,
        same ∙ cons_slashes c d rest _ (ground (arith, e)) (ground (arith, e)) parts,
        subst (λ u. length u < n) (sym same) fits,
      )
  | inr e ↦ ground (arith, e, h)
]

-- With a fragment directory that is unset, empty or made of the characters of a label path, which the
-- code does not test, `label_canonicalize` gives canonical labels only, shorter than the buffer.
pub label_canonicalize-IsCanonical :
    (s t : Bytes) (dir : CString) (n : ℕ)
    → IsDir dir
    → label_canonicalize s dir n ≡ some t
    → IsCanonical t × (length t < n)
unfolding label_canonicalize
label_canonicalize-IsCanonical [] t dir n d h = ground (arith, h)
label_canonicalize-IsCanonical (c ∷ s) t dir n d h = elim (Bool-cases (c == b':')) [
  | inl e ↦ local-IsCanonical s t dir n d (ground (arith, e, h))
  | inr e ↦ elim (Bool-cases (c == b'@')) [
    | inl f ↦ external-IsCanonical c s t n (ground (arith, f)) (ground (arith, e, f, h))
    | inr f ↦ root-IsCanonical (c ∷ s) t n (ground (arith, e, f, h))
  ]
]
