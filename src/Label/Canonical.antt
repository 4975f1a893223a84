-- ===== src/Label/Canonical.antt =====
-- The labels that `qstar_label_canonicalize` gives, described without it.
use qstar.Prelude.{
  ℕ, ◌<◌, ◌≡◌, ◌≢◌, ◌⊎◌, sym, inl, inr, Bool, true, false, Option-cases, [], ◌∷◌, ◌++◌, none, some,
  Bytes, CString, length, split_last, All, arith,
}
use qstar.Label.{path_max, valid_name_char, all_chars, valid_span, print_to, canonicalize_rest}
use qstar.Label.Split.{split_last-text, split_last-last}

-- A package path: none, or a path that fits the buffer.
abbrev pub IsPath : Bytes → Type 0
IsPath p = (p ≡ []) ⊎ ((valid_span true p ≡ true) × (length p < path_max))

-- The part in front of `//`: nothing, or `@` and a package name that fits the buffer.
abbrev pub IsAlias : Bytes → Type 0
IsAlias [] = Unit {0}
IsAlias (c ∷ pkg) = (c ≡ b'@') × (valid_span false pkg ≡ true) × (length pkg < path_max)

pub record IsCanonical (label : Bytes) : Type 0 where
  pub alias : Bytes
  pub path : Bytes
  pub name : Bytes
  pub text : label ≡ alias ++ b'/' ∷ b'/' ∷ (path ++ b':' ∷ name)
  pub alias_ok : IsAlias alias
  pub path_ok : IsPath path
  pub name_ok : valid_span false name ≡ true

pub valid_name_char-colon : (c : ℕ) → valid_name_char c ≡ true → c ≢ b':'
unfolding valid_name_char
valid_name_char-colon c h = ground arith

pub valid_name_char-slash : (c : ℕ) → valid_name_char c ≡ true → c ≢ b'/'
unfolding valid_name_char
valid_name_char-slash c h = ground arith

all_chars-All :
    (p : ℕ → Bool) (P : ℕ → Type 0) (s : Bytes)
    → ((c : ℕ) → p c ≡ true → P c)
    → all_chars p s ≡ true
    → All P s
unfolding all_chars
all_chars-All p P [] f h = tt
all_chars-All p P (c ∷ s) f h = (f c (ground (arith, h)), all_chars-All p P s f (ground (arith, h)))

pub valid_span-All :
    (P : ℕ → Type 0) (s : Bytes)
    → ((c : ℕ) → valid_name_char c ≡ true → P c)
    → valid_span false s ≡ true
    → All P s
unfolding valid_span
valid_span-All P [] f h = tt
valid_span-All P (c ∷ s) f h = all_chars-All valid_name_char P (c ∷ s) f h

pub print_to-fits : (n : ℕ) (s : Bytes) → length s < n → print_to n s ≡ some s
unfolding print_to
print_to-fits n s h = ground arith

pub print_to-some : (n : ℕ) (s t : Bytes) → print_to n s ≡ some t → (t ≡ s) × (length s < n)
unfolding print_to
print_to-some n s t h = ground arith

checked_parts :
    (label rest path name t : Bytes) (n : ℕ)
    → split_last b':' rest ≡ some (path, name)
    → canonicalize_rest label rest n ≡ some t
    → IsPath path × (valid_span false name ≡ true) × (t ≡ label) × (length label < n)
unfolding canonicalize_rest
checked_parts label rest [] name t n e h = ground (arith, e, print_to-some n label t)
checked_parts label rest (c ∷ p) name t n e h = ground (arith, e, print_to-some n label t)

-- What the code behind the package name accepts.
pub canonicalize_rest-parts :
    (label rest t : Bytes) (n : ℕ)
    → canonicalize_rest label rest n ≡ some t
    → (path : Bytes) × (name : Bytes) × (rest ≡ path ++ b':' ∷ name)
      × IsPath path
      × (valid_span false name ≡ true)
      × (t ≡ label)
      × (length label < n)
unfolding canonicalize_rest
canonicalize_rest-parts label rest t n h = elim (Option-cases (split_last b':' rest)) [
  | inl e ↦ ground (arith, e)
  | inr ((path, name), e) ↦
      (let (path_ok, name_ok, same, fits) = checked_parts label rest path name t n e h in
        (path, name, sym (split_last-text b':' rest path name e), path_ok, name_ok, same, fits))
]

pub canonicalize_rest-accepts :
    (label path name : Bytes) (n : ℕ)
    → IsPath path
    → valid_span false name ≡ true
    → length label < n
    → canonicalize_rest label (path ++ b':' ∷ name) n ≡ some label
unfolding canonicalize_rest
canonicalize_rest-accepts label [] name n p h fits = ground (
  arith,
  h,
  print_to-fits n label fits,
  split_last-last b':' [] name (valid_span-All _ name valid_name_char-colon h),
)
canonicalize_rest-accepts label (c ∷ path) name n p h fits = ground (
  arith,
  p,
  h,
  print_to-fits n label fits,
  split_last-last b':' (c ∷ path) name (valid_span-All _ name valid_name_char-colon h),
)

-- A fragment directory as the evaluator keeps it: unset, empty, or a path.
abbrev pub IsDir : CString → Type 0
IsDir none = Unit {0}
IsDir (some dir) = IsPath dir
