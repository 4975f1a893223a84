-- ===== src/Label/Complete.antt =====
-- The functions of src/label.c on canonical labels.
use qstar.Prelude.{
  ℕ, ◌<◌, ◌≡◌, ◌≢◌, refl, sym, subst, true, false, [], ◌∷◌, ◌++◌, Option, none, some, Bytes,
  CString, codes, length, length-append, split_first, starts_with, All, arith,
}
use qstar.Label.{
  path_max, valid_span, canonicalize_external, canonicalize_root, label_canonicalize,
  label_package_alias, label_package_path,
}
use qstar.Label.Split.{split_last-last}
use qstar.Label.Split.{split_first-slashes}
use qstar.Label.Canonical.{
  IsPath, IsAlias, IsCanonical, canonicalize_rest-accepts, valid_span-All, valid_name_char-colon,
  valid_name_char-slash,
}

root_accepts :
    (path name : Bytes) (dir : CString) (n : ℕ)
    → IsPath path
    → valid_span false name ≡ true
    → length (b'/' ∷ b'/' ∷ (path ++ b':' ∷ name)) < n
    → label_canonicalize (b'/' ∷ b'/' ∷ (path ++ b':' ∷ name)) dir n
      ≡ some (b'/' ∷ b'/' ∷ (path ++ b':' ∷ name))
unfolding label_canonicalize canonicalize_root
root_accepts path name dir n p h fits =
    canonicalize_rest-accepts (b'/' ∷ b'/' ∷ (path ++ b':' ∷ name)) path name n p h fits

name_without_slash : (name : Bytes) → valid_span false name ≡ true → All (λ c. c ≢ b'/') name
name_without_slash name h = valid_span-All (λ c. c ≢ b'/') name valid_name_char-slash h

external_split :
    (pkg rest : Bytes)
    → valid_span false pkg ≡ true
    → split_first (codes "//") (b'@' ∷ (pkg ++ b'/' ∷ b'/' ∷ rest))
      ≡ some (b'@' ∷ pkg, b'/' ∷ b'/' ∷ rest)
external_split pkg rest h =
    split_first-slashes (b'@' ∷ pkg) rest (omega arith, name_without_slash pkg h)

external_accepts :
    (pkg path name : Bytes) (dir : CString) (n : ℕ)
    → (valid_span false pkg ≡ true) × (length pkg < path_max)
    → IsPath path
    → valid_span false name ≡ true
    → length (b'@' ∷ (pkg ++ b'/' ∷ b'/' ∷ (path ++ b':' ∷ name))) < n
    → label_canonicalize (b'@' ∷ (pkg ++ b'/' ∷ b'/' ∷ (path ++ b':' ∷ name))) dir n
      ≡ some (b'@' ∷ (pkg ++ b'/' ∷ b'/' ∷ (path ++ b':' ∷ name)))
unfolding label_canonicalize canonicalize_external
external_accepts pkg path name dir n (valid, short) p h fits = ground (
  arith,
  external_split pkg (path ++ b':' ∷ name) valid,
  valid,
  short,
  canonicalize_rest-accepts (b'@' ∷ (pkg ++ b'/' ∷ b'/' ∷ (path ++ b':' ∷ name))) path name n p h
      fits,
)

accepts :
    (alias path name : Bytes) (dir : CString) (n : ℕ)
    → IsAlias alias
    → IsPath path
    → valid_span false name ≡ true
    → length (alias ++ b'/' ∷ b'/' ∷ (path ++ b':' ∷ name)) < n
    → label_canonicalize (alias ++ b'/' ∷ b'/' ∷ (path ++ b':' ∷ name)) dir n
      ≡ some (alias ++ b'/' ∷ b'/' ∷ (path ++ b':' ∷ name))
accepts [] path name dir n a p h fits = root_accepts path name dir n p h fits
accepts (c ∷ pkg) path name dir n (at, valid, short) p h fits =
    subst
      (λ d.
        label_canonicalize (d ∷ (pkg ++ b'/' ∷ b'/' ∷ (path ++ b':' ∷ name))) dir n
        ≡ some (d ∷ (pkg ++ b'/' ∷ b'/' ∷ (path ++ b':' ∷ name))))
      (sym at) (external_accepts pkg path name dir n (valid, short) p h fits)

-- A canonical label that fits the buffer is its own canonical form, in every directory.
pub IsCanonical-label_canonicalize :
    (t : Bytes) (dir : CString) (n : ℕ)
    → IsCanonical t
    → length t < n
    → label_canonicalize t dir n ≡ some t
IsCanonical-label_canonicalize t dir n c fits =
    subst (λ u. label_canonicalize u dir n ≡ some u) (sym c.text)
      (accepts c.alias c.path c.name dir n c.alias_ok c.path_ok c.name_ok
        (subst (λ u. length u < n) c.text fits))

-- What the two functions answer for a label with this alias and path.
abbrev pub alias_answer : Bytes → Option Bytes
alias_answer [] = none
alias_answer (c ∷ pkg) = some (c ∷ pkg)

abbrev pub path_answer : Bytes → Bytes → Option Bytes
path_answer [] path = some path
path_answer (c ∷ pkg) path = none

local_answers :
    (path name : Bytes) (n : ℕ)
    → valid_span false name ≡ true
    → length (b'/' ∷ b'/' ∷ (path ++ b':' ∷ name)) < n
    → label_package_path (b'/' ∷ b'/' ∷ (path ++ b':' ∷ name)) n ≡ some path
unfolding label_package_path starts_with
local_answers path name n h fits = ground (
  arith,
  length-append path (b':' ∷ name),
  split_last-last b':' path name (valid_span-All (λ c. c ≢ b':') name valid_name_char-colon h),
)

external_alias :
    (pkg rest : Bytes) (n : ℕ)
    → valid_span false pkg ≡ true
    → length (b'@' ∷ (pkg ++ b'/' ∷ b'/' ∷ rest)) < n
    → label_package_alias (b'@' ∷ (pkg ++ b'/' ∷ b'/' ∷ rest)) n ≡ some (b'@' ∷ pkg)
unfolding label_package_alias
external_alias pkg rest n h fits =
    ground (arith, external_split pkg rest h, length-append pkg (b'/' ∷ b'/' ∷ rest))

external_path :
    (pkg rest : Bytes) (n : ℕ)
    → valid_span false pkg ≡ true
    → label_package_path (b'@' ∷ (pkg ++ b'/' ∷ b'/' ∷ rest)) n ≡ none
unfolding label_package_path starts_with valid_span
external_path [] rest n h = ground (arith, h)
external_path (p ∷ pkg) rest n h = refl

answers :
    (alias path name : Bytes) (n : ℕ)
    → IsAlias alias
    → valid_span false name ≡ true
    → length (alias ++ b'/' ∷ b'/' ∷ (path ++ b':' ∷ name)) < n
    → (label_package_alias (alias ++ b'/' ∷ b'/' ∷ (path ++ b':' ∷ name)) n ≡ alias_answer alias)
      × (label_package_path (alias ++ b'/' ∷ b'/' ∷ (path ++ b':' ∷ name)) n
          ≡ path_answer alias path)
unfolding label_package_alias
answers [] path name n a h fits = (refl, local_answers path name n h fits)
answers (c ∷ pkg) path name n (at, valid, short) h fits =
    let rest = path ++ b':' ∷ name in
    subst
      (λ d.
        (label_package_alias (d ∷ (pkg ++ b'/' ∷ b'/' ∷ rest)) n ≡ some (d ∷ pkg))
        × (label_package_path (d ∷ (pkg ++ b'/' ∷ b'/' ∷ rest)) n ≡ none))
      (sym at) (external_alias pkg rest n valid fits, external_path pkg rest n valid)

-- A canonical label is taken apart into the alias and the path it was put together from: a label
-- with an alias gives the alias and no local path, one without gives no alias and the path.
pub label_package-IsCanonical :
    (t : Bytes) (n : ℕ) (c : IsCanonical t)
    → length t < n
    → (label_package_alias t n ≡ alias_answer c.alias)
      × (label_package_path t n ≡ path_answer c.alias c.path)
label_package-IsCanonical t n c fits =
    subst
      (λ u.
        (label_package_alias u n ≡ alias_answer c.alias)
        × (label_package_path u n ≡ path_answer c.alias c.path))
      (sym c.text)
      (answers c.alias c.path c.name n c.alias_ok c.name_ok (subst (λ u. length u < n) c.text fits))
