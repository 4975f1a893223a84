-- ===== src/Prelude/Text.antt =====
-- C strings as the list of their bytes before the terminating NUL, and the functions of string.h.
use Prim.Native.Nat.{ℕ, ◌<◌, compare, Ordering}
use Prim.Native.Char.{code}
use Prim.Native.String.{String}
use mathlib.Core.Path.{◌≡◌, refl}
use mathlib.Core.Logic.{◌↔◌}
use mathlib.Core.Bool.{Bool, true, false, ◌||◌, ◌&&◌}
use mathlib.Core.List.{List, [], ◌∷◌}
use mathlib.Core.Option.{Option, none, some}
use native.Mathlib.Omega.{arith}
use package.qstar.Prelude.Tests.{◌==◌, if◌then◌else◌, ==_iff}
use package.qstar.Prelude.Lists.{All}

abbrev pub Bytes : Type 0
Bytes = List ℕ

-- A `char *` that may be NULL.
abbrev pub CString : Type 0
CString = Option Bytes

abbrev pub codes : String → Bytes
codes String.[] = []
codes (String.◌∷◌ c s) = code c ∷ codes s

-- The bytes that a C string can hold.
abbrev pub IsText : Bytes → Type 0
IsText = All (λ c. (0 < c) × (c < 256))

-- `s ? s : ""`
abbrev pub string_or_empty : CString → Bytes
string_or_empty none = []
string_or_empty (some s) = s

-- `s && *s`
abbrev pub present : CString → Bool
present none = false
present (some []) = false
present (some (_ ∷ _)) = true

-- `strcmp(a, b) == 0`
unfoldable pub str_eq : Bytes → Bytes → Bool
str_eq [] [] = true
str_eq [] (_ ∷ _) = false
str_eq (_ ∷ _) [] = false
str_eq (a ∷ as') (b ∷ bs) = (a == b) && str_eq as' bs

pub str_eq_iff : (a b : Bytes) → (str_eq a b ≡ true) ↔ (a ≡ b)
unfolding str_eq
str_eq_iff [] [] = ground arith
str_eq_iff [] (b ∷ bs) = ground arith
str_eq_iff (a ∷ as') [] = ground arith
str_eq_iff (a ∷ as') (b ∷ bs) = ground (arith, ==_iff a b, str_eq_iff as' bs)

pub str_eq_refl : (a : Bytes) → str_eq a a ≡ true
str_eq_refl a = (str_eq_iff a a).1 refl

-- `strcmp`, as the order of its result with 0
unfoldable pub strcmp : Bytes → Bytes → Ordering
strcmp [] [] = Ordering.eq
strcmp [] (_ ∷ _) = Ordering.lt
strcmp (_ ∷ _) [] = Ordering.gt
strcmp (a ∷ as') (b ∷ bs) = elim (compare a b) [
  | Ordering.eq ↦ strcmp as' bs
  | Ordering.lt ↦ Ordering.lt
  | Ordering.gt ↦ Ordering.gt
]

-- `strncmp(s, prefix, strlen(prefix)) == 0`
unfoldable pub starts_with : Bytes → Bytes → Bool
starts_with [] s = true
starts_with (_ ∷ _) [] = false
starts_with (p ∷ ps) (c ∷ s) = (p == c) && starts_with ps s

-- `strstr(s, needle) != NULL`
unfoldable pub contains : Bytes → Bytes → Bool
unfolding starts_with
contains needle [] = starts_with needle []
contains needle (c ∷ s) = starts_with needle (c ∷ s) || contains needle s

-- `strchr(s, c) != NULL`, for `c` that is not NUL
unfoldable pub has_char : ℕ → Bytes → Bool
has_char c [] = false
has_char c (d ∷ s) = (d == c) || has_char c s

-- The parts of `s` before and behind the last `c`: `strrchr`.
unfoldable pub split_last : ℕ → Bytes → Option (Bytes × Bytes)
split_last c [] = none
split_last c (d ∷ s) = elim (split_last c s) [
  | some (before, behind) ↦ some (d ∷ before, behind)
  | none ↦ if d == c then some ([], s) else none
]

-- The parts of `s` before and behind the first occurrence of `needle`: `strstr`.
unfoldable pub split_first : Bytes → Bytes → Option (Bytes × Bytes)
unfolding starts_with
split_first needle [] = if starts_with needle [] then some ([], []) else none
split_first needle (c ∷ s) =
    let later : Option (Bytes × Bytes) = elim (split_first needle s) [
      | some (before, rest) ↦ some (c ∷ before, rest)
      | none ↦ none
    ] in
    if starts_with needle (c ∷ s) then some ([], c ∷ s) else later

-- `s[0] == c`, for `c` that is not NUL
unfoldable pub head_is : ℕ → Bytes → Bool
head_is c [] = false
head_is c (d ∷ s) = d == c
