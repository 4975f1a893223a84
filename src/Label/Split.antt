-- ===== src/Label/Split.antt =====
-- The first `//` and the last colon of a label (`strstr` and `strrchr` in src/label.c).
use qstar.Prelude.{
  ℕ, ◌≡◌, ◌≢◌, refl, true, Bool-cases, Option-cases, inl, inr, [], ◌∷◌, ◌++◌, none, some, Bytes,
  codes, split_first, split_last, starts_with, All, arith,
}

-- What is found is a part of the text.
pub split_last-text :
    (c : ℕ) (s before behind : Bytes)
    → split_last c s ≡ some (before, behind)
    → before ++ c ∷ behind ≡ s
unfolding split_last
split_last-text c [] before behind h = ground arith
split_last-text c (d ∷ s) before behind h = elim (Option-cases (split_last c s)) [
  | inl e ↦ ground (arith, e)
  | inr ((b, r), e) ↦ ground (arith, e, split_last-text c s b r e)
]

absent : (c : ℕ) (s : Bytes) → All (λ d. d ≢ c) s → split_last c s ≡ none
unfolding split_last
absent c [] h = refl
absent c (d ∷ s) (hd, hs) = ground (arith, hd, absent c s hs)

-- No colon behind the last one.
pub split_last-last :
    (c : ℕ) (before behind : Bytes)
    → All (λ d. d ≢ c) behind
    → split_last c (before ++ c ∷ behind) ≡ some (before, behind)
unfolding split_last
split_last-last c [] behind h = rw (split_last, absent c behind h) (ground arith)
split_last-last c (d ∷ before) behind h = rw (split_last, split_last-last c before behind h) refl

pub split_first-text :
    (needle s before rest : Bytes)
    → split_first needle s ≡ some (before, rest)
    → (before ++ rest ≡ s) × (starts_with needle rest ≡ true)
unfolding split_first
split_first-text needle [] before rest h = ground (arith)
split_first-text needle (c ∷ s) before rest h = elim (Bool-cases (starts_with needle (c ∷ s))) [
  | inl e ↦ ground (arith, e)
  | inr e ↦ elim (Option-cases (split_first needle s)) [
    | inl f ↦ ground (arith, e, f)
    | inr ((b, r), f) ↦ ground (arith, e, f, split_first-text needle s b r f)
  ]
]

-- The first `//` stands behind a text without slashes.
pub split_first-slashes :
    (s rest : Bytes)
    → All (λ c. c ≢ b'/') s
    → split_first (codes "//") (s ++ b'/' ∷ b'/' ∷ rest) ≡ some (s, b'/' ∷ b'/' ∷ rest)
unfolding split_first starts_with
split_first-slashes [] rest h = refl
split_first-slashes (c ∷ s) rest (hc, hs) = ground (arith, hc, split_first-slashes s rest hs)
