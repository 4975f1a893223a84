-- ===== src/Paths/Text.antt =====
-- Components as they are appended to a buffer, and split again (src/graph.c).
use qstar.Prelude.{
  some-eq_some, ℕ, zero, suc, ◌+◌, ◌≤◌, ◌<◌, ◌≡◌, ◌≢◌, refl, sym, ap, subst, Bool-cases,
  Option-cases, inl, inr, List, [], ◌∷◌, ◌++◌, append_assoc, append-nil, none, some, Bytes, length,
  length-append, ltb, ◌==◌, if◌then◌else◌, All, arith,
}
use qstar.Paths.{split_from, append_relative_component, append_components}

-- A component: some bytes, and no slash.
abbrev pub IsPart : Bytes → Type 0
IsPart [] = (1 ≤ 0)
IsPart (c ∷ p) = All (λ d. d ≢ b'/') (c ∷ p)

-- What the components add to a text that is not empty, and to one that is.
unfoldable pub tail_text : List Bytes → Bytes
tail_text [] = []
tail_text (p ∷ ps) = b'/' ∷ (p ++ tail_text ps)

unfoldable pub text_of : List Bytes → Bytes
unfolding tail_text
text_of [] = []
text_of (p ∷ ps) = p ++ tail_text ps

append_components-tail :
    (n c : ℕ) (dst : Bytes) (ps : List Bytes)
    → length (c ∷ dst) < n
    → append_components n (c ∷ dst) ps ≡ (
        if ltb (length ((c ∷ dst) ++ tail_text ps)) n
        then some ((c ∷ dst) ++ tail_text ps)
        else none)
unfolding append_components append_relative_component tail_text
append_components-tail n c dst [] h = ground (arith, append-nil dst)
append_components-tail n c dst (p ∷ ps) h =
    elim (Bool-cases (ltb n (length (c ∷ dst) + 1 + length p + 1))) [
      | inl e ↦
          ground (
            arith,
            e,
            length-append dst (b'/' ∷ (p ++ tail_text ps)),
            length-append p (tail_text ps),
          )
      | inr e ↦ ground (
        arith,
        e,
        append_assoc dst (b'/' ∷ p) (tail_text ps),
        append_components-tail n c (dst ++ b'/' ∷ p) ps
            (ground (arith, e, length-append dst (b'/' ∷ p))),
      )
    ]

split_from-part :
    (free a : ℕ) (cur w s : Bytes)
    → All (λ d. d ≢ b'/') w
    → split_from free (a ∷ cur) (w ++ s) ≡ split_from free (a ∷ (cur ++ w)) s
unfolding split_from
split_from-part free a cur [] s h = ap (λ x. split_from free (a ∷ x) s) (sym (append-nil cur))
split_from-part free a cur (d ∷ w) s (hd, hw) =
    ground (arith, hd, split_from-part free a (cur ++ d ∷ []) w s hw, append_assoc cur (d ∷ []) w)

split_from-tail :
    (free a : ℕ) (cur : Bytes) (ps : List Bytes)
    → length ps ≤ free
    → All IsPart ps
    → split_from free (a ∷ cur) (tail_text ps) ≡ some ((a ∷ cur) ∷ ps)
unfolding split_from tail_text
split_from-tail free a cur [] h parts = refl
split_from-tail free a cur ([] ∷ ps) h (hp, parts) = absurd (omega (arith, hp))
split_from-tail zero a cur ((q ∷ qs) ∷ ps) h parts = absurd (omega (arith, h))
split_from-tail (suc m) a cur ((q ∷ qs) ∷ ps) h ((hq, hqs), parts) = ground (
  arith,
  hq,
  split_from-part m q [] qs (tail_text ps) hqs,
  split_from-tail m q qs ps (omega arith) parts,
)

-- The loops over the components give the text, if the buffer has room for it.
pub append_components-text_of :
    (n : ℕ) (ps : List Bytes)
    → 1 ≤ n
    → All IsPart ps
    → append_components n [] ps ≡ (if ltb (length (text_of ps)) n then some (text_of ps) else none)
unfolding append_components append_relative_component text_of
append_components-text_of n [] h parts = ground arith
append_components-text_of n ([] ∷ ps) h (hp, parts) = absurd (omega (arith, hp))
append_components-text_of n ((c ∷ p) ∷ ps) h parts =
    elim (Bool-cases (ltb n (length (c ∷ p) + 1))) [
      | inl e ↦ ground (arith, e, length-append p (tail_text ps))
      | inr e ↦ ground (arith, e, append_components-tail n c p ps (ground (arith, e)))
    ]

-- The text is split into the components it was put together from.
pub split_from-text_of :
    (free : ℕ) (ps : List Bytes)
    → length ps ≤ free
    → All IsPart ps
    → split_from free [] (text_of ps) ≡ some ps
unfolding split_from text_of
split_from-text_of free [] h parts = refl
split_from-text_of free ([] ∷ ps) h (hp, parts) = absurd (omega (arith, hp))
split_from-text_of zero ((q ∷ qs) ∷ ps) h parts = absurd (omega (arith, h))
split_from-text_of (suc m) ((q ∷ qs) ∷ ps) h ((hq, hqs), parts) = ground (
  arith,
  hq,
  split_from-part m q [] qs (tail_text ps) hqs,
  split_from-tail m q qs ps (omega arith) parts,
)

All-concat :
    (cur : Bytes) (c : ℕ) → All (λ d. d ≢ b'/') cur → c ≢ b'/' → All (λ d. d ≢ b'/') (cur ++ c ∷ [])
All-concat [] c h hc = (hc, tt)
All-concat (d ∷ cur) c (hd, h) hc = (hd, All-concat cur c h hc)

-- The slot of the part that was begun.
abbrev pub begun : Bytes → ℕ
begun [] = 0
begun (c ∷ cur) = 1

-- What is split off are components, no more than there are slots.
pub split_from-IsPart :
    (free : ℕ) (cur s : Bytes) (ps : List Bytes)
    → All (λ d. d ≢ b'/') cur
    → split_from free cur s ≡ some ps
    → All IsPart ps × (length ps ≤ free + begun cur)
unfolding split_from
split_from-IsPart free [] [] ps hc h =
    subst (λ xs. All IsPart xs × (length xs ≤ free + 0)) (some-eq_some h) (tt, omega arith)
split_from-IsPart free (a ∷ cur) [] ps hc h =
    subst (λ xs. All IsPart xs × (length xs ≤ free + 1)) (some-eq_some h) ((hc, tt), omega arith)
split_from-IsPart zero [] (c ∷ s) ps hc h = elim (Bool-cases (c == b'/')) [
  | inl e ↦ split_from-IsPart zero [] s ps tt (ground (arith, e, h))
  | inr e ↦ absurd (ground (arith, e, h))
]
split_from-IsPart (suc m) [] (c ∷ s) ps hc h = elim (Bool-cases (c == b'/')) [
  | inl e ↦ split_from-IsPart (suc m) [] s ps tt (ground (arith, e, h))
  | inr e ↦
      let (parts, few) =
        split_from-IsPart m (c ∷ []) s ps (ground (arith, e), tt) (ground (arith, e, h)) in
      (parts, omega (arith, few))
]
split_from-IsPart free (a ∷ cur) (c ∷ s) ps hc h = elim (Bool-cases (c == b'/')) [
  | inl e ↦ elim (Option-cases (split_from free [] s)) [
    | inl f ↦ absurd (ground (arith, e, f, h))
    | inr (qs, f) ↦
        let (parts, few) = split_from-IsPart free [] s qs tt f in
        let same : (a ∷ cur) ∷ qs ≡ ps = some-eq_some (ground (arith, e, f, h)) in
        subst (λ xs. All IsPart xs × (length xs ≤ free + 1)) same ((hc, parts), omega (arith, few))
  ]
  | inr e ↦
      split_from-IsPart free (a ∷ (cur ++ c ∷ [])) s ps
        (All-concat (a ∷ cur) c hc (ground (arith, e))) (ground (arith, e, h))
]
