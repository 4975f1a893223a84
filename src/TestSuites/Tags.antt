-- ===== src/TestSuites/Tags.antt =====
-- What the tags of a selection choose in src/test_suite.c, without the searches of the code.
use mathlib.Core.List.{Memᴰ}
use mathlib.Core.List.Memᴰ
use qstar.Prelude.{
  ℕ, ℤ, pos, negsuc, zero, suc, nonzero, ◌≡◌, ◌≢◌, ◌↔◌, ◌⊎◌, refl, sym, subst, inl, inr, Bool, true,
  false, not, ◌&&◌, ◌||◌, List, [], ◌∷◌, Bytes, any, str_eq, str_eq_iff, Bool-cases, arith,
}
use qstar.Graph.State.{Graph, TestSuite}
use qstar.TestSuites.{string_list_contains, Selection, option_tag_matches, suite_is_excluded}
use qstar.TestSuites.Selecting.{is_empty, is_chosen}

-- A tag that both lists have.
abbrev pub Shares : List Bytes → List Bytes → Type 0
Shares tags others = (tag : Bytes) × Memᴰ tag tags × Memᴰ tag others

-- The suite is not manual, has no tag that is excluded, and has a wanted tag if any is named.
pub record TagsChoose (options : Selection) (suite : TestSuite) : Type 0 where
  pub not_manual : suite.manual ≡ pos 0
  pub not_excluded : Shares options.exclude_tags suite.tags → ⊥
  pub wanted : (options.tags ≡ []) ⊎ Shares options.tags suite.tags

-- There are tags that are wanted or excluded.
abbrev pub HasFilters : Selection → Type 0
HasFilters options = (options.tags ≢ []) ⊎ (options.exclude_tags ≢ [])

contains-Mem :
    (list : List Bytes) (value : Bytes) → (string_list_contains list value ≡ true) ↔ Memᴰ value list
unfolding string_list_contains any
contains-Mem [] value = (λ h. absurd (ground (arith, h)), λ m. absurd (Memᴰ.not-nil m))
contains-Mem (o ∷ os) value = (
  λ h. elim (Bool-cases (str_eq o value)) [
    | inl e ↦ Memᴰ.head (sym ((str_eq_iff o value).0 e))
    | inr e ↦ Memᴰ.tail ((contains-Mem os value).0 (ground (arith, e, h)))
  ],
  λ m. elim (Memᴰ.cases_cons m) [
    | inl e ↦ ground (arith, (str_eq_iff o value).1 (sym e))
    | inr n ↦ ground (arith, (contains-Mem os value).1 n)
  ],
)

option_tag_matches-Shares :
    (tags : List Bytes) (suite : TestSuite)
    → (option_tag_matches tags suite ≡ true) ↔ Shares tags suite.tags
unfolding option_tag_matches any
option_tag_matches-Shares [] suite =
    (λ h. absurd (ground (arith, h)), λ (t, m, n). absurd (Memᴰ.not-nil m))
option_tag_matches-Shares (tag ∷ tags) suite = (
  λ h. elim (Bool-cases (string_list_contains suite.tags tag)) [
    | inl e ↦ (tag, Memᴰ.head refl, (contains-Mem suite.tags tag).0 e)
    | inr e ↦
        let (t, m, n) = (option_tag_matches-Shares tags suite).0 (ground (arith, e, h)) in
        (t, Memᴰ.tail m, n)
  ],
  λ (t, m, n). elim (Memᴰ.cases_cons m) [
    | inl e ↦
        let here : string_list_contains suite.tags tag ≡ true =
          (contains-Mem suite.tags tag).1 (subst (λ (x : Bytes). Memᴰ x suite.tags) e n) in
        ground (arith, here)
    | inr k ↦ ground (arith, (option_tag_matches-Shares tags suite).1 (t, k, n))
  ],
)

zero-nonzero : (z : ℤ) → (nonzero z ≡ false) ↔ (z ≡ pos 0)
zero-nonzero (pos zero) = (λ h. refl, λ e. refl)
zero-nonzero (pos (suc n)) = (λ h. absurd (ground (arith, h)), λ e. cc)
zero-nonzero (negsuc n) = (λ h. absurd (ground (arith, h)), λ e. cc)

nil-is_empty : (tags : List Bytes) → (is_empty tags ≡ true) ↔ (tags ≡ [])
nil-is_empty [] = (λ h. refl, λ e. refl)
nil-is_empty (t ∷ ts) = (λ h. absurd (ground (arith, h)), λ e. cc)

tests :
    (a b c d : Bool)
    → ((not (a || b) && (c || d)) ≡ true) ↔ ((a ≡ false) × (b ≡ false) × ((c ≡ true) ⊎ (d ≡ true)))
tests a b c d = ground arith

not_true : (b : Bool) → (b ≡ true → ⊥) → b ≡ false
not_true true h = absurd (h refl)
not_true false h = refl

pub is_chosen-TagsChoose :
    (fuel : ℕ) (graph : Graph) (options : Selection) (suite : TestSuite)
    → (is_chosen fuel graph options suite ≡ true) ↔ TagsChoose options suite
unfolding is_chosen suite_is_excluded
is_chosen-TagsChoose fuel graph options suite =
    let test =
      tests (nonzero suite.manual) (option_tag_matches options.exclude_tags suite)
        (is_empty options.tags) (option_tag_matches options.tags suite) in
    let excluded = option_tag_matches-Shares options.exclude_tags suite in
    let wanted = option_tag_matches-Shares options.tags suite in
    (
      λ h.
          let (a, b, c) = test.0 h in
          record {
            not_manual = (zero-nonzero suite.manual).0 a;
            not_excluded = λ d. ground (arith, b, excluded.1 d);
            wanted = elim c [
              | inl e ↦ inl ((nil-is_empty options.tags).0 e)
              | inr e ↦ inr (wanted.0 e)
            ];
          },
      λ t. test.1 (
        (zero-nonzero suite.manual).1 t.not_manual,
        not_true _ (λ e. t.not_excluded (excluded.0 e)),
        elim t.wanted [ inl e ↦ inl ((nil-is_empty options.tags).1 e) | inr e ↦ inr (wanted.1 e) ],
      ),
    )

pub is_empty-HasFilters :
    (options : Selection)
    → (not (is_empty options.tags && is_empty options.exclude_tags) ≡ true) ↔ HasFilters options
is_empty-HasFilters options =
    go (is_empty options.tags) (is_empty options.exclude_tags) (nil-is_empty options.tags)
      (nil-is_empty options.exclude_tags)
  where
    go :
        {A B : Type 0} (a b : Bool)
        → (a ≡ true) ↔ A
        → (b ≡ true) ↔ B
        → (not (a && b) ≡ true) ↔ ((A → ⊥) ⊎ (B → ⊥))
    go false b f g = (λ h. inl (λ x. ground (arith, f.1 x)), λ h. refl)
    go true false f g = (λ h. inr (λ x. ground (arith, g.1 x)), λ h. refl)
    go true true f g = (
      λ h. absurd (ground (arith, h)),
      λ h. elim h [ inl n ↦ absurd (n (f.0 refl)) | inr n ↦ absurd (n (g.0 refl)) ],
    )
