-- ===== src/TestSuites/Leaves.antt =====
-- Lists without repetition (`push_unique` of src/test_suite.c), and what a suite stands for.
use qstar.Prelude.{
  ℕ, ◌≡◌, ◌≢◌, refl, sym, subst, ◌⊎◌, inl, inr, Bool, true, false, ◌||◌, List, [], ◌∷◌, ◌++◌,
  Option, none, some, Bytes, str_eq, str_eq_iff, str_eq_refl, any, arith, Bool-cases,
}
use qstar.Graph.State.{Graph, TestSuite}
use qstar.TestSuites.{
  find_test_suite, string_list_contains, push_unique, Selection, suite_is_excluded,
}

abbrev pub IsIn : Bytes → List Bytes → Type 0
IsIn t list = string_list_contains list t ≡ true

-- No string stands in the list twice.
unfoldable pub IsUnique : List Bytes → Type 0
unfolding string_list_contains
IsUnique [] = Unit
IsUnique (x ∷ xs) = (string_list_contains xs x ≡ false) × IsUnique xs

-- The tests that the members of a suite stand for: those that are no suite, and the leaves of those
-- that are one, unless it is excluded.
pub data Leaf (graph : Graph) (options : Option Selection) : List Bytes → Bytes → Type 0 where
  direct :
      (ts : List Bytes) (t : Bytes)
      → IsIn t ts
      → find_test_suite graph (some t) ≡ none
      → Leaf graph options ts t
  nested :
      (ts : List Bytes) (l : Bytes) (j : ℕ) (q : TestSuite) (t : Bytes)
      → IsIn l ts
      → find_test_suite graph (some l) ≡ some (j, q)
      → suite_is_excluded q options ≡ false
      → Leaf graph options q.tests t
      → Leaf graph options ts t

-- `out` is `labels` with the strings that `P` holds of, and repeats nothing that `labels` does not.
pub record Gives (P : Bytes → Type 0) (labels out : List Bytes) : Type 0 where
  pub only : (t : Bytes) → IsIn t out → IsIn t labels ⊎ P t
  pub keeps : (t : Bytes) → IsIn t labels → IsIn t out
  pub adds : (t : Bytes) → P t → IsIn t out
  pub unique : IsUnique labels → IsUnique out

pub true-ne_false : {b : Bool} → b ≡ true → b ≢ false
true-ne_false e f = cc

or_cases : (a b : Bool) → a || b ≡ true → (a ≡ true) ⊎ (b ≡ true)
or_cases true b e = inl refl
or_cases false b e = inr e

pub IsIn-cons : (x t : Bytes) (xs : List Bytes) → IsIn t (x ∷ xs) → (t ≡ x) ⊎ IsIn t xs
unfolding string_list_contains any
IsIn-cons x t xs e = elim (or_cases (str_eq x t) (string_list_contains xs t) e) [
  | inl f ↦ inl (sym ((str_eq_iff x t).0 f))
  | inr f ↦ inr f
]

pub IsIn-head : (t : Bytes) (xs : List Bytes) → IsIn t (t ∷ xs)
unfolding string_list_contains any
IsIn-head t xs = rw (str_eq_refl t) refl

pub IsIn-tail : (x t : Bytes) (xs : List Bytes) → IsIn t xs → IsIn t (x ∷ xs)
unfolding string_list_contains any
IsIn-tail x t xs e = elim (Bool-cases (str_eq x t)) [ inl f ↦ rw f refl | inr f ↦ rw f e ]

pub not_in : (t : Bytes) → string_list_contains [] t ≢ true
unfolding string_list_contains any
not_in t e = cc

pub IsIn-snoc : (t x : Bytes) (xs : List Bytes) → IsIn t (xs ++ x ∷ []) → IsIn t xs ⊎ (t ≡ x)
IsIn-snoc t x [] e = elim (IsIn-cons x t [] e) [ inl f ↦ inr f | inr f ↦ absurd (not_in t f) ]
IsIn-snoc t x (y ∷ ys) e = elim (IsIn-cons y t (ys ++ x ∷ []) e) [
  | inl f ↦ inl (subst (λ (z : Bytes). IsIn t (z ∷ ys)) f (IsIn-head t ys))
  | inr f ↦ elim (IsIn-snoc t x ys f) [ inl g ↦ inl (IsIn-tail y t ys g) | inr g ↦ inr g ]
]

pub IsIn-left : (t x : Bytes) (xs : List Bytes) → IsIn t xs → IsIn t (xs ++ x ∷ [])
IsIn-left t x [] e = absurd (not_in t e)
IsIn-left t x (y ∷ ys) e = elim (IsIn-cons y t ys e) [
  | inl f ↦ subst (λ (z : Bytes). IsIn t (z ∷ ys ++ x ∷ [])) f (IsIn-head t (ys ++ x ∷ []))
  | inr f ↦ IsIn-tail y t (ys ++ x ∷ []) (IsIn-left t x ys f)
]

pub IsIn-last : (x : Bytes) (xs : List Bytes) → IsIn x (xs ++ x ∷ [])
IsIn-last x [] = IsIn-head x []
IsIn-last x (y ∷ ys) = IsIn-tail y x (ys ++ x ∷ []) (IsIn-last x ys)

IsUnique-snoc :
    (xs : List Bytes) (x : Bytes)
    → IsUnique xs
    → string_list_contains xs x ≡ false
    → IsUnique (xs ++ x ∷ [])
unfolding IsUnique string_list_contains any
IsUnique-snoc [] x u e = (refl, tt)
IsUnique-snoc (y ∷ ys) x (u, us) e = (
  elim (Bool-cases (string_list_contains (ys ++ x ∷ []) y)) [
    | inr f ↦ f
    | inl f ↦ elim (IsIn-snoc y x ys f) [
      | inl g ↦ absurd (ground (arith, g, u))
      | inr g ↦ absurd (true-ne_false (subst (λ (z : Bytes). IsIn z (y ∷ ys)) g (IsIn-head y ys)) e)
    ]
  ],
  IsUnique-snoc ys x us (elim (Bool-cases (string_list_contains ys x)) [
    | inr f ↦ f
    | inl f ↦ absurd (true-ne_false (IsIn-tail y x ys f) e)
  ]),
)

pub push_unique-Gives :
    (labels : List Bytes) (x : Bytes) → Gives (λ t. t ≡ x) labels (push_unique labels x)
unfolding push_unique
push_unique-Gives labels x = elim (Bool-cases (string_list_contains labels x)) [
  | inl e ↦
      rw (push_unique, e)
        (record {
          only = λ t f. inl f;
          keeps = λ t f. f;
          adds = λ t f. subst (λ (z : Bytes). IsIn z labels) (sym f) e;
          unique = λ u. u;
        })
  | inr e ↦
      rw (push_unique, e)
        (record {
          only = λ t f. IsIn-snoc t x labels f;
          keeps = λ t f. IsIn-left t x labels f;
          adds =
              λ t f. subst (λ (z : Bytes). IsIn z (labels ++ x ∷ [])) (sym f) (IsIn-last x labels);
          unique = λ u. IsUnique-snoc labels x u e;
        })
]

pub Gives-trans :
    {P Q : Bytes → Type 0} {a b c : List Bytes}
    → Gives P a b
    → Gives Q b c
    → Gives (λ t. P t ⊎ Q t) a c
Gives-trans g h = record {
  only = λ t e. elim (h.only t e) [
    | inr q ↦ inr (inr q)
    | inl f ↦ elim (g.only t f) [ inl k ↦ inl k | inr p ↦ inr (inl p) ]
  ];
  keeps = λ t e. h.keeps t (g.keeps t e);
  adds = λ t e. elim e [ inl p ↦ h.keeps t (g.adds t p) | inr q ↦ h.adds t q ];
  unique = λ u. h.unique (g.unique u);
}

pub Gives-map :
    (P : Bytes → Type 0) {Q : Bytes → Type 0} {a b : List Bytes}
    → ((t : Bytes) → P t → Q t)
    → ((t : Bytes) → Q t → P t)
    → Gives P a b
    → Gives Q a b
Gives-map P there back g = record {
  only = λ t e. elim (g.only t e) [ inl f ↦ inl f | inr p ↦ inr (there t p) ];
  keeps = g.keeps;
  adds = λ t q. g.adds t (back t q);
  unique = g.unique;
}
