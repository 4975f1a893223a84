-- ===== src/Plan/Sorting.antt =====
-- The order in which the whole graph is visited.
use mathlib.Core.List.{Memᴰ, reverse, reverse-cons}
use mathlib.Core.List.Memᴰ
use mathlib.Core.Logic.{⊎_elim}
use native.Mathlib.Decide.{ℕ_discrete}
use qstar.Prelude.{
  ℕ, suc, ◌+◌, ◌≤◌, ◌<◌, ◌≡◌, ◌↔◌, ◌⊎◌, inl, inr, Bool-cases, List, [], ◌∷◌, length, arith,
}
use qstar.Graph.Target.{Target}
use qstar.Graph.State.{Graph}
use qstar.Plan.{sort_indices, sort_indices_from, insert_index, label_after, indices_from}

Memᴰ-insert_index :
    (g : Graph) (v x : ℕ) (us : List ℕ) → Memᴰ x (insert_index g v us) ↔ ((x ≡ v) ⊎ Memᴰ x us)
unfolding insert_index
Memᴰ-insert_index g v x [] =
    (λ m. inl (Memᴰ.eq_of_singleton m), ⊎_elim Memᴰ.head (λ n. absurd (Memᴰ.not-nil n)))
Memᴰ-insert_index g v x (u ∷ us) = elim (Bool-cases (label_after g u v)) [
  | inl later ↦ rw later (
    λ m.
        ⊎_elim (λ e. inr (Memᴰ.head e))
          (λ n. ⊎_elim inl (λ k. inr (Memᴰ.tail k)) ((Memᴰ-insert_index g v x us).0 n))
          (Memᴰ.cases_cons m),
    ⊎_elim (λ e. Memᴰ.tail ((Memᴰ-insert_index g v x us).1 (inl e)))
        (λ m.
          ⊎_elim Memᴰ.head (λ n. Memᴰ.tail ((Memᴰ-insert_index g v x us).1 (inr n)))
            (Memᴰ.cases_cons m)),
  )
  | inr in_place ↦ rw in_place (Memᴰ.cases_cons, ⊎_elim Memᴰ.head Memᴰ.tail)
]

Memᴰ-reverse : (x : ℕ) (xs : List ℕ) → Memᴰ x (reverse xs) ↔ Memᴰ x xs
Memᴰ-reverse x [] = (λ m. m, λ m. m)
Memᴰ-reverse x (y ∷ ys) = rw reverse-cons (
  λ m.
      ⊎_elim (λ n. Memᴰ.tail ((Memᴰ-reverse x ys).0 n)) (λ n. Memᴰ.head (Memᴰ.eq_of_singleton n))
        (Memᴰ.append_cases (reverse ys) m),
  λ m.
      ⊎_elim (λ e. Memᴰ.append_right (reverse ys) (Memᴰ.head e))
        (λ n. Memᴰ.append_left (y ∷ []) ((Memᴰ-reverse x ys).1 n)) (Memᴰ.cases_cons m),
)

Memᴰ-sort_indices_from :
    (g : Graph) (x : ℕ) (sorted vs : List ℕ)
    → Memᴰ x (sort_indices_from g sorted vs) ↔ (Memᴰ x sorted ⊎ Memᴰ x vs)
unfolding sort_indices_from
Memᴰ-sort_indices_from g x sorted [] = (
  λ m. inl ((Memᴰ-reverse x sorted).0 m),
  ⊎_elim (λ m. (Memᴰ-reverse x sorted).1 m) (λ m. absurd (Memᴰ.not-nil m)),
)
Memᴰ-sort_indices_from g x sorted (v ∷ vs) =
    let ih = Memᴰ-sort_indices_from g x (insert_index g v sorted) vs in
    let one = Memᴰ-insert_index g v x sorted in
    (
      λ m.
          ⊎_elim (λ a. ⊎_elim (λ e. inr (Memᴰ.head e)) inl (one.0 a)) (λ b. inr (Memᴰ.tail b))
            (ih.0 m),
      ⊎_elim (λ a. ih.1 (inl (one.1 (inr a))))
          (λ b. ⊎_elim (λ e. ih.1 (inl (one.1 (inl e)))) (λ c. ih.1 (inr c)) (Memᴰ.cases_cons b)),
    )

-- Sorting keeps the indices.
pub Memᴰ-sort_indices : (g : Graph) (x : ℕ) (vs : List ℕ) → Memᴰ x (sort_indices g vs) ↔ Memᴰ x vs
unfolding sort_indices
Memᴰ-sort_indices g x vs = (
  λ m. ⊎_elim (λ n. absurd (Memᴰ.not-nil n)) (λ k. k) ((Memᴰ-sort_indices_from g x [] vs).0 m),
  λ m. (Memᴰ-sort_indices_from g x [] vs).1 (inr m),
)

pub indices_from-lt :
    (n : ℕ) (ts : List Target) (i : ℕ) → Memᴰ i (indices_from n ts) → i < n + length ts
unfolding indices_from
indices_from-lt n [] i m = absurd (Memᴰ.not-nil m)
indices_from-lt n (t ∷ ts) i m =
    ⊎_elim (λ e. omega arith) (λ k. omega (arith, indices_from-lt (suc n) ts i k))
      (Memᴰ.cases_cons m)

pub lt-indices_from :
    (n : ℕ) (ts : List Target) (i : ℕ) → n ≤ i → i < n + length ts → Memᴰ i (indices_from n ts)
unfolding indices_from
lt-indices_from n [] i low high = absurd (omega arith)
lt-indices_from n (t ∷ ts) i low high = elim (ℕ_discrete i n) [
  | yes e ↦ Memᴰ.head e
  | no e ↦ Memᴰ.tail (lt-indices_from (suc n) ts i (omega arith) (omega arith))
]
