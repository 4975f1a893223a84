-- ===== src/Plan/Paths.antt =====
-- What the closure is about: dependencies between targets, chains of them, and orders that put each
-- target behind its dependencies.
use mathlib.Core.List.{Memᴰ}
use mathlib.Core.List.Memᴰ
use mathlib.Core.Logic.{⊎_elim}
use qstar.Prelude.{
  ℕ, ◌≡◌, List, [], ◌∷◌, ◌++◌, append_assoc, append-nil, sym, subst, some, Bytes, get_elem?,
}
use qstar.Graph.Target.{Target}
use qstar.Graph.State.{Graph}
use qstar.Graph.Lookup.{target_index}

-- The labels that `visit_target` goes through.
abbrev pub dep_labels : Target → List Bytes
dep_labels t = t.objects ++ (t.deps ++ t.private_deps)

-- Target `i` names target `j` as a dependency.
pub record Dep (g : Graph) (i j : ℕ) : Type 0 where
  pub target : Target
  pub at_i : get_elem? g.targets i ≡ some target
  pub label : Bytes
  pub named : Memᴰ label (dep_labels target)
  pub at_j : target_index g label ≡ some j

pub data Reach (g : Graph) (i : ℕ) : ℕ → Type 0 where
  here : Reach g i i
  step : {j k : ℕ} → Reach g i j → Dep g j k → Reach g i k

-- One dependency or more.
pub data Chain (g : Graph) (i : ℕ) : ℕ → Type 0 where
  one : {j : ℕ} → Dep g i j → Chain g i j
  more : {j k : ℕ} → Chain g i j → Dep g j k → Chain g i k

pub Reach-trans : {g : Graph} {i j k : ℕ} → Reach g i j → Reach g j k → Reach g i k
Reach-trans p here = p
Reach-trans p (step q d) = step (Reach-trans p q) d

-- Behind `before`, each target stands once, and behind all of its dependencies.
abbrev pub Ordered : Graph → List ℕ → List ℕ → Type 0
Ordered g before [] = Unit {0}
Ordered g before (i ∷ rest) =
    ((j : ℕ) → Dep g i j → Memᴰ j before) × ¬ Memᴰ i before × Ordered g (before ++ i ∷ []) rest

pub Ordered-concat :
    (g : Graph) (before order : List ℕ) (i : ℕ)
    → Ordered g before order
    → ((j : ℕ) → Dep g i j → Memᴰ j (before ++ order))
    → ¬ Memᴰ i (before ++ order)
    → Ordered g before (order ++ i ∷ [])
Ordered-concat g before [] i h deps new = (
  λ j d. subst (Memᴰ j) (append-nil before) (deps j d),
  λ m. new (subst (Memᴰ i) (sym (append-nil before)) m),
  tt,
)
Ordered-concat g before (k ∷ order) i (dk, nk, h) deps new = (
  dk,
  nk,
  Ordered-concat g (before ++ k ∷ []) order i h
      (λ j d. subst (Memᴰ j) (sym (append_assoc before (k ∷ []) order)) (deps j d))
      (λ m. new (subst (Memᴰ i) (append_assoc before (k ∷ []) order) m)),
)

-- What an order holds, it holds with its dependencies.
pub Ordered-closed :
    (g : Graph) (before order : List ℕ) (i j : ℕ)
    → Ordered g before order
    → Memᴰ i order
    → Dep g i j
    → Memᴰ j (before ++ order)
Ordered-closed g before [] i j h m d = absurd (Memᴰ.not-nil m)
Ordered-closed g before (k ∷ order) i j (deps, new, h) m d =
    ⊎_elim (λ e. Memᴰ.append_left (k ∷ order) (deps j (subst (λ x. Dep g x j) e d)))
      (λ n.
        subst (Memᴰ j) (append_assoc before (k ∷ []) order)
          (Ordered-closed g (before ++ k ∷ []) order i j h n d))
      (Memᴰ.cases_cons m)

pub Ordered-Reach :
    (g : Graph) (order : List ℕ) (i : ℕ) {j : ℕ}
    → Ordered g [] order
    → Memᴰ i order
    → Reach g i j
    → Memᴰ j order
Ordered-Reach g order i h m here = m
Ordered-Reach g order i h m (step {j} {k} r d) =
    Ordered-closed g [] order j k h (Ordered-Reach g order i h m r) d

-- A list that holds the dependencies of what it holds.
abbrev IsClosed : Graph → List ℕ → Type 0
IsClosed g before = (i j : ℕ) → Memᴰ i before → Dep g i j → Memᴰ j before

chain-IsClosed :
    (g : Graph) (before : List ℕ) (i : ℕ) {j : ℕ}
    → IsClosed g before
    → ((k : ℕ) → Dep g i k → Memᴰ k before)
    → Chain g i j
    → Memᴰ j before
chain-IsClosed g before i closed deps (one {j} d) = deps j d
chain-IsClosed g before i closed deps (more {j} {k} c d) =
    closed j k (chain-IsClosed g before i closed deps c) d

IsClosed-concat :
    (g : Graph) (before : List ℕ) (k : ℕ)
    → IsClosed g before
    → ((j : ℕ) → Dep g k j → Memᴰ j before)
    → IsClosed g (before ++ k ∷ [])
IsClosed-concat g before k closed deps i j m d = Memᴰ.append_left (k ∷ []) (
    ⊎_elim (λ n. closed i j n d) (λ n. deps j (subst (λ x. Dep g x j) (Memᴰ.eq_of_singleton n) d))
      (Memᴰ.append_cases before m))

-- No target of an order depends on itself, over any number of steps.
Ordered-acyclic_from :
    (g : Graph) (before order : List ℕ) (i : ℕ)
    → IsClosed g before
    → Ordered g before order
    → Memᴰ i order
    → ¬ Chain g i i
Ordered-acyclic_from g before [] i closed h m c = Memᴰ.not-nil m
Ordered-acyclic_from g before (k ∷ order) i closed (deps, new, h) m c =
    ⊎_elim
      (λ e. new (
        subst (λ x. Memᴰ x before) e
          (chain-IsClosed g before i closed (λ j d. deps j (subst (λ x. Dep g x j) e d)) c)))
      (λ n.
        Ordered-acyclic_from g (before ++ k ∷ []) order i (IsClosed-concat g before k closed deps) h
          n c)
      (Memᴰ.cases_cons m)

pub Ordered-acyclic :
    (g : Graph) (order : List ℕ) (i : ℕ) → Ordered g [] order → Memᴰ i order → ¬ Chain g i i
Ordered-acyclic g order i h m =
    Ordered-acyclic_from g [] order i (λ k j n d. absurd (Memᴰ.not-nil n)) h m
