-- ===== src/Plan/Marks.antt =====
-- Facts about the array of marks.
use qstar.Prelude.{
  ℕ, zero, suc, ◌≤◌, ◌<◌, ◌≡◌, ◌≢◌, refl, ap, List, [], ◌∷◌, some, length, get_elem?, set, arith,
}
use qstar.Plan.{Mark, unvisited, active, finished}

-- How many marks are 0.
pub unvisited_count : List Mark → ℕ
unvisited_count [] = 0
unvisited_count (unvisited ∷ ms) = suc (unvisited_count ms)
unvisited_count (active ∷ ms) = unvisited_count ms
unvisited_count (finished ∷ ms) = unvisited_count ms

pub get_elem?-set_self :
    (ms : List Mark) (i : ℕ) (m : Mark) → i < length ms → get_elem? (set ms i m) i ≡ some m
get_elem?-set_self [] i m h = absurd (omega arith)
get_elem?-set_self (x ∷ ms) zero m h = refl
get_elem?-set_self (x ∷ ms) (suc i) m h = get_elem?-set_self ms i m (omega arith)

pub get_elem?-set_ne :
    (ms : List Mark) (i j : ℕ) (m : Mark) → i ≢ j → get_elem? (set ms i m) j ≡ get_elem? ms j
get_elem?-set_ne [] i j m h = refl
get_elem?-set_ne (x ∷ ms) zero zero m h = absurd (h refl)
get_elem?-set_ne (x ∷ ms) zero (suc j) m h = refl
get_elem?-set_ne (x ∷ ms) (suc i) zero m h = refl
get_elem?-set_ne (x ∷ ms) (suc i) (suc j) m h = get_elem?-set_ne ms i j m (λ e. h (ap suc e))

pub lt-length_of_get_elem? {ℓ} :
    {A : Type ℓ} (xs : List A) (i : ℕ) {x : A} → get_elem? xs i ≡ some x → i < length xs
lt-length_of_get_elem? [] i h = cc
lt-length_of_get_elem? (y ∷ xs) zero h = omega arith
lt-length_of_get_elem? (y ∷ xs) (suc i) h = omega (arith, lt-length_of_get_elem? xs i h)

pub get_elem?-lt {ℓ} :
    {A : Type ℓ} (xs : List A) (i : ℕ) → i < length xs → (x : A) × (get_elem? xs i ≡ some x)
get_elem?-lt [] i h = absurd (omega arith)
get_elem?-lt (x ∷ xs) zero h = (x, refl)
get_elem?-lt (x ∷ xs) (suc i) h = get_elem?-lt xs i (omega arith)

-- Entering a target takes one unvisited mark away.
pub unvisited_count-set_active :
    (ms : List Mark) (i : ℕ)
    → get_elem? ms i ≡ some unvisited
    → suc (unvisited_count (set ms i active)) ≡ unvisited_count ms
unfolding unvisited_count
unvisited_count-set_active [] i h = cc
unvisited_count-set_active (m ∷ ms) zero h = ground arith
unvisited_count-set_active (unvisited ∷ ms) (suc i) h = ap suc (unvisited_count-set_active ms i h)
unvisited_count-set_active (active ∷ ms) (suc i) h = unvisited_count-set_active ms i h
unvisited_count-set_active (finished ∷ ms) (suc i) h = unvisited_count-set_active ms i h

-- Leaving it takes none.
pub unvisited_count-set_finished :
    (ms : List Mark) (i : ℕ)
    → get_elem? ms i ≡ some active
    → unvisited_count (set ms i finished) ≡ unvisited_count ms
unfolding unvisited_count
unvisited_count-set_finished [] i h = cc
unvisited_count-set_finished (m ∷ ms) zero h = ground arith
unvisited_count-set_finished (unvisited ∷ ms) (suc i) h =
    ap suc (unvisited_count-set_finished ms i h)
unvisited_count-set_finished (active ∷ ms) (suc i) h = unvisited_count-set_finished ms i h
unvisited_count-set_finished (finished ∷ ms) (suc i) h = unvisited_count-set_finished ms i h

pub unvisited_count-le : (ms : List Mark) → unvisited_count ms ≤ length ms
unfolding unvisited_count
unvisited_count-le [] = omega arith
unvisited_count-le (unvisited ∷ ms) = omega (arith, unvisited_count-le ms)
unvisited_count-le (active ∷ ms) = omega (arith, unvisited_count-le ms)
unvisited_count-le (finished ∷ ms) = omega (arith, unvisited_count-le ms)
