-- ===== src/Stella/File/Local.antt =====
-- Readers (src/stella_cache.c) whose result depends on the bytes that they read only.
use qstar.Prelude.{
  ℕ, zero, suc, ◌≤◌, ◌≡◌, Bool, true, false, Option-cases, inl, inr, [], ◌∷◌, ◌++◌, none, some,
  Bytes, length, length-append, take, drop, ltb, ◌==◌, if◌then◌else◌, arith,
}
use qstar.Stella.File.{
  Reader, pure, failure, ◌>>=◌, fread, read_each, read_u64, read_i32, max_u64, max_string, read_str,
  max_count, read_count, read_array, read_item, read_list,
}

take_front : (n : ℕ) (f more : Bytes) → n ≤ length f → take n (f ++ more) ≡ take n f
take_front zero f more h = ground arith
take_front (suc n) [] more h = ground arith
take_front (suc n) (c ∷ f) more h = ground (arith, take_front n f more)

drop_front : (n : ℕ) (f more : Bytes) → n ≤ length f → drop n (f ++ more) ≡ drop n f ++ more
drop_front zero f more h = ground arith
drop_front (suc n) [] more h = ground arith
drop_front (suc n) (c ∷ f) more h = ground (arith, drop_front n f more)

abbrev pub IsLocal {ℓ} : {A : Type ℓ} → Reader A → Type ℓ
IsLocal {A = A} r =
    (f : Bytes) (a : A) (rest more : Bytes)
    → r f ≡ some (a, rest)
    → r (f ++ more) ≡ some (a, rest ++ more)

pub pure-IsLocal {ℓ} : {A : Type ℓ} (a : A) → IsLocal (pure a)
unfolding pure
pure-IsLocal a f b rest more h = ground (arith, h)

pub failure-IsLocal {ℓ} : {A : Type ℓ} → IsLocal (failure {A = A})
unfolding failure
failure-IsLocal f b rest more h = ground (arith, h)

pub bind-IsLocal {ℓ κ} :
    {A : Type ℓ} {B : Type κ} (r : Reader A) (k : A → Reader B)
    → IsLocal r
    → ((a : A) → IsLocal (k a))
    → IsLocal (r >>= k)
unfolding ◌>>=◌
bind-IsLocal r k hr hk f b rest more h = elim (Option-cases (r f)) [
  | inl e ↦ ground (arith, e, h)
  | inr ((a, g), e) ↦ rw (◌>>=◌, hr f a g more e) (hk a g b rest more (ground (arith, e, h)))
]

pub if-IsLocal {ℓ} :
    {A : Type ℓ} (b : Bool) (r s : Reader A) → IsLocal r → IsLocal s → IsLocal (if b then r else s)
if-IsLocal true r s hr hs = hr
if-IsLocal false r s hr hs = hs

pub fread-IsLocal : (n : ℕ) → IsLocal (fread n)
unfolding fread
fread-IsLocal n f bs rest more h =
    ground (arith, length-append f more, take_front n f more, drop_front n f more, h)

pub each-IsLocal {ℓ} : {A : Type ℓ} (r : Reader A) (n : ℕ) → IsLocal r → IsLocal (read_each r n)
unfolding read_each
each-IsLocal r zero h = pure-IsLocal []
each-IsLocal r (suc n) h =
    bind-IsLocal _ _ h (λ x. bind-IsLocal _ _ (each-IsLocal r n h) (λ xs. pure-IsLocal (x ∷ xs)))

pub u64-IsLocal : IsLocal read_u64
unfolding read_u64
u64-IsLocal = search (bind-IsLocal, pure-IsLocal, fread-IsLocal)

pub i32-IsLocal : IsLocal read_i32
unfolding read_i32
i32-IsLocal = bind-IsLocal _ _ (fread-IsLocal 4) (λ bs. pure-IsLocal _)

pub str-IsLocal : IsLocal read_str
unfolding read_str
str-IsLocal = bind-IsLocal _ _ u64-IsLocal (λ n. if-IsLocal (n == max_u64) _ _ (pure-IsLocal none) (
    if-IsLocal (ltb max_string n) _ _ failure-IsLocal
      (bind-IsLocal _ _ (fread-IsLocal n) (λ s. pure-IsLocal _))))

pub count-IsLocal : (limit : ℕ) → IsLocal (read_count limit)
unfolding read_count
count-IsLocal limit =
    bind-IsLocal _ _ u64-IsLocal
      (λ n. if-IsLocal (ltb limit n) _ _ failure-IsLocal (pure-IsLocal n))

pub array-IsLocal {ℓ} :
    {A : Type ℓ} (limit : ℕ) (r : Reader A) → IsLocal r → IsLocal (read_array limit r)
unfolding read_array
array-IsLocal limit r h = bind-IsLocal _ _ (count-IsLocal limit) (λ n. each-IsLocal r n h)

pub list-IsLocal : IsLocal read_list
unfolding read_list read_item
list-IsLocal = array-IsLocal max_count _ (bind-IsLocal _ _ str-IsLocal (λ s. pure-IsLocal _))
