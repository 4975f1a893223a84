-- ===== src/Stella/File/Carries.antt =====
-- A writer and a reader that agree on a value, and how such pairs compose. The reader is asked to
-- give the value back with whatever follows it in the file.
use qstar.Prelude.{
  ℕ, ◌≤◌, ◌<◌, ◌^◌, ℤ, InInt, to_word, of_word, to_word-lt, of_word-to_word, ◌≡◌, refl, sym, ap,
  ◌∙◌, Bool, true, false, List, [], ◌∷◌, ◌++◌, map, append_assoc, append-nil, subst, fun_ext, none,
  some, Bytes, CString, string_or_empty, IsText, All, length, take-append, drop-append,
  length-append, ltb, ◌==◌, if◌then◌else◌, arith,
}
use mathlib.Core.List.{map-id}
use qstar.Stella.File.{
  Out, Writer, Reader, fwrite, fread, ◌⨾◌, write_each, pure, ◌>>=◌, read_each, write_u64, read_u64,
  write_i32, read_i32, max_u64, max_string, write_str, until_nul, read_str, max_count, read_count,
  write_array, read_array, write_list, read_item, read_list,
}
use qstar.Stella.File.Words.{le_bytes, of_le, length-le_bytes, of_le-le_bytes}

-- `w` appends certain bytes, or fails where they do not fit, and `r` reads `a` from those bytes.
pub record Carries {ℓ} {A : Type ℓ} (w : Writer) (r : Reader A) (a : A) : Type ℓ where
  pub bytes : Bytes
  pub written : (o : Out) → w o ≡ fwrite bytes o
  pub back : (rest : Bytes) → r (bytes ++ rest) ≡ some (a, rest)

fwrite-append : (xs ys : Bytes) (o : Out) → (fwrite xs ⨾ fwrite ys) o ≡ fwrite (xs ++ ys) o
unfolding fwrite ◌⨾◌
fwrite-append xs ys o = ground (arith, length-append xs ys, append_assoc o.written xs ys)

⨾-eq :
    (v w : Writer) (xs ys : Bytes) (o : Out)
    → ((p : Out) → v p ≡ fwrite xs p)
    → ((p : Out) → w p ≡ fwrite ys p)
    → (v ⨾ w) o ≡ (fwrite xs ⨾ fwrite ys) o
⨾-eq v w xs ys o hv hw = rw (fun_ext hv, fun_ext hw)

fwrite-nil : (o : Out) → fwrite [] o ≡ some o
unfolding fwrite
fwrite-nil o = ground (arith, append-nil o.written)

fread-append : (bs rest : Bytes) → fread (length bs) (bs ++ rest) ≡ some (bs, rest)
unfolding fread
fread-append bs rest =
    ground (arith, length-append bs rest, take-append bs rest, drop-append bs rest)

>>=-eq {ℓ κ} :
    {A : Type ℓ} {B : Type κ} (r : Reader A) (k : A → Reader B) (f g : Bytes) (a : A)
    → r f ≡ some (a, g)
    → (r >>= k) f ≡ k a g
unfolding ◌>>=◌
>>=-eq r k f g a h = rw (◌>>=◌, h)

-- One piece, then the rest.
pub carry-bind {ℓ κ} :
    {A : Type ℓ} {B : Type κ} {v w : Writer} {r : Reader A} (k : A → Reader B) {a : A} {b : B}
    → Carries v r a
    → Carries w (k a) b
    → Carries (v ⨾ w) (r >>= k) b
carry-bind {v} {w} {r} k {a} {b} p q = record {
  bytes = p.bytes ++ q.bytes;
  written = λ o. ⨾-eq v w p.bytes q.bytes o p.written q.written ∙ fwrite-append p.bytes q.bytes o;
  back = λ rest. rw (append_assoc p.bytes q.bytes rest) (
      >>=-eq r k (p.bytes ++ (q.bytes ++ rest)) (q.bytes ++ rest) a (p.back (q.bytes ++ rest))
      ∙ q.back rest);
}

-- A piece behind which nothing more is read.
pub carry-stop {ℓ κ} :
    {A : Type ℓ} {B : Type κ} {w : Writer} {r : Reader A} (k : A → Reader B) {a : A} {b : B}
    → Carries w r a
    → k a ≡ pure b
    → Carries w (r >>= k) b
unfolding pure
carry-stop {r} k {a} p e = record {
  bytes = p.bytes;
  written = p.written;
  back = λ rest. >>=-eq r k (p.bytes ++ rest) rest a (p.back rest) ∙ rw e;
}

-- The last piece of a reader that ends with `pure`.
pub carry-last {ℓ κ} :
    {A : Type ℓ} {B : Type κ} {w : Writer} {r : Reader A} (g : A → B) {a : A}
    → Carries w r a
    → Carries w (r >>= λ x. pure (g x)) (g a)
carry-last g p = carry-stop _ p refl

-- A test that the value passes.
pub carry-test {ℓ} :
    {A : Type ℓ} {w : Writer} (q : Reader A) {r : Reader A} {a : A} (b : Bool)
    → b ≡ false
    → Carries w r a
    → Carries w (if b then q else r) a
carry-test {w} q {r} {a} b h p = subst (λ c. Carries w (if c then q else r) a) (sym h) p

-- The same for a test that has to hold.
pub carry-pass {ℓ} :
    {A : Type ℓ} {w : Writer} (q : Reader A) {r : Reader A} {a : A} (b : Bool)
    → b ≡ true
    → Carries w r a
    → Carries w (if b then r else q) a
carry-pass {w} q {r} {a} b h p = subst (λ c. Carries w (if c then r else q) a) (sym h) p

fread-exact : (bs rest : Bytes) (n : ℕ) → length bs ≡ n → fread n (bs ++ rest) ≡ some (bs, rest)
fread-exact bs rest n h = rw (← h) (fread-append bs rest)

carry-fwrite : (bs : Bytes) (n : ℕ) → length bs ≡ n → Carries (fwrite bs) (fread n) bs
carry-fwrite bs n h = record {
  bytes = bs;
  written = λ o. refl;
  back = λ rest. fread-exact bs rest n h;
}

pub carry-u64 : (v : ℕ) → v < 2 ^ 64 → Carries (write_u64 v) read_u64 v
unfolding write_u64 read_u64
carry-u64 v h =
    subst (Carries (write_u64 v) read_u64) (of_le-le_bytes 8 v h)
      (carry-last of_le (carry-fwrite (le_bytes 8 v) 8 (length-le_bytes 8 v)))

pub carry-i32 : (z : ℤ) → InInt z → Carries (write_i32 z) read_i32 z
unfolding write_i32 read_i32
carry-i32 z h =
    subst (Carries (write_i32 z) read_i32)
      (ap of_word (of_le-le_bytes 4 (to_word z) (to_word-lt z)) ∙ of_word-to_word z h)
      (carry-last (λ bs. of_word (of_le bs))
        (carry-fwrite (le_bytes 4 (to_word z)) 4 (length-le_bytes 4 (to_word z))))

-- A string that `read_str` accepts: no longer than the bound.
abbrev pub FitsText : Bytes → Type 0
FitsText s = IsText s × (length s ≤ max_string)

abbrev pub FitsStr : CString → Type 0
FitsStr none = Unit {0}
FitsStr (some s) = FitsText s

until_nul-IsText : (s : Bytes) → IsText s → until_nul s ≡ s
unfolding until_nul
until_nul-IsText [] h = refl
until_nul-IsText (c ∷ s) (hc, hs) = ground (arith, until_nul-IsText s hs)

small-ne-max : (n : ℕ) → n ≤ max_string → (n == max_u64) ≡ false
small-ne-max n h = ground arith

le-not-ltb : (n m : ℕ) → n ≤ m → ltb m n ≡ false
le-not-ltb n m h = ground arith

pub carry-str : (s : CString) → FitsStr s → Carries (write_str s) read_str s
unfolding write_str read_str
carry-str none h = carry-stop _ (carry-u64 max_u64 (omega arith)) refl
carry-str (some s) (is_text, small) = carry-bind _ (carry-u64 (length s) (omega arith)) (
    carry-test _ _ (small-ne-max (length s) small) (
      carry-test _ _ (le-not-ltb (length s) max_string small) (
        subst
          (λ t. Carries (fwrite s) (fread (length s) >>= λ bs. pure (some (until_nul bs))) (some t))
          (until_nul-IsText s is_text)
          (carry-last (λ bs. some (until_nul bs)) (carry-fwrite s (length s) refl)))))

pub carry-count :
    (limit n : ℕ) → n ≤ limit → limit < 2 ^ 64 → Carries (write_u64 n) (read_count limit) n
unfolding read_count
carry-count limit n h small = carry-stop _ (carry-u64 n (omega arith)) (rw (le-not-ltb n limit h))

-- Nothing is written, and nothing is read.
pub carry-nil {ℓ} : {A : Type ℓ} (a b : A) → a ≡ b → Carries some (pure a) b
unfolding pure
carry-nil a b e = record { bytes = []; written = λ o. sym (fwrite-nil o); back = λ rest. rw e }

pub carry-each_map {ℓ κ} :
    {A : Type ℓ} {B : Type κ} (f : A → B) (w : A → Writer) (r : Reader B) (xs : List A)
    → All (λ x. Carries (w x) r (f x)) xs
    → Carries (write_each w xs) (read_each r (length xs)) (map f xs)
unfolding write_each read_each
carry-each_map f w r [] all = carry-nil [] [] refl
carry-each_map f w r (x ∷ xs) (hx, hxs) =
    carry-bind _ hx (carry-last (λ ys. f x ∷ ys) (carry-each_map f w r xs hxs))

pub carry-each {ℓ} :
    {A : Type ℓ} (w : A → Writer) (r : Reader A) (xs : List A)
    → All (λ x. Carries (w x) r x) xs
    → Carries (write_each w xs) (read_each r (length xs)) xs
carry-each w r xs all =
    subst (Carries (write_each w xs) (read_each r (length xs))) (map-id xs)
      (carry-each_map (λ x. x) w r xs all)

-- An array whose elements change on the way.
pub carry-array_map {ℓ κ} :
    {A : Type ℓ} {B : Type κ} (f : A → B) (w : A → Writer) (r : Reader B) (limit : ℕ) (xs : List A)
    → length xs ≤ limit
    → limit < 2 ^ 64
    → All (λ x. Carries (w x) r (f x)) xs
    → Carries (write_array w xs) (read_array limit r) (map f xs)
unfolding write_array read_array
carry-array_map f w r limit xs fits small all =
    carry-bind _ (carry-count limit (length xs) fits small) (carry-each_map f w r xs all)

module _ {ℓ} {A : Type ℓ} (w : A → Writer) (r : Reader A) (limit : ℕ) where
  pub carry-array :
      (xs : List A)
      → length xs ≤ limit
      → limit < 2 ^ 64
      → All (λ x. Carries (w x) r x) xs
      → Carries (write_array w xs) (read_array limit r) xs
  unfolding write_array read_array
  carry-array xs fits small all =
      carry-bind _ (carry-count limit (length xs) fits small) (carry-each w r xs all)

carry-item : (s : Bytes) → FitsText s → Carries (write_str (some s)) read_item s
unfolding read_item
carry-item s h = carry-last string_or_empty (carry-str (some s) h)

-- A string list that `read_list` accepts.
abbrev pub FitsList : List Bytes → Type 0
FitsList xs = (length xs ≤ max_count) × All FitsText xs

carry-items :
    (xs : List Bytes) → All FitsText xs → All (λ s. Carries (write_str (some s)) read_item s) xs
carry-items [] h = tt
carry-items (s ∷ xs) (hs, hxs) = (carry-item s hs, carry-items xs hxs)

pub carry-list : (xs : List Bytes) → FitsList xs → Carries (write_list xs) read_list xs
unfolding write_list read_list
carry-list xs (fits, items) =
    carry-array _ read_item max_count xs fits (omega arith) (carry-items xs items)

pub All-map {ℓ κ μ} :
    {A : Type ℓ} {P : A → Type κ} {Q : A → Type μ}
    → ((x : A) → P x → Q x)
    → (xs : List A) → All P xs
    → All Q xs
All-map f [] h = tt
All-map f (x ∷ xs) (hx, hxs) = (f x hx, All-map f xs hxs)
