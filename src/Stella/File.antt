-- ===== src/Stella/File.antt =====
-- The byte stream of src/stella_cache.c: `fwrite` and `fread`, and the encodings of numbers,
-- strings and string lists on it. A failed `fwrite` or `fread` makes the whole function return -1,
-- which is `none`. Words are stored in the byte order of the supported hosts, least byte first.
pub mod Words
pub mod Carries
pub mod Local
use Words.{le_bytes, of_le}
use mathlib.Core.Option
use qstar.Prelude.{
  ℕ, zero, suc, ◌-◌, ◌+◌, ◌^◌, ℤ, to_word, of_word, Bool, true, false, List, [], ◌∷◌, ◌++◌, Option,
  none, some, Bytes, CString, string_or_empty, length, take, drop, ltb, leb, ◌==◌, if◌then◌else◌,
}

-- A file that is being written: what it holds, and how much more the device takes.
pub record Out : Type 0 where
  pub written : Bytes
  pub room : ℕ

abbrev pub Writer : Type 0
Writer = Out → Option Out

unfoldable pub fwrite : Bytes → Writer
fwrite bs o = elim (leb (length bs) o.room) [
  | true ↦ some (record { written = o.written ++ bs; room = o.room - length bs })
  | false ↦ none
]

-- `a < 0 || b < 0 ? -1 : 0`
infixr 20 ◌⨾◌
unfoldable pub ◌⨾◌ : Writer → Writer → Writer
◌⨾◌ v w o = elim (v o) [ none ↦ none | some o' ↦ w o' ]

unfoldable pub write_each {ℓ} : {A : Type ℓ} → (A → Writer) → List A → Writer
unfolding ◌⨾◌
write_each w [] o = some o
write_each w (x ∷ xs) o = (w x ⨾ write_each w xs) o

-- A file that is being read is the rest of its bytes.
abbrev pub Reader {ℓ} : Type ℓ → Type ℓ
Reader A = Bytes → Option (A × Bytes)

module _ {ℓ} {A : Type ℓ} where
  unfoldable pub pure : A → Reader A
  pure a f = some (a, f)

  unfoldable pub failure : Reader A
  failure f = none

infixl 5 ◌>>=◌
unfoldable pub ◌>>=◌ {ℓ κ} : {A : Type ℓ} {B : Type κ} → Reader A → (A → Reader B) → Reader B
◌>>=◌ r k f = elim (r f) [ none ↦ none | some (a, g) ↦ k a g ]

unfoldable pub fread : ℕ → Reader Bytes
fread n f = if leb n (length f) then some (take n f, drop n f) else none

unfoldable pub read_each {ℓ} : {A : Type ℓ} → Reader A → ℕ → Reader (List A)
unfolding ◌>>=◌ pure
read_each r zero = pure []
read_each r (suc n) = do x ← r; xs ← read_each r n; pure (x ∷ xs)

unfoldable pub write_u64 : ℕ → Writer
unfolding fwrite le_bytes
write_u64 v = fwrite (le_bytes 8 v)

unfoldable pub read_u64 : Reader ℕ
unfolding ◌>>=◌ pure fread of_le
read_u64 = do bs ← fread 8; pure (of_le bs)

unfoldable pub write_i32 : ℤ → Writer
unfolding fwrite le_bytes
write_i32 v = fwrite (le_bytes 4 (to_word v))

unfoldable pub read_i32 : Reader ℤ
unfolding ◌>>=◌ pure fread of_le
read_i32 = do bs ← fread 4; pure (of_word (of_le bs))

-- The length that stands for NULL.
abbrev pub max_u64 : ℕ
max_u64 = 2 ^ 64 - 1

-- QSTAR_STELLA_MAX_STRING
abbrev pub max_string : ℕ
max_string = 16777216

unfoldable pub write_str : CString → Writer
unfolding write_u64 fwrite ◌⨾◌
write_str none = write_u64 max_u64
write_str (some s) = write_u64 (length s) ⨾ fwrite s

-- What a buffer says as a C string: the bytes before the first NUL.
unfoldable pub until_nul : Bytes → Bytes
until_nul [] = []
until_nul (c ∷ s) = if c == 0 then [] else c ∷ until_nul s

unfoldable pub read_str : Reader CString
unfolding ◌>>=◌ pure failure fread read_u64 until_nul
read_str = do
  n ← read_u64
  if n == max_u64
      then pure none
      else if ltb max_string n
      then failure
      else do s ← fread n; pure (some (until_nul s))

-- The bound on the counts that are read back.
abbrev pub max_count : ℕ
max_count = 1000000

-- `read_u64(f, &n) < 0 || n > limit`
unfoldable pub read_count : ℕ → Reader ℕ
unfolding ◌>>=◌ pure failure read_u64
read_count limit = do n ← read_u64; if ltb limit n then failure else pure n

-- An array behind its length.
unfoldable pub write_array {ℓ} : {A : Type ℓ} → (A → Writer) → List A → Writer
unfolding write_u64 write_each ◌⨾◌
write_array w xs = write_u64 (length xs) ⨾ write_each w xs

unfoldable pub read_array {ℓ} : {A : Type ℓ} → ℕ → Reader A → Reader (List A)
unfolding ◌>>=◌ read_count read_each
read_array limit r = do n ← read_count limit; read_each r n

unfoldable pub write_list : List Bytes → Writer
unfolding write_array write_str
write_list = write_array (λ s. write_str (some s))

-- An entry that is read, as `qstar_string_list_push` copies it.
unfoldable pub read_item : Reader Bytes
unfolding ◌>>=◌ pure read_str
read_item = do s ← read_str; pure (string_or_empty s)

unfoldable pub read_list : Reader (List Bytes)
unfolding read_array read_item
read_list = read_array max_count read_item
