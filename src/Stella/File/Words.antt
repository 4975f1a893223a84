-- ===== src/Stella/File/Words.antt =====
-- Unsigned words as bytes, least byte first.
use native.Mathlib.Nat.{pow-suc}
use qstar.Prelude.{
  ℕ, zero, suc, ◌+◌, ◌*◌, ◌/◌, ◌%◌, ◌^◌, ◌<◌, ◌≡◌, refl, [], ◌∷◌, Bytes, length, arith, ap,
}

-- The `w` low bytes of `v`.
unfoldable pub le_bytes : ℕ → ℕ → Bytes
le_bytes zero v = []
le_bytes (suc w) v = v % 256 ∷ le_bytes w (v / 256)

unfoldable pub of_le : Bytes → ℕ
of_le [] = 0
of_le (b ∷ bs) = b + 256 * of_le bs

pub length-le_bytes : (w v : ℕ) → length (le_bytes w v) ≡ w
unfolding le_bytes
length-le_bytes zero v = refl
length-le_bytes (suc w) v = ap suc (length-le_bytes w (v / 256))

-- A number that fits into `w` bytes is read back from them.
pub of_le-le_bytes : (w v : ℕ) → v < 256 ^ w → of_le (le_bytes w v) ≡ v
unfolding le_bytes of_le
of_le-le_bytes zero v h = omega arith
of_le-le_bytes (suc w) v h =
    let small : v / 256 < 256 ^ w = omega (arith, pow-suc 256 w) in
    omega (arith, of_le-le_bytes w (v / 256) small)
