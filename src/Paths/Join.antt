-- ===== src/Paths/Join.antt =====
-- `qstar_path_join` and `qstar_dirname` of src/graph.c.
use qstar.Prelude.{
  ℕ, ◌+◌, ◌≡◌, ◌≢◌, false, Bool-cases, inl, inr, ◌∷◌, ◌++◌, none, some, Bytes, codes, length, ltb,
  if◌then◌else◌, str_eq, str_eq_iff, All, arith,
}
use qstar.Label.Split.{split_last-last}
use qstar.Paths.{dirname, path_join}

not_dot_dir : (a : Bytes) → a ≢ codes "." → str_eq a (codes ".") ≡ false
not_dot_dir a h = elim (Bool-cases (str_eq a (codes "."))) [
  | inl e ↦ absurd (h ((str_eq_iff a (codes ".")).0 e))
  | inr e ↦ e
]

-- A file name behind a directory other than `.`: joining gives both with a slash between them exactly if
-- the buffer has room for that, and the directory's name of the result is the directory.
pub dirname-path_join :
    (c : ℕ) (dir name : Bytes) (n : ℕ)
    → c ∷ dir ≢ codes "."
    → All (λ d. d ≢ b'/') name
    → (path_join (some (c ∷ dir)) name n ≡ (
        if ltb (length (c ∷ dir) + 1 + length name) n
        then some ((c ∷ dir) ++ b'/' ∷ name)
        else none))
      × (dirname ((c ∷ dir) ++ b'/' ∷ name) n
          ≡ (if ltb (length (c ∷ dir)) n then some (c ∷ dir) else none))
unfolding path_join dirname str_eq
dirname-path_join c dir name n h k =
    (ground (arith, not_dot_dir (c ∷ dir) h), ground (arith, split_last-last b'/' (c ∷ dir) name k))
