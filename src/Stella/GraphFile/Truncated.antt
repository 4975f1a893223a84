-- ===== src/Stella/GraphFile/Truncated.antt =====
-- Reading a graph file that was cut off (src/stella_cache.c).
use qstar.Prelude.{
  some-eq_some, Bool-cases, ℕ, ◌-◌, ◌≡◌, ◌≢◌, sym, ap, ◌∙◌, subst, [], ◌∷◌, ◌++◌, append-nil,
  Option, Option-cases, none, some, inl, inr, Bytes, length, leb, if◌then◌else◌, arith,
}
use qstar.Graph.State.{Graph}
use qstar.Stella.File.{Out}
use qstar.Stella.Local.{file-IsLocal}
use qstar.Stella.GraphFile.{read_graph_file, write_graph_cache_file, read_graph_cache_file}
use qstar.Stella.GraphFile.RoundTrip.{FitsGraph, cached_graph, carry-file, fwrite-new_file}

-- A new file that was written to the end holds the bytes.
written_bytes :
    (bs : Bytes) (room : ℕ) (o : Out)
    → (if leb (length bs) room
        then some (record { written = bs; room = room - length bs })
        else none)
      ≡ some o
    → o.written ≡ bs
written_bytes bs room o h = elim (Bool-cases (leb (length bs) room)) [
  | inl e ↦
      let same : ◌≡◌ {A = Option Out} (some (record { written = bs; room = room - length bs }))
          (some o) =
        sym
          (ap (λ b. if b then some (record { written = bs; room = room - length bs }) else none) e)
        ∙ h in
      ap (λ (p : Out). p.written) (sym (some-eq_some same))
  | inr e ↦ ground (arith, e, h)
]

append-nil-right : (xs ys : Bytes) → xs ++ ys ≡ [] → ys ≡ []
append-nil-right [] ys h = h
append-nil-right (x ∷ xs) ys h = ground (arith, h)

-- If a graph within the bounds of the format was written to a new file, then every file that holds less
-- than all of its bytes, from the first one on, is refused by the read.
pub read_graph-truncated :
    (g : Graph) (room : ℕ) (o : Out) (kept lost : Bytes)
    → FitsGraph g
    → write_graph_cache_file g (some (record { written = []; room = room })) ≡ some o
    → o.written ≡ kept ++ lost
    → lost ≢ []
    → read_graph_cache_file (some kept) ≡ none
unfolding write_graph_cache_file read_graph_cache_file
read_graph-truncated g room o kept lost fits written parts more =
    elim (Option-cases (read_graph_file kept)) [
      | inl e ↦ ground (arith, e)
      | inr ((a, rest), e) ↦
          let c = carry-file g fits in
          let whole : c.bytes ++ [] ≡ kept ++ lost =
            append-nil c.bytes
            ∙ sym (
                written_bytes c.bytes room o (
                  sym (
                    c.written (record { written = []; room = room }) ∙ fwrite-new_file c.bytes room)
                  ∙ written))
            ∙ parts in
          let again =
            subst (λ f. read_graph_file f ≡ some (cached_graph g, [])) whole (c.back []) in
          absurd (
            more (
              append-nil-right rest lost (
                same_rest a (cached_graph g) (rest ++ lost) []
                  (sym (file-IsLocal kept a rest lost e) ∙ again))))
    ]
  where
    same_rest :
        (a b : Graph) (r s : Bytes)
        → ◌≡◌ {A = Option (Graph × Bytes)} (some (a, r)) (some (b, s))
        → r ≡ s
    same_rest a b r s h = ap (λ (p : Graph × Bytes). p.1) (some-eq_some h)
