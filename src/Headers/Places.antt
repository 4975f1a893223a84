-- ===== src/Headers/Places.antt =====
-- Where public headers are, for src/header.c: under the include directory of their package, or among the
-- outputs of an action.
use mathlib.Core.List.{Memᴰ}
use mathlib.Core.List.Memᴰ
use qstar.Prelude.{
  ℕ, ◌<◌, sym, ap, subst, ◌∙◌, ◌++◌, codes, length, length-append, leb, ltb→lt, lt→ltb,
  none-ne_some, some-eq_some, Bool-cases, any, find, str_eq, str_eq_iff, ◌≡◌, ◌≢◌, ◌↔◌, ◌⊎◌, refl,
  inl, inr, true, false, List, [], ◌∷◌, Option, none, some, Bytes, arith,
}
use qstar.Graph.Target.{Target}
use qstar.Graph.State.{Graph}
use qstar.Graph.Tools.{Genrule}
use qstar.Graph.Lookup.{graph_find_output_owner}
use qstar.Plan.{label_of}
use qstar.Label.{path_max, label_package_path}
use qstar.Paths.Refusals.{starts_with-IsPrefix}
use qstar.Headers.{is_below, is_public_header_root, is_produced}

-- The include directory of a package.
abbrev pub include_dir : Bytes → Bytes
include_dir [] = codes "include/"
include_dir (c ∷ dir) = (c ∷ dir) ++ codes "/include/"

-- The path names something under the include directory of the target's package, which the code
-- looks at if it has room for the directory.
pub record IsUnderInclude (target : Target) (path : Bytes) : Type 0 where
  pub dir : Bytes
  pub dir_eq : label_package_path (label_of target) path_max ≡ some dir
  pub has_room : (dir ≡ []) ⊎ (length (include_dir dir) < path_max)
  pub first : ℕ
  pub rest : Bytes
  pub path_eq : path ≡ include_dir dir ++ first ∷ rest

-- The path is one of the outputs of an action of the graph.
abbrev pub IsOutput : Graph → Bytes → Type 0
IsOutput graph path = (g : Genrule) × Memᴰ g graph.genrules × Memᴰ path g.outputs

is_below-IsPrefix :
    (prefix path : Bytes)
    → (is_below prefix path ≡ true) ↔ ((c : ℕ) × (rest : Bytes) × (path ≡ prefix ++ c ∷ rest))
unfolding is_below
is_below-IsPrefix prefix path = (there, back)
  where
    there : is_below prefix path ≡ true → (c : ℕ) × (rest : Bytes) × (path ≡ prefix ++ c ∷ rest)
    there h =
        let (r, e) = (starts_with-IsPrefix prefix path).0 (ground (arith, h)) in
        let long : length prefix < length path = ltb→lt _ _ (ground (arith, h)) in
        go r e (omega (arith, ap length e, length-append prefix r))
      where
        go :
            (r : Bytes)
            → path ≡ prefix ++ r
            → 0 < length r
            → (c : ℕ) × (rest : Bytes) × (path ≡ prefix ++ c ∷ rest)
        go [] e l = absurd (omega (arith, l))
        go (c ∷ r) e l = (c, r, e)

    back : (c : ℕ) × (rest : Bytes) × (path ≡ prefix ++ c ∷ rest) → is_below prefix path ≡ true
    back (c, r, e) =
        let long : length prefix < length path =
          omega (arith, ap length e, length-append prefix (c ∷ r)) in
        ground (arith, (starts_with-IsPrefix prefix path).1 (c ∷ r, e), lt→ltb _ _ long)

pub is_public_header_root-IsUnderInclude :
    (t : Target) (path : Bytes) → (is_public_header_root t path ≡ true) ↔ IsUnderInclude t path
unfolding is_public_header_root
is_public_header_root-IsUnderInclude t path = go (label_package_path (label_of t) path_max) refl
  where
    same :
        {o : Option Bytes} (u : IsUnderInclude t path)
        → label_package_path (label_of t) path_max ≡ o
        → o ≡ some u.dir
    same u e = sym e ∙ u.dir_eq

    under :
        (dir : Bytes)
        → label_package_path (label_of t) path_max ≡ some dir
        → (dir ≡ []) ⊎ (length (include_dir dir) < path_max)
        → (is_below (include_dir dir) path ≡ true) ↔ IsUnderInclude t path
    under dir e room = (
      λ h.
          let (c, r, f) = (is_below-IsPrefix (include_dir dir) path).0 h in
          record { dir = dir; dir_eq = e; has_room = room; first = c; rest = r; path_eq = f },
      λ u. (is_below-IsPrefix (include_dir dir) path).1 (
        u.first,
        u.rest,
        u.path_eq ∙ ap (λ d. include_dir d ++ u.first ∷ u.rest) (sym (some-eq_some (same u e))),
      ),
    )

    no_room :
        (d : Bytes) (u : IsUnderInclude t path)
        → d ≡ u.dir
        → leb path_max (length (include_dir d)) ≡ true
        → d ≢ []
        → ⊥
    no_room d u e l ne = elim u.has_room [
      | inl q ↦ ne (e ∙ q)
      | inr q ↦
          let same_length : length (include_dir d) ≡ length (include_dir u.dir) =
            ap (λ x. length (include_dir x)) e in
          ground (arith, l, q, same_length)
    ]

    go :
        (o : Option Bytes)
        → label_package_path (label_of t) path_max ≡ o
        → (is_public_header_root t path ≡ true) ↔ IsUnderInclude t path
    go none e =
        rw (is_public_header_root, e)
          (λ h. absurd (ground (arith, h)), λ u. absurd (none-ne_some (same u e)))
    go (some []) e = rw (is_public_header_root, e) (under [] e (inl refl))
    go (some (c ∷ dir)) e = elim (Bool-cases (leb path_max (length (include_dir (c ∷ dir))))) [
      | inr l ↦
          let room : length (include_dir (c ∷ dir)) < path_max = ground (arith, l) in
          rw (is_public_header_root, e, l) (under (c ∷ dir) e (inr room))
      | inl l ↦
          rw (is_public_header_root, e, l)
            (
              λ h. absurd (ground (arith, h)),
              λ u. absurd (no_room (c ∷ dir) u (some-eq_some (same u e)) l (λ q. cc)),
            )
    ]

any-Mem :
    (path : Bytes) (outputs : List Bytes)
    → (any (λ output. str_eq output path) outputs ≡ true) ↔ Memᴰ path outputs
unfolding any
any-Mem path [] = (λ h. absurd (ground (arith, h)), λ m. absurd (Memᴰ.not-nil m))
any-Mem path (o ∷ os) = (
  λ h. elim (Bool-cases (str_eq o path)) [
    | inl e ↦ Memᴰ.head (sym ((str_eq_iff o path).0 e))
    | inr e ↦ Memᴰ.tail ((any-Mem path os).0 (ground (arith, e, h)))
  ],
  λ m. elim (Memᴰ.cases_cons m) [
    | inl e ↦ ground (arith, (str_eq_iff o path).1 (sym e))
    | inr n ↦ ground (arith, (any-Mem path os).1 n)
  ],
)

owner-Mem :
    (path : Bytes) (gs : List Genrule)
    → ((elim (find (λ (g : Genrule). any (λ output. str_eq output path) g.outputs) gs) [
      | none ↦ false
      | some g ↦ true
    ])
        ≡ true)
      ↔ ((g : Genrule) × Memᴰ g gs × Memᴰ path g.outputs)
unfolding find
owner-Mem path [] = (λ h. absurd (ground (arith, h)), λ (g, m, n). absurd (Memᴰ.not-nil m))
owner-Mem path (q ∷ qs) = elim (Bool-cases (any (λ output. str_eq output path) q.outputs)) [
  | inl e ↦ rw e (λ h. (q, Memᴰ.head refl, (any-Mem path q.outputs).0 e), λ d. refl)
  | inr e ↦ rw e (
    λ h. let (g, m, n) = (owner-Mem path qs).0 h in (g, Memᴰ.tail m, n),
    λ (g, m, n). elim (Memᴰ.cases_cons m) [
      | inl same ↦
          let found : any (λ output. str_eq output path) q.outputs ≡ true =
            (any-Mem path q.outputs).1 (subst (λ (x : Genrule). Memᴰ path x.outputs) same n) in
          absurd (ground (arith, e, found))
      | inr later ↦ (owner-Mem path qs).1 (g, later, n)
    ],
  )
]

pub is_produced-IsOutput :
    (graph : Graph) (path : Bytes) → (is_produced graph path ≡ true) ↔ IsOutput graph path
unfolding is_produced graph_find_output_owner
is_produced-IsOutput graph path = owner-Mem path graph.genrules
