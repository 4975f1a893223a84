-- ===== src/Stella/Toolsets/RoundTrip.antt =====
-- Writing and reading toolsets (src/stella_cache.c).
use qstar.Prelude.{
  InInt, ◌≤◌, ◌≡◌, refl, sym, ap, ◌∙◌, subst, true, false, List, [], ◌∷◌, ◌++◌, append_assoc,
  append-nil, some, length, if◌then◌else◌, arith,
}
use qstar.Stella.File.{pure, ◌>>=◌, write_str, read_str, max_count, write_each}
use qstar.Stella.File.Carries.{
  Carries, carry-bind, carry-last, carry-i32, carry-str, carry-count, carry-list, FitsStr, FitsList,
}
use qstar.Stella.File.Carries.{carry-pass, carry-stop, carry-nil, FitsText}
use qstar.Graph.Tools.{Toolset, ToolRole}
use qstar.Stella.Toolsets.{
  can_add_role, toolset_add_role, role_after, insert_role, toolset_sort_roles, write_role, checked,
  read_role, read_roles, write_toolset, read_toolset,
}

-- The roles `rs` can be added, one by one, behind the roles `before`.
abbrev pub FitsRoles : List ToolRole → List ToolRole → Type 0
FitsRoles before [] = Unit {0}
FitsRoles before (r ∷ rs) =
    (can_add_role before (some r.role) ≡ true)
    × FitsText r.role
    × FitsList r.argv
    × FitsRoles (before ++ r ∷ []) rs

-- No role stands behind a smaller one.
abbrev pub IsSorted : List ToolRole → Type 0
IsSorted [] = Unit {0}
IsSorted (r ∷ []) = Unit {0}
IsSorted (r ∷ s ∷ rs) = (role_after r s ≡ false) × IsSorted (s ∷ rs)

-- Sorting leaves sorted roles as they are.
pub sort_roles-IsSorted : (rs : List ToolRole) → IsSorted rs → toolset_sort_roles rs ≡ rs
unfolding toolset_sort_roles insert_role
sort_roles-IsSorted [] h = refl
sort_roles-IsSorted (r ∷ []) h = refl
sort_roles-IsSorted (r ∷ s ∷ rs) (ordered, h) =
    ap (insert_role r) (sort_roles-IsSorted (s ∷ rs) h)
    ∙ ap (λ b. if b then s ∷ insert_role r rs else r ∷ s ∷ rs) ordered

carry-role :
    (before : List ToolRole) (r : ToolRole)
    → can_add_role before (some r.role) ≡ true
    → FitsText r.role
    → FitsList r.argv
    → Carries (write_role r) (read_role before) (before ++ r ∷ [])
unfolding write_role read_role toolset_add_role checked
carry-role before r new name argv =
    carry-bind _ (carry-str (some r.role) name)
      (carry-pass _ _ new (carry-stop _ (carry-list r.argv argv) (rw new)))

carry-roles :
    (before rs : List ToolRole)
    → FitsRoles before rs
    → Carries (write_each write_role rs) (read_roles (length rs) before) (before ++ rs)
unfolding write_each read_roles
carry-roles before [] h = carry-nil before (before ++ []) (sym (append-nil before))
carry-roles before (r ∷ rs) (new, name, argv, h) =
    subst (Carries (write_each write_role (r ∷ rs)) (read_roles (length (r ∷ rs)) before))
      (append_assoc before (r ∷ []) rs)
      (carry-bind _ (carry-role before r new name argv) (carry-roles (before ++ r ∷ []) rs h))

pub record FitsToolset (x : Toolset) : Type 0 where
  pub label : FitsStr x.label
  pub name : FitsStr x.name
  pub fragment_dir : FitsStr x.fragment_dir
  pub origin_file : FitsStr x.origin_file
  pub origin_line : InInt x.origin_line
  pub role_count : length x.roles ≤ max_count
  pub roles : FitsRoles [] x.roles
  pub sorted : IsSorted x.roles
  pub path_tools : FitsList x.path_tools
  pub response_file_tools : FitsList x.response_file_tools
  pub response_files : FitsStr x.response_files
  pub response_style : FitsStr x.response_style
  pub allow_absolute_tools : FitsStr x.allow_absolute_tools

pub carry-toolset : (x : Toolset) → FitsToolset x → Carries (write_toolset x) read_toolset x
unfolding write_toolset read_toolset
carry-toolset x h = carry-bind _ (carry-str x.label h.label) (
    carry-bind _ (carry-str x.name h.name) (
      carry-bind _ (carry-str x.fragment_dir h.fragment_dir) (
        carry-bind _ (carry-str x.origin_file h.origin_file) (
          carry-bind _ (carry-i32 x.origin_line h.origin_line) (
            carry-bind _ (carry-count max_count (length x.roles) h.role_count (omega arith)) (
              carry-bind _ (carry-roles [] x.roles h.roles) (
                carry-bind _ (carry-list x.path_tools h.path_tools) (
                  carry-bind _ (carry-list x.response_file_tools h.response_file_tools) (
                    carry-bind _ (carry-str x.response_files h.response_files) (
                      carry-bind _ (carry-str x.response_style h.response_style) (
                        subst
                          (λ rs.
                            Carries (write_str x.allow_absolute_tools)
                              (read_str >>= λ s. pure (record x {
                                roles = toolset_sort_roles x.roles;
                                allow_absolute_tools = s;
                              }))
                              (record x { roles = rs }))
                          (sort_roles-IsSorted x.roles h.sorted)
                          (carry-last _
                            (carry-str x.allow_absolute_tools h.allow_absolute_tools)))))))))))))
