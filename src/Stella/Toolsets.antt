-- ===== src/Stella/Toolsets.antt =====
-- Toolsets in src/stella_cache.c. A role is read by way of `qstar_toolset_add_role` (src/graph.c),
-- which refuses an empty and a repeated role; then the roles are sorted.
pub mod RoundTrip
use Prim.Native.Nat.{Ordering}
use qstar.Prelude.{
  ℕ, zero, suc, ◌≡◌, Bool, true, false, not, ◌&&◌, List, [], ◌∷◌, ◌++◌, Option, none, some, Bytes,
  CString, length, str_eq, strcmp, any, if◌then◌else◌,
}
use qstar.Stella.File.{
  Writer, Reader, ◌⨾◌, pure, failure, ◌>>=◌, write_u64, read_u64, write_i32, read_i32, write_str,
  read_str, max_count, read_count, write_array, read_array, write_list, read_list, write_each,
  read_each,
}
use qstar.Graph.Tools.{Toolset, ToolRole}

-- The tests of `qstar_toolset_add_role`: the role is not empty and not there yet.
unfoldable pub can_add_role : List ToolRole → CString → Bool
unfolding any str_eq
can_add_role roles none = false
can_add_role roles (some []) = false
can_add_role roles (some (c ∷ s)) = not (any (λ r. str_eq r.role (c ∷ s)) roles)

-- `qstar_toolset_add_role`, with the argv that the caller stores behind the pointer it returns.
unfoldable pub toolset_add_role : List ToolRole → CString → List Bytes → Option (List ToolRole)
unfolding can_add_role
toolset_add_role roles none argv = none
toolset_add_role roles (some s) argv =
    if can_add_role roles (some s)
    then some (roles ++ record { role = s; argv = argv } ∷ [])
    else none

-- `compare_tool_role(a, b) > 0`
unfoldable pub role_after : ToolRole → ToolRole → Bool
unfolding strcmp
role_after a b = elim (strcmp a.role b.role) [ Ordering.gt ↦ true | _ ↦ false ]

insert_role : ToolRole → List ToolRole → List ToolRole
unfolding role_after
insert_role r [] = r ∷ []
insert_role r (s ∷ ss) =
    let later = s ∷ insert_role r ss in if role_after r s then later else r ∷ s ∷ ss

-- `qsort` by the role. The roles differ, so every sort gives this list.
unfoldable pub toolset_sort_roles : List ToolRole → List ToolRole
unfolding insert_role
toolset_sort_roles [] = []
toolset_sort_roles (r ∷ rs) = insert_role r (toolset_sort_roles rs)

unfoldable pub write_role : ToolRole → Writer
unfolding ◌⨾◌ write_str write_list
write_role r = write_str (some r.role) ⨾ write_list r.argv

-- `!argv`
unfoldable pub checked {ℓ} : {A : Type ℓ} → Option A → Reader A
unfolding pure failure
checked none = failure
checked (some a) = pure a

-- The role is checked before its argv is read.
unfoldable pub read_role : List ToolRole → Reader (List ToolRole)
unfolding ◌>>=◌ failure checked read_str read_list can_add_role toolset_add_role
read_role roles = do
  role ← read_str
  if can_add_role roles role
      then (do argv ← read_list; checked (toolset_add_role roles role argv))
      else failure

unfoldable pub read_roles : ℕ → List ToolRole → Reader (List ToolRole)
unfolding ◌>>=◌ pure read_role
read_roles zero roles = pure roles
read_roles (suc n) roles = do more ← read_role roles; read_roles n more

unfoldable pub write_toolset : Toolset → Writer
unfolding ◌⨾◌ write_str write_i32 write_u64 write_list write_each write_role
write_toolset x =
    write_str x.label
    ⨾ write_str x.name
    ⨾ write_str x.fragment_dir
    ⨾ write_str x.origin_file
    ⨾ write_i32 x.origin_line
    ⨾ write_u64 (length x.roles)
    ⨾ write_each write_role x.roles
    ⨾ write_list x.path_tools
    ⨾ write_list x.response_file_tools
    ⨾ write_str x.response_files
    ⨾ write_str x.response_style
    ⨾ write_str x.allow_absolute_tools

unfoldable pub read_toolset : Reader Toolset
unfolding ◌>>=◌ pure read_str read_i32 read_list read_count read_roles toolset_sort_roles
read_toolset = do
  label ← read_str
  name ← read_str
  fragment_dir ← read_str
  origin_file ← read_str
  origin_line ← read_i32
  n ← read_count max_count
  roles ← read_roles n []
  path_tools ← read_list
  response_file_tools ← read_list
  response_files ← read_str
  response_style ← read_str
  allow_absolute_tools ← read_str
  pure (record {
    label = label;
    name = name;
    fragment_dir = fragment_dir;
    origin_file = origin_file;
    origin_line = origin_line;
    roles = toolset_sort_roles roles;
    path_tools = path_tools;
    response_file_tools = response_file_tools;
    response_files = response_files;
    response_style = response_style;
    allow_absolute_tools = allow_absolute_tools;
  })
