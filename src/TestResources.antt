-- ===== src/TestResources.antt =====
-- The test resources of src/graph.c and src/test_resources.c: their declarations, the requests of
-- the tests, their validation, and the array `used` of what is in use.
pub mod Shares
pub mod Rules
pub mod Adding
use qstar.Prelude.{
  ℕ, ℤ, pos, ◌+ℤ◌, ◌-ℤ◌, leb_ℤ, zero, suc, ◌-◌, Bool, true, false, not, ◌&&◌, ◌||◌, List, [], ◌∷◌,
  ◌++◌, Option, none, some, Bytes, CString, string_or_empty, present, codes, str_eq, leb, ltb, ◌==◌,
  any, if◌then◌else◌,
}
use qstar.Graph.Target.{Target, TestResourceRequest}
use qstar.Graph.State.{Graph, TestResource}
use qstar.Graph.Lookup.{is_label}

-- A pointer into `test_resources`: the position and the element it points to.
abbrev pub ResourceRef : Type 0
ResourceRef = ℕ × TestResource

unfoldable pub find_from : ℕ → List TestResource → Bytes → Option ResourceRef
unfolding is_label
find_from i [] name = none
find_from i (r ∷ rs) name = elim (is_label r.name name) [
  | true ↦ some (i, r)
  | false ↦ find_from (suc i) rs name
]

-- The callers pass a name; `resource_index` is the position of what is found, and its -1 is `none`.
unfoldable pub find_test_resource : Graph → CString → Option ResourceRef
unfolding find_from
find_test_resource graph none = none
find_test_resource graph (some name) = find_from 0 graph.test_resources name

-- Memory does not run out.
unfoldable pub add_test_resource : Graph → CString → CString → ℤ → Option (Graph × TestResource)
unfolding find_test_resource
add_test_resource graph name origin_file origin_line =
    let resource : TestResource = record {
      name = some (string_or_empty name);
      origin_file = some (string_or_empty origin_file);
      origin_line = origin_line;
      description = some [];
      capacity = pos 0;
    } in
    if present name
    then (elim (find_test_resource graph name) [
      | some r ↦ none
      | none ↦
          some (record graph { test_resources = graph.test_resources ++ resource ∷ [] }, resource)
    ])
    else none

unfoldable pub requests : List TestResourceRequest → Bytes → Bool
unfolding any is_label
requests rs name = any (λ r. is_label r.name name) rs

unfoldable pub add_test_resource_request : Target → Bytes → ℤ → Option Target
unfolding requests
add_test_resource_request target name amount =
    if requests target.test_resources name
    then none
    else some (record target {
      test_resources = target.test_resources ++ record { name = some name; amount = amount } ∷ [];
    })

-- What a running test holds of each resource is in `used`; a cell that no resource has is not read.
-- The code's cells and sums are of type `int`: these integers are theirs as long as no sum overflows.
abbrev pub Used : Type 0
Used = ℕ → ℤ

unfoldable pub available : Graph → Used → List TestResourceRequest → Bool
unfolding find_test_resource ◌+ℤ◌
available graph used [] = true
available graph used (r ∷ rs) = elim (find_test_resource graph r.name) [
  | none ↦ false
  | some (index, resource) ↦
      leb_ℤ (used index +ℤ r.amount) resource.capacity && available graph used rs
]

unfoldable pub resources_available : Graph → Used → Target → Bool
unfolding available
resources_available graph used target = available graph used target.test_resources

-- `used[index] += delta`
unfoldable pub add_at : Used → ℕ → ℤ → Used
unfolding ◌+ℤ◌
add_at used index delta k = if k == index then used k +ℤ delta else used k

unfoldable pub change : Graph → Used → List TestResourceRequest → Bool → Used
unfolding add_at find_test_resource ◌-ℤ◌
change graph used [] acquire = used
change graph used (r ∷ rs) acquire = elim (find_test_resource graph r.name) [
  | none ↦ change graph used rs acquire
  | some (index, resource) ↦
      change graph (add_at used index (if acquire then r.amount else pos 0 -ℤ r.amount)) rs acquire
]

unfoldable pub change_resources : Graph → Used → Target → Bool → Used
unfolding change
change_resources graph used target acquire = change graph used target.test_resources acquire
