-- ===== src/Graph/Lookup.antt =====
-- The linear searches of the graph by label (src/graph.c, src/plan.c). A pointer to an element is the
-- element, NULL is `none`. Labels are never NULL: every declaration copies one.
use qstar.Prelude.{
  ℕ, suc, Bool, true, false, List, [], ◌∷◌, Option, none, some, Bytes, CString, string_or_empty,
  str_eq, any, find,
}
use qstar.Graph.Target.{Target}
use qstar.Graph.Tools.{Genrule, Stage, Toolset, PackageAlias}
use qstar.Graph.State.{Graph}

-- `strcmp(field, label) == 0`
unfoldable pub is_label : CString → Bytes → Bool
unfolding str_eq
is_label field label = str_eq (string_or_empty field) label

-- The index of the first target with the label: `target_index`.
unfoldable pub index_from : ℕ → List Target → Bytes → Option ℕ
unfolding is_label
index_from n [] label = none
index_from n (t ∷ ts) label = elim (is_label t.label label) [
  | true ↦ some n
  | false ↦ index_from (suc n) ts label
]

unfoldable pub target_index : Graph → Bytes → Option ℕ
unfolding index_from
target_index graph label = index_from 0 graph.targets label

unfoldable pub find_target : Graph → Bytes → Option Target
unfolding find is_label
find_target graph label = find (λ t. is_label t.label label) graph.targets

unfoldable pub has_target : Graph → Bytes → Bool
unfolding any is_label
has_target graph label = any (λ t. is_label t.label label) graph.targets

unfoldable pub has_genrule : Graph → Bytes → Bool
unfolding any is_label
has_genrule graph label = any (λ t. is_label t.label label) graph.genrules

unfoldable pub has_stage : Graph → Bytes → Bool
unfolding any is_label
has_stage graph label = any (λ t. is_label t.label label) graph.stages

unfoldable pub has_config : Graph → Bytes → Bool
unfolding any is_label
has_config graph label = any (λ t. is_label t.label label) graph.configs

unfoldable pub graph_find_genrule : Graph → Bytes → Option Genrule
unfolding find is_label
graph_find_genrule graph label = find (λ t. is_label t.label label) graph.genrules

unfoldable pub graph_find_stage : Graph → Bytes → Option Stage
unfolding find is_label
graph_find_stage graph label = find (λ t. is_label t.label label) graph.stages

-- `toolset->label && strcmp(toolset->label, label) == 0`
unfoldable pub is_set_label : CString → Bytes → Bool
unfolding str_eq
is_set_label none label = false
is_set_label (some s) label = str_eq s label

unfoldable pub graph_find_toolset : Graph → CString → Option Toolset
unfolding find is_set_label
graph_find_toolset graph none = none
graph_find_toolset graph (some []) = none
graph_find_toolset graph (some (c ∷ s)) = find (λ t. is_set_label t.label (c ∷ s)) graph.toolsets

unfoldable pub has_toolset : Graph → CString → Bool
unfolding graph_find_toolset
has_toolset graph label = elim (graph_find_toolset graph label) [ none ↦ false | some t ↦ true ]

unfoldable pub graph_find_package_alias : Graph → Bytes → Option PackageAlias
unfolding find is_label
graph_find_package_alias graph alias = find (λ p. is_label p.alias alias) graph.packages

-- The action that produces a path.
unfoldable pub graph_find_output_owner : Graph → Bytes → Option Genrule
unfolding find any str_eq
graph_find_output_owner graph path =
    find (λ g. any (λ output. str_eq output path) g.outputs) graph.genrules
