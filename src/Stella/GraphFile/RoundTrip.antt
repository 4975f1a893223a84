-- ===== src/Stella/GraphFile/RoundTrip.antt =====
-- Writing and reading the graph file (src/stella_cache.c).
use mathlib.Core.Option
use qstar.Prelude.{
  ℕ, ◌-◌, InInt, ◌≤◌, ◌≡◌, ap, ◌∙◌, [], map, append-nil, none, some, Bytes, All, length, arith, leb,
  if◌then◌else◌,
}
use qstar.Stella.File.{fwrite, max_count}
use qstar.Stella.File.Carries.{
  Carries, carry-bind, carry-last, carry-i32, carry-str, carry-list, carry-array, carry-array_map,
  carry-u64, FitsStr, FitsList, All-map,
}
use qstar.Stella.Providers.{write_language_provider, read_language_provider}
use qstar.Stella.Targets.{write_target, read_target}
use qstar.Stella.Toolsets.{write_toolset, read_toolset}
use qstar.Stella.Rules.{
  write_genrule, read_genrule, write_stage, read_stage, write_family, read_family,
  write_package_alias, read_package_alias,
}
use qstar.Graph.State.{Graph}
use qstar.Stella.Providers.RoundTrip.{FitsLanguageProvider, carry-language_provider}
use qstar.Stella.Targets.RoundTrip.{FitsTarget, carry-target, without_tests}
use qstar.Stella.Toolsets.RoundTrip.{FitsToolset, carry-toolset}
use qstar.Stella.Rules.RoundTrip.{
  FitsGenrule, carry-genrule, FitsStage, carry-stage, FitsTargetFamily, carry-family,
  FitsPackageAlias, carry-package_alias, FitsProject, carry-project,
}
use qstar.Stella.GraphFile.{
  graph_magic, plan_abi, empty_graph, write_graph, read_graph, write_graph_file, read_graph_file,
  write_graph_cache_file, read_graph_cache_file,
}

pub record FitsGraph (g : Graph) : Type 0 where
  pub package_root : FitsStr g.package_root
  pub generator : FitsStr g.generator
  pub requested_generator : FitsStr g.requested_generator
  pub build_dir_override : FitsStr g.build_dir_override
  pub project : FitsProject g.project
  pub uses_file_globs : InInt g.uses_file_globs
  pub platform : FitsStr g.platform
  pub evaluated_fragments : FitsList g.evaluated_fragments
  pub packages : (length g.packages ≤ max_count) × All FitsPackageAlias g.packages
  pub toolsets : (length g.toolsets ≤ max_count) × All FitsToolset g.toolsets
  pub language_providers :
      (length g.language_providers ≤ max_count) × All FitsLanguageProvider g.language_providers
  pub targets : (length g.targets ≤ max_count) × All FitsTarget g.targets
  pub genrules : (length g.genrules ≤ max_count) × All FitsGenrule g.genrules
  pub stages : (length g.stages ≤ max_count) × All FitsStage g.stages
  pub families : (length g.families ≤ max_count) × All FitsTargetFamily g.families

-- What the file keeps of a graph.
unfoldable pub cached_graph : Graph → Graph
unfolding without_tests
cached_graph g = record empty_graph {
  package_root = g.package_root;
  generator = g.generator;
  requested_generator = g.requested_generator;
  build_dir_override = g.build_dir_override;
  project = g.project;
  uses_file_globs = g.uses_file_globs;
  platform = g.platform;
  evaluated_fragments = g.evaluated_fragments;
  packages = g.packages;
  toolsets = g.toolsets;
  language_providers = g.language_providers;
  targets = map without_tests g.targets;
  genrules = g.genrules;
  stages = g.stages;
  families = g.families;
}

carry-graph : (g : Graph) → FitsGraph g → Carries (write_graph g) read_graph (cached_graph g)
unfolding write_graph read_graph cached_graph
carry-graph g h = carry-bind _ (carry-str g.package_root h.package_root) (
    carry-bind _ (carry-str g.generator h.generator) (
      carry-bind _ (carry-str g.requested_generator h.requested_generator) (
        carry-bind _ (carry-str g.build_dir_override h.build_dir_override) (
          carry-bind _ (carry-project g.project h.project) (
            carry-bind _ (carry-i32 g.uses_file_globs h.uses_file_globs) (
              carry-bind _ (carry-str g.platform h.platform) (
                carry-bind _ (carry-list g.evaluated_fragments h.evaluated_fragments) (
                  carry-bind _
                    (carry-array write_package_alias read_package_alias max_count g.packages
                      h.packages.0 (omega arith)
                      (All-map carry-package_alias g.packages h.packages.1))
                    (carry-bind _
                      (carry-array write_toolset read_toolset max_count g.toolsets h.toolsets.0
                        (omega arith) (All-map carry-toolset g.toolsets h.toolsets.1))
                      (carry-bind _
                        (carry-array write_language_provider read_language_provider max_count
                          g.language_providers h.language_providers.0 (omega arith)
                          (All-map carry-language_provider g.language_providers
                            h.language_providers.1))
                        (carry-bind _
                          (carry-array_map without_tests write_target read_target max_count
                            g.targets h.targets.0 (omega arith)
                            (All-map carry-target g.targets h.targets.1))
                          (carry-bind _
                            (carry-array write_genrule read_genrule max_count g.genrules
                              h.genrules.0 (omega arith)
                              (All-map carry-genrule g.genrules h.genrules.1))
                            (carry-bind _
                              (carry-array write_stage read_stage max_count g.stages h.stages.0
                                (omega arith) (All-map carry-stage g.stages h.stages.1))
                              (carry-last _ (
                                carry-array write_family read_family max_count g.families
                                  h.families.0 (omega arith)
                                  (All-map carry-family g.families h.families.1))))))))))))))))

graph_magic-FitsStr : FitsStr (some graph_magic)
graph_magic-FitsStr = omega arith

pub carry-file :
    (g : Graph) → FitsGraph g → Carries (write_graph_file g) read_graph_file (cached_graph g)
unfolding write_graph_file read_graph_file
carry-file g h =
    carry-bind _ (carry-str (some graph_magic) graph_magic-FitsStr)
      (carry-bind _ (carry-u64 plan_abi (omega arith)) (carry-graph g h))

pub fwrite-new_file :
    (bs : Bytes) (room : ℕ)
    → fwrite bs (record { written = []; room = room }) ≡ (
        if leb (length bs) room
        then some (record { written = bs; room = room - length bs })
        else none)
unfolding fwrite
fwrite-new_file bs room = ground arith

-- For a graph within the bounds of the format there is one sequence of bytes that a new graph file
-- holds after the write, which succeeds exactly if the device has room for them; and from these bytes
-- the read gives the graph back, less what the format does not keep.
pub read-write_graph :
    (g : Graph) (room : ℕ)
    → FitsGraph g
    → (bs : Bytes) × (write_graph_cache_file g (some (record { written = []; room = room })) ≡ (
        if leb (length bs) room
        then some (record { written = bs; room = room - length bs })
        else none))
      × (read_graph_cache_file (some bs) ≡ some (cached_graph g))
unfolding write_graph_cache_file read_graph_cache_file
read-write_graph g room h =
    let c = carry-file g h in
    (
      c.bytes,
      c.written (record { written = []; room = room }) ∙ fwrite-new_file c.bytes room,
      rw (← append-nil c.bytes) (ap (Option.map (λ r. r.0)) (c.back [])),
    )
