-- ===== src/Stella/GraphFile.antt =====
-- The graph file of src/stella_cache.c. Allocation and `fclose` succeed here.
pub mod RoundTrip
pub mod Truncated
use mathlib.Core.Option
use qstar.Prelude.{
  ℕ, Bool, false, ℤ, pos, List, [], Option, none, some, Bytes, CString, codes, str_eq, ◌==◌,
  if◌then◌else◌,
}
use qstar.Stella.File.{
  Out, Writer, Reader, ◌⨾◌, pure, failure, ◌>>=◌, write_u64, read_u64, write_i32, read_i32,
  write_str, read_str, max_count, read_count, write_array, read_array, write_list, read_list,
  write_each, read_each,
}
use qstar.Stella.Providers.{write_language_provider, read_language_provider}
use qstar.Stella.Targets.{write_target, read_target}
use qstar.Stella.Toolsets.{write_toolset, read_toolset}
use qstar.Stella.Rules.{
  write_genrule, read_genrule, write_stage, read_stage, write_family, read_family,
  write_package_alias, read_package_alias, write_project, read_project,
}
use qstar.Graph.State.{Graph}

-- QSTAR_STELLA_GRAPH_MAGIC
abbrev pub graph_magic : Bytes
graph_magic = codes "qstar-stella-graph-cache-v8"

-- QSTAR_STELLA_PLAN_ABI
abbrev pub plan_abi : ℕ
plan_abi = 16

-- `qstar_graph_init`
abbrev pub empty_graph : Graph
empty_graph = record {
  targets = [];
  configs = [];
  toolsets = [];
  language_providers = [];
  package_root = none;
  packages = [];
  genrules = [];
  stages = [];
  families = [];
  test_suites = [];
  test_resources = [];
  commands = [];
  project_options = [];
  project_option_overrides = [];
  variants = [];
  lint_diagnostics = [];
  evaluated_fragments = [];
  project = record {
    present = pos 0;
    name = none;
    version = none;
    root = none;
    build_dir = none;
    generated_dir = none;
    compile_commands = none;
    action_cache = none;
  };
  generator = none;
  requested_generator = none;
  build_dir_override = none;
  platform = none;
  cached_actions = [];
  cached_action_plan_loaded = pos 0;
  error = [];
  error_file = [];
  error_field = [];
  error_label = [];
  error_line = pos 0;
  uses_file_globs = pos 0;
}

-- What the file says behind the magic and the version.
unfoldable pub write_graph : Graph → Writer
unfolding ◌⨾◌ write_str write_i32 write_list write_array write_project write_package_alias
    write_toolset write_language_provider write_target write_genrule write_stage write_family
write_graph g =
    write_str g.package_root
    ⨾ write_str g.generator
    ⨾ write_str g.requested_generator
    ⨾ write_str g.build_dir_override
    ⨾ write_project g.project
    ⨾ write_i32 g.uses_file_globs
    ⨾ write_str g.platform
    ⨾ write_list g.evaluated_fragments
    ⨾ write_array write_package_alias g.packages
    ⨾ write_array write_toolset g.toolsets
    ⨾ write_array write_language_provider g.language_providers
    ⨾ write_array write_target g.targets
    ⨾ write_array write_genrule g.genrules
    ⨾ write_array write_stage g.stages
    ⨾ write_array write_family g.families

unfoldable pub read_graph : Reader Graph
unfolding ◌>>=◌ pure read_str read_i32 read_list read_array read_project read_package_alias
    read_toolset read_language_provider read_target read_genrule read_stage read_family
read_graph = do
  package_root ← read_str
  generator ← read_str
  requested_generator ← read_str
  build_dir_override ← read_str
  project ← read_project
  uses_file_globs ← read_i32
  platform ← read_str
  evaluated_fragments ← read_list
  packages ← read_array max_count read_package_alias
  toolsets ← read_array max_count read_toolset
  language_providers ← read_array max_count read_language_provider
  targets ← read_array max_count read_target
  genrules ← read_array max_count read_genrule
  stages ← read_array max_count read_stage
  families ← read_array max_count read_family
  pure (record empty_graph {
    package_root = package_root;
    generator = generator;
    requested_generator = requested_generator;
    build_dir_override = build_dir_override;
    project = project;
    uses_file_globs = uses_file_globs;
    platform = platform;
    evaluated_fragments = evaluated_fragments;
    packages = packages;
    toolsets = toolsets;
    language_providers = language_providers;
    targets = targets;
    genrules = genrules;
    stages = stages;
    families = families;
  })

unfoldable pub write_graph_file : Graph → Writer
unfolding ◌⨾◌ write_str write_u64 write_graph
write_graph_file g = write_str (some graph_magic) ⨾ write_u64 plan_abi ⨾ write_graph g

-- The file that `fopen` gave, or NULL.
unfoldable pub write_graph_cache_file : Graph → Option Out → Option Out
write_graph_cache_file g none = none
write_graph_cache_file g (some f) = write_graph_file g f

-- The magic that was read is the one of this format. (The source hands a NULL magic to `strcmp`; here
-- that is a mismatch.)
unfoldable pub magic_ok : CString → Bool
unfolding str_eq
magic_ok none = false
magic_ok (some m) = str_eq m graph_magic

unfoldable pub read_graph_file : Reader Graph
unfolding ◌>>=◌ failure read_str read_u64 magic_ok read_graph
read_graph_file = do
  magic ← read_str
  if magic_ok magic
      then (do version ← read_u64; if version == plan_abi then read_graph else failure)
      else failure

unfoldable pub read_graph_cache_file : Option Bytes → Option Graph
read_graph_cache_file none = none
read_graph_cache_file (some f) = Option.map (λ r. r.0) (read_graph_file f)
