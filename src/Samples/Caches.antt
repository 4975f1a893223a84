-- ===== src/Samples/Caches.antt =====
-- A written graph file and a printed JSON member, and what is read from them.
use qstar.Prelude.{
  starts_with, ◌-◌, ◌≡◌, ◌↔◌, refl, inl, inr, true, pos, InInt, [], ◌∷◌, ◌++◌, none, some, Bytes,
  codes, string_or_empty, take, drop, length, leb, if◌then◌else◌, arith,
}
use qstar.Graph.State.{Graph}
use qstar.Stella.File.{Out}
use qstar.Stella.File.Carries.{FitsStr, FitsList}
use qstar.Stella.GraphFile.{write_graph_file, write_graph_cache_file, read_graph_cache_file}
use qstar.Stella.GraphFile.RoundTrip.{FitsGraph, cached_graph, read-write_graph}
use qstar.Stella.Targets.RoundTrip.{FitsTarget}
use qstar.Stella.Toolsets.{can_add_role, role_after}
use qstar.Stella.Json.{json_get_string, json_string_equals}
use qstar.Stella.Json.RoundTrip.{json_member, json_get_string-json_string}
use qstar.Stella.GraphFile.Truncated.{read_graph-truncated}
use qstar.Samples.{with_targets, target_with_deps}

unset : FitsStr none
unset = tt

no_items : FitsList []
no_items = (omega arith, tt)

off : InInt (pos 0)
off = omega arith

-- One target with a dependency, and one toolset with two roles.
abbrev cached_sample : Graph
cached_sample =
    record (with_targets (target_with_deps (codes "//:app") (codes "//:b" ∷ []) [] ∷ [])) {
      toolsets =
          record {
            label = some (codes "//:cc");
            name = none;
            fragment_dir = none;
            origin_file = none;
            origin_line = pos 3;
            roles =
                record { role = codes "ar"; argv = [] }
                ∷ record { role = codes "cc"; argv = codes "gcc" ∷ [] }
                ∷ [];
            path_tools = [];
            response_file_tools = [];
            response_files = none;
            response_style = none;
            allow_absolute_tools = none;
          }
          ∷ [];
    }

app_fits : FitsTarget (target_with_deps (codes "//:app") (codes "//:b" ∷ []) [])
app_fits = record {
  label = ground arith;
  name = unset;
  kind = unset;
  fragment_dir = unset;
  origin_file = unset;
  origin_line = off;
  modules = record { present = off; root = unset; include = no_items; exclude = no_items };
  configs = no_items;
  sources = no_items;
  objects = no_items;
  provider_sources = (omega arith, tt);
  provider_final = record {
    present = off;
    api = unset;
    provider = unset;
    kind = unset;
    lower = unset;
    input_ownership = no_items;
    artifacts = (omega arith, tt);
    action = record {
      argv = no_items;
      env = no_items;
      inputs = no_items;
      outputs = no_items;
      depfile = unset;
      wants_depfile = off;
    };
  };
  public_headers = no_items;
  private_headers = no_items;
  include_dirs = no_items;
  public_include_dirs = no_items;
  private_include_dirs = no_items;
  interface_include_dirs = no_items;
  system_include_dirs = no_items;
  deps = (omega arith, ground arith);
  private_deps = no_items;
  visibility = no_items;
  libs = no_items;
  lib_dirs = no_items;
  frameworks = no_items;
  link_options = no_items;
  link_inputs = no_items;
  compile_usage_options = no_items;
  compile_usage_inputs = no_items;
  link_usage_options = no_items;
  link_usage_inputs = no_items;
  imported_artifacts = (omega arith, tt);
  cflags = no_items;
  cxxflags = no_items;
  asm_include_dirs = no_items;
  asm_compile_options = no_items;
  provider_options = (omega arith, tt);
  run_inputs = no_items;
  run_command = no_items;
  description = unset;
  artifact_name = unset;
  imported_artifact_kind = unset;
  tool_path = unset;
  compile_context = unset;
  cxx_standard = unset;
  cxx_precompiled_header = unset;
  run_expect_contains = unset;
  run_expect_file = unset;
  run_timeout_sec = off;
  asm_preprocess = off;
  cxx_modules_present = off;
  cxx_modules_enabled = off;
  cxx_pch_present = off;
  cxx_unity_present = off;
  cxx_unity_enabled = off;
  cxx_unity_batch_size = off;
  cacheable_present = off;
  cacheable = off;
  toolset = unset;
}

cached_sample_fits : FitsGraph cached_sample
unfolding can_add_role role_after
cached_sample_fits = record {
  package_root = unset;
  generator = unset;
  requested_generator = unset;
  build_dir_override = unset;
  project = record {
    present = off;
    name = unset;
    version = unset;
    root = unset;
    build_dir = unset;
    generated_dir = unset;
    compile_commands = unset;
    action_cache = unset;
  };
  uses_file_globs = off;
  platform = unset;
  evaluated_fragments = no_items;
  packages = (omega arith, tt);
  toolsets = (
    omega arith,
    (
      record {
        label = ground arith;
        name = unset;
        fragment_dir = unset;
        origin_file = unset;
        origin_line = omega arith;
        role_count = omega arith;
        roles =
            (refl, ground arith, no_items, (refl, ground arith, (omega arith, ground arith), tt));
        sorted = (refl, tt);
        path_tools = no_items;
        response_file_tools = no_items;
        response_files = unset;
        response_style = unset;
        allow_absolute_tools = unset;
      },
      tt,
    ),
  );
  language_providers = (omega arith, tt);
  targets = (omega arith, (app_fits, tt));
  genrules = (omega arith, tt);
  stages = (omega arith, tt);
  families = (omega arith, tt);
}

read-write_graph_example :
    (bs : Bytes) × (write_graph_cache_file cached_sample
        (some (record { written = []; room = 10000 }))
      ≡ (if leb (length bs) 10000
          then some (record { written = bs; room = 10000 - length bs })
          else none))
    × (read_graph_cache_file (some bs) ≡ some (cached_graph cached_sample))
read-write_graph_example = read-write_graph cached_sample 10000 cached_sample_fits

json_get_string-json_string_example :
    (json_get_string
        (codes "{\"key\":1," ++ (json_member (codes "label") (some (codes "a\"\n")) ++ codes ","))
        (codes "label")
      ≡ some (codes "a\"\n"))
    × ((json_string_equals
            (codes "{\"key\":1,"
              ++ (json_member (codes "label") (some (codes "a\"\n")) ++ codes ","))
            (codes "label")
            none
          ≡ true)
        ↔ (codes "a\"\n" ≡ string_or_empty none))
unfolding starts_with
json_get_string-json_string_example =
    json_get_string-json_string (codes "label") (codes "a\"\n") (codes "{\"key\":1,") (codes ",")
      none (omega arith) (refl, (refl, (refl, (refl, (refl, (refl, (refl, (refl, (refl, tt)))))))))
      (inl (omega arith), (inl (omega arith), (inr (inl refl), tt)))

-- The file of a graph with no targets, on a device with room for it.
abbrev small_graph : Graph
small_graph = record (with_targets []) { package_root = some (codes "/pkg") }

small_file : Out
unfolding write_graph_cache_file
small_file =
    elim (write_graph_cache_file small_graph (some (record { written = []; room = 1000 }))) [
      | none ↦ record { written = []; room = 0 }
      | some o ↦ o
    ]

small_fits : FitsGraph small_graph
small_fits = record {
  package_root = ground arith;
  generator = unset;
  requested_generator = unset;
  build_dir_override = unset;
  project = record {
    present = off;
    name = unset;
    version = unset;
    root = unset;
    build_dir = unset;
    generated_dir = unset;
    compile_commands = unset;
    action_cache = unset;
  };
  uses_file_globs = off;
  platform = unset;
  evaluated_fragments = no_items;
  packages = (omega arith, tt);
  toolsets = (omega arith, tt);
  language_providers = (omega arith, tt);
  targets = (omega arith, tt);
  genrules = (omega arith, tt);
  stages = (omega arith, tt);
  families = (omega arith, tt);
}

read_graph-truncated_example : read_graph_cache_file (some (take 100 small_file.written)) ≡ none
unfolding write_graph_cache_file small_file write_graph_file
read_graph-truncated_example =
    read_graph-truncated small_graph 1000 small_file (take 100 small_file.written)
      (drop 100 small_file.written) small_fits refl refl (λ e. ground (arith, e))
