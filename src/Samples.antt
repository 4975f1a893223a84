-- ===== src/Samples.antt =====
-- Sample values of the models, with the runs and instances of the theorems on them.
pub mod Labels
pub mod Plans
pub mod Caches
pub mod Batches
pub mod Suites
use qstar.Prelude.{ℕ, pos, List, [], ◌∷◌, none, some, Bytes, codes}
use qstar.Graph.Target.{Target}
use qstar.Graph.State.{Graph}
use qstar.Stella.GraphFile.{empty_graph}

-- A target with nothing but its label.
abbrev pub bare_target : Bytes → Target
bare_target label = record {
  label = some label;
  name = none;
  kind = none;
  fragment_dir = none;
  origin_file = none;
  origin_line = pos 0;
  modules = record { present = pos 0; root = none; include = []; exclude = [] };
  configs = [];
  sources = [];
  objects = [];
  provider_sources = [];
  provider_final = record {
    present = pos 0;
    api = none;
    provider = none;
    kind = none;
    lower = none;
    input_ownership = [];
    artifacts = [];
    action = record {
      argv = [];
      env = [];
      inputs = [];
      outputs = [];
      depfile = none;
      wants_depfile = pos 0;
    };
  };
  public_headers = [];
  private_headers = [];
  include_dirs = [];
  public_include_dirs = [];
  private_include_dirs = [];
  interface_include_dirs = [];
  system_include_dirs = [];
  deps = [];
  private_deps = [];
  visibility = [];
  libs = [];
  lib_dirs = [];
  frameworks = [];
  link_options = [];
  link_inputs = [];
  compile_usage_options = [];
  compile_usage_inputs = [];
  link_usage_options = [];
  link_usage_inputs = [];
  imported_artifacts = [];
  cflags = [];
  cxxflags = [];
  asm_include_dirs = [];
  asm_compile_options = [];
  provider_options = [];
  run_inputs = [];
  run_command = [];
  test_resources = [];
  test_retry_on = [];
  test_setup = [];
  test_cleanup = [];
  test_skip_reason = none;
  test_retry_count = pos 0;
  test_timeout_sec = pos 0;
  test_manual = pos 0;
  description = none;
  artifact_name = none;
  imported_artifact_kind = none;
  tool_path = none;
  compile_context = none;
  cxx_standard = none;
  cxx_precompiled_header = none;
  run_expect_contains = none;
  run_expect_file = none;
  run_timeout_sec = pos 0;
  asm_preprocess = pos 0;
  cxx_modules_present = pos 0;
  cxx_modules_enabled = pos 0;
  cxx_pch_present = pos 0;
  cxx_unity_present = pos 0;
  cxx_unity_enabled = pos 0;
  cxx_unity_batch_size = pos 0;
  cacheable_present = pos 0;
  cacheable = pos 0;
  toolset = none;
}

abbrev pub target_with_deps : Bytes → List Bytes → List Bytes → Target
target_with_deps label deps private_deps = record (bare_target label) {
  deps = deps;
  private_deps = private_deps;
}

abbrev pub with_targets : List Target → Graph
with_targets targets = record empty_graph { targets = targets }

-- An application over a library over a core.
abbrev pub layered : Graph
layered = with_targets (
    target_with_deps (codes "//:app") (codes "//lib:lib" ∷ []) []
    ∷ target_with_deps (codes "//lib:lib") [] (codes "//:core" ∷ [])
    ∷ bare_target (codes "//:core")
    ∷ [])

-- Two targets that depend on each other, and one on them.
abbrev pub tangled : Graph
tangled = with_targets (
    target_with_deps (codes "//:app") (codes "//:a" ∷ []) []
    ∷ target_with_deps (codes "//:a") (codes "//:b" ∷ []) []
    ∷ target_with_deps (codes "//:b") [] (codes "//:a" ∷ [])
    ∷ [])
