-- ===== src/Stella/Targets.antt =====
-- Targets in src/stella_cache.c. The settings of tests are not stored: a target that is read has the
-- zeros of `calloc` there.
pub mod RoundTrip
use qstar.Prelude.{◌≡◌, ◌≤◌, ℤ, pos, InInt, All, length, List, [], arith, Bytes, CString, none}
use qstar.Graph.Target.{
  Target, Modules, ProviderActionTemplate, ProviderArtifactDescriptor, ProviderSourceUnit,
  ProviderFinalAction, ImportedArtifact, ProviderOptionValue,
}
use qstar.Graph.Tools.{
  ToolRole, Toolset, LanguageOptionSchema, LanguageUnitSchema, LanguageFinalSchema,
  LanguageProvider, Genrule, Stage, TargetFamily, PackageAlias,
}
use qstar.Graph.Project.{Project}
use qstar.Stella.File.{
  Writer, Reader, ◌⨾◌, pure, failure, ◌>>=◌, write_u64, read_u64, write_i32, read_i32, write_str,
  read_str, max_count, read_count, write_array, read_array, write_list, read_list, write_each,
  read_each,
}
use qstar.Stella.Providers.{
  write_provider_action, read_provider_action, write_provider_artifact, read_provider_artifact,
}
use qstar.Stella.Units.{
  write_modules, read_modules, write_source_unit, read_source_unit, write_provider_final,
  read_provider_final, write_imported_artifact, read_imported_artifact, write_provider_option,
  read_provider_option,
}

unfoldable pub write_target : Target → Writer
unfolding ◌⨾◌ write_str write_i32 write_modules write_list write_array write_source_unit
    write_provider_final write_imported_artifact write_provider_option
write_target x =
    write_str x.label
    ⨾ write_str x.name
    ⨾ write_str x.kind
    ⨾ write_str x.fragment_dir
    ⨾ write_str x.origin_file
    ⨾ write_i32 x.origin_line
    ⨾ write_modules x.modules
    ⨾ write_list x.configs
    ⨾ write_list x.sources
    ⨾ write_list x.objects
    ⨾ write_array write_source_unit x.provider_sources
    ⨾ write_provider_final x.provider_final
    ⨾ write_list x.public_headers
    ⨾ write_list x.private_headers
    ⨾ write_list x.include_dirs
    ⨾ write_list x.public_include_dirs
    ⨾ write_list x.private_include_dirs
    ⨾ write_list x.interface_include_dirs
    ⨾ write_list x.system_include_dirs
    ⨾ write_list x.deps
    ⨾ write_list x.private_deps
    ⨾ write_list x.visibility
    ⨾ write_list x.libs
    ⨾ write_list x.lib_dirs
    ⨾ write_list x.frameworks
    ⨾ write_list x.link_options
    ⨾ write_list x.link_inputs
    ⨾ write_list x.compile_usage_options
    ⨾ write_list x.compile_usage_inputs
    ⨾ write_list x.link_usage_options
    ⨾ write_list x.link_usage_inputs
    ⨾ write_array write_imported_artifact x.imported_artifacts
    ⨾ write_list x.cflags
    ⨾ write_list x.cxxflags
    ⨾ write_list x.asm_include_dirs
    ⨾ write_list x.asm_compile_options
    ⨾ write_array write_provider_option x.provider_options
    ⨾ write_list x.run_inputs
    ⨾ write_list x.run_command
    ⨾ write_str x.description
    ⨾ write_str x.artifact_name
    ⨾ write_str x.imported_artifact_kind
    ⨾ write_str x.tool_path
    ⨾ write_str x.compile_context
    ⨾ write_str x.cxx_standard
    ⨾ write_str x.cxx_precompiled_header
    ⨾ write_str x.run_expect_contains
    ⨾ write_str x.run_expect_file
    ⨾ write_i32 x.run_timeout_sec
    ⨾ write_i32 x.asm_preprocess
    ⨾ write_i32 x.cxx_modules_present
    ⨾ write_i32 x.cxx_modules_enabled
    ⨾ write_i32 x.cxx_pch_present
    ⨾ write_i32 x.cxx_unity_present
    ⨾ write_i32 x.cxx_unity_enabled
    ⨾ write_i32 x.cxx_unity_batch_size
    ⨾ write_i32 x.cacheable_present
    ⨾ write_i32 x.cacheable
    ⨾ write_str x.toolset

unfoldable pub read_target : Reader Target
unfolding ◌>>=◌ pure read_str read_i32 read_modules read_list read_array read_source_unit
    read_provider_final read_imported_artifact read_provider_option
read_target = do
  label ← read_str
  name ← read_str
  kind ← read_str
  fragment_dir ← read_str
  origin_file ← read_str
  origin_line ← read_i32
  modules ← read_modules
  configs ← read_list
  sources ← read_list
  objects ← read_list
  provider_sources ← read_array max_count read_source_unit
  provider_final ← read_provider_final
  public_headers ← read_list
  private_headers ← read_list
  include_dirs ← read_list
  public_include_dirs ← read_list
  private_include_dirs ← read_list
  interface_include_dirs ← read_list
  system_include_dirs ← read_list
  deps ← read_list
  private_deps ← read_list
  visibility ← read_list
  libs ← read_list
  lib_dirs ← read_list
  frameworks ← read_list
  link_options ← read_list
  link_inputs ← read_list
  compile_usage_options ← read_list
  compile_usage_inputs ← read_list
  link_usage_options ← read_list
  link_usage_inputs ← read_list
  imported_artifacts ← read_array max_count read_imported_artifact
  cflags ← read_list
  cxxflags ← read_list
  asm_include_dirs ← read_list
  asm_compile_options ← read_list
  provider_options ← read_array max_count read_provider_option
  run_inputs ← read_list
  run_command ← read_list
  description ← read_str
  artifact_name ← read_str
  imported_artifact_kind ← read_str
  tool_path ← read_str
  compile_context ← read_str
  cxx_standard ← read_str
  cxx_precompiled_header ← read_str
  run_expect_contains ← read_str
  run_expect_file ← read_str
  run_timeout_sec ← read_i32
  asm_preprocess ← read_i32
  cxx_modules_present ← read_i32
  cxx_modules_enabled ← read_i32
  cxx_pch_present ← read_i32
  cxx_unity_present ← read_i32
  cxx_unity_enabled ← read_i32
  cxx_unity_batch_size ← read_i32
  cacheable_present ← read_i32
  cacheable ← read_i32
  toolset ← read_str
  pure (record {
    label = label;
    name = name;
    kind = kind;
    fragment_dir = fragment_dir;
    origin_file = origin_file;
    origin_line = origin_line;
    modules = modules;
    configs = configs;
    sources = sources;
    objects = objects;
    provider_sources = provider_sources;
    provider_final = provider_final;
    public_headers = public_headers;
    private_headers = private_headers;
    include_dirs = include_dirs;
    public_include_dirs = public_include_dirs;
    private_include_dirs = private_include_dirs;
    interface_include_dirs = interface_include_dirs;
    system_include_dirs = system_include_dirs;
    deps = deps;
    private_deps = private_deps;
    visibility = visibility;
    libs = libs;
    lib_dirs = lib_dirs;
    frameworks = frameworks;
    link_options = link_options;
    link_inputs = link_inputs;
    compile_usage_options = compile_usage_options;
    compile_usage_inputs = compile_usage_inputs;
    link_usage_options = link_usage_options;
    link_usage_inputs = link_usage_inputs;
    imported_artifacts = imported_artifacts;
    cflags = cflags;
    cxxflags = cxxflags;
    asm_include_dirs = asm_include_dirs;
    asm_compile_options = asm_compile_options;
    provider_options = provider_options;
    run_inputs = run_inputs;
    run_command = run_command;
    description = description;
    artifact_name = artifact_name;
    imported_artifact_kind = imported_artifact_kind;
    tool_path = tool_path;
    compile_context = compile_context;
    cxx_standard = cxx_standard;
    cxx_precompiled_header = cxx_precompiled_header;
    run_expect_contains = run_expect_contains;
    run_expect_file = run_expect_file;
    run_timeout_sec = run_timeout_sec;
    asm_preprocess = asm_preprocess;
    cxx_modules_present = cxx_modules_present;
    cxx_modules_enabled = cxx_modules_enabled;
    cxx_pch_present = cxx_pch_present;
    cxx_unity_present = cxx_unity_present;
    cxx_unity_enabled = cxx_unity_enabled;
    cxx_unity_batch_size = cxx_unity_batch_size;
    cacheable_present = cacheable_present;
    cacheable = cacheable;
    toolset = toolset;
    test_resources = [];
    test_retry_on = [];
    test_setup = [];
    test_cleanup = [];
    test_skip_reason = none;
    test_retry_count = pos 0;
    test_timeout_sec = pos 0;
    test_manual = pos 0;
  })
