-- ===== src/Stella/Targets/RoundTrip.antt =====
-- Writing and reading targets (src/stella_cache.c).
use qstar.Prelude.{◌≤◌, pos, InInt, All, length, [], arith}
use qstar.Graph.Target.{Target}
use qstar.Stella.File.{max_count}
use qstar.Stella.File.Carries.{
  Carries, carry-bind, carry-last, carry-i32, carry-str, carry-list, carry-array, FitsStr, FitsList,
  All-map,
}
use qstar.Stella.Targets.{write_target, read_target}
use qstar.Stella.Units.{
  write_source_unit, read_source_unit, write_imported_artifact, read_imported_artifact,
  write_provider_option, read_provider_option,
}
use qstar.Stella.Units.RoundTrip.{
  FitsModules, carry-modules, FitsProviderSourceUnit, carry-source_unit, FitsProviderFinalAction,
  carry-provider_final, FitsImportedArtifact, carry-imported_artifact, FitsProviderOptionValue,
  carry-provider_option,
}
use qstar.Prelude.{none}

-- What the file keeps of a target.
unfoldable pub without_tests : Target → Target
without_tests t = record t {
  test_resources = [];
  test_retry_on = [];
  test_setup = [];
  test_cleanup = [];
  test_skip_reason = none;
  test_retry_count = pos 0;
  test_timeout_sec = pos 0;
  test_manual = pos 0;
}

pub record FitsTarget (x : Target) : Type 0 where
  pub label : FitsStr x.label
  pub name : FitsStr x.name
  pub kind : FitsStr x.kind
  pub fragment_dir : FitsStr x.fragment_dir
  pub origin_file : FitsStr x.origin_file
  pub origin_line : InInt x.origin_line
  pub modules : FitsModules x.modules
  pub configs : FitsList x.configs
  pub sources : FitsList x.sources
  pub objects : FitsList x.objects
  pub provider_sources :
      (length x.provider_sources ≤ max_count) × All FitsProviderSourceUnit x.provider_sources
  pub provider_final : FitsProviderFinalAction x.provider_final
  pub public_headers : FitsList x.public_headers
  pub private_headers : FitsList x.private_headers
  pub include_dirs : FitsList x.include_dirs
  pub public_include_dirs : FitsList x.public_include_dirs
  pub private_include_dirs : FitsList x.private_include_dirs
  pub interface_include_dirs : FitsList x.interface_include_dirs
  pub system_include_dirs : FitsList x.system_include_dirs
  pub deps : FitsList x.deps
  pub private_deps : FitsList x.private_deps
  pub visibility : FitsList x.visibility
  pub libs : FitsList x.libs
  pub lib_dirs : FitsList x.lib_dirs
  pub frameworks : FitsList x.frameworks
  pub link_options : FitsList x.link_options
  pub link_inputs : FitsList x.link_inputs
  pub compile_usage_options : FitsList x.compile_usage_options
  pub compile_usage_inputs : FitsList x.compile_usage_inputs
  pub link_usage_options : FitsList x.link_usage_options
  pub link_usage_inputs : FitsList x.link_usage_inputs
  pub imported_artifacts :
      (length x.imported_artifacts ≤ max_count) × All FitsImportedArtifact x.imported_artifacts
  pub cflags : FitsList x.cflags
  pub cxxflags : FitsList x.cxxflags
  pub asm_include_dirs : FitsList x.asm_include_dirs
  pub asm_compile_options : FitsList x.asm_compile_options
  pub provider_options :
      (length x.provider_options ≤ max_count) × All FitsProviderOptionValue x.provider_options
  pub run_inputs : FitsList x.run_inputs
  pub run_command : FitsList x.run_command
  pub description : FitsStr x.description
  pub artifact_name : FitsStr x.artifact_name
  pub imported_artifact_kind : FitsStr x.imported_artifact_kind
  pub tool_path : FitsStr x.tool_path
  pub compile_context : FitsStr x.compile_context
  pub cxx_standard : FitsStr x.cxx_standard
  pub cxx_precompiled_header : FitsStr x.cxx_precompiled_header
  pub run_expect_contains : FitsStr x.run_expect_contains
  pub run_expect_file : FitsStr x.run_expect_file
  pub run_timeout_sec : InInt x.run_timeout_sec
  pub asm_preprocess : InInt x.asm_preprocess
  pub cxx_modules_present : InInt x.cxx_modules_present
  pub cxx_modules_enabled : InInt x.cxx_modules_enabled
  pub cxx_pch_present : InInt x.cxx_pch_present
  pub cxx_unity_present : InInt x.cxx_unity_present
  pub cxx_unity_enabled : InInt x.cxx_unity_enabled
  pub cxx_unity_batch_size : InInt x.cxx_unity_batch_size
  pub cacheable_present : InInt x.cacheable_present
  pub cacheable : InInt x.cacheable
  pub toolset : FitsStr x.toolset

pub carry-target :
    (x : Target) → FitsTarget x → Carries (write_target x) read_target (without_tests x)
unfolding write_target read_target without_tests
carry-target x h = carry-bind _ (carry-str x.label h.label) (
    carry-bind _ (carry-str x.name h.name) (
      carry-bind _ (carry-str x.kind h.kind) (
        carry-bind _ (carry-str x.fragment_dir h.fragment_dir) (
          carry-bind _ (carry-str x.origin_file h.origin_file) (
            carry-bind _ (carry-i32 x.origin_line h.origin_line) (
              carry-bind _ (carry-modules x.modules h.modules) (
                carry-bind _ (carry-list x.configs h.configs) (
                  carry-bind _ (carry-list x.sources h.sources) (
                    carry-bind _ (carry-list x.objects h.objects) (
                      carry-bind _
                        (carry-array write_source_unit read_source_unit max_count x.provider_sources
                          h.provider_sources.0 (omega arith)
                          (All-map carry-source_unit x.provider_sources h.provider_sources.1))
                        (carry-bind _ (carry-provider_final x.provider_final h.provider_final) (
                          carry-bind _ (carry-list x.public_headers h.public_headers) (
                            carry-bind _ (carry-list x.private_headers h.private_headers) (
                              carry-bind _ (carry-list x.include_dirs h.include_dirs) (
                                carry-bind _
                                  (carry-list x.public_include_dirs h.public_include_dirs)
                                  (carry-bind _
                                    (carry-list x.private_include_dirs h.private_include_dirs)
                                    (carry-bind _
                                      (carry-list x.interface_include_dirs h.interface_include_dirs)
                                      (carry-bind _
                                        (carry-list x.system_include_dirs h.system_include_dirs)
                                        (carry-bind _ (carry-list x.deps h.deps) (
                                          carry-bind _ (carry-list x.private_deps h.private_deps) (
                                            carry-bind _ (carry-list x.visibility h.visibility) (
                                              carry-bind _ (carry-list x.libs h.libs) (
                                                carry-bind _ (carry-list x.lib_dirs h.lib_dirs) (
                                                  carry-bind _
                                                    (carry-list x.frameworks h.frameworks)
                                                    (carry-bind _
                                                      (carry-list x.link_options h.link_options)
                                                      (carry-bind _
                                                        (carry-list x.link_inputs h.link_inputs)
                                                        (carry-bind _
                                                          (carry-list x.compile_usage_options
                                                            h.compile_usage_options)
                                                          (carry-bind _
                                                            (carry-list x.compile_usage_inputs
                                                            h.compile_usage_inputs)
                                                            (carry-bind _
                                                            (carry-list x.link_usage_options
                                                            h.link_usage_options)
                                                            (carry-bind _
                                                            (carry-list x.link_usage_inputs
                                                            h.link_usage_inputs)
                                                            (carry-bind _
                                                            (carry-array write_imported_artifact
                                                            read_imported_artifact max_count
                                                            x.imported_artifacts
                                                            h.imported_artifacts.0 (omega arith)
                                                            (All-map carry-imported_artifact
                                                            x.imported_artifacts
                                                            h.imported_artifacts.1))
                                                            (carry-bind _
                                                            (carry-list x.cflags h.cflags)
                                                            (carry-bind _
                                                            (carry-list x.cxxflags h.cxxflags)
                                                            (carry-bind _
                                                            (carry-list x.asm_include_dirs
                                                            h.asm_include_dirs)
                                                            (carry-bind _
                                                            (carry-list x.asm_compile_options
                                                            h.asm_compile_options)
                                                            (carry-bind _
                                                            (carry-array write_provider_option
                                                            read_provider_option max_count
                                                            x.provider_options h.provider_options.0
                                                            (omega arith)
                                                            (All-map carry-provider_option
                                                            x.provider_options
                                                            h.provider_options.1))
                                                            (carry-bind _
                                                            (carry-list x.run_inputs h.run_inputs)
                                                            (carry-bind _
                                                            (carry-list x.run_command h.run_command)
                                                            (carry-bind _
                                                            (carry-str x.description h.description)
                                                            (carry-bind _
                                                            (carry-str x.artifact_name
                                                            h.artifact_name)
                                                            (carry-bind _
                                                            (carry-str x.imported_artifact_kind
                                                            h.imported_artifact_kind)
                                                            (carry-bind _
                                                            (carry-str x.tool_path h.tool_path)
                                                            (carry-bind _
                                                            (carry-str x.compile_context
                                                            h.compile_context)
                                                            (carry-bind _
                                                            (carry-str x.cxx_standard
                                                            h.cxx_standard)
                                                            (carry-bind _
                                                            (carry-str x.cxx_precompiled_header
                                                            h.cxx_precompiled_header)
                                                            (carry-bind _
                                                            (carry-str x.run_expect_contains
                                                            h.run_expect_contains)
                                                            (carry-bind _
                                                            (carry-str x.run_expect_file
                                                            h.run_expect_file)
                                                            (carry-bind _
                                                            (carry-i32 x.run_timeout_sec
                                                            h.run_timeout_sec)
                                                            (carry-bind _
                                                            (carry-i32 x.asm_preprocess
                                                            h.asm_preprocess)
                                                            (carry-bind _
                                                            (carry-i32 x.cxx_modules_present
                                                            h.cxx_modules_present)
                                                            (carry-bind _
                                                            (carry-i32 x.cxx_modules_enabled
                                                            h.cxx_modules_enabled)
                                                            (carry-bind _
                                                            (carry-i32 x.cxx_pch_present
                                                            h.cxx_pch_present)
                                                            (carry-bind _
                                                            (carry-i32 x.cxx_unity_present
                                                            h.cxx_unity_present)
                                                            (carry-bind _
                                                            (carry-i32 x.cxx_unity_enabled
                                                            h.cxx_unity_enabled)
                                                            (carry-bind _
                                                            (carry-i32 x.cxx_unity_batch_size
                                                            h.cxx_unity_batch_size)
                                                            (carry-bind _
                                                            (carry-i32 x.cacheable_present
                                                            h.cacheable_present)
                                                            (carry-bind _
                                                            (carry-i32 x.cacheable h.cacheable)
                                                            (carry-last _
                                                            (carry-str x.toolset h.toolset))))))))))
                                                            ))))))))))))))))))))))))))))))))))))))))
                                                            )))))))))
