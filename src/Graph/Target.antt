-- ===== src/Graph/Target.antt =====
-- The records of include/qstar/qstar.h that describe a target. A string list is the list of its
-- entries (`qstar_string_list_push` never stores NULL), and an array with its length is a list.
use qstar.Prelude.{ℕ, ℤ, List, Bytes, CString}

pub record ProviderOptionValue : Type 0 where
  pub provider : CString
  pub name : CString
  pub type : CString
  pub value : CString
  pub list : List Bytes

pub record ProviderActionTemplate : Type 0 where
  pub argv : List Bytes
  pub env : List Bytes
  pub inputs : List Bytes
  pub outputs : List Bytes
  pub depfile : CString
  pub wants_depfile : ℤ

pub record ProviderArtifactDescriptor : Type 0 where
  pub id : CString
  pub type : CString
  pub suffix : CString
  pub path : CString
  pub primary : ℤ
  pub secondary : ℤ
  pub runtime : ℤ
  pub link_interface : ℤ

pub record Modules : Type 0 where
  pub present : ℤ
  pub root : CString
  pub include : List Bytes
  pub exclude : List Bytes

pub record ProviderSourceUnit : Type 0 where
  pub source_index : ℕ
  pub path : CString
  pub provider : CString
  pub unit : CString
  pub emits : CString
  pub lower : CString
  pub toolset_role : CString
  pub action : ProviderActionTemplate

pub record ProviderFinalAction : Type 0 where
  pub present : ℤ
  pub api : CString
  pub provider : CString
  pub kind : CString
  pub lower : CString
  pub input_ownership : List Bytes
  pub artifacts : List ProviderArtifactDescriptor
  pub action : ProviderActionTemplate

pub record ImportedArtifact : Type 0 where
  pub platform : CString
  pub id : CString
  pub role : CString
  pub path : CString
  pub primary : ℤ

pub record TestResourceRequest : Type 0 where
  pub name : CString
  pub amount : ℤ

pub record Target : Type 0 where
  pub label : CString
  pub name : CString
  pub kind : CString
  pub fragment_dir : CString
  pub origin_file : CString
  pub origin_line : ℤ
  pub modules : Modules
  pub configs : List Bytes
  pub sources : List Bytes
  pub objects : List Bytes
  pub provider_sources : List ProviderSourceUnit
  pub provider_final : ProviderFinalAction
  pub public_headers : List Bytes
  pub private_headers : List Bytes
  pub include_dirs : List Bytes
  pub public_include_dirs : List Bytes
  pub private_include_dirs : List Bytes
  pub interface_include_dirs : List Bytes
  pub system_include_dirs : List Bytes
  pub deps : List Bytes
  pub private_deps : List Bytes
  pub visibility : List Bytes
  pub libs : List Bytes
  pub lib_dirs : List Bytes
  pub frameworks : List Bytes
  pub link_options : List Bytes
  pub link_inputs : List Bytes
  pub compile_usage_options : List Bytes
  pub compile_usage_inputs : List Bytes
  pub link_usage_options : List Bytes
  pub link_usage_inputs : List Bytes
  pub imported_artifacts : List ImportedArtifact
  pub cflags : List Bytes
  pub cxxflags : List Bytes
  pub asm_include_dirs : List Bytes
  pub asm_compile_options : List Bytes
  pub provider_options : List ProviderOptionValue
  pub run_inputs : List Bytes
  pub run_command : List Bytes
  pub test_resources : List TestResourceRequest
  pub test_retry_on : List Bytes
  pub test_setup : List Bytes
  pub test_cleanup : List Bytes
  pub test_skip_reason : CString
  pub test_retry_count : ℤ
  pub test_timeout_sec : ℤ
  pub test_manual : ℤ
  pub description : CString
  pub artifact_name : CString
  pub imported_artifact_kind : CString
  pub tool_path : CString
  pub compile_context : CString
  pub cxx_standard : CString
  pub cxx_precompiled_header : CString
  pub run_expect_contains : CString
  pub run_expect_file : CString
  pub run_timeout_sec : ℤ
  pub asm_preprocess : ℤ
  pub cxx_modules_present : ℤ
  pub cxx_modules_enabled : ℤ
  pub cxx_pch_present : ℤ
  pub cxx_unity_present : ℤ
  pub cxx_unity_enabled : ℤ
  pub cxx_unity_batch_size : ℤ
  pub cacheable_present : ℤ
  pub cacheable : ℤ
  pub toolset : CString
