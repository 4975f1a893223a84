-- ===== src/Graph/Project.antt =====
-- The records of include/qstar/qstar.h for reusable configs and for the project: its metadata,
-- options and commands.
use qstar.Graph.Target.{Target}
use qstar.Prelude.{ℤ, List, Bytes, CString}

pub record Config : Type 0 where
  pub label : CString
  pub name : CString
  pub fragment_dir : CString
  pub origin_file : CString
  pub origin_line : ℤ
  pub options : Target
  pub has_artifact_name : ℤ
  pub has_cxx_standard : ℤ
  pub has_cxx_precompiled_header : ℤ
  pub has_cxx_unity : ℤ
  pub has_asm_preprocess : ℤ
  pub has_cxx_modules : ℤ
  pub has_cacheable : ℤ
  pub has_toolset : ℤ

pub record CommandOption : Type 0 where
  pub name : CString
  pub type : CString
  pub description : CString
  pub default_value : CString
  pub required : ℤ
  pub has_default : ℤ
  pub choices : List Bytes

pub record CommandStep : Type 0 where
  pub kind : CString
  pub label : CString
  pub command : CString
  pub stage_root : CString
  pub when : CString
  pub working_dir : CString
  pub description : CString
  pub run_expect_contains : CString
  pub run_expect_file : CString
  pub export_to : CString
  pub run_command : List Bytes
  pub inputs : List Bytes
  pub env : List Bytes
  pub stage_dry_run : ℤ
  pub timeout_sec : ℤ

pub record ProjectCommand : Type 0 where
  pub name : CString
  pub origin_file : CString
  pub origin_line : ℤ
  pub description : CString
  pub working_dir : CString
  pub env : List Bytes
  pub aliases : List Bytes
  pub options : List CommandOption
  pub steps : List CommandStep
  pub is_default : ℤ
  pub hidden : ℤ

pub record Project : Type 0 where
  pub present : ℤ
  pub name : CString
  pub version : CString
  pub root : CString
  pub build_dir : CString
  pub generated_dir : CString
  pub compile_commands : CString
  pub action_cache : CString

pub record ProjectOptionOverride : Type 0 where
  pub name : CString
  pub value : CString

pub record ProjectOption : Type 0 where
  pub name : CString
  pub type : CString
  pub value : CString
  pub description : CString
  pub choices : List Bytes
  pub override_value : CString
  pub origin_file : CString
  pub origin_line : ℤ
  pub overridden : ℤ
