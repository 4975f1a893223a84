-- ===== src/Graph/State.antt =====
-- `struct qstar_graph` of include/qstar/qstar.h, and the records that only it holds.
use qstar.Prelude.{ℕ, ℤ, List, Bytes, CString}
use qstar.Graph.Target.{Target}
use qstar.Graph.Tools.{Toolset, LanguageProvider, Genrule, Stage, TargetFamily, PackageAlias}
use qstar.Graph.Project.{Config, Project, ProjectCommand, ProjectOption, ProjectOptionOverride}

pub record TestSuite : Type 0 where
  pub label : CString
  pub name : CString
  pub fragment_dir : CString
  pub origin_file : CString
  pub origin_line : ℤ
  pub description : CString
  pub manual : ℤ
  pub tests : List Bytes
  pub tags : List Bytes

pub record TestResource : Type 0 where
  pub name : CString
  pub origin_file : CString
  pub origin_line : ℤ
  pub description : CString
  pub capacity : ℤ

pub record Variant : Type 0 where
  pub name : CString
  pub description : CString
  pub tags : List Bytes
  pub values : List Bytes
  pub origin_file : CString
  pub origin_line : ℤ

pub record CachedAction : Type 0 where
  pub id : CString
  pub kind : CString
  pub target_label : CString
  pub description : CString
  pub depfile : CString
  pub source_path : CString
  pub source_index : ℕ
  pub wants_depfile : ℤ
  pub argv : List Bytes
  pub env : List Bytes
  pub outputs : List Bytes
  pub inputs : List Bytes
  pub depfile_inputs : List Bytes

pub record LintDiagnostic : Type 0 where
  pub code : CString
  pub severity : CString
  pub file : CString
  pub field : CString
  pub label : CString
  pub message : CString
  pub line : ℤ

pub record Graph : Type 0 where
  pub targets : List Target
  pub configs : List Config
  pub toolsets : List Toolset
  pub language_providers : List LanguageProvider
  pub package_root : CString
  pub packages : List PackageAlias
  pub genrules : List Genrule
  pub stages : List Stage
  pub families : List TargetFamily
  pub test_suites : List TestSuite
  pub test_resources : List TestResource
  pub commands : List ProjectCommand
  pub project_options : List ProjectOption
  pub project_option_overrides : List ProjectOptionOverride
  pub variants : List Variant
  pub lint_diagnostics : List LintDiagnostic
  pub evaluated_fragments : List Bytes
  pub project : Project
  pub generator : CString
  pub requested_generator : CString
  pub build_dir_override : CString
  pub platform : CString
  pub cached_actions : List CachedAction
  pub cached_action_plan_loaded : ℤ
  pub error : Bytes
  pub error_file : Bytes
  pub error_field : Bytes
  pub error_label : Bytes
  pub error_line : ℤ
  pub uses_file_globs : ℤ
