-- ===== src/Graph/Tools.antt =====
-- The records of include/qstar/qstar.h for toolsets, language providers, generated actions, stages,
-- target families and package aliases.
use qstar.Graph.Target.{ProviderArtifactDescriptor}
use qstar.Prelude.{ℤ, List, Bytes, CString}

pub record ToolRole : Type 0 where
  pub role : Bytes
  pub argv : List Bytes

pub record Toolset : Type 0 where
  pub label : CString
  pub name : CString
  pub fragment_dir : CString
  pub origin_file : CString
  pub origin_line : ℤ
  pub roles : List ToolRole
  pub path_tools : List Bytes
  pub response_file_tools : List Bytes
  pub response_files : CString
  pub response_style : CString
  pub allow_absolute_tools : CString

pub record LanguageOptionSchema : Type 0 where
  pub name : CString
  pub type : CString
  pub has_default : ℤ
  pub default_value : CString
  pub default_list : List Bytes
  pub values : List Bytes

pub record LanguageUnitSchema : Type 0 where
  pub name : CString
  pub suffixes : List Bytes
  pub emits : CString
  pub lower : CString
  pub deps : CString

pub record LanguageFinalSchema : Type 0 where
  pub kind : CString
  pub lower : CString
  pub inputs : List Bytes
  pub artifacts : List ProviderArtifactDescriptor

pub record LanguageProvider : Type 0 where
  pub api : CString
  pub id : CString
  pub namespace : CString
  pub version : CString
  pub dir : CString
  pub manifest : CString
  pub implementation : CString
  pub options : List LanguageOptionSchema
  pub units : List LanguageUnitSchema
  pub finals : List LanguageFinalSchema

pub record Genrule : Type 0 where
  pub label : CString
  pub name : CString
  pub fragment_dir : CString
  pub origin_file : CString
  pub origin_line : ℤ
  pub tool : CString
  pub toolset : CString
  pub description : CString
  pub config_header : ℤ
  pub cacheable_present : ℤ
  pub cacheable : ℤ
  pub inputs : List Bytes
  pub outputs : List Bytes
  pub output_groups : List Bytes
  pub output_formats : List Bytes
  pub args : List Bytes
  pub command : List Bytes

pub record Stage : Type 0 where
  pub label : CString
  pub name : CString
  pub fragment_dir : CString
  pub origin_file : CString
  pub origin_line : ℤ
  pub root : CString
  pub description : CString
  pub srcs : List Bytes
  pub dsts : List Bytes

pub record TargetFamily : Type 0 where
  pub name : CString
  pub fragment_dir : CString
  pub origin_file : CString
  pub origin_line : ℤ
  pub allow_shared_sources : ℤ
  pub variants : List Bytes
  pub targets : List Bytes

pub record PackageAlias : Type 0 where
  pub alias : CString
  pub root : CString
