-- ===== src/Stella/Providers.antt =====
-- Language providers in src/stella_cache.c: the templates of their actions, their artifacts and schemas.
pub mod RoundTrip
use qstar.Prelude.{◌≡◌, ◌≤◌, ℤ, pos, InInt, All, length, List, [], arith, Bytes, CString}
use qstar.Graph.Target.{
  Target, Modules, ProviderActionTemplate, ProviderArtifactDescriptor, ProviderSourceUnit,
  ProviderFinalAction, ImportedArtifact, ProviderOptionValue,
}
use qstar.Graph.Tools.{
  ToolRole, Toolset, LanguageOptionSchema, LanguageUnitSchema, LanguageFinalSchema,
  LanguageProvider, Genrule, Stage, TargetFamily, PackageAlias,
}
use qstar.Graph.Project.{Project}
use qstar.Stella.File.{
  Writer, Reader, ◌⨾◌, pure, failure, ◌>>=◌, write_u64, read_u64, write_i32, read_i32, write_str,
  read_str, max_count, read_count, write_array, read_array, write_list, read_list, write_each,
  read_each,
}

unfoldable pub write_provider_action : ProviderActionTemplate → Writer
unfolding ◌⨾◌ write_list write_str write_i32
write_provider_action x =
    write_list x.argv
    ⨾ write_list x.env
    ⨾ write_list x.inputs
    ⨾ write_list x.outputs
    ⨾ write_str x.depfile
    ⨾ write_i32 x.wants_depfile

unfoldable pub read_provider_action : Reader ProviderActionTemplate
unfolding ◌>>=◌ pure read_list read_str read_i32
read_provider_action = do
  argv ← read_list
  env ← read_list
  inputs ← read_list
  outputs ← read_list
  depfile ← read_str
  wants_depfile ← read_i32
  pure (record {
    argv = argv;
    env = env;
    inputs = inputs;
    outputs = outputs;
    depfile = depfile;
    wants_depfile = wants_depfile;
  })

unfoldable pub write_provider_artifact : ProviderArtifactDescriptor → Writer
unfolding ◌⨾◌ write_str write_i32
write_provider_artifact x =
    write_str x.id
    ⨾ write_str x.type
    ⨾ write_str x.suffix
    ⨾ write_str x.path
    ⨾ write_i32 x.primary
    ⨾ write_i32 x.secondary
    ⨾ write_i32 x.runtime
    ⨾ write_i32 x.link_interface

unfoldable pub read_provider_artifact : Reader ProviderArtifactDescriptor
unfolding ◌>>=◌ pure read_str read_i32
read_provider_artifact = do
  id ← read_str
  type ← read_str
  suffix ← read_str
  path ← read_str
  primary ← read_i32
  secondary ← read_i32
  runtime ← read_i32
  link_interface ← read_i32
  pure (record {
    id = id;
    type = type;
    suffix = suffix;
    path = path;
    primary = primary;
    secondary = secondary;
    runtime = runtime;
    link_interface = link_interface;
  })

unfoldable pub write_option_schema : LanguageOptionSchema → Writer
unfolding ◌⨾◌ write_str write_i32 write_list
write_option_schema x =
    write_str x.name
    ⨾ write_str x.type
    ⨾ write_i32 x.has_default
    ⨾ write_str x.default_value
    ⨾ write_list x.default_list
    ⨾ write_list x.values

unfoldable pub read_option_schema : Reader LanguageOptionSchema
unfolding ◌>>=◌ pure read_str read_i32 read_list
read_option_schema = do
  name ← read_str
  type ← read_str
  has_default ← read_i32
  default_value ← read_str
  default_list ← read_list
  values ← read_list
  pure (record {
    name = name;
    type = type;
    has_default = has_default;
    default_value = default_value;
    default_list = default_list;
    values = values;
  })

unfoldable pub write_unit_schema : LanguageUnitSchema → Writer
unfolding ◌⨾◌ write_str write_list
write_unit_schema x =
    write_str x.name
    ⨾ write_list x.suffixes
    ⨾ write_str x.emits
    ⨾ write_str x.lower
    ⨾ write_str x.deps

unfoldable pub read_unit_schema : Reader LanguageUnitSchema
unfolding ◌>>=◌ pure read_str read_list
read_unit_schema = do
  name ← read_str
  suffixes ← read_list
  emits ← read_str
  lower ← read_str
  deps ← read_str
  pure (record { name = name; suffixes = suffixes; emits = emits; lower = lower; deps = deps })

unfoldable pub write_final_schema : LanguageFinalSchema → Writer
unfolding ◌⨾◌ write_str write_list write_array write_provider_artifact
write_final_schema x =
    write_str x.kind
    ⨾ write_str x.lower
    ⨾ write_list x.inputs
    ⨾ write_array write_provider_artifact x.artifacts

unfoldable pub read_final_schema : Reader LanguageFinalSchema
unfolding ◌>>=◌ pure read_str read_list read_array read_provider_artifact
read_final_schema = do
  kind ← read_str
  lower ← read_str
  inputs ← read_list
  artifacts ← read_array 16 read_provider_artifact
  pure (record { kind = kind; lower = lower; inputs = inputs; artifacts = artifacts })

unfoldable pub write_language_provider : LanguageProvider → Writer
unfolding ◌⨾◌ write_str write_array write_option_schema write_unit_schema write_final_schema
write_language_provider x =
    write_str x.api
    ⨾ write_str x.id
    ⨾ write_str x.namespace
    ⨾ write_str x.version
    ⨾ write_str x.dir
    ⨾ write_str x.manifest
    ⨾ write_str x.implementation
    ⨾ write_array write_option_schema x.options
    ⨾ write_array write_unit_schema x.units
    ⨾ write_array write_final_schema x.finals

unfoldable pub read_language_provider : Reader LanguageProvider
unfolding ◌>>=◌ pure read_str read_array read_option_schema read_unit_schema read_final_schema
read_language_provider = do
  api ← read_str
  id ← read_str
  namespace ← read_str
  version ← read_str
  dir ← read_str
  manifest ← read_str
  implementation ← read_str
  options ← read_array max_count read_option_schema
  units ← read_array max_count read_unit_schema
  finals ← read_array max_count read_final_schema
  pure (record {
    api = api;
    id = id;
    namespace = namespace;
    version = version;
    dir = dir;
    manifest = manifest;
    implementation = implementation;
    options = options;
    units = units;
    finals = finals;
  })
