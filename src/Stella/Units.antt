-- ===== src/Stella/Units.antt =====
-- The parts of a target in src/stella_cache.c: modules, source units, the final action, imported
-- artifacts and provider options.
pub mod RoundTrip
use qstar.Prelude.{◌≡◌, ◌≤◌, ℤ, pos, InInt, All, length, List, [], arith, Bytes, CString, none}
use qstar.Graph.Target.{
  Target, Modules, ProviderActionTemplate, ProviderArtifactDescriptor, ProviderSourceUnit,
  ProviderFinalAction, ImportedArtifact, ProviderOptionValue,
}
use qstar.Graph.Tools.{
  ToolRole, Toolset, LanguageOptionSchema, LanguageUnitSchema, LanguageFinalSchema,
  LanguageProvider, Genrule, Stage, TargetFamily, PackageAlias,
}
use qstar.Graph.Project.{Project}
use qstar.Stella.File.{
  Writer, Reader, ◌⨾◌, pure, failure, ◌>>=◌, write_u64, read_u64, write_i32, read_i32, write_str,
  read_str, max_count, read_count, write_array, read_array, write_list, read_list, write_each,
  read_each,
}
use qstar.Stella.Providers.{
  write_provider_action, read_provider_action, write_provider_artifact, read_provider_artifact,
}

unfoldable pub write_modules : Modules → Writer
unfolding ◌⨾◌ write_i32 write_str write_list
write_modules x =
    write_i32 x.present ⨾ write_str x.root ⨾ write_list x.include ⨾ write_list x.exclude

unfoldable pub read_modules : Reader Modules
unfolding ◌>>=◌ pure read_i32 read_str read_list
read_modules = do
  present ← read_i32
  root ← read_str
  include ← read_list
  exclude ← read_list
  pure (record { present = present; root = root; include = include; exclude = exclude })

unfoldable pub write_source_unit : ProviderSourceUnit → Writer
unfolding ◌⨾◌ write_u64 write_str write_provider_action
write_source_unit x =
    write_u64 x.source_index
    ⨾ write_str x.path
    ⨾ write_str x.provider
    ⨾ write_str x.unit
    ⨾ write_str x.emits
    ⨾ write_str x.lower
    ⨾ write_str x.toolset_role
    ⨾ write_provider_action x.action

unfoldable pub read_source_unit : Reader ProviderSourceUnit
unfolding ◌>>=◌ pure read_count read_str read_provider_action
read_source_unit = do
  source_index ← read_count max_count
  path ← read_str
  provider ← read_str
  unit ← read_str
  emits ← read_str
  lower ← read_str
  toolset_role ← read_str
  action ← read_provider_action
  pure (record {
    source_index = source_index;
    path = path;
    provider = provider;
    unit = unit;
    emits = emits;
    lower = lower;
    toolset_role = toolset_role;
    action = action;
  })

unfoldable pub write_provider_final : ProviderFinalAction → Writer
unfolding ◌⨾◌ write_i32 write_str write_list write_array write_provider_artifact
    write_provider_action
write_provider_final x =
    write_i32 x.present
    ⨾ write_str x.api
    ⨾ write_str x.provider
    ⨾ write_str x.kind
    ⨾ write_str x.lower
    ⨾ write_list x.input_ownership
    ⨾ write_array write_provider_artifact x.artifacts
    ⨾ write_provider_action x.action

unfoldable pub read_provider_final : Reader ProviderFinalAction
unfolding ◌>>=◌ pure read_i32 read_str read_list read_array read_provider_artifact
    read_provider_action
read_provider_final = do
  present ← read_i32
  api ← read_str
  provider ← read_str
  kind ← read_str
  lower ← read_str
  input_ownership ← read_list
  artifacts ← read_array 16 read_provider_artifact
  action ← read_provider_action
  pure (record {
    present = present;
    api = api;
    provider = provider;
    kind = kind;
    lower = lower;
    input_ownership = input_ownership;
    artifacts = artifacts;
    action = action;
  })

unfoldable pub write_imported_artifact : ImportedArtifact → Writer
unfolding ◌⨾◌ write_str write_i32
write_imported_artifact x =
    write_str x.platform
    ⨾ write_str x.id
    ⨾ write_str x.role
    ⨾ write_str x.path
    ⨾ write_i32 x.primary

unfoldable pub read_imported_artifact : Reader ImportedArtifact
unfolding ◌>>=◌ pure read_str read_i32
read_imported_artifact = do
  platform ← read_str
  id ← read_str
  role ← read_str
  path ← read_str
  primary ← read_i32
  pure (record { platform = platform; id = id; role = role; path = path; primary = primary })

unfoldable pub write_provider_option : ProviderOptionValue → Writer
unfolding ◌⨾◌ write_str write_list
write_provider_option x =
    write_str x.provider
    ⨾ write_str x.name
    ⨾ write_str x.type
    ⨾ write_str x.value
    ⨾ write_list x.list

unfoldable pub read_provider_option : Reader ProviderOptionValue
unfolding ◌>>=◌ pure read_str read_list
read_provider_option = do
  provider ← read_str
  name ← read_str
  type ← read_str
  value ← read_str
  list ← read_list
  pure (record { provider = provider; name = name; type = type; value = value; list = list })
