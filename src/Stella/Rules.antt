-- ===== src/Stella/Rules.antt =====
-- Generated actions, stages, target families, package aliases and the project in
-- src/stella_cache.c.
pub mod RoundTrip
use qstar.Prelude.{◌≡◌, ◌≤◌, ℤ, pos, InInt, All, length, List, [], arith, Bytes, CString}
use qstar.Graph.Target.{
  Target, Modules, ProviderActionTemplate, ProviderArtifactDescriptor, ProviderSourceUnit,
  ProviderFinalAction, ImportedArtifact, ProviderOptionValue,
}
use qstar.Graph.Tools.{
  ToolRole, Toolset, LanguageOptionSchema, LanguageUnitSchema, LanguageFinalSchema,
  LanguageProvider, Genrule, Stage, TargetFamily, PackageAlias,
}
use qstar.Graph.Project.{Project}
use qstar.Stella.File.{
  Writer, Reader, ◌⨾◌, pure, failure, ◌>>=◌, write_u64, read_u64, write_i32, read_i32, write_str,
  read_str, max_count, read_count, write_array, read_array, write_list, read_list, write_each,
  read_each,
}

unfoldable pub write_genrule : Genrule → Writer
unfolding ◌⨾◌ write_str write_i32 write_list
write_genrule x =
    write_str x.label
    ⨾ write_str x.name
    ⨾ write_str x.fragment_dir
    ⨾ write_str x.origin_file
    ⨾ write_i32 x.origin_line
    ⨾ write_str x.tool
    ⨾ write_str x.toolset
    ⨾ write_str x.description
    ⨾ write_i32 x.config_header
    ⨾ write_i32 x.cacheable_present
    ⨾ write_i32 x.cacheable
    ⨾ write_list x.inputs
    ⨾ write_list x.outputs
    ⨾ write_list x.output_groups
    ⨾ write_list x.output_formats
    ⨾ write_list x.args
    ⨾ write_list x.command

unfoldable pub read_genrule : Reader Genrule
unfolding ◌>>=◌ pure read_str read_i32 read_list
read_genrule = do
  label ← read_str
  name ← read_str
  fragment_dir ← read_str
  origin_file ← read_str
  origin_line ← read_i32
  tool ← read_str
  toolset ← read_str
  description ← read_str
  config_header ← read_i32
  cacheable_present ← read_i32
  cacheable ← read_i32
  inputs ← read_list
  outputs ← read_list
  output_groups ← read_list
  output_formats ← read_list
  args ← read_list
  command ← read_list
  pure (record {
    label = label;
    name = name;
    fragment_dir = fragment_dir;
    origin_file = origin_file;
    origin_line = origin_line;
    tool = tool;
    toolset = toolset;
    description = description;
    config_header = config_header;
    cacheable_present = cacheable_present;
    cacheable = cacheable;
    inputs = inputs;
    outputs = outputs;
    output_groups = output_groups;
    output_formats = output_formats;
    args = args;
    command = command;
  })

unfoldable pub write_stage : Stage → Writer
unfolding ◌⨾◌ write_str write_i32 write_list
write_stage x =
    write_str x.label
    ⨾ write_str x.name
    ⨾ write_str x.fragment_dir
    ⨾ write_str x.origin_file
    ⨾ write_i32 x.origin_line
    ⨾ write_str x.root
    ⨾ write_str x.description
    ⨾ write_list x.srcs
    ⨾ write_list x.dsts

unfoldable pub read_stage : Reader Stage
unfolding ◌>>=◌ pure read_str read_i32 read_list
read_stage = do
  label ← read_str
  name ← read_str
  fragment_dir ← read_str
  origin_file ← read_str
  origin_line ← read_i32
  root ← read_str
  description ← read_str
  srcs ← read_list
  dsts ← read_list
  pure (record {
    label = label;
    name = name;
    fragment_dir = fragment_dir;
    origin_file = origin_file;
    origin_line = origin_line;
    root = root;
    description = description;
    srcs = srcs;
    dsts = dsts;
  })

unfoldable pub write_family : TargetFamily → Writer
unfolding ◌⨾◌ write_str write_i32 write_list
write_family x =
    write_str x.name
    ⨾ write_str x.fragment_dir
    ⨾ write_str x.origin_file
    ⨾ write_i32 x.origin_line
    ⨾ write_i32 x.allow_shared_sources
    ⨾ write_list x.variants
    ⨾ write_list x.targets

unfoldable pub read_family : Reader TargetFamily
unfolding ◌>>=◌ pure read_str read_i32 read_list
read_family = do
  name ← read_str
  fragment_dir ← read_str
  origin_file ← read_str
  origin_line ← read_i32
  allow_shared_sources ← read_i32
  variants ← read_list
  targets ← read_list
  pure (record {
    name = name;
    fragment_dir = fragment_dir;
    origin_file = origin_file;
    origin_line = origin_line;
    allow_shared_sources = allow_shared_sources;
    variants = variants;
    targets = targets;
  })

unfoldable pub write_package_alias : PackageAlias → Writer
unfolding ◌⨾◌ write_str
write_package_alias x = write_str x.alias ⨾ write_str x.root

unfoldable pub read_package_alias : Reader PackageAlias
unfolding ◌>>=◌ pure read_str
read_package_alias = do
  alias ← read_str
  root ← read_str
  pure (record { alias = alias; root = root })

unfoldable pub write_project : Project → Writer
unfolding ◌⨾◌ write_i32 write_str
write_project x =
    write_i32 x.present
    ⨾ write_str x.name
    ⨾ write_str x.version
    ⨾ write_str x.root
    ⨾ write_str x.build_dir
    ⨾ write_str x.generated_dir
    ⨾ write_str x.compile_commands
    ⨾ write_str x.action_cache

unfoldable pub read_project : Reader Project
unfolding ◌>>=◌ pure read_i32 read_str
read_project = do
  present ← read_i32
  name ← read_str
  version ← read_str
  root ← read_str
  build_dir ← read_str
  generated_dir ← read_str
  compile_commands ← read_str
  action_cache ← read_str
  pure (record {
    present = present;
    name = name;
    version = version;
    root = root;
    build_dir = build_dir;
    generated_dir = generated_dir;
    compile_commands = compile_commands;
    action_cache = action_cache;
  })
