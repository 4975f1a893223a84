-- ===== src/Stella/Rules/RoundTrip.antt =====
-- Writing and reading generated actions, stages, families, aliases and the project
-- (src/stella_cache.c).
use qstar.Prelude.{InInt}
use qstar.Graph.Tools.{Genrule, Stage, TargetFamily, PackageAlias}
use qstar.Graph.Project.{Project}
use qstar.Stella.File.Carries.{
  Carries, carry-bind, carry-last, carry-i32, carry-str, carry-list, FitsStr, FitsList,
}
use qstar.Stella.Rules.{
  write_genrule, read_genrule, write_stage, read_stage, write_family, read_family,
  write_package_alias, read_package_alias, write_project, read_project,
}

pub record FitsGenrule (x : Genrule) : Type 0 where
  pub label : FitsStr x.label
  pub name : FitsStr x.name
  pub fragment_dir : FitsStr x.fragment_dir
  pub origin_file : FitsStr x.origin_file
  pub origin_line : InInt x.origin_line
  pub tool : FitsStr x.tool
  pub toolset : FitsStr x.toolset
  pub description : FitsStr x.description
  pub config_header : InInt x.config_header
  pub cacheable_present : InInt x.cacheable_present
  pub cacheable : InInt x.cacheable
  pub inputs : FitsList x.inputs
  pub outputs : FitsList x.outputs
  pub output_groups : FitsList x.output_groups
  pub output_formats : FitsList x.output_formats
  pub args : FitsList x.args
  pub command : FitsList x.command

pub carry-genrule : (x : Genrule) → FitsGenrule x → Carries (write_genrule x) read_genrule x
unfolding write_genrule read_genrule
carry-genrule x h = carry-bind _ (carry-str x.label h.label) (
    carry-bind _ (carry-str x.name h.name) (
      carry-bind _ (carry-str x.fragment_dir h.fragment_dir) (
        carry-bind _ (carry-str x.origin_file h.origin_file) (
          carry-bind _ (carry-i32 x.origin_line h.origin_line) (
            carry-bind _ (carry-str x.tool h.tool) (
              carry-bind _ (carry-str x.toolset h.toolset) (
                carry-bind _ (carry-str x.description h.description) (
                  carry-bind _ (carry-i32 x.config_header h.config_header) (
                    carry-bind _ (carry-i32 x.cacheable_present h.cacheable_present) (
                      carry-bind _ (carry-i32 x.cacheable h.cacheable) (
                        carry-bind _ (carry-list x.inputs h.inputs) (
                          carry-bind _ (carry-list x.outputs h.outputs) (
                            carry-bind _ (carry-list x.output_groups h.output_groups) (
                              carry-bind _ (carry-list x.output_formats h.output_formats) (
                                carry-bind _ (carry-list x.args h.args)
                                  (carry-last _ (carry-list x.command h.command)))))))))))))))))

pub record FitsStage (x : Stage) : Type 0 where
  pub label : FitsStr x.label
  pub name : FitsStr x.name
  pub fragment_dir : FitsStr x.fragment_dir
  pub origin_file : FitsStr x.origin_file
  pub origin_line : InInt x.origin_line
  pub root : FitsStr x.root
  pub description : FitsStr x.description
  pub srcs : FitsList x.srcs
  pub dsts : FitsList x.dsts

pub carry-stage : (x : Stage) → FitsStage x → Carries (write_stage x) read_stage x
unfolding write_stage read_stage
carry-stage x h = carry-bind _ (carry-str x.label h.label) (
    carry-bind _ (carry-str x.name h.name) (
      carry-bind _ (carry-str x.fragment_dir h.fragment_dir) (
        carry-bind _ (carry-str x.origin_file h.origin_file) (
          carry-bind _ (carry-i32 x.origin_line h.origin_line) (
            carry-bind _ (carry-str x.root h.root) (
              carry-bind _ (carry-str x.description h.description) (
                carry-bind _ (carry-list x.srcs h.srcs)
                  (carry-last _ (carry-list x.dsts h.dsts)))))))))

pub record FitsTargetFamily (x : TargetFamily) : Type 0 where
  pub name : FitsStr x.name
  pub fragment_dir : FitsStr x.fragment_dir
  pub origin_file : FitsStr x.origin_file
  pub origin_line : InInt x.origin_line
  pub allow_shared_sources : InInt x.allow_shared_sources
  pub variants : FitsList x.variants
  pub targets : FitsList x.targets

pub carry-family : (x : TargetFamily) → FitsTargetFamily x → Carries (write_family x) read_family x
unfolding write_family read_family
carry-family x h = carry-bind _ (carry-str x.name h.name) (
    carry-bind _ (carry-str x.fragment_dir h.fragment_dir) (
      carry-bind _ (carry-str x.origin_file h.origin_file) (
        carry-bind _ (carry-i32 x.origin_line h.origin_line) (
          carry-bind _ (carry-i32 x.allow_shared_sources h.allow_shared_sources) (
            carry-bind _ (carry-list x.variants h.variants)
              (carry-last _ (carry-list x.targets h.targets)))))))

pub record FitsPackageAlias (x : PackageAlias) : Type 0 where
  pub alias : FitsStr x.alias
  pub root : FitsStr x.root

pub carry-package_alias :
    (x : PackageAlias) → FitsPackageAlias x → Carries (write_package_alias x) read_package_alias x
unfolding write_package_alias read_package_alias
carry-package_alias x h =
    carry-bind _ (carry-str x.alias h.alias) (carry-last _ (carry-str x.root h.root))

pub record FitsProject (x : Project) : Type 0 where
  pub present : InInt x.present
  pub name : FitsStr x.name
  pub version : FitsStr x.version
  pub root : FitsStr x.root
  pub build_dir : FitsStr x.build_dir
  pub generated_dir : FitsStr x.generated_dir
  pub compile_commands : FitsStr x.compile_commands
  pub action_cache : FitsStr x.action_cache

pub carry-project : (x : Project) → FitsProject x → Carries (write_project x) read_project x
unfolding write_project read_project
carry-project x h = carry-bind _ (carry-i32 x.present h.present) (
    carry-bind _ (carry-str x.name h.name) (
      carry-bind _ (carry-str x.version h.version) (
        carry-bind _ (carry-str x.root h.root) (
          carry-bind _ (carry-str x.build_dir h.build_dir) (
            carry-bind _ (carry-str x.generated_dir h.generated_dir) (
              carry-bind _ (carry-str x.compile_commands h.compile_commands)
                (carry-last _ (carry-str x.action_cache h.action_cache))))))))
