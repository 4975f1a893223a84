-- ===== src/Stella/Providers/RoundTrip.antt =====
-- Writing and reading language providers (src/stella_cache.c).
use qstar.Prelude.{◌≤◌, InInt, All, length, arith}
use qstar.Graph.Target.{ProviderActionTemplate, ProviderArtifactDescriptor}
use qstar.Graph.Tools.{
  LanguageOptionSchema, LanguageUnitSchema, LanguageFinalSchema, LanguageProvider,
}
use qstar.Stella.File.{max_count}
use qstar.Stella.File.Carries.{
  Carries, carry-bind, carry-last, carry-i32, carry-str, carry-list, carry-array, FitsStr, FitsList,
  All-map,
}
use qstar.Stella.Providers.{
  write_provider_action, read_provider_action, write_provider_artifact, read_provider_artifact,
  write_option_schema, read_option_schema, write_unit_schema, read_unit_schema, write_final_schema,
  read_final_schema, write_language_provider, read_language_provider,
}

pub record FitsProviderActionTemplate (x : ProviderActionTemplate) : Type 0 where
  pub argv : FitsList x.argv
  pub env : FitsList x.env
  pub inputs : FitsList x.inputs
  pub outputs : FitsList x.outputs
  pub depfile : FitsStr x.depfile
  pub wants_depfile : InInt x.wants_depfile

pub carry-provider_action :
    (x : ProviderActionTemplate)
    → FitsProviderActionTemplate x
    → Carries (write_provider_action x) read_provider_action x
unfolding write_provider_action read_provider_action
carry-provider_action x h = carry-bind _ (carry-list x.argv h.argv) (
    carry-bind _ (carry-list x.env h.env) (
      carry-bind _ (carry-list x.inputs h.inputs) (
        carry-bind _ (carry-list x.outputs h.outputs) (
          carry-bind _ (carry-str x.depfile h.depfile)
            (carry-last _ (carry-i32 x.wants_depfile h.wants_depfile))))))

pub record FitsProviderArtifactDescriptor (x : ProviderArtifactDescriptor) : Type 0 where
  pub id : FitsStr x.id
  pub type : FitsStr x.type
  pub suffix : FitsStr x.suffix
  pub path : FitsStr x.path
  pub primary : InInt x.primary
  pub secondary : InInt x.secondary
  pub runtime : InInt x.runtime
  pub link_interface : InInt x.link_interface

pub carry-provider_artifact :
    (x : ProviderArtifactDescriptor)
    → FitsProviderArtifactDescriptor x
    → Carries (write_provider_artifact x) read_provider_artifact x
unfolding write_provider_artifact read_provider_artifact
carry-provider_artifact x h = carry-bind _ (carry-str x.id h.id) (
    carry-bind _ (carry-str x.type h.type) (
      carry-bind _ (carry-str x.suffix h.suffix) (
        carry-bind _ (carry-str x.path h.path) (
          carry-bind _ (carry-i32 x.primary h.primary) (
            carry-bind _ (carry-i32 x.secondary h.secondary) (
              carry-bind _ (carry-i32 x.runtime h.runtime)
                (carry-last _ (carry-i32 x.link_interface h.link_interface))))))))

pub record FitsLanguageOptionSchema (x : LanguageOptionSchema) : Type 0 where
  pub name : FitsStr x.name
  pub type : FitsStr x.type
  pub has_default : InInt x.has_default
  pub default_value : FitsStr x.default_value
  pub default_list : FitsList x.default_list
  pub values : FitsList x.values

pub carry-option_schema :
    (x : LanguageOptionSchema)
    → FitsLanguageOptionSchema x
    → Carries (write_option_schema x) read_option_schema x
unfolding write_option_schema read_option_schema
carry-option_schema x h = carry-bind _ (carry-str x.name h.name) (
    carry-bind _ (carry-str x.type h.type) (
      carry-bind _ (carry-i32 x.has_default h.has_default) (
        carry-bind _ (carry-str x.default_value h.default_value) (
          carry-bind _ (carry-list x.default_list h.default_list)
            (carry-last _ (carry-list x.values h.values))))))

pub record FitsLanguageUnitSchema (x : LanguageUnitSchema) : Type 0 where
  pub name : FitsStr x.name
  pub suffixes : FitsList x.suffixes
  pub emits : FitsStr x.emits
  pub lower : FitsStr x.lower
  pub deps : FitsStr x.deps

pub carry-unit_schema :
    (x : LanguageUnitSchema)
    → FitsLanguageUnitSchema x
    → Carries (write_unit_schema x) read_unit_schema x
unfolding write_unit_schema read_unit_schema
carry-unit_schema x h = carry-bind _ (carry-str x.name h.name) (
    carry-bind _ (carry-list x.suffixes h.suffixes) (
      carry-bind _ (carry-str x.emits h.emits)
        (carry-bind _ (carry-str x.lower h.lower) (carry-last _ (carry-str x.deps h.deps)))))

pub record FitsLanguageFinalSchema (x : LanguageFinalSchema) : Type 0 where
  pub kind : FitsStr x.kind
  pub lower : FitsStr x.lower
  pub inputs : FitsList x.inputs
  pub artifacts : (length x.artifacts ≤ 16) × All FitsProviderArtifactDescriptor x.artifacts

pub carry-final_schema :
    (x : LanguageFinalSchema)
    → FitsLanguageFinalSchema x
    → Carries (write_final_schema x) read_final_schema x
unfolding write_final_schema read_final_schema
carry-final_schema x h = carry-bind _ (carry-str x.kind h.kind) (
    carry-bind _ (carry-str x.lower h.lower) (
      carry-bind _ (carry-list x.inputs h.inputs) (
        carry-last _ (
          carry-array write_provider_artifact read_provider_artifact 16 x.artifacts h.artifacts.0
            (omega arith) (All-map carry-provider_artifact x.artifacts h.artifacts.1)))))

pub record FitsLanguageProvider (x : LanguageProvider) : Type 0 where
  pub api : FitsStr x.api
  pub id : FitsStr x.id
  pub namespace : FitsStr x.namespace
  pub version : FitsStr x.version
  pub dir : FitsStr x.dir
  pub manifest : FitsStr x.manifest
  pub implementation : FitsStr x.implementation
  pub options : (length x.options ≤ max_count) × All FitsLanguageOptionSchema x.options
  pub units : (length x.units ≤ max_count) × All FitsLanguageUnitSchema x.units
  pub finals : (length x.finals ≤ max_count) × All FitsLanguageFinalSchema x.finals

pub carry-language_provider :
    (x : LanguageProvider)
    → FitsLanguageProvider x
    → Carries (write_language_provider x) read_language_provider x
unfolding write_language_provider read_language_provider
carry-language_provider x h = carry-bind _ (carry-str x.api h.api) (
    carry-bind _ (carry-str x.id h.id) (
      carry-bind _ (carry-str x.namespace h.namespace) (
        carry-bind _ (carry-str x.version h.version) (
          carry-bind _ (carry-str x.dir h.dir) (
            carry-bind _ (carry-str x.manifest h.manifest) (
              carry-bind _ (carry-str x.implementation h.implementation) (
                carry-bind _
                  (carry-array write_option_schema read_option_schema max_count x.options
                    h.options.0 (omega arith) (All-map carry-option_schema x.options h.options.1))
                  (carry-bind _
                    (carry-array write_unit_schema read_unit_schema max_count x.units h.units.0
                      (omega arith) (All-map carry-unit_schema x.units h.units.1))
                    (carry-last _ (
                      carry-array write_final_schema read_final_schema max_count x.finals h.finals.0
                        (omega arith) (All-map carry-final_schema x.finals h.finals.1)))))))))))
