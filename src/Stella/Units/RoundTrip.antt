-- ===== src/Stella/Units/RoundTrip.antt =====
-- Writing and reading the parts of a target (src/stella_cache.c).
use qstar.Prelude.{◌≤◌, InInt, All, length, arith}
use qstar.Graph.Target.{
  Modules, ProviderSourceUnit, ProviderFinalAction, ImportedArtifact, ProviderOptionValue,
}
use qstar.Stella.File.{max_count}
use qstar.Stella.File.Carries.{
  Carries, carry-bind, carry-last, carry-i32, carry-str, carry-count, carry-list, carry-array,
  FitsStr, FitsList, All-map,
}
use qstar.Stella.Units.{
  write_modules, read_modules, write_source_unit, read_source_unit, write_provider_final,
  read_provider_final, write_imported_artifact, read_imported_artifact, write_provider_option,
  read_provider_option,
}
use qstar.Stella.Providers.{write_provider_artifact, read_provider_artifact}
use qstar.Stella.Providers.RoundTrip.{
  FitsProviderActionTemplate, carry-provider_action, FitsProviderArtifactDescriptor,
  carry-provider_artifact,
}

pub record FitsModules (x : Modules) : Type 0 where
  pub present : InInt x.present
  pub root : FitsStr x.root
  pub include : FitsList x.include
  pub exclude : FitsList x.exclude

pub carry-modules : (x : Modules) → FitsModules x → Carries (write_modules x) read_modules x
unfolding write_modules read_modules
carry-modules x h = carry-bind _ (carry-i32 x.present h.present) (
    carry-bind _ (carry-str x.root h.root) (
      carry-bind _ (carry-list x.include h.include)
        (carry-last _ (carry-list x.exclude h.exclude))))

pub record FitsProviderSourceUnit (x : ProviderSourceUnit) : Type 0 where
  pub source_index : x.source_index ≤ max_count
  pub path : FitsStr x.path
  pub provider : FitsStr x.provider
  pub unit : FitsStr x.unit
  pub emits : FitsStr x.emits
  pub lower : FitsStr x.lower
  pub toolset_role : FitsStr x.toolset_role
  pub action : FitsProviderActionTemplate x.action

pub carry-source_unit :
    (x : ProviderSourceUnit)
    → FitsProviderSourceUnit x
    → Carries (write_source_unit x) read_source_unit x
unfolding write_source_unit read_source_unit
carry-source_unit x h =
    carry-bind _ (carry-count max_count x.source_index h.source_index (omega arith)) (
      carry-bind _ (carry-str x.path h.path) (
        carry-bind _ (carry-str x.provider h.provider) (
          carry-bind _ (carry-str x.unit h.unit) (
            carry-bind _ (carry-str x.emits h.emits) (
              carry-bind _ (carry-str x.lower h.lower) (
                carry-bind _ (carry-str x.toolset_role h.toolset_role)
                  (carry-last _ (carry-provider_action x.action h.action))))))))

pub record FitsProviderFinalAction (x : ProviderFinalAction) : Type 0 where
  pub present : InInt x.present
  pub api : FitsStr x.api
  pub provider : FitsStr x.provider
  pub kind : FitsStr x.kind
  pub lower : FitsStr x.lower
  pub input_ownership : FitsList x.input_ownership
  pub artifacts : (length x.artifacts ≤ 16) × All FitsProviderArtifactDescriptor x.artifacts
  pub action : FitsProviderActionTemplate x.action

pub carry-provider_final :
    (x : ProviderFinalAction)
    → FitsProviderFinalAction x
    → Carries (write_provider_final x) read_provider_final x
unfolding write_provider_final read_provider_final
carry-provider_final x h = carry-bind _ (carry-i32 x.present h.present) (
    carry-bind _ (carry-str x.api h.api) (
      carry-bind _ (carry-str x.provider h.provider) (
        carry-bind _ (carry-str x.kind h.kind) (
          carry-bind _ (carry-str x.lower h.lower) (
            carry-bind _ (carry-list x.input_ownership h.input_ownership) (
              carry-bind _
                (carry-array write_provider_artifact read_provider_artifact 16 x.artifacts
                  h.artifacts.0 (omega arith)
                  (All-map carry-provider_artifact x.artifacts h.artifacts.1))
                (carry-last _ (carry-provider_action x.action h.action))))))))

pub record FitsImportedArtifact (x : ImportedArtifact) : Type 0 where
  pub platform : FitsStr x.platform
  pub id : FitsStr x.id
  pub role : FitsStr x.role
  pub path : FitsStr x.path
  pub primary : InInt x.primary

pub carry-imported_artifact :
    (x : ImportedArtifact)
    → FitsImportedArtifact x
    → Carries (write_imported_artifact x) read_imported_artifact x
unfolding write_imported_artifact read_imported_artifact
carry-imported_artifact x h = carry-bind _ (carry-str x.platform h.platform) (
    carry-bind _ (carry-str x.id h.id) (
      carry-bind _ (carry-str x.role h.role)
        (carry-bind _ (carry-str x.path h.path) (carry-last _ (carry-i32 x.primary h.primary)))))

pub record FitsProviderOptionValue (x : ProviderOptionValue) : Type 0 where
  pub provider : FitsStr x.provider
  pub name : FitsStr x.name
  pub type : FitsStr x.type
  pub value : FitsStr x.value
  pub list : FitsList x.list

pub carry-provider_option :
    (x : ProviderOptionValue)
    → FitsProviderOptionValue x
    → Carries (write_provider_option x) read_provider_option x
unfolding write_provider_option read_provider_option
carry-provider_option x h = carry-bind _ (carry-str x.provider h.provider) (
    carry-bind _ (carry-str x.name h.name) (
      carry-bind _ (carry-str x.type h.type)
        (carry-bind _ (carry-str x.value h.value) (carry-last _ (carry-list x.list h.list)))))
