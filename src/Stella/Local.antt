-- ===== src/Stella/Local.antt =====
-- The readers of src/stella_cache.c, and the bytes behind those that they read.
use qstar.Prelude.{◌==◌, [], ℕ, zero, suc, List, Option, none, some}
use qstar.Graph.Tools.{ToolRole}
use qstar.Stella.File.{max_count}
use qstar.Stella.File.Local.{
  IsLocal, bind-IsLocal, if-IsLocal, pure-IsLocal, failure-IsLocal, str-IsLocal, list-IsLocal,
  i32-IsLocal, count-IsLocal, array-IsLocal, u64-IsLocal,
}
use qstar.Stella.Providers.{
  read_provider_action, read_provider_artifact, read_option_schema, read_unit_schema,
  read_final_schema, read_language_provider,
}
use qstar.Stella.Units.{
  read_modules, read_source_unit, read_provider_final, read_imported_artifact, read_provider_option,
}
use qstar.Stella.Targets.{read_target}
use qstar.Stella.Toolsets.{
  can_add_role, toolset_add_role, checked, read_role, read_roles, read_toolset,
}
use qstar.Stella.Rules.{read_genrule, read_stage, read_family, read_package_alias, read_project}
use qstar.Stella.GraphFile.{read_graph, read_graph_file, magic_ok, plan_abi}

provider_action-IsLocal : IsLocal read_provider_action
unfolding read_provider_action
provider_action-IsLocal = bind-IsLocal _ _ list-IsLocal (λ x. bind-IsLocal _ _ list-IsLocal (λ x.
    bind-IsLocal _ _ list-IsLocal (λ x. bind-IsLocal _ _ list-IsLocal (λ x.
      bind-IsLocal _ _ str-IsLocal (λ x. bind-IsLocal _ _ i32-IsLocal (λ x. pure-IsLocal _))))))

provider_artifact-IsLocal : IsLocal read_provider_artifact
unfolding read_provider_artifact
provider_artifact-IsLocal = bind-IsLocal _ _ str-IsLocal (λ x. bind-IsLocal _ _ str-IsLocal (λ x.
    bind-IsLocal _ _ str-IsLocal (λ x. bind-IsLocal _ _ str-IsLocal (λ x.
      bind-IsLocal _ _ i32-IsLocal (λ x. bind-IsLocal _ _ i32-IsLocal (λ x.
        bind-IsLocal _ _ i32-IsLocal (λ x. bind-IsLocal _ _ i32-IsLocal (λ x. pure-IsLocal _))))))))

option_schema-IsLocal : IsLocal read_option_schema
unfolding read_option_schema
option_schema-IsLocal = bind-IsLocal _ _ str-IsLocal (λ x. bind-IsLocal _ _ str-IsLocal (λ x.
    bind-IsLocal _ _ i32-IsLocal (λ x. bind-IsLocal _ _ str-IsLocal (λ x.
      bind-IsLocal _ _ list-IsLocal (λ x. bind-IsLocal _ _ list-IsLocal (λ x. pure-IsLocal _))))))

unit_schema-IsLocal : IsLocal read_unit_schema
unfolding read_unit_schema
unit_schema-IsLocal = bind-IsLocal _ _ str-IsLocal (λ x. bind-IsLocal _ _ list-IsLocal (λ x.
    bind-IsLocal _ _ str-IsLocal (λ x.
      bind-IsLocal _ _ str-IsLocal (λ x. bind-IsLocal _ _ str-IsLocal (λ x. pure-IsLocal _)))))

final_schema-IsLocal : IsLocal read_final_schema
unfolding read_final_schema
final_schema-IsLocal = bind-IsLocal _ _ str-IsLocal (λ x. bind-IsLocal _ _ str-IsLocal (λ x.
    bind-IsLocal _ _ list-IsLocal (λ x.
      bind-IsLocal _ _ (array-IsLocal 16 read_provider_artifact provider_artifact-IsLocal)
        (λ x. pure-IsLocal _))))

language_provider-IsLocal : IsLocal read_language_provider
unfolding read_language_provider
language_provider-IsLocal = bind-IsLocal _ _ str-IsLocal (λ x. bind-IsLocal _ _ str-IsLocal (λ x.
    bind-IsLocal _ _ str-IsLocal (λ x. bind-IsLocal _ _ str-IsLocal (λ x.
      bind-IsLocal _ _ str-IsLocal (λ x. bind-IsLocal _ _ str-IsLocal (λ x.
        bind-IsLocal _ _ str-IsLocal (λ x.
          bind-IsLocal _ _ (array-IsLocal max_count read_option_schema option_schema-IsLocal) (λ x.
            bind-IsLocal _ _ (array-IsLocal max_count read_unit_schema unit_schema-IsLocal) (λ x.
              bind-IsLocal _ _ (array-IsLocal max_count read_final_schema final_schema-IsLocal)
                (λ x. pure-IsLocal _))))))))))

modules-IsLocal : IsLocal read_modules
unfolding read_modules
modules-IsLocal = bind-IsLocal _ _ i32-IsLocal (λ x.
    bind-IsLocal _ _ str-IsLocal (λ x.
      bind-IsLocal _ _ list-IsLocal (λ x. bind-IsLocal _ _ list-IsLocal (λ x. pure-IsLocal _))))

source_unit-IsLocal : IsLocal read_source_unit
unfolding read_source_unit
source_unit-IsLocal = bind-IsLocal _ _ (count-IsLocal max_count) (λ x.
    bind-IsLocal _ _ str-IsLocal (λ x. bind-IsLocal _ _ str-IsLocal (λ x.
      bind-IsLocal _ _ str-IsLocal (λ x. bind-IsLocal _ _ str-IsLocal (λ x.
        bind-IsLocal _ _ str-IsLocal (λ x.
          bind-IsLocal _ _ str-IsLocal
            (λ x. bind-IsLocal _ _ provider_action-IsLocal (λ x. pure-IsLocal _))))))))

provider_final-IsLocal : IsLocal read_provider_final
unfolding read_provider_final
provider_final-IsLocal = bind-IsLocal _ _ i32-IsLocal (λ x. bind-IsLocal _ _ str-IsLocal (λ x.
    bind-IsLocal _ _ str-IsLocal (λ x. bind-IsLocal _ _ str-IsLocal (λ x.
      bind-IsLocal _ _ str-IsLocal (λ x. bind-IsLocal _ _ list-IsLocal (λ x.
        bind-IsLocal _ _ (array-IsLocal 16 read_provider_artifact provider_artifact-IsLocal)
          (λ x. bind-IsLocal _ _ provider_action-IsLocal (λ x. pure-IsLocal _))))))))

imported_artifact-IsLocal : IsLocal read_imported_artifact
unfolding read_imported_artifact
imported_artifact-IsLocal = bind-IsLocal _ _ str-IsLocal (λ x. bind-IsLocal _ _ str-IsLocal (λ x.
    bind-IsLocal _ _ str-IsLocal (λ x.
      bind-IsLocal _ _ str-IsLocal (λ x. bind-IsLocal _ _ i32-IsLocal (λ x. pure-IsLocal _)))))

provider_option-IsLocal : IsLocal read_provider_option
unfolding read_provider_option
provider_option-IsLocal = bind-IsLocal _ _ str-IsLocal (λ x. bind-IsLocal _ _ str-IsLocal (λ x.
    bind-IsLocal _ _ str-IsLocal (λ x.
      bind-IsLocal _ _ str-IsLocal (λ x. bind-IsLocal _ _ list-IsLocal (λ x. pure-IsLocal _)))))

target-IsLocal : IsLocal read_target
unfolding read_target
target-IsLocal = bind-IsLocal _ _ str-IsLocal (λ x. bind-IsLocal _ _ str-IsLocal (λ x.
    bind-IsLocal _ _ str-IsLocal (λ x. bind-IsLocal _ _ str-IsLocal (λ x.
      bind-IsLocal _ _ str-IsLocal (λ x. bind-IsLocal _ _ i32-IsLocal (λ x.
        bind-IsLocal _ _ modules-IsLocal (λ x. bind-IsLocal _ _ list-IsLocal (λ x.
          bind-IsLocal _ _ list-IsLocal (λ x. bind-IsLocal _ _ list-IsLocal (λ x.
            bind-IsLocal _ _ (array-IsLocal max_count read_source_unit source_unit-IsLocal) (λ x.
              bind-IsLocal _ _ provider_final-IsLocal (λ x. bind-IsLocal _ _ list-IsLocal (λ x.
                bind-IsLocal _ _ list-IsLocal (λ x. bind-IsLocal _ _ list-IsLocal (λ x.
                  bind-IsLocal _ _ list-IsLocal (λ x. bind-IsLocal _ _ list-IsLocal (λ x.
                    bind-IsLocal _ _ list-IsLocal (λ x. bind-IsLocal _ _ list-IsLocal (λ x.
                      bind-IsLocal _ _ list-IsLocal (λ x. bind-IsLocal _ _ list-IsLocal (λ x.
                        bind-IsLocal _ _ list-IsLocal (λ x. bind-IsLocal _ _ list-IsLocal (λ x.
                          bind-IsLocal _ _ list-IsLocal (λ x. bind-IsLocal _ _ list-IsLocal (λ x.
                            bind-IsLocal _ _ list-IsLocal (λ x. bind-IsLocal _ _ list-IsLocal (λ x.
                              bind-IsLocal _ _ list-IsLocal (λ x.
                                bind-IsLocal _ _ list-IsLocal (λ x.
                                  bind-IsLocal _ _ list-IsLocal (λ x.
                                    bind-IsLocal _ _ list-IsLocal (λ x.
                                      bind-IsLocal _ _
                                        (array-IsLocal max_count read_imported_artifact
                                          imported_artifact-IsLocal)
                                        (λ x. bind-IsLocal _ _ list-IsLocal (λ x.
                                          bind-IsLocal _ _ list-IsLocal (λ x.
                                            bind-IsLocal _ _ list-IsLocal (λ x.
                                              bind-IsLocal _ _ list-IsLocal (λ x.
                                                bind-IsLocal _ _
                                                  (array-IsLocal max_count read_provider_option
                                                    provider_option-IsLocal)
                                                  (λ x. bind-IsLocal _ _ list-IsLocal (λ x.
                                                    bind-IsLocal _ _ list-IsLocal (λ x.
                                                      bind-IsLocal _ _ str-IsLocal (λ x.
                                                        bind-IsLocal _ _ str-IsLocal (λ x.
                                                          bind-IsLocal _ _ str-IsLocal (λ x.
                                                            bind-IsLocal _ _ str-IsLocal (λ x.
                                                            bind-IsLocal _ _ str-IsLocal (λ x.
                                                            bind-IsLocal _ _ str-IsLocal (λ x.
                                                            bind-IsLocal _ _ str-IsLocal (λ x.
                                                            bind-IsLocal _ _ str-IsLocal (λ x.
                                                            bind-IsLocal _ _ str-IsLocal (λ x.
                                                            bind-IsLocal _ _ i32-IsLocal (λ x.
                                                            bind-IsLocal _ _ i32-IsLocal (λ x.
                                                            bind-IsLocal _ _ i32-IsLocal (λ x.
                                                            bind-IsLocal _ _ i32-IsLocal (λ x.
                                                            bind-IsLocal _ _ i32-IsLocal (λ x.
                                                            bind-IsLocal _ _ i32-IsLocal (λ x.
                                                            bind-IsLocal _ _ i32-IsLocal (λ x.
                                                            bind-IsLocal _ _ i32-IsLocal (λ x.
                                                            bind-IsLocal _ _ i32-IsLocal (λ x.
                                                            bind-IsLocal _ _ i32-IsLocal (λ x.
                                                            bind-IsLocal _ _ str-IsLocal
                                                            (λ x. pure-IsLocal _))))))))))))))))))))
                                                            )))))))))))))))))))))))))))))))))))))))

checked-IsLocal {ℓ} : {A : Type ℓ} (o : Option A) → IsLocal (checked o)
unfolding checked
checked-IsLocal none = failure-IsLocal
checked-IsLocal (some a) = pure-IsLocal a

role-IsLocal : (roles : List ToolRole) → IsLocal (read_role roles)
unfolding read_role
role-IsLocal roles = bind-IsLocal _ _ str-IsLocal (λ role.
    if-IsLocal (can_add_role roles role) _ _
      (bind-IsLocal _ _ list-IsLocal (λ argv. checked-IsLocal (toolset_add_role roles role argv)))
      failure-IsLocal)

roles-IsLocal : (n : ℕ) (roles : List ToolRole) → IsLocal (read_roles n roles)
unfolding read_roles
roles-IsLocal zero roles = pure-IsLocal roles
roles-IsLocal (suc n) roles = bind-IsLocal _ _ (role-IsLocal roles) (λ more. roles-IsLocal n more)

toolset-IsLocal : IsLocal read_toolset
unfolding read_toolset
toolset-IsLocal = bind-IsLocal _ _ str-IsLocal (λ x. bind-IsLocal _ _ str-IsLocal (λ x.
    bind-IsLocal _ _ str-IsLocal (λ x. bind-IsLocal _ _ str-IsLocal (λ x.
      bind-IsLocal _ _ i32-IsLocal (λ x. bind-IsLocal _ _ (count-IsLocal max_count) (λ n.
        bind-IsLocal _ _ (roles-IsLocal n []) (λ x. bind-IsLocal _ _ list-IsLocal (λ x.
          bind-IsLocal _ _ list-IsLocal (λ x. bind-IsLocal _ _ str-IsLocal (λ x.
            bind-IsLocal _ _ str-IsLocal
              (λ x. bind-IsLocal _ _ str-IsLocal (λ x. pure-IsLocal _))))))))))))

genrule-IsLocal : IsLocal read_genrule
unfolding read_genrule
genrule-IsLocal = bind-IsLocal _ _ str-IsLocal (λ x. bind-IsLocal _ _ str-IsLocal (λ x.
    bind-IsLocal _ _ str-IsLocal (λ x. bind-IsLocal _ _ str-IsLocal (λ x.
      bind-IsLocal _ _ i32-IsLocal (λ x. bind-IsLocal _ _ str-IsLocal (λ x.
        bind-IsLocal _ _ str-IsLocal (λ x. bind-IsLocal _ _ str-IsLocal (λ x.
          bind-IsLocal _ _ i32-IsLocal (λ x. bind-IsLocal _ _ i32-IsLocal (λ x.
            bind-IsLocal _ _ i32-IsLocal (λ x. bind-IsLocal _ _ list-IsLocal (λ x.
              bind-IsLocal _ _ list-IsLocal (λ x. bind-IsLocal _ _ list-IsLocal (λ x.
                bind-IsLocal _ _ list-IsLocal (λ x.
                  bind-IsLocal _ _ list-IsLocal
                    (λ x. bind-IsLocal _ _ list-IsLocal (λ x. pure-IsLocal _)))))))))))))))))

stage-IsLocal : IsLocal read_stage
unfolding read_stage
stage-IsLocal = bind-IsLocal _ _ str-IsLocal (λ x. bind-IsLocal _ _ str-IsLocal (λ x.
    bind-IsLocal _ _ str-IsLocal (λ x. bind-IsLocal _ _ str-IsLocal (λ x.
      bind-IsLocal _ _ i32-IsLocal (λ x. bind-IsLocal _ _ str-IsLocal (λ x.
        bind-IsLocal _ _ str-IsLocal (λ x.
          bind-IsLocal _ _ list-IsLocal
            (λ x. bind-IsLocal _ _ list-IsLocal (λ x. pure-IsLocal _)))))))))

family-IsLocal : IsLocal read_family
unfolding read_family
family-IsLocal = bind-IsLocal _ _ str-IsLocal (λ x. bind-IsLocal _ _ str-IsLocal (λ x.
    bind-IsLocal _ _ str-IsLocal (λ x. bind-IsLocal _ _ i32-IsLocal (λ x.
      bind-IsLocal _ _ i32-IsLocal (λ x.
        bind-IsLocal _ _ list-IsLocal
          (λ x. bind-IsLocal _ _ list-IsLocal (λ x. pure-IsLocal _)))))))

package_alias-IsLocal : IsLocal read_package_alias
unfolding read_package_alias
package_alias-IsLocal =
    bind-IsLocal _ _ str-IsLocal (λ x. bind-IsLocal _ _ str-IsLocal (λ x. pure-IsLocal _))

project-IsLocal : IsLocal read_project
unfolding read_project
project-IsLocal = bind-IsLocal _ _ i32-IsLocal (λ x. bind-IsLocal _ _ str-IsLocal (λ x.
    bind-IsLocal _ _ str-IsLocal (λ x. bind-IsLocal _ _ str-IsLocal (λ x.
      bind-IsLocal _ _ str-IsLocal (λ x. bind-IsLocal _ _ str-IsLocal (λ x.
        bind-IsLocal _ _ str-IsLocal (λ x. bind-IsLocal _ _ str-IsLocal (λ x. pure-IsLocal _))))))))

graph-IsLocal : IsLocal read_graph
unfolding read_graph
graph-IsLocal = bind-IsLocal _ _ str-IsLocal (λ x. bind-IsLocal _ _ str-IsLocal (λ x.
    bind-IsLocal _ _ str-IsLocal (λ x. bind-IsLocal _ _ str-IsLocal (λ x.
      bind-IsLocal _ _ project-IsLocal (λ x. bind-IsLocal _ _ i32-IsLocal (λ x.
        bind-IsLocal _ _ str-IsLocal (λ x. bind-IsLocal _ _ list-IsLocal (λ x.
          bind-IsLocal _ _ (array-IsLocal max_count read_package_alias package_alias-IsLocal) (λ x.
            bind-IsLocal _ _ (array-IsLocal max_count read_toolset toolset-IsLocal) (λ x.
              bind-IsLocal _ _
                (array-IsLocal max_count read_language_provider language_provider-IsLocal)
                (λ x. bind-IsLocal _ _ (array-IsLocal max_count read_target target-IsLocal) (λ x.
                  bind-IsLocal _ _ (array-IsLocal max_count read_genrule genrule-IsLocal) (λ x.
                    bind-IsLocal _ _ (array-IsLocal max_count read_stage stage-IsLocal) (λ x.
                      bind-IsLocal _ _ (array-IsLocal max_count read_family family-IsLocal)
                        (λ x. pure-IsLocal _)))))))))))))))

pub file-IsLocal : IsLocal read_graph_file
unfolding read_graph_file
file-IsLocal = bind-IsLocal _ _ str-IsLocal (λ magic.
    if-IsLocal (magic_ok magic) _ _
      (bind-IsLocal _ _ u64-IsLocal
        (λ version. if-IsLocal (version == plan_abi) _ _ graph-IsLocal failure-IsLocal))
      failure-IsLocal)
