-- ===== src/Controller/Watch.antt =====
-- The watch on the objects in target namespaces: which installation is reconciled when one of them
-- changes (internal/controller/reconciler.go).
pub mod Requests
mod Tests
use cryostat_operator.Prelude.{Option, none, some, List, [], ◌∷◌}
use cryostat_operator.Api.Kube.{StringMap}
use cryostat_operator.Common.Constants.{
  target_namespace_cr_name_label, target_namespace_cr_namespace_label,
}
use cryostat_operator.Common.Metadata.Laws.{value_at}
use cryostat_operator.Cluster.{Key}

-- The function that `mapFromTargetNamespace` returns, from an object's labels.
unfoldable pub map_from_target_namespace : StringMap → List Key
map_from_target_namespace labels = elim (value_at target_namespace_cr_name_label labels) [
  | none ↦ []
  | some name ↦ elim (value_at target_namespace_cr_namespace_label labels) [
    | none ↦ []
    | some namespace ↦ record { name = name; namespace = namespace } ∷ []
  ]
]
