-- ===== src/Controller/Watch/Requests.antt =====
-- An object that the controller has written in a target namespace leads back to its installation.
use cryostat_operator.Prelude.{
  Bool-cases, inl, inr, ap, ◌≡◌, refl, ◌∙◌, String, ◌==◌, eq_iff, Option, none, some, List, [], ◌∷◌,
  arith, get_or,
}
use cryostat_operator.Prelude.Dict.{Dict, lookup, insert, copy, lookup-insert}
use cryostat_operator.Api.Kube.{Kube, StringMap}
use cryostat_operator.Common.Instance.{CryostatInstance}
use cryostat_operator.Common.Metadata.{
  Metadata, merge_labels_and_annotations, labels_for_target_namespace_object,
}
use cryostat_operator.Common.Metadata.Laws.{value_at, prefer, DistinctKeys, lookup-copy}
use cryostat_operator.Cluster.{Key, Ownership}
use cryostat_operator.Cluster.Monad.{ok}
use cryostat_operator.Controller.Rbac.{Subject, RoleRef, RoleBinding, mutate_role_binding}
use cryostat_operator.Controller.ServiceConfig.{
  configure_agent_callback_service, configure_metadata,
}
use cryostat_operator.Controller.ServiceConfig.Labels.{
  labels_for_target-DistinctKeys, lookup-configure_agent_callback_service, user_callback_metadata,
}
use cryostat_operator.Controller.ServiceObject.{Service, mutate_callback_service}
use cryostat_operator.Controller.Watch.{map_from_target_namespace}

-- The request for an installation.
abbrev pub request_for : {K : Kube} → CryostatInstance K → List Key
request_for cr = record { name = cr.name; namespace = cr.install_namespace } ∷ []

labelled :
    {K : Kube} (cr : CryostatInstance K) (labels : StringMap)
    → value_at "operator.cryostat.io/name" labels ≡ some cr.name
    → value_at "operator.cryostat.io/namespace" labels ≡ some cr.install_namespace
    → map_from_target_namespace labels ≡ request_for cr
unfolding map_from_target_namespace
labelled cr labels name namespace = ground arith

-- The labels after a merge lead back if the labels that are merged in do.
merged :
    {K : Kube} (cr : CryostatInstance K) (old : Metadata) (labels annotations : StringMap)
    → DistinctKeys (get_or labels [])
    → value_at "operator.cryostat.io/name" labels ≡ some cr.name
    → value_at "operator.cryostat.io/namespace" labels ≡ some cr.install_namespace
    → map_from_target_namespace (merge_labels_and_annotations old labels annotations).labels
      ≡ request_for cr
unfolding merge_labels_and_annotations
merged cr old labels annotations distinct name namespace =
    labelled cr _
      (lookup-copy _ _ _ distinct
        ∙ ap (λ found. prefer found (value_at "operator.cryostat.io/name" old.labels)) name)
      (lookup-copy _ _ _ distinct
        ∙ ap (λ found. prefer found (value_at "operator.cryostat.io/namespace" old.labels))
            namespace)

metadata_of : Option RoleBinding → Metadata
metadata_of none = record { labels = none; annotations = none }
metadata_of (some binding) = binding.metadata

mutate_role_binding_metadata :
    (subjects : List Subject) (ref : RoleRef) (labels : Dict String) (old : Option RoleBinding)
    (written : RoleBinding)
    → mutate_role_binding subjects ref labels old ≡ ok written
    → written.metadata ≡ merge_labels_and_annotations (metadata_of old) (some labels) (some [])
unfolding mutate_role_binding metadata_of
mutate_role_binding_metadata subjects ref labels none written h = ground arith
mutate_role_binding_metadata subjects ref labels (some old) written h = ground arith

-- A role binding that the controller has written, whatever it found, leads back to the installation
-- that it was written for.
pub map_from_target_namespace-mutate_role_binding :
    {K : Kube} (cr : CryostatInstance K) (subjects : List Subject) (ref : RoleRef)
    (old : Option RoleBinding) (written : RoleBinding)
    → mutate_role_binding subjects ref (labels_for_target_namespace_object cr) old ≡ ok written
    → map_from_target_namespace written.metadata.labels ≡ request_for cr
unfolding labels_for_target_namespace_object lookup
map_from_target_namespace-mutate_role_binding cr subjects ref old written h =
    rw (mutate_role_binding_metadata subjects ref _ old written h) (
      merged cr (metadata_of old) (some (labels_for_target_namespace_object cr)) (some [])
        (labels_for_target-DistinctKeys cr) refl refl)

insert-DistinctKeys :
    (k v : String) (m : Dict String) → DistinctKeys m → DistinctKeys (insert k v m)
unfolding insert lookup
insert-DistinctKeys k v [] d = (refl, tt)
insert-DistinctKeys k v ((own, old) ∷ others) (fresh, d) = elim (Bool-cases (k == own)) [
  | inl e ↦ rw e (fresh, d)
  | inr e ↦
      let still : lookup own (insert k v others) ≡ none =
        ground (arith, lookup-insert k own v others, eq_iff own k, eq_iff k own) in
      rw e (still, insert-DistinctKeys k v others d)
]

copy-DistinctKeys : (src dest : Dict String) → DistinctKeys dest → DistinctKeys (copy src dest)
unfolding copy
copy-DistinctKeys [] dest d = d
copy-DistinctKeys ((k, v) ∷ src) dest d =
    copy-DistinctKeys src (insert k v dest) (insert-DistinctKeys k v dest d)

callback-DistinctKeys :
    {K : Kube} (cr : CryostatInstance K)
    → DistinctKeys (get_or (user_callback_metadata cr).labels [])
    → DistinctKeys (get_or (configure_agent_callback_service cr).resource_metadata.labels [])
unfolding configure_agent_callback_service configure_metadata
callback-DistinctKeys cr d = copy-DistinctKeys (labels_for_target_namespace_object cr) _ (
    insert-DistinctKeys _ _ _ (
      insert-DistinctKeys _ _ _ (
        insert-DistinctKeys _ _ _
          (insert-DistinctKeys _ _ _ (insert-DistinctKeys _ _ _ (insert-DistinctKeys _ _ _ d))))))

-- A callback service that the controller has written, whatever it found and whatever labels, with
-- distinct keys, the user asks for, leads back to the installation that it was written for.
pub map_from_target_namespace-mutate_callback_service :
    {K : Kube} {O : Ownership} (cr : CryostatInstance K) (old : Option (Service K O))
    → DistinctKeys (get_or (user_callback_metadata cr).labels [])
    → map_from_target_namespace
        (mutate_callback_service (configure_agent_callback_service cr) cr old).metadata.labels
      ≡ request_for cr
unfolding mutate_callback_service lookup labels_for_target_namespace_object
map_from_target_namespace-mutate_callback_service cr old d =
    let wanted = (configure_agent_callback_service cr).resource_metadata in
    merged cr _ wanted.labels wanted.annotations (callback-DistinctKeys cr d)
      (lookup-configure_agent_callback_service cr "operator.cryostat.io/name")
      (lookup-configure_agent_callback_service cr "operator.cryostat.io/namespace")
