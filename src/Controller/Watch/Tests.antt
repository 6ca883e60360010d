-- ===== src/Controller/Watch/Tests.antt =====
-- Objects of a concrete installation.
use cryostat_operator.Prelude.Dict.{copy, insert}
use cryostat_operator.Common.Metadata.{merge_labels_and_annotations}
use cryostat_operator.Prelude.{◌≡◌, refl, none, some, [], ◌∷◌}
use cryostat_operator.Common.Metadata.{labels_for_target_namespace_object}
use cryostat_operator.Controller.Rbac.{RoleBinding, mutate_role_binding}
use cryostat_operator.Controller.ServiceConfig.{configure_agent_callback_service}
use cryostat_operator.Controller.ServiceObject.{mutate_callback_service}
use cryostat_operator.Controller.Watch.{map_from_target_namespace}
use cryostat_operator.Controller.Watch.Requests.{
  request_for, map_from_target_namespace-mutate_role_binding,
  map_from_target_namespace-mutate_callback_service,
}
use cryostat_operator.Examples.{installation, ownership}

abbrev written : RoleBinding
written = record {
  metadata = record {
    labels =
        some (("operator.cryostat.io/name", "c") ∷ ("operator.cryostat.io/namespace", "ns") ∷ []);
    annotations = some [];
  };
  subjects = [];
  role_ref = record { api_group = ""; kind = "Role"; name = "r" };
}

map_from_target_namespace-mutate_role_binding_example :
    map_from_target_namespace written.metadata.labels ≡ request_for installation
unfolding mutate_role_binding merge_labels_and_annotations copy labels_for_target_namespace_object
    insert
map_from_target_namespace-mutate_role_binding_example =
    map_from_target_namespace-mutate_role_binding installation [] written.role_ref none written refl

map_from_target_namespace-mutate_callback_service_example :
    map_from_target_namespace
      (mutate_callback_service {O = ownership}
        (configure_agent_callback_service installation)
        installation
        none).metadata.labels
    ≡ request_for installation
map_from_target_namespace-mutate_callback_service_example =
    map_from_target_namespace-mutate_callback_service {O = ownership} installation none tt
