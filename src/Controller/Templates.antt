-- ===== src/Controller/Templates.antt =====
-- The deployments of the operator's own components, but for their pods' specifications:
-- `NewDeploymentForReports`, `NewDeploymentForDatabase` and `NewDeploymentForStorage` of
-- internal/controller/common/resource_definitions/resource_definitions.go.
use cryostat_operator.Prelude.{String, ◌<>◌, Option, none, some, [], ◌∷◌, get_or, map_option}
use cryostat_operator.Prelude.Dict.{Dict, copy}
use cryostat_operator.Prelude.Int.{ℤ, pos}
use cryostat_operator.Api.Kube.{Kube, StringMap}
use cryostat_operator.Api.V1beta2.Options.{ResourceMetadata}
use cryostat_operator.Common.Instance.{CryostatInstance}
use cryostat_operator.Common.Metadata.{Metadata, merge_labels_and_annotations}
use cryostat_operator.Cluster.{Ownership}
use cryostat_operator.Controller.Deployments.{DeploymentTypes, Deployment}
use cryostat_operator.Controller.Policies.{pod_labels_of}
use cryostat_operator.Controller.ServiceConfig.{setting}

unfoldable pub create_map_copy : StringMap → Dict String
create_map_copy m = copy (get_or m []) []

-- The user's metadata, copied: nil maps where the user gives none.
unfoldable pub create_metadata_copy : Option ResourceMetadata → Metadata
unfolding create_map_copy
create_metadata_copy none = record { labels = none; annotations = none }
create_metadata_copy (some wanted) = record {
  labels = some (create_map_copy wanted.labels);
  annotations = some (create_map_copy wanted.annotations);
}

-- The replicas of the report generator: none without report options.
abbrev pub report_replicas : {K : Kube} → CryostatInstance K → ℤ
report_replicas cr = get_or (map_option (λ opts. opts.replicas) cr.spec.report_options) (pos 0)

module _ {K : Kube} (T : DeploymentTypes) (O : Ownership) (cr : CryostatInstance K) where
  -- What the three functions share: the component, the replicas, the strategy and the pods differ.
  unfoldable pub new_deployment : String → ℤ → T.Strategy → T.PodSpec → Deployment T O
  unfolding create_metadata_copy
  new_deployment component replicas strategy pods = record {
    metadata =
        merge_labels_and_annotations
          (create_metadata_copy (setting cr.spec.operand_metadata λ meta. meta.deployment_metadata))
          (some (
            ("app", cr.name)
            ∷ ("kind", "cryostat")
            ∷ ("component", component)
            ∷ ("app.kubernetes.io/name", "cryostat-" <> component)
            ∷ []))
          (some (("app.openshift.io/connects-to", cr.name) ∷ []));
    owners = O.no_owners;
    selector = T.match_labels (pod_labels_of component cr);
    replicas = some replicas;
    strategy = strategy;
    template_metadata =
        merge_labels_and_annotations
          (create_metadata_copy (setting cr.spec.operand_metadata λ meta. meta.pod_metadata))
          (some (pod_labels_of component cr)) none;
    template_spec = pods;
  }

  unfoldable pub new_deployment_for_reports : T.PodSpec → Deployment T O
  unfolding new_deployment
  new_deployment_for_reports = new_deployment "reports" (report_replicas cr) T.no_strategy

  unfoldable pub new_deployment_for_database : T.PodSpec → Deployment T O
  unfolding new_deployment
  new_deployment_for_database = new_deployment "database" (pos 1) T.recreate_strategy

  unfoldable pub new_deployment_for_storage : T.PodSpec → Deployment T O
  unfolding new_deployment
  new_deployment_for_storage = new_deployment "storage" (pos 1) T.recreate_strategy
