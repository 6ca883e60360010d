-- ===== src/Controller/Reports.antt =====
-- The report generator: `reconcileReports` (internal/controller/reconciler.go).
pub mod Removed
mod Tests
use cryostat_operator.Prelude.{
  suc, ◌≡◌, ℕ, zero, String, ◌<>◌, Bool, true, false, Option, none, some, List, [], ◌∷◌, get_or,
  map_option,
}
use cryostat_operator.Prelude.Int.{ℤ, pos, negsuc}
use cryostat_operator.Api.Kube.{Kube}
use cryostat_operator.Api.V1beta2.{CryostatStatus}
use cryostat_operator.Common.Instance.{CryostatInstance}
use cryostat_operator.Cluster.{Key, Ownership, Resource}
use cryostat_operator.Cluster.Monad.{Result, M, pure, ◌>>=◌, ◌>>◌}
use cryostat_operator.Cluster.Self.{Self}
use cryostat_operator.Controller.Conditions.{
  ConditionOps, NewCondition, remove_condition_if_present, reports_deployment_conditions,
  save_conditions, update_conditions_from_deployment,
}
use cryostat_operator.Controller.Deployments.{
  DeploymentTypes, Deployment, create_or_update_deployment, delete_deployment,
}
use cryostat_operator.Controller.Hashes.{HashCalls}
use cryostat_operator.Controller.Templates.{new_deployment_for_reports, report_replicas}
use cryostat_operator.Controller.Policies.{NetworkPolicy, reconcile_reports_network_policy}
use cryostat_operator.Controller.ServiceObject.{Service, Url}
use cryostat_operator.Controller.Services.{service_key, reconcile_reports_service}

-- What `reconcileReports` calls: the clients, the pods' specification that `NewPodForReports` builds,
-- and the conditions that the cluster reports for it.
pub record ReportsCalls (K : Kube) (O : Ownership) (S : Type 0) : Type 1 where
  pub types : DeploymentTypes
  pub services : Resource S (Service K O)
  pub deployments : Resource S (Deployment types O)
  pub self : Self S (CryostatStatus K)
  pub conditions : ConditionOps K
  pub policies : Resource S (NetworkPolicy O)
  pub new_pod : Bool → Option Url → types.PodSpec
  pub hashes : HashCalls S
  pub get_conditions : Key → M S (List NewCondition)

module _ {K : Kube} {O : Ownership} {S : Type 0} (C : ReportsCalls K O S)
    (cr : CryostatInstance K) where
  abbrev pub reports_key : Key
  reports_key = service_key cr (cr.name <> "-reports")

  abbrev pub desired_reports : ℤ
  desired_reports = report_replicas cr

  -- No replicas are asked for: the deployment and its conditions are removed.
  unfoldable pub remove_reports : M S (CryostatInstance K)
  remove_reports = do
    delete_deployment C.deployments reports_key
    save_conditions C.conditions C.self cr (
        remove_condition_if_present C.conditions
          ("ReportsDeploymentAvailable" ∷ "ReportsDeploymentProgressing"
            ∷ "ReportsDeploymentReplicaFailure" ∷ [])
          cr.status.conditions)

  unfoldable pub deploy_reports : ℕ → Deployment C.types O → M S (CryostatInstance K)
  deploy_reports fuel deployment = do
    create_or_update_deployment C.deployments C.hashes fuel reports_key deployment
    update_conditions_from_deployment C.conditions C.self (C.get_conditions reports_key)
        reports_deployment_conditions cr

  abbrev pub scale_reports : ℕ → Deployment C.types O → ℤ → M S (CryostatInstance K)
  scale_reports fuel deployment (pos zero) = remove_reports
  scale_reports fuel deployment (pos (suc n)) = deploy_reports fuel deployment
  scale_reports fuel deployment (negsuc n) = pure cr

  -- The result is the instance with its status, and the URL of the service. The fuel is that of the
  -- deployment.
  unfoldable pub reconcile_reports : ℕ → Bool → M S (CryostatInstance K × Option Url)
  unfolding remove_reports deploy_reports
  reconcile_reports fuel tls = do
    url ← reconcile_reports_service C.services cr tls
    reconcile_reports_network_policy C.policies cr
    updated ←
        scale_reports fuel (new_deployment_for_reports C.types O cr (C.new_pod tls url))
          desired_reports
    pure (updated, url)
