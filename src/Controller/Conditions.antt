-- ===== src/Controller/Conditions.antt =====
-- The conditions in the status (internal/controller/reconciler.go). The functions of
-- `k8s.io/apimachinery/pkg/api/meta` on lists of conditions are parameters.
pub mod Laws
mod Tests
use cryostat_operator.Prelude.{
  ◌≡◌, String, Bool, true, false, ◌==◌, ◌<>◌, Option, none, some, List, [], ◌∷◌, is_some, get_or,
  if◌then◌else◌,
}
use cryostat_operator.Api.Kube.{Kube}
use cryostat_operator.Api.V1beta2.{CryostatStatus}
use cryostat_operator.Common.Instance.{CryostatInstance}
use cryostat_operator.Cluster.Monad.{
  Result, ok, err, Err, cert_not_ready, cert_manager_missing, M, pure, raise, ◌>>=◌, ◌>>◌, catch,
}
use cryostat_operator.Cluster.Self.{Self}
use cryostat_operator.Controller.ConfigMaps.Contents.{TlsConfig}

-- What the code sets of a `metav1.Condition`, and reads of a `DeploymentCondition`.
pub record NewCondition : Type 0 where
  pub type_name : String
  pub status : String
  pub reason : String
  pub message : String

-- `SetStatusCondition`, `FindStatusCondition` and `RemoveStatusCondition`.
pub record ConditionOps (K : Kube) : Type 0 where
  pub set_condition : Option (List K.Condition) → NewCondition → Option (List K.Condition)
  pub find_condition : Option (List K.Condition) → String → Option K.Condition
  pub remove_condition : Option (List K.Condition) → String → Option (List K.Condition)

-- A condition of the installation, and the condition of a deployment that it shows. The code ranges
-- over a map, in any order; the model in the order of the source.
abbrev pub DeploymentConditionTypeMap : Type 0
DeploymentConditionTypeMap = List (String × String)

abbrev conditions_of : String → DeploymentConditionTypeMap
conditions_of prefix =
    (prefix <> "Available", "Available")
    ∷ (prefix <> "Progressing", "Progressing")
    ∷ (prefix <> "ReplicaFailure", "ReplicaFailure")
    ∷ []

abbrev pub main_deployment_conditions : DeploymentConditionTypeMap
main_deployment_conditions = conditions_of "MainDeployment"

abbrev pub database_deployment_conditions : DeploymentConditionTypeMap
database_deployment_conditions = conditions_of "DatabaseDeployment"

abbrev pub storage_deployment_conditions : DeploymentConditionTypeMap
storage_deployment_conditions = conditions_of "StorageDeployment"

abbrev pub reports_deployment_conditions : DeploymentConditionTypeMap
reports_deployment_conditions = conditions_of "ReportsDeployment"

abbrev pub cert_manager_unavailable_message : String
cert_manager_unavailable_message =
    "cert-manager is not detected in the cluster, please install cert-manager or disable it by setting \"enableCertManager\" in this Cryostat custom resource to false."

unfoldable pub find_deploy_condition : List NewCondition → String → Option NewCondition
find_deploy_condition [] type_name = none
find_deploy_condition (condition ∷ rest) type_name =
    if condition.type_name == type_name
    then some condition
    else find_deploy_condition rest type_name

module _ {K : Kube} (Ops : ConditionOps K) where
  unfoldable pub remove_condition_if_present :
      List String → Option (List K.Condition) → Option (List K.Condition)
  remove_condition_if_present [] conditions = conditions
  remove_condition_if_present (ct ∷ rest) conditions = remove_condition_if_present rest (
      if is_some (Ops.find_condition conditions ct)
      then Ops.remove_condition conditions ct
      else conditions)

  -- The loop of `updateConditionsFromDeployment`.
  unfoldable pub map_conditions :
      DeploymentConditionTypeMap
      → List NewCondition
      → Option (List K.Condition)
      → Option (List K.Condition)
  unfolding find_deploy_condition remove_condition_if_present
  map_conditions [] deployed conditions = conditions
  map_conditions ((condition_type, deploy_type) ∷ rest) deployed conditions =
      map_conditions rest deployed (elim (find_deploy_condition deployed deploy_type) [
        | none ↦ remove_condition_if_present (condition_type ∷ []) conditions
        | some c ↦ Ops.set_condition conditions (record c { type_name = condition_type })
      ])

  module _ {S : Type 0} (C : Self S (CryostatStatus K)) where
    abbrev pub with_conditions : CryostatInstance K → Option (List K.Condition) → CryostatInstance K
    with_conditions cr conditions = record cr {
      status = record cr.status { conditions = conditions };
    }

    abbrev pub save_conditions :
        CryostatInstance K → Option (List K.Condition) → M S (CryostatInstance K)
    save_conditions cr conditions = C.update_status (with_conditions cr conditions).status >>= λ _.
        pure (with_conditions cr conditions)

    unfoldable pub update_condition : CryostatInstance K → NewCondition → M S (CryostatInstance K)
    update_condition cr new = save_conditions cr (Ops.set_condition cr.status.conditions new)

    -- The conditions of the deployment come from the API.
    unfoldable pub update_conditions_from_deployment :
        M S (List NewCondition)
        → DeploymentConditionTypeMap
        → CryostatInstance K
        → M S (CryostatInstance K)
    unfolding map_conditions
    update_conditions_from_deployment get mapping cr = get >>= λ deployed.
        save_conditions cr (map_conditions mapping deployed cr.status.conditions)

    abbrev tls_condition : String → String → String → NewCondition
    tls_condition status reason message = record {
      type_name = "TLSSetupComplete";
      status = status;
      reason = reason;
      message = message;
    }

    -- While the certificates are not ready that is the error, even if the status cannot be updated.
    unfoldable pub handle_tls_error :
        CryostatInstance K → Err → M S (TlsConfig × CryostatInstance K)
    unfolding update_condition
    handle_tls_error cr cert_not_ready =
        catch
          (update_condition cr (
            tls_condition "False" "WaitingForCertificate"
              "Waiting for certificates to become ready."))
          (λ _. raise cert_not_ready)
        >>= λ _. raise cert_not_ready
    handle_tls_error cr cert_manager_missing =
        update_condition cr
          (tls_condition "False" "CertManagerUnavailable" cert_manager_unavailable_message)
        >>= λ _. raise cert_manager_missing
    handle_tls_error cr e = raise e

    -- `setup_tls` is the call of `setupTLS`.
    unfoldable pub configure_tls :
        Bool
        → (CryostatInstance K → M S TlsConfig)
        → CryostatInstance K
        → M S (Option TlsConfig × CryostatInstance K)
    unfolding update_condition handle_tls_error
    configure_tls enabled setup_tls cr =
        if enabled
        then (catch (setup_tls cr >>= λ config. pure (config, cr)) (handle_tls_error cr)
            >>= λ set_up.
                update_condition cr (
                  tls_condition "True" "AllCertificatesReady"
                    "All certificates for Cryostat components are ready.")
                >>= λ updated. pure (some set_up.0, updated))
        else (update_condition cr
              (tls_condition "True" "CertManagerDisabled" "TLS setup has been disabled.")
            >>= λ updated. pure (none, updated))
