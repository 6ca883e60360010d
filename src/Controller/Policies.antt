-- ===== src/Controller/Policies.antt =====
-- The network policies of the components (internal/controller/networkpolicy.go): who may send
-- traffic to the database, the storage and the report generator. That of the core is not modelled.
pub mod Admitted
mod Tests
use cryostat_operator.Prelude.{
  String, ◌<>◌, Bool, true, false, not, ◌||◌, Option, none, some, List, [], ◌∷◌, get_or,
  if◌then◌else◌,
}
use cryostat_operator.Prelude.Dict.{Dict}
use cryostat_operator.Prelude.Int.{ℤ}
use cryostat_operator.Api.Kube.{Kube}
use cryostat_operator.Api.V1beta2.Services.{NetworkPolicyConfig, NetworkPoliciesList}
use cryostat_operator.Common.Constants.{reports_container_port, database_port, storage_port}
use cryostat_operator.Common.Instance.{CryostatInstance}
use cryostat_operator.Cluster.{Key, Ownership, Resource}
use cryostat_operator.Cluster.Monad.{Result, ok, and_then, M, ignore_not_found}
use cryostat_operator.Controller.ServiceConfig.{setting}
use cryostat_operator.Controller.Services.{deploy_managed_storage}

-- The pods that may send traffic: by the labels of their namespace, and by their own.
pub record Peer : Type 0 where
  pub namespace_labels : Dict String
  pub pod_labels : Dict String

pub record IngressRule : Type 0 where
  pub from : List Peer
  pub ports : List ℤ

-- What the code sets of a `NetworkPolicySpec`.
pub record PolicySpec : Type 0 where
  pub policy_types : List String
  pub pod_labels : Dict String
  pub ingress : List IngressRule

pub record NetworkPolicy (O : Ownership) : Type 0 where
  pub owners : O.Owners
  pub spec : PolicySpec

abbrev pub installation_namespace_selector : {K : Kube} → CryostatInstance K → Dict String
installation_namespace_selector cr = ("kubernetes.io/metadata.name", cr.install_namespace) ∷ []

-- `CorePodLabels`, `DatabasePodLabels`, `StoragePodLabels` and `ReportsPodLabels`, by the component.
abbrev pub pod_labels_of : {K : Kube} → String → CryostatInstance K → Dict String
pod_labels_of component cr = ("app", cr.name) ∷ ("kind", "cryostat") ∷ ("component", component) ∷ []

module _ {K : Kube} (cr : CryostatInstance K) where
  abbrev pub policy_key : String → Key
  policy_key suffix = record { name = cr.name <> suffix; namespace = cr.install_namespace }

  abbrev pub peer : String → Peer
  peer component = record {
    namespace_labels = installation_namespace_selector cr;
    pod_labels = pod_labels_of component cr;
  }

  -- `allDisabled || ingressDisabled`
  unfoldable pub ingress_disabled : (NetworkPoliciesList → Option NetworkPolicyConfig) → Bool
  ingress_disabled config_of =
      let config = setting cr.spec.network_policies config_of in
      get_or (setting config λ c. c.disabled) false
      || get_or (setting config λ c. c.ingress_disabled) false

  abbrev pub ingress_spec : String → List Peer → ℤ → PolicySpec
  ingress_spec component peers port = record {
    policy_types = "Ingress" ∷ [];
    pod_labels = pod_labels_of component cr;
    ingress = record { from = peers; ports = port ∷ [] } ∷ [];
  }

module _ {O : Ownership} where
  abbrev pub policy_owners : Option (NetworkPolicy O) → O.Owners
  policy_owners none = O.no_owners
  policy_owners (some policy) = policy.owners

  -- The mutate function of `createOrUpdatePolicy`, with a delegate that sets the specification.
  unfoldable pub mutate_policy : PolicySpec → Option (NetworkPolicy O) → Result (NetworkPolicy O)
  mutate_policy spec found =
      and_then (O.set_controller (policy_owners found))
        λ owners. ok (record { owners = owners; spec = spec })

  module _ {S : Type 0} (V : Resource S (NetworkPolicy O)) where
    unfoldable pub create_or_update_policy : Key → PolicySpec → M S (Unit {0})
    create_or_update_policy k spec = V.create_or_update k (mutate_policy spec)

    unfoldable pub delete_policy : Key → M S (Unit {0})
    delete_policy k = ignore_not_found (V.delete k)

    module _ {K : Kube} (cr : CryostatInstance K) where
      unfoldable pub reconcile_database_network_policy : M S (Unit {0})
      reconcile_database_network_policy =
          let k = policy_key cr "-db-internal-ingress" in
          if ingress_disabled cr (λ policies. policies.database_config)
          then delete_policy k
          else create_or_update_policy k
              (ingress_spec cr "database" (peer cr "cryostat" ∷ []) database_port)

      unfoldable pub reconcile_storage_network_policy : M S (Unit {0})
      reconcile_storage_network_policy =
          let k = policy_key cr "-storage-internal-ingress" in
          if ingress_disabled cr (λ policies. policies.storage_config)
            || not (deploy_managed_storage cr)
          then delete_policy k
          else create_or_update_policy k
              (ingress_spec cr "storage" (peer cr "cryostat" ∷ peer cr "reports" ∷ []) storage_port)

      unfoldable pub reconcile_reports_network_policy : M S (Unit {0})
      reconcile_reports_network_policy =
          let k = policy_key cr "-reports-internal-ingress" in
          if ingress_disabled cr (λ policies. policies.reports_config)
          then delete_policy k
          else create_or_update_policy k
              (ingress_spec cr "reports" (peer cr "cryostat" ∷ []) reports_container_port)
