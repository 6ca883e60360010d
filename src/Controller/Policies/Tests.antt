-- ===== src/Controller/Policies/Tests.antt =====
-- The storage's network policy of a concrete installation.
use cryostat_operator.Controller.Services.{deploy_managed_storage}
use cryostat_operator.Controller.Policies.{ingress_disabled, create_or_update_policy, mutate_policy}
use cryostat_operator.Prelude.{◌≡◌, refl, false, some, [], ◌∷◌, String}
use cryostat_operator.Prelude.Int.{pos}
use cryostat_operator.Examples.{installation, ownership}
use cryostat_operator.Cluster.Memory.{Objects, in_memory, in_memory-IsLawful}
use cryostat_operator.Controller.Policies.{
  NetworkPolicy, PolicySpec, Peer, policy_key, reconcile_storage_network_policy,
}
use cryostat_operator.Controller.Policies.Admitted.{
  reconcile_storage_network_policy_admits, spec_of,
}

-- A policy that is there and admits everything.
abbrev open_policy : NetworkPolicy ownership
open_policy = record {
  owners = false;
  spec = record { policy_types = []; pod_labels = []; ingress = [] };
}

abbrev cluster : Objects (NetworkPolicy ownership)
cluster = (policy_key installation "-storage-internal-ingress", open_policy) ∷ []

abbrev pods : String → Peer
pods component = record {
  namespace_labels = ("kubernetes.io/metadata.name", "ns") ∷ [];
  pod_labels = ("app", "c") ∷ ("kind", "cryostat") ∷ ("component", component) ∷ [];
}

abbrev closed_spec : PolicySpec
closed_spec = record {
  policy_types = "Ingress" ∷ [];
  pod_labels = ("app", "c") ∷ ("kind", "cryostat") ∷ ("component", "storage") ∷ [];
  ingress = record { from = pods "cryostat" ∷ pods "reports" ∷ []; ports = pos 8333 ∷ [] } ∷ [];
}

reconcile_storage_network_policy_admits_example :
    spec_of in_memory (
      in_memory.read
        (reconcile_storage_network_policy in_memory installation cluster).1
        (policy_key installation "-storage-internal-ingress"))
    ≡ some closed_spec
unfolding reconcile_storage_network_policy ingress_disabled deploy_managed_storage
    create_or_update_policy in_memory mutate_policy
reconcile_storage_network_policy_admits_example =
    reconcile_storage_network_policy_admits in_memory in_memory-IsLawful installation cluster refl
