-- ===== src/Controller/Policies/Admitted.antt =====
-- Whose traffic the network policies admit.
use cryostat_operator.Prelude.{
  ◌≡◌, ap, ◌∙◌, true, false, not, ◌||◌, is_some, Bool, Option, none, some, [], ◌∷◌, arith,
  map_option, if◌then◌else◌,
}
use cryostat_operator.Prelude.Int.{pos}
use cryostat_operator.Api.Kube.{Kube}
use cryostat_operator.Common.Constants.{storage_port}
use cryostat_operator.Common.Instance.{CryostatInstance}
use cryostat_operator.Cluster.{Key, Ownership, Resource, IsLawful}
use cryostat_operator.Cluster.Apart.{IsApart, ignored_keeps}
use cryostat_operator.Cluster.Delete.{ignored_gone}
use cryostat_operator.Cluster.Monad.{ok, M}
use cryostat_operator.Controller.Services.{deploy_managed_storage}
use cryostat_operator.Controller.ServiceConfig.{setting}
use cryostat_operator.Controller.Policies.{
  ingress_spec, peer, NetworkPolicy, PolicySpec, create_or_update_policy, delete_policy,
  ingress_disabled, mutate_policy, policy_key, reconcile_storage_network_policy,
  reconcile_reports_network_policy,
}

module _ {O : Ownership} {S : Type 0} (V : Resource S (NetworkPolicy O)) where
  abbrev pub spec_of : Option (NetworkPolicy O) → Option PolicySpec
  spec_of = map_option (λ policy. policy.spec)

  abbrev delete_or_update : Bool → Key → PolicySpec → M S (Unit {0})
  delete_or_update disabled k spec =
      if disabled then delete_policy V k else create_or_update_policy V k spec

  mutate_policy_ok :
      (spec : PolicySpec) (found : Option (NetworkPolicy O)) (policy : NetworkPolicy O)
      → mutate_policy spec found ≡ ok policy
      → policy.spec ≡ spec
  unfolding mutate_policy
  mutate_policy_ok spec found policy h = ground arith

  -- A policy is there exactly if it is not disabled, and is as it is wanted then.
  delete_or_update_ok :
      (L : IsLawful V) (disabled : Bool) (k : Key) (spec : PolicySpec) (s : S)
      → (delete_or_update disabled k spec s).0 ≡ ok tt
      → spec_of (V.read (delete_or_update disabled k spec s).1 k)
        ≡ (if disabled then none else some spec)
  unfolding delete_policy create_or_update_policy
  delete_or_update_ok L true k spec s h = ap spec_of (ignored_gone V L k s h)
  delete_or_update_ok L false k spec s h =
      let (policy, made, stored) = L.create_or_update_ok k (mutate_policy spec) s h in
      ap spec_of stored ∙ ap some (mutate_policy_ok spec (V.read s k) policy made)

  delete_or_update_keeps :
      {X : Type 0} (view : S → X)
      → IsApart view V
      → (disabled : Bool) (k : Key) (spec : PolicySpec) (s : S)
      → view (delete_or_update disabled k spec s).1 ≡ view s
  unfolding delete_policy create_or_update_policy
  delete_or_update_keeps view apart true k spec s = ignored_keeps view V apart k s
  delete_or_update_keeps view apart false k spec s = apart.update_keeps k (mutate_policy spec) s

  -- The policy of the report generator touches no other kind of object.
  pub reconcile_reports_network_policy_keeps :
      {X : Type 0} (view : S → X)
      → IsApart view V
      → {K : Kube} (cr : CryostatInstance K) (s : S)
      → view (reconcile_reports_network_policy V cr s).1 ≡ view s
  unfolding reconcile_reports_network_policy
  reconcile_reports_network_policy_keeps view apart cr s =
      delete_or_update_keeps view apart (ingress_disabled cr (λ policies. policies.reports_config))
        _ _ s

-- A switch that the user has set to true.
abbrev pub is_on : Option Bool → Bool
is_on (some true) = true
is_on _ = false

module _ {O : Ownership} {S : Type 0} (V : Resource S (NetworkPolicy O)) (L : IsLawful V) {K : Kube}
    (cr : CryostatInstance K) where
  -- The user has switched off the policy of the storage, or stores objects elsewhere.
  abbrev pub storage_unprotected : Bool
  storage_unprotected =
      let config = setting cr.spec.network_policies λ policies. policies.storage_config in
      is_on (setting config λ c. c.disabled)
      || (is_on (setting config λ c. c.ingress_disabled)
          || is_some
              (setting (setting cr.spec.object_storage_options λ opts. opts.provider) λ p. p.url))

  storage-disabled :
      (ingress_disabled cr (λ policies. policies.storage_config) || not (deploy_managed_storage cr))
      ≡ storage_unprotected
  unfolding ingress_disabled deploy_managed_storage
  storage-disabled = ground arith

  -- After a reconciliation of the storage's network policy that succeeds, the policy exists exactly if
  -- the user has not switched it off and the operator deploys the storage; it then lets traffic to the
  -- storage's pods come from the pods of Cryostat and of the report generator of this installation in
  -- the installation's namespace alone, to the storage's port alone.
  pub reconcile_storage_network_policy_admits :
      (s : S)
      → (reconcile_storage_network_policy V cr s).0 ≡ ok tt
      → spec_of V (
          V.read
            (reconcile_storage_network_policy V cr s).1
            (policy_key cr "-storage-internal-ingress"))
        ≡ (if storage_unprotected
            then none
            else some (record {
              policy_types = "Ingress" ∷ [];
              pod_labels = ("app", cr.name) ∷ ("kind", "cryostat") ∷ ("component", "storage") ∷ [];
              ingress =
                  record {
                    from =
                        record {
                          namespace_labels =
                              ("kubernetes.io/metadata.name", cr.install_namespace) ∷ [];
                          pod_labels =
                              ("app", cr.name)
                              ∷ ("kind", "cryostat")
                              ∷ ("component", "cryostat")
                              ∷ [];
                        }
                        ∷ record {
                          namespace_labels =
                              ("kubernetes.io/metadata.name", cr.install_namespace) ∷ [];
                          pod_labels =
                              ("app", cr.name)
                              ∷ ("kind", "cryostat")
                              ∷ ("component", "reports")
                              ∷ [];
                        }
                        ∷ [];
                    ports = pos 8333 ∷ [];
                  }
                  ∷ [];
            }))
  unfolding reconcile_storage_network_policy
  reconcile_storage_network_policy_admits s h =
      delete_or_update_ok V L
        (ingress_disabled cr (λ policies. policies.storage_config)
          || not (deploy_managed_storage cr))
        (policy_key cr "-storage-internal-ingress")
        (ingress_spec cr "storage" (peer cr "cryostat" ∷ peer cr "reports" ∷ []) storage_port) s h
      ∙ ap
          (λ b.
            if b
            then none
            else some (
                ingress_spec cr "storage" (peer cr "cryostat" ∷ peer cr "reports" ∷ [])
                  storage_port))
          storage-disabled
