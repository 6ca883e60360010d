-- ===== src/Controller/Services/Callback.antt =====
-- Which namespaces have a callback service of the agents.
use cryostat_operator.Prelude.{
  ◌≡◌, ap, ◌∙◌, String, false, ◌==◌, Option, none, some, List, [], ◌∷◌, arith, contains, map_option,
  if◌then◌else◌, Bool-cases, inl, inr,
}
use cryostat_operator.Api.Kube.{Kube, StringMap}
use cryostat_operator.Common.Instance.{CryostatInstance}
use cryostat_operator.Common.Naming.{Checksums, GroupVersionKind}
use cryostat_operator.Cluster.{same_key, Ownership, Resource, IsLawful}
use cryostat_operator.Cluster.Monad.{ok, M}
use cryostat_operator.Cluster.Loop.{for_each_done, for_each_frame}
use cryostat_operator.Cluster.Delete.{ignored_gone, ignored_frame}
use cryostat_operator.Controller.PerNamespace.{sync_target, sync_dropped, sync_other}
use cryostat_operator.Controller.ServiceObject.{ServicePort, Service, mutate_callback_service}
use cryostat_operator.Controller.Services.{
  delete_service, callback_key, update_callback_service, reconcile_agent_callback_services,
  finalize_agent_callback_services,
}

-- What the agents' callbacks rely on: the pods that are selected, without a port, and no address of
-- the service's own.
abbrev pub headless :
    {K : Kube} {O : Ownership}
    → Option (Service K O)
    → Option (StringMap × (List ServicePort × (Option K.ServiceType × String)))
headless = map_option (λ svc. (svc.selector, (svc.ports, (svc.service_type, svc.cluster_ip))))

module _ {K : Kube} {O : Ownership} {S : Type 0} (V : Resource S (Service K O)) (L : IsLawful V)
    (cr : CryostatInstance K) (H : Checksums) (gvk : GroupVersionKind) where
  abbrev service_in : S → String → Option (Service K O)
  service_in s ns = V.read s (callback_key cr H gvk ns)

  abbrev update_in : String → M S (Unit {0})
  update_in ns = update_callback_service V cr H gvk ns

  abbrev remove_in : String → M S (Unit {0})
  remove_in ns = delete_service V (callback_key cr H gvk ns)

  -- The service of an installation's agents.
  abbrev pub callback_service :
      Option (StringMap × (List ServicePort × (Option K.ServiceType × String)))
  callback_service = some (
    some (("cryostat.io/name", cr.name) ∷ ("cryostat.io/namespace", cr.install_namespace) ∷ []),
    ([], (some K.cluster_ip, "None")),
  )

  abbrev IsHeadless : String → Option (Service K O) → Type 0
  IsHeadless ns found = headless found ≡ callback_service

  other_namespace :
      (ns j : String)
      → (ns == j) ≡ false
      → same_key (callback_key cr H gvk ns) (callback_key cr H gvk j) ≡ false
  other_namespace ns j h = ground arith

  update-frame :
      (ns j : String) (s : S) → (ns == j) ≡ false → service_in (update_in ns s).1 j ≡ service_in s j
  unfolding update_callback_service
  update-frame ns j s h = L.create_or_update_frame _ _ _ s (other_namespace ns j h)

  update_done :
      (ns : String) (s : S)
      → (update_in ns s).0 ≡ ok tt
      → IsHeadless ns (service_in (update_in ns s).1 ns)
  unfolding update_callback_service mutate_callback_service
  update_done ns s h =
      let (svc, made, stored) = L.create_or_update_ok _ _ s h in ap headless stored ∙ ground arith

  remove-frame :
      (ns j : String) (s : S) → (ns == j) ≡ false → service_in (remove_in ns s).1 j ≡ service_in s j
  unfolding delete_service
  remove-frame ns j s h = ignored_frame V L _ _ s (other_namespace ns j h)

  remove_done :
      (ns : String) (s : S) → (remove_in ns s).0 ≡ ok tt → service_in (remove_in ns s).1 ns ≡ none
  unfolding delete_service
  remove_done ns s h = ignored_gone V L _ s h

  -- After a reconciliation that succeeds, each target namespace has a headless service that selects
  -- the installation's agents, a namespace of the status that is no target any more has none, and
  -- any other namespace is as it was.
  pub headless-reconcile_agent_callback_services :
      (s : S) (ns : String)
      → (reconcile_agent_callback_services V cr H gvk s).0 ≡ ok tt
      → headless
          (V.read (reconcile_agent_callback_services V cr H gvk s).1 (callback_key cr H gvk ns))
        ≡ (if contains cr.target_namespaces ns
            then callback_service
            else if contains cr.target_namespace_status ns
            then none
            else headless (V.read s (callback_key cr H gvk ns)))
  unfolding reconcile_agent_callback_services
  headless-reconcile_agent_callback_services s ns h =
      elim (Bool-cases (contains cr.target_namespaces ns)) [
        | inl target ↦ rw target (
            sync_target update_in remove_in service_in IsHeadless update-frame update_done
              remove-frame remove_done cr s ns h target)
        | inr other ↦ elim (Bool-cases (contains cr.target_namespace_status ns)) [
          | inl dropped ↦ rw other (
              rw dropped (
                ap headless (
                  sync_dropped update_in remove_in service_in IsHeadless update-frame update_done
                    remove-frame remove_done cr s ns h other dropped)))
          | inr unknown ↦ rw other (
              rw unknown (
                ap headless (
                  sync_other update_in remove_in service_in IsHeadless update-frame update_done
                    remove-frame remove_done cr s ns h other unknown)))
        ]
      ]

  -- Finalizing the callback services, if it succeeds, has removed the installation's service from
  -- each target namespace, and from no other namespace.
  pub finalize_agent_callback_services_removes :
      (s : S) (ns : String)
      → (finalize_agent_callback_services V cr H gvk s).0 ≡ ok tt
      → V.read (finalize_agent_callback_services V cr H gvk s).1 (callback_key cr H gvk ns)
        ≡ (if contains cr.target_namespaces ns then none else V.read s (callback_key cr H gvk ns))
  unfolding finalize_agent_callback_services
  finalize_agent_callback_services_removes s ns h =
      elim (Bool-cases (contains cr.target_namespaces ns)) [
        | inl target ↦ rw target (
            for_each_done remove_in service_in (λ _ found. found ≡ none) remove-frame remove_done
              cr.target_namespaces s ns h target)
        | inr other ↦ rw other (
            for_each_frame remove_in service_in (λ _ found. found ≡ none) remove-frame remove_done
              cr.target_namespaces s ns other)
      ]
