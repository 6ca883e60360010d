-- ===== src/Controller/Services/Urls.antt =====
-- The URLs that the deployments are given reach the services that are there.
use cryostat_operator.Prelude.{
  ◌≡◌, refl, ap, ◌∙◌, String, ◌<>◌, Bool, true, false, not, Option, none, some, [], ◌∷◌, arith,
  is_some, if◌then◌else◌, Bool-cases, inl, inr,
}
use cryostat_operator.Prelude.Int.{ℤ}
use cryostat_operator.Api.Kube.{Kube}
use cryostat_operator.Common.Constants.{storage_port}
use cryostat_operator.Common.Instance.{CryostatInstance}
use cryostat_operator.Cluster.{Ownership, Resource, IsLawful}
use cryostat_operator.Cluster.Loop.{then_do-eq-ok}
use cryostat_operator.Cluster.Monad.{Result, ok, err, pure, then_do}
use cryostat_operator.Controller.ServiceObject.{Service, Url, http_to}
use cryostat_operator.Controller.Services.{
  delete_service, service_key, reconcile_storage_service, storage_url, get_named_port,
  deploy_managed_storage,
}
use cryostat_operator.Controller.Services.Stored.{
  routing, routes, routing-create_or_update_service, storage_port_of, storage_config,
  external_storage, deploy_managed_storage-eq-not,
}

module _ {K : Kube} {O : Ownership} {S : Type 0} (V : Resource S (Service K O)) (L : IsLawful V)
    (cr : CryostatInstance K) where
  no_url :
      (r : Result (Unit {0}) × S) (url : Option Url)
      → (then_do r (λ _. pure {A = Option Url} none)).0 ≡ ok url
      → url ≡ none
  no_url (ok a, s) url h = ground arith
  no_url (err e, s) url h = cc

  named_port-routing :
      (found : Option (Service K O)) (app component : String) (target p : ℤ) (t : K.ServiceType)
      → routing found ≡ routes K app component (http_to target p) t
      → get_named_port "http" (elim found [ none ↦ [] | some svc ↦ svc.ports ])
        ≡ ok (http_to target p)
  unfolding get_named_port
  named_port-routing none app component target p t h = cc
  named_port-routing (some svc) app component target p t h =
      let ports : svc.ports ≡ http_to target p ∷ [] = ground arith in rw ports refl

  storage_url-routing :
      (tls : Bool) (name : String) (p : ℤ) (t : K.ServiceType) (s : S)
      → routing (V.read s (service_key cr name))
        ≡ routes K cr.name "storage" (http_to storage_port p) t
      → (storage_url V cr tls (service_key cr name) s).0
        ≡ ok (
            some (record {
              scheme = if tls then "https" else "http";
              host = name <> ("." <> (cr.install_namespace <> ".svc.cluster.local"));
              port = p;
              path = "";
            }))
  unfolding storage_url
  storage_url-routing tls name p t s h =
      rw (named_port-routing (V.read s (service_key cr name)) cr.name "storage" storage_port p t h)
        refl

  -- If the storage service is reconciled, the deployments are given no URL of it if the user has
  -- another object storage, and else the URL of its name and namespace with the port that it has.
  pub reconcile_storage_service_url :
      (tls : Bool) (s : S) (url : Option Url)
      → (reconcile_storage_service V cr tls s).0 ≡ ok url
      → url ≡ (
          if is_some (external_storage V L cr)
          then none
          else some (record {
            scheme = if tls then "https" else "http";
            host =
                (cr.name <> "-storage") <> ("." <> (cr.install_namespace <> ".svc.cluster.local"));
            port = storage_port_of V L cr;
            path = "";
          }))
  unfolding reconcile_storage_service
  reconcile_storage_service_url tls s url h =
      elim (Bool-cases (is_some (external_storage V L cr))) [
        | inl external ↦
            let gone : deploy_managed_storage cr ≡ false =
              deploy_managed_storage-eq-not V L cr ∙ ap not external in
            rw external (no_url (delete_service V _ s) url (rw gone at h))
        | inr managed ↦
            let wanted : deploy_managed_storage cr ≡ true =
              deploy_managed_storage-eq-not V L cr ∙ ap not managed in
            let (port, service_type) = storage_config V L cr in
            let (created, later, same) = then_do-eq-ok _ _ (rw wanted at h) in
            let stored =
              routing-create_or_update_service V L _ _ _ _ _ (http_to storage_port) _ _ s port
                service_type created in
            let reached = storage_url-routing tls _ _ _ _ stored in
            rw managed (ground (arith, later, reached))
      ]
