-- ===== src/Controller/Services/Stored.antt =====
-- What the services are once they are reconciled.
use cryostat_operator.Prelude.{
  true, false, not, is_some, ◌≡◌, refl, ap, ◌∙◌, String, ◌<>◌, Bool, Option, none, some, List, [],
  ◌∷◌, arith, get_or, map_option, if◌then◌else◌, Bool-cases, inl, inr,
}
use cryostat_operator.Prelude.Int.{ℤ, pos}
use cryostat_operator.Api.Kube.{Kube, StringMap}
use cryostat_operator.Api.V1beta2.Services.{ServiceConfig}
use cryostat_operator.Common.Constants.{
  reports_container_port, storage_port, auth_proxy_http_container_port,
}
use cryostat_operator.Common.Instance.{CryostatInstance}
use cryostat_operator.Cluster.{Key, Ownership, Resource, IsLawful}
use cryostat_operator.Cluster.Loop.{then_do-eq-ok}
use cryostat_operator.Cluster.Monad.{then_do, pure, ok}
use cryostat_operator.Cluster.Delete.{ignored_gone}
use cryostat_operator.Controller.ServiceConfig.{
  setting, configure_reports_service, configure_storage_service, configure_core_service,
  configure_service,
}
use cryostat_operator.Controller.ServiceObject.{
  is_zero, ServicePort, Service, Url, mutate_service, select_and_expose, core_port, http_to,
}
use cryostat_operator.Controller.Services.{
  without_reports, deploy_managed_storage, create_or_update_service, delete_service, service_key,
  reconcile_core_service, reconcile_reports_service, reconcile_storage_service, storage_url,
}

-- Where a service sends its traffic, and how it is reached.
abbrev pub Routing : Kube → Type 0
Routing K = StringMap × (List ServicePort × Option K.ServiceType)

-- The traffic of a component of an application goes to a port of it.
abbrev pub routes : (K : Kube) → String → String → ServicePort → K.ServiceType → Option (Routing K)
routes K app component port service_type =
    some (some (("app", app) ∷ ("component", component) ∷ []), (port ∷ [], some service_type))

module _ {K : Kube} {O : Ownership} where
  abbrev pub routing : Option (Service K O) → Option (Routing K)
  routing = map_option (λ svc. (svc.selector, (svc.ports, svc.service_type)))

  routing-mutate_service :
      (config : ServiceConfig K) (app component : String) (port : Option ℤ)
      (with_port : ℤ → ServicePort) (p : ℤ) (t : K.ServiceType) (found : Option (Service K O))
      {svc : Service K O}
      → port ≡ some p
      → config.service_type ≡ some t
      → mutate_service config (select_and_expose app component port with_port) found ≡ ok svc
      → routing (some svc) ≡ routes K app component (with_port p) t
  unfolding mutate_service select_and_expose
  routing-mutate_service config app component port with_port p t found q e h = ground arith

  module _ {S : Type 0} (V : Resource S (Service K O)) (L : IsLawful V) where
    pub routing-create_or_update_service :
        (k : Key) (config : ServiceConfig K) (app component : String) (port : Option ℤ)
        (with_port : ℤ → ServicePort) (p : ℤ) (t : K.ServiceType) (s : S)
        → port ≡ some p
        → config.service_type ≡ some t
        → (create_or_update_service V k config (select_and_expose app component port with_port) s).0
          ≡ ok tt
        → routing (
            V.read
              (create_or_update_service V k config
                (select_and_expose app component port with_port)
                s).1
              k)
          ≡ routes K app component (with_port p) t
    unfolding create_or_update_service
    routing-create_or_update_service k config app component port with_port p t s q e h =
        let (svc, made, stored) = L.create_or_update_ok k _ s h in
        ap routing stored
        ∙ routing-mutate_service config app component port with_port p t _ q e made

    -- A service that is deleted if it is there, with a result that is no URL.
    routing-deleted :
        (k : Key) (s : S) {url : Option Url}
        → (then_do (delete_service V k s) (λ _. pure {A = Option Url} none)).0 ≡ ok url
        → routing (V.read (then_do (delete_service V k s) (λ _. pure {A = Option Url} none)).1 k)
          ≡ none
    unfolding delete_service
    routing-deleted k s h =
        let (deleted, _, same) = then_do-eq-ok (delete_service V k s) (λ _. pure none) h in
        rw same (ap routing (ignored_gone V L k s deleted))

    module _ (cr : CryostatInstance K) where
      -- The port and the type of the reports service: the user's, or the defaults.
      abbrev pub reports_port : ℤ
      reports_port =
          let config = setting cr.spec.service_options λ opts. opts.reports_config in
          get_or (setting config λ c. c.http_port) reports_container_port

      abbrev pub reports_type : K.ServiceType
      reports_type =
          let config = setting cr.spec.service_options λ opts. opts.reports_config in
          get_or (setting config λ c. c.service_config.service_type) K.cluster_ip

      -- The replicas that the user asks for: none without report options.
      abbrev pub report_replicas : ℤ
      report_replicas = get_or (map_option (λ opts. opts.replicas) cr.spec.report_options) (pos 0)

      pub without_reports-eq-is_zero : without_reports cr ≡ is_zero report_replicas
      unfolding without_reports
      without_reports-eq-is_zero = ground arith

      pub reports_config :
          ((configure_reports_service cr).http_port ≡ some reports_port)
          × ((configure_reports_service cr).service_config.service_type ≡ some reports_type)
      unfolding configure_reports_service configure_service
      reports_config = ground arith

      -- After a reconciliation of the reports service that succeeds, the service exists exactly if
      -- the user asks for replicas of the report generator; it then sends its traffic to the
      -- generator's port, from the port and by the type that the user asks for, or the defaults.
      pub routing-reconcile_reports_service :
          (tls : Bool) (s : S) (url : Option Url)
          → (reconcile_reports_service V cr tls s).0 ≡ ok url
          → routing (
              V.read
                (reconcile_reports_service V cr tls s).1
                (service_key cr (cr.name <> "-reports")))
            ≡ (if is_zero report_replicas
                then none
                else routes K cr.name "reports"
                    (record {
                      name = "http";
                      port = reports_port;
                      target_port = pos 10000;
                      app_protocol = none;
                    })
                    reports_type)
      unfolding reconcile_reports_service
      routing-reconcile_reports_service tls s url h = elim (Bool-cases (is_zero report_replicas)) [
        | inl unasked ↦
            let gone = without_reports-eq-is_zero ∙ unasked in
            rw unasked (rw gone (routing-deleted _ s (rw gone at h)))
        | inr asked ↦
            let wanted = without_reports-eq-is_zero ∙ asked in
            let (port, service_type) = reports_config in
            let (created, later, same) = then_do-eq-ok _ _ (rw wanted at h) in
            let stored =
              routing-create_or_update_service _ _ _ _ _ (http_to reports_container_port) _ _ s port
                service_type created in
            rw asked (rw wanted (rw same (rw port (rw port at stored))))
      ]

      abbrev pub storage_port_of : ℤ
      storage_port_of =
          let config = setting cr.spec.service_options λ opts. opts.storage_config in
          get_or (setting config λ c. c.http_port) storage_port

      abbrev pub storage_type : K.ServiceType
      storage_type =
          let config = setting cr.spec.service_options λ opts. opts.storage_config in
          get_or (setting config λ c. c.service_config.service_type) K.cluster_ip

      -- The URL of the user's own object storage.
      abbrev pub external_storage : Option String
      external_storage =
          setting (setting cr.spec.object_storage_options λ opts. opts.provider) λ p. p.url

      pub deploy_managed_storage-eq-not : deploy_managed_storage cr ≡ not (is_some external_storage)
      unfolding deploy_managed_storage
      deploy_managed_storage-eq-not = refl

      pub storage_config :
          ((configure_storage_service cr).http_port ≡ some storage_port_of)
          × ((configure_storage_service cr).service_config.service_type ≡ some storage_type)
      unfolding configure_storage_service configure_service
      storage_config = ground arith

      -- After a reconciliation of the storage service that succeeds, the service exists exactly if
      -- the user gives no URL of an object storage; it then sends its traffic to the storage's port, from
      -- the port and by the type that the user asks for, or the defaults.
      pub routing-reconcile_storage_service :
          (tls : Bool) (s : S) (url : Option Url)
          → (reconcile_storage_service V cr tls s).0 ≡ ok url
          → routing (
              V.read
                (reconcile_storage_service V cr tls s).1
                (service_key cr (cr.name <> "-storage")))
            ≡ (if is_some external_storage
                then none
                else routes K cr.name "storage"
                    (record {
                      name = "http";
                      port = storage_port_of;
                      target_port = pos 8333;
                      app_protocol = none;
                    })
                    storage_type)
      unfolding reconcile_storage_service storage_url
      routing-reconcile_storage_service tls s url h = elim (Bool-cases (is_some external_storage)) [
        | inl external ↦
            let gone : deploy_managed_storage cr ≡ false =
              deploy_managed_storage-eq-not ∙ ap not external in
            rw external (rw gone (routing-deleted _ s (rw gone at h)))
        | inr managed ↦
            let wanted : deploy_managed_storage cr ≡ true =
              deploy_managed_storage-eq-not ∙ ap not managed in
            let (port, service_type) = storage_config in
            let (created, later, same) = then_do-eq-ok _ _ (rw wanted at h) in
            let stored =
              routing-create_or_update_service _ _ _ _ _ (http_to storage_port) _ _ s port
                service_type created in
            rw managed (rw wanted (rw same (rw port (rw port at stored))))
      ]

      abbrev pub core_port_of : ℤ
      core_port_of =
          let config = setting cr.spec.service_options λ opts. opts.core_config in
          get_or (setting config λ c. c.http_port) auth_proxy_http_container_port

      abbrev pub core_type : K.ServiceType
      core_type =
          let config = setting cr.spec.service_options λ opts. opts.core_config in
          get_or (setting config λ c. c.service_config.service_type) K.cluster_ip

      core_config :
          ((configure_core_service cr).http_port ≡ some core_port_of)
          × ((configure_core_service cr).service_config.service_type ≡ some core_type)
      unfolding configure_core_service configure_service
      core_config = ground arith

      -- After a reconciliation of the core service that succeeds, the service sends its traffic to
      -- the port of the authentication proxy, from the port and by the type that the user asks for,
      -- or the defaults, and says that this is HTTPS exactly if TLS is set up.
      pub routing-reconcile_core_service :
          (tls : Bool) (s : S)
          → (reconcile_core_service V cr tls s).0 ≡ ok tt
          → routing (V.read (reconcile_core_service V cr tls s).1 (service_key cr cr.name))
            ≡ routes K cr.name "cryostat"
                (record {
                  name = "http";
                  port = core_port_of;
                  target_port = pos 4180;
                  app_protocol = some (if tls then "https" else "http");
                })
                core_type
      unfolding reconcile_core_service
      routing-reconcile_core_service tls s h =
          let (port, service_type) = core_config in
          routing-create_or_update_service _ _ _ _ _ (core_port tls) _ _ s port service_type h
