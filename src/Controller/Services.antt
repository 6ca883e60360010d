-- ===== src/Controller/Services.antt =====
-- The services of an installation (internal/controller/services.go). The route or the ingress that
-- exposes the core service is not modelled.
pub mod Stored
pub mod Urls
pub mod Callback
mod Tests
use cryostat_operator.Controller.ServiceObject.{
  ServicePort, Service, Url, is_zero, core_port, http_to, mutate_service, select_and_expose,
  mutate_callback_service,
}
use cryostat_operator.Prelude.{
  ℕ, zero, suc, String, ◌<>◌, Bool, true, false, not, ◌||◌, ◌==◌, Option, none, some, List, [], ◌∷◌,
  get_or, is_some, if◌then◌else◌,
}
use cryostat_operator.Prelude.Int.{ℤ, pos, negsuc}
use cryostat_operator.Api.Kube.{Kube, StringMap}
use cryostat_operator.Api.V1beta2.Services.{ServiceConfig, AgentCallbackServiceConfig}
use cryostat_operator.Common.Constants.{
  auth_proxy_http_container_port, reports_container_port, database_port, storage_port,
  agent_proxy_container_port, agent_label_cryostat_name, agent_label_cryostat_namespace,
  http_scheme, http_port_name, https_scheme, https_port_name,
}
use cryostat_operator.Common.Instance.{CryostatInstance}
use cryostat_operator.Common.Metadata.{Metadata, merge_labels_and_annotations}
use cryostat_operator.Common.Naming.{
  Checksums, GroupVersionKind, agent_callback_service_name, agent_gateway_service_name,
}
use cryostat_operator.Cluster.{Key, Ownership, Resource}
use cryostat_operator.Cluster.Monad.{
  Result, ok, err, Err, failure, M, pure, lift, and_then, deref, ◌>>=◌, ◌>>◌, ignore_not_found,
}
use cryostat_operator.Cluster.Loop.{for_each}
use cryostat_operator.Controller.Namespaces.{to_delete}
use cryostat_operator.Controller.ServiceConfig.{
  configure_core_service, configure_reports_service, configure_database_service,
  configure_storage_service, configure_agent_gateway_service, configure_agent_callback_service,
  setting,
}

module _ {K : Kube} (cr : CryostatInstance K) where
  abbrev pub service_key : String → Key
  service_key name = record { name = name; namespace = cr.install_namespace }

  abbrev pub callback_key : Checksums → GroupVersionKind → String → Key
  callback_key H gvk namespace = record {
    name = agent_callback_service_name H gvk cr;
    namespace = namespace;
  }

  -- `cr.Spec.ReportOptions == nil || cr.Spec.ReportOptions.Replicas == 0`
  unfoldable pub without_reports : Bool
  without_reports = elim cr.spec.report_options [ none ↦ true | some opts ↦ is_zero opts.replicas ]

  unfoldable pub deploy_managed_storage : Bool
  deploy_managed_storage =
      let provider = setting cr.spec.object_storage_options λ opts. opts.provider in
      not (is_some (setting provider λ p. p.url))

-- The port of that name, or an error.
unfoldable pub get_named_port : String → List ServicePort → Result ServicePort
get_named_port port_name [] = err (failure "no http port")
get_named_port port_name (p ∷ ports) =
    if p.name == port_name then ok p else get_named_port port_name ports

abbrev pub scheme_for : Bool → String
scheme_for tls = if tls then https_scheme else http_scheme

module _ {K : Kube} {O : Ownership} where
  module _ {S : Type 0} (V : Resource S (Service K O)) where
    unfoldable pub create_or_update_service :
        Key → ServiceConfig K → (Service K O → Result (Service K O)) → M S (Unit {0})
    create_or_update_service k config delegate =
        V.create_or_update k (mutate_service config delegate)

    unfoldable pub delete_service : Key → M S (Unit {0})
    delete_service k = ignore_not_found (V.delete k)

    module _ (cr : CryostatInstance K) where
      -- `reconcileCoreService` before the service is exposed.
      unfoldable pub reconcile_core_service : Bool → M S (Unit {0})
      reconcile_core_service tls =
          let config = configure_core_service cr in
          create_or_update_service (service_key cr cr.name) config.service_config
            (select_and_expose cr.name "cryostat" config.http_port (core_port tls))

      -- The URL is what the code sets in the service specifications.
      unfoldable pub reconcile_reports_service : Bool → M S (Option Url)
      reconcile_reports_service tls =
          let config = configure_reports_service cr in
          let name = cr.name <> "-reports" in
          if without_reports cr then (do delete_service (service_key cr name); pure none) else (do
            create_or_update_service (service_key cr name) config.service_config (
                select_and_expose cr.name "reports" config.http_port
                  (http_to reports_container_port))
            port ← lift (deref config.http_port)
            pure (some (record { scheme = scheme_for tls; host = name; port = port; path = "" })))

      unfoldable pub reconcile_agent_gateway_service : M S (Unit {0})
      reconcile_agent_gateway_service =
          let config = configure_agent_gateway_service cr in
          create_or_update_service (service_key cr (agent_gateway_service_name cr))
            config.service_config
            (select_and_expose cr.name "cryostat" config.http_port
              (http_to agent_proxy_container_port))

      unfoldable pub reconcile_database_service : M S Url
      reconcile_database_service =
          let config = configure_database_service cr in
          let name = cr.name <> "-database" in
          let jdbc_to : ℤ → ServicePort = λ port. record {
            name = "jdbc";
            port = port;
            target_port = database_port;
            app_protocol = none;
          } in
          do
            port ← lift (deref config.database_port)
            create_or_update_service (service_key cr name) config.service_config
                (select_and_expose cr.name "database" (some port) jdbc_to)
            pure
                (record { scheme = "jdbc:posgtresql"; host = name; port = port; path = "cryostat" })

      -- The service that the call has updated is what the server holds then.
      unfoldable pub storage_url : Bool → Key → M S (Option Url)
      storage_url tls k s =
          let ports : List ServicePort = elim (V.read s k) [ none ↦ [] | some svc ↦ svc.ports ] in
          lift
            (and_then (get_named_port http_port_name ports) λ p. ok (
              some (record {
                scheme = scheme_for tls;
                host = k.name <> ("." <> (k.namespace <> ".svc.cluster.local"));
                port = p.port;
                path = "";
              })))
            s

      unfoldable pub reconcile_storage_service : Bool → M S (Option Url)
      reconcile_storage_service tls =
          let config = configure_storage_service cr in
          let k = service_key cr (cr.name <> "-storage") in
          if deploy_managed_storage cr
          then (do
            create_or_update_service k config.service_config
                (select_and_expose cr.name "storage" config.http_port (http_to storage_port))
            storage_url tls k)
          else (do delete_service k; pure none)

      module _ (H : Checksums) (gvk : GroupVersionKind) where
        unfoldable pub update_callback_service : String → M S (Unit {0})
        update_callback_service ns =
            V.create_or_update (callback_key cr H gvk ns)
              λ found. ok (mutate_callback_service (configure_agent_callback_service cr) cr found)

        unfoldable pub reconcile_agent_callback_services : M S (Unit {0})
        reconcile_agent_callback_services = do
          for_each cr.target_namespaces update_callback_service
          for_each (to_delete cr) (λ ns. delete_service (callback_key cr H gvk ns))

        unfoldable pub finalize_agent_callback_services : M S (Unit {0})
        finalize_agent_callback_services =
            for_each cr.target_namespaces (λ ns. delete_service (callback_key cr H gvk ns))
