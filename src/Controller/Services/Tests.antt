-- ===== src/Controller/Services/Tests.antt =====
-- Services of a concrete installation in a cluster that is kept in memory.
use cryostat_operator.Controller.ServiceObject.{
  mutate_service, select_and_expose, Service, core_port, http_to,
}
use cryostat_operator.Prelude.{contains}
use cryostat_operator.Controller.Namespaces.{to_delete, contains_namespace}
use cryostat_operator.Controller.Services.{update_callback_service}
use cryostat_operator.Cluster.Loop.{for_each}
use cryostat_operator.Common.Naming.{agent_callback_service_name, prefix_with_kind, to_lower}
use cryostat_operator.Controller.ServiceConfig.{configure_storage_service}
use cryostat_operator.Controller.Services.{deploy_managed_storage, storage_url, get_named_port}
use cryostat_operator.Cluster.Monad.{ignore_not_found}
use cryostat_operator.Controller.Services.{without_reports, delete_service}
use cryostat_operator.Controller.ServiceConfig.{configure_core_service}
use cryostat_operator.Controller.Services.{create_or_update_service}
use cryostat_operator.Prelude.{◌≡◌, refl, true, false, none, some, [], ◌∷◌}
use cryostat_operator.Prelude.Int.{pos}
use cryostat_operator.Examples.{texts, ownership, checksums, cryostat_kind, installation}
use cryostat_operator.Cluster.Memory.{Objects, in_memory, in_memory-IsLawful}
use cryostat_operator.Controller.Services.{
  service_key, reconcile_core_service, reconcile_reports_service, reconcile_storage_service,
  callback_key, reconcile_agent_callback_services, finalize_agent_callback_services,
}
use cryostat_operator.Controller.Services.Stored.{
  routing, routes, routing-reconcile_core_service, routing-reconcile_reports_service,
  routing-reconcile_storage_service,
}
use cryostat_operator.Prelude.{Option}
use cryostat_operator.Controller.ServiceObject.{Url}
use cryostat_operator.Controller.Services.Urls.{reconcile_storage_service_url}
use cryostat_operator.Controller.Services.Callback.{
  headless, headless-reconcile_agent_callback_services, finalize_agent_callback_services_removes,
}

abbrev old : Service texts ownership
old = record {
  metadata = record { labels = none; annotations = none };
  owners = false;
  service_type = none;
  cluster_ip = "10.0.0.1";
  selector = none;
  ports = [];
}

-- A service of the reports that is there, and callback services in two namespaces.
abbrev cluster : Objects (Service texts ownership)
cluster =
    (service_key installation "c-reports", old)
    ∷ (callback_key installation checksums cryostat_kind "a", old)
    ∷ (callback_key installation checksums cryostat_kind "b", old)
    ∷ []

routing-reconcile_core_service_example :
    routing (
      in_memory.read
        (reconcile_core_service in_memory installation true cluster).1
        (service_key installation "c"))
    ≡ routes texts "c" "cryostat" (core_port true (pos 4180)) "ClusterIP"
unfolding reconcile_core_service create_or_update_service in_memory mutate_service
    configure_core_service select_and_expose
routing-reconcile_core_service_example =
    routing-reconcile_core_service in_memory in_memory-IsLawful installation true cluster refl

routing-reconcile_reports_service_example :
    routing (
      in_memory.read
        (reconcile_reports_service in_memory installation true cluster).1
        (service_key installation "c-reports"))
    ≡ none
unfolding reconcile_reports_service without_reports delete_service ignore_not_found in_memory
routing-reconcile_reports_service_example =
    routing-reconcile_reports_service in_memory in_memory-IsLawful installation true cluster none
      refl

routing-reconcile_storage_service_example :
    routing (
      in_memory.read
        (reconcile_storage_service in_memory installation false cluster).1
        (service_key installation "c-storage"))
    ≡ routes texts "c" "storage" (http_to (pos 8333) (pos 8333)) "ClusterIP"
unfolding reconcile_storage_service deploy_managed_storage create_or_update_service in_memory
    mutate_service configure_storage_service select_and_expose storage_url get_named_port
    agent_callback_service_name prefix_with_kind to_lower
routing-reconcile_storage_service_example =
    routing-reconcile_storage_service in_memory in_memory-IsLawful installation false cluster
      (some (record {
        scheme = "http";
        host = "c-storage.ns.svc.cluster.local";
        port = pos 8333;
        path = "";
      }))
      refl

headless-reconcile_agent_callback_services_example :
    headless (
      in_memory.read
        (reconcile_agent_callback_services in_memory installation checksums cryostat_kind cluster).1
        (callback_key installation checksums cryostat_kind "b"))
    ≡ none
unfolding reconcile_agent_callback_services for_each update_callback_service in_memory to_delete
    contains_namespace delete_service ignore_not_found agent_callback_service_name prefix_with_kind
    to_lower contains
headless-reconcile_agent_callback_services_example =
    headless-reconcile_agent_callback_services in_memory in_memory-IsLawful installation checksums
      cryostat_kind cluster "b" refl

finalize_agent_callback_services_removes_example :
    in_memory.read
      (finalize_agent_callback_services in_memory installation checksums cryostat_kind cluster).1
      (callback_key installation checksums cryostat_kind "a")
    ≡ none
unfolding finalize_agent_callback_services for_each delete_service ignore_not_found in_memory
    agent_callback_service_name prefix_with_kind to_lower contains
finalize_agent_callback_services_removes_example =
    finalize_agent_callback_services_removes in_memory in_memory-IsLawful installation checksums
      cryostat_kind cluster "a" refl

abbrev storage_at : Url
storage_at = record {
  scheme = "http";
  host = "c-storage.ns.svc.cluster.local";
  port = pos 8333;
  path = "";
}

reconcile_storage_service_url_example : ◌≡◌ {A = Option Url} (some storage_at) (some storage_at)
unfolding reconcile_storage_service deploy_managed_storage create_or_update_service in_memory
    mutate_service configure_storage_service select_and_expose storage_url get_named_port
    agent_callback_service_name prefix_with_kind to_lower
reconcile_storage_service_url_example =
    reconcile_storage_service_url in_memory in_memory-IsLawful installation false cluster
      (some storage_at) refl
