-- ===== src/Controller/ServiceConfig.antt =====
-- The settings of each service, with their defaults (internal/controller/services.go).
pub mod Labels
use cryostat_operator.Prelude.{String, Option, none, some, List, [], ◌∷◌, get_or, map_option}
use cryostat_operator.Prelude.Dict.{Dict, insert, copy}
use cryostat_operator.Prelude.Int.{ℤ}
use cryostat_operator.Api.Kube.{Kube}
use cryostat_operator.Api.V1beta2.Options.{ResourceMetadata}
use cryostat_operator.Api.V1beta2.Services.{
  ServiceConfig, CoreServiceConfig, ReportsServiceConfig, DatabaseServiceConfig,
  StorageServiceConfig, AgentGatewayServiceConfig, AgentCallbackServiceConfig, ServiceConfigList,
}
use cryostat_operator.Common.Constants.{
  auth_proxy_http_container_port, reports_container_port, database_port, storage_port,
  agent_proxy_container_port, label_app_name,
}
use cryostat_operator.Common.Instance.{CryostatInstance}
use cryostat_operator.Common.Metadata.{labels_for_target_namespace_object}

unfoldable pub configure_metadata : ResourceMetadata → String → String → ResourceMetadata
configure_metadata config app_label component_label = record {
  annotations = some (get_or config.annotations []);
  labels = some (
      insert "app.kubernetes.io/part-of" label_app_name (
        insert "app.kubernetes.io/component" component_label (
          insert "app.kubernetes.io/instance" app_label (
            insert "app.kubernetes.io/name" label_app_name (
              insert "component" component_label
                (insert "app" app_label (get_or config.labels [])))))));
}

-- The field of a list of settings that may be nil.
abbrev pub setting : {A B : Type 0} → Option A → (A → Option B) → Option B
setting none field = none
setting (some a) field = field a

abbrev pub no_metadata : ResourceMetadata
no_metadata = record { annotations = none; labels = none }

module _ {K : Kube} where
  unfoldable pub configure_service : ServiceConfig K → String → String → ServiceConfig K
  unfolding configure_metadata
  configure_service config app_label component_label = record {
    service_type = some (get_or config.service_type K.cluster_ip);
    resource_metadata = configure_metadata config.resource_metadata app_label component_label;
  }

  abbrev pub no_service : ServiceConfig K
  no_service = record { service_type = none; resource_metadata = no_metadata }

  module _ (cr : CryostatInstance K) where
    -- A pointer to an empty struct stands for settings that are not given.
    unfoldable pub configure_core_service : CoreServiceConfig K
    unfolding configure_service
    configure_core_service =
        let empty : CoreServiceConfig K = record {
          http_port = none;
          service_config = no_service;
        } in
        let config = get_or (setting cr.spec.service_options λ opts. opts.core_config) empty in
        record {
          http_port = some (get_or config.http_port auth_proxy_http_container_port);
          service_config = configure_service config.service_config cr.name "cryostat";
        }

    unfoldable pub configure_reports_service : ReportsServiceConfig K
    unfolding configure_service
    configure_reports_service =
        let empty : ReportsServiceConfig K = record {
          http_port = none;
          service_config = no_service;
        } in
        let config = get_or (setting cr.spec.service_options λ opts. opts.reports_config) empty in
        record {
          http_port = some (get_or config.http_port reports_container_port);
          service_config = configure_service config.service_config cr.name "reports";
        }

    unfoldable pub configure_database_service : DatabaseServiceConfig K
    unfolding configure_service
    configure_database_service =
        let empty : DatabaseServiceConfig K = record {
          database_port = none;
          service_config = no_service;
        } in
        let config = get_or (setting cr.spec.service_options λ opts. opts.database_config) empty in
        record {
          database_port = some (get_or config.database_port database_port);
          service_config = configure_service config.service_config cr.name "database";
        }

    unfoldable pub configure_storage_service : StorageServiceConfig K
    unfolding configure_service
    configure_storage_service =
        let empty : StorageServiceConfig K = record {
          http_port = none;
          service_config = no_service;
        } in
        let config = get_or (setting cr.spec.service_options λ opts. opts.storage_config) empty in
        record {
          http_port = some (get_or config.http_port storage_port);
          service_config = configure_service config.service_config cr.name "storage";
        }

    unfoldable pub configure_agent_gateway_service : AgentGatewayServiceConfig K
    unfolding configure_service
    configure_agent_gateway_service =
        let empty : AgentGatewayServiceConfig K = record {
          http_port = none;
          service_config = no_service;
        } in
        let config =
          get_or (setting cr.spec.service_options λ opts. opts.agent_gateway_config) empty in
        record {
          http_port = some (get_or config.http_port agent_proxy_container_port);
          service_config = configure_service config.service_config cr.name "cryostat-agent-gateway";
        }

    unfoldable pub configure_agent_callback_service : AgentCallbackServiceConfig
    unfolding configure_metadata
    configure_agent_callback_service =
        let empty : AgentCallbackServiceConfig = record { resource_metadata = no_metadata } in
        let config =
          get_or (setting cr.spec.service_options λ opts. opts.agent_callback_config) empty in
        let metadata =
          configure_metadata config.resource_metadata cr.name "cryostat-agent-callback" in
        record {
          resource_metadata = record {
            annotations = metadata.annotations;
            labels =
                some (copy (labels_for_target_namespace_object cr) (get_or metadata.labels []));
          };
        }
