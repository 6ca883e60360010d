-- ===== src/Api/Conversion/To/Networks.antt =====
-- Services and networks, from v1beta1 to v1beta2 (api/v1beta1/cryostat_conversion.go).
use cryostat_operator.Prelude.{Option, none, some}
use cryostat_operator.Api.Kube.{Kube}
use cryostat_operator.Api.V1beta1.Options as V1
use cryostat_operator.Api.V1beta2.Services as V2

module _ (K : Kube) where
  unfoldable pub convert_service_config_to : V1.ServiceConfig K → V2.ServiceConfig K
  convert_service_config_to config = record {
    service_type = config.service_type;
    resource_metadata = record { annotations = config.annotations; labels = config.labels };
  }

  convert_core_service_to : Option (V1.CoreServiceConfig K) → Option (V2.CoreServiceConfig K)
  unfolding convert_service_config_to
  convert_core_service_to none = none
  convert_core_service_to (some config) = some (record {
    http_port = config.http_port;
    service_config = convert_service_config_to config.service_config;
  })

  convert_reports_service_to :
      Option (V1.ReportsServiceConfig K) → Option (V2.ReportsServiceConfig K)
  unfolding convert_service_config_to
  convert_reports_service_to none = none
  convert_reports_service_to (some config) = some (record {
    http_port = config.http_port;
    service_config = convert_service_config_to config.service_config;
  })

  unfoldable pub convert_service_options_to :
      Option (V1.ServiceConfigList K) → Option (V2.ServiceConfigList K)
  unfolding convert_core_service_to convert_reports_service_to
  convert_service_options_to none = none
  convert_service_options_to (some opts) = some (record {
    core_config = convert_core_service_to opts.core_config;
    reports_config = convert_reports_service_to opts.reports_config;
    database_config = none;
    storage_config = none;
    agent_gateway_config = none;
    agent_callback_config = none;
  })

  unfoldable pub convert_network_config_to :
      Option (V1.NetworkConfiguration K) → Option (V2.NetworkConfiguration K)
  convert_network_config_to none = none
  convert_network_config_to (some config) = some (record {
    external_host = none;
    ingress_spec = config.ingress_spec;
    resource_metadata = record { annotations = config.annotations; labels = config.labels };
  })

  unfoldable pub convert_network_options_to :
      Option (V1.NetworkConfigurationList K) → Option (V2.NetworkConfigurationList K)
  unfolding convert_network_config_to
  convert_network_options_to none = none
  convert_network_options_to (some opts) =
      some (record { core_config = convert_network_config_to opts.core_config })
