-- ===== src/Api/Conversion/From/Networks.antt =====
-- Services and networks, from v1beta2 to v1beta1 (api/v1beta1/cryostat_conversion.go).
use cryostat_operator.Prelude.{Option, none, some}
use cryostat_operator.Api.Kube.{Kube}
use cryostat_operator.Api.V1beta1.Options as V1
use cryostat_operator.Api.V1beta2.Services as V2

module _ (K : Kube) where
  unfoldable pub convert_service_config_from : V2.ServiceConfig K → V1.ServiceConfig K
  convert_service_config_from config = record {
    service_type = config.service_type;
    annotations = config.resource_metadata.annotations;
    labels = config.resource_metadata.labels;
  }

  convert_core_service_from : Option (V2.CoreServiceConfig K) → Option (V1.CoreServiceConfig K)
  unfolding convert_service_config_from
  convert_core_service_from none = none
  convert_core_service_from (some config) = some (record {
    http_port = config.http_port;
    jmx_port = none;
    service_config = convert_service_config_from config.service_config;
  })

  convert_reports_service_from :
      Option (V2.ReportsServiceConfig K) → Option (V1.ReportsServiceConfig K)
  unfolding convert_service_config_from
  convert_reports_service_from none = none
  convert_reports_service_from (some config) = some (record {
    http_port = config.http_port;
    service_config = convert_service_config_from config.service_config;
  })

  unfoldable pub convert_service_options_from :
      Option (V2.ServiceConfigList K) → Option (V1.ServiceConfigList K)
  unfolding convert_core_service_from convert_reports_service_from
  convert_service_options_from none = none
  convert_service_options_from (some opts) = some (record {
    core_config = convert_core_service_from opts.core_config;
    grafana_config = none;
    reports_config = convert_reports_service_from opts.reports_config;
    storage_config = none;
  })

  unfoldable pub convert_network_config_from :
      Option (V2.NetworkConfiguration K) → Option (V1.NetworkConfiguration K)
  convert_network_config_from none = none
  convert_network_config_from (some config) = some (record {
    ingress_spec = config.ingress_spec;
    annotations = config.resource_metadata.annotations;
    labels = config.resource_metadata.labels;
  })

  unfoldable pub convert_network_options_from :
      Option (V2.NetworkConfigurationList K) → Option (V1.NetworkConfigurationList K)
  unfolding convert_network_config_from
  convert_network_options_from none = none
  convert_network_options_from (some opts) = some (record {
    core_config = convert_network_config_from opts.core_config;
    command_config = none;
    grafana_config = none;
  })
