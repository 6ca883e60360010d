-- ===== src/Api/Conversion/Parts.antt =====
-- Each part of the spec through both directions of the conversion
-- (api/v1beta1/cryostat_conversion.go), and what v1beta1 keeps of a part.
use cryostat_operator.Prelude.{◌≡◌, refl, ap, ◌∙◌, Option, none, some, List, arith, map_option}
use mathlib.Core.List.{map-map, map-id}
use cryostat_operator.Api.Kube.{Kube}
use cryostat_operator.Api.V1beta1.Options as V1
use cryostat_operator.Api.Conversion.To.Plain.{
  convert_cert_secrets_to, convert_event_templates_to, convert_jmx_cache_options_to,
  convert_target_discovery_to, convert_database_options_to, convert_operand_metadata_to,
}
use cryostat_operator.Api.Conversion.To.Pods.{
  convert_storage_options_to, convert_report_options_to, convert_resource_options_to,
  convert_security_options_to, convert_scheduling_options_to,
}
use cryostat_operator.Api.Conversion.To.Networks.{
  convert_service_options_to, convert_network_options_to,
}
use cryostat_operator.Api.Conversion.From.Plain.{
  convert_cert_secrets_from, convert_event_templates_from, convert_jmx_cache_options_from,
  convert_target_discovery_from, convert_database_options_from, convert_operand_metadata_from,
}
use cryostat_operator.Api.Conversion.From.Pods.{
  convert_storage_options_from, convert_report_options_from, convert_resource_options_from,
  convert_security_options_from, convert_scheduling_options_from,
}
use cryostat_operator.Api.Conversion.From.Networks.{
  convert_service_options_from, convert_network_options_from,
}

pub cert_secrets_from_to :
    (o : Option (List V1.CertificateSecret))
    → convert_cert_secrets_from (convert_cert_secrets_to o) ≡ o
unfolding convert_cert_secrets_from convert_cert_secrets_to
cert_secrets_from_to none = refl
cert_secrets_from_to (some certs) = ap some (map-map _ _ certs ∙ map-id certs)

pub event_templates_from_to :
    (o : Option (List V1.TemplateConfigMap))
    → convert_event_templates_from (convert_event_templates_to o) ≡ o
unfolding convert_event_templates_from convert_event_templates_to
event_templates_from_to none = refl
event_templates_from_to (some templates) = ap some (map-map _ _ templates ∙ map-id templates)

pub jmx_cache_options_from_to :
    (o : Option V1.JmxCacheOptions)
    → convert_jmx_cache_options_from (convert_jmx_cache_options_to o) ≡ o
unfolding convert_jmx_cache_options_from convert_jmx_cache_options_to
jmx_cache_options_from_to o = ground arith

pub target_discovery_from_to :
    (o : Option V1.TargetDiscoveryOptions)
    → convert_target_discovery_from (convert_target_discovery_to o) ≡ o
unfolding convert_target_discovery_from convert_target_discovery_to
target_discovery_from_to o = ground arith

pub database_options_from_to :
    (o : Option V1.JmxCredentialsDatabaseOptions)
    → convert_database_options_from (convert_database_options_to o) ≡ o
unfolding convert_database_options_from convert_database_options_to
database_options_from_to o = ground arith

pub operand_metadata_from_to :
    (o : Option V1.OperandMetadata)
    → convert_operand_metadata_from (convert_operand_metadata_to o) ≡ o
unfolding convert_operand_metadata_from convert_operand_metadata_to
operand_metadata_from_to o = ground arith

module _ (K : Kube) where
  pub storage_options_from_to :
      (o : Option (V1.StorageConfiguration K))
      → convert_storage_options_from K (convert_storage_options_to K o) ≡ o
  unfolding convert_storage_options_from convert_storage_options_to
  storage_options_from_to o = ground arith

  pub scheduling_options_from_to :
      (o : Option (V1.SchedulingConfiguration K))
      → convert_scheduling_options_from K (convert_scheduling_options_to K o) ≡ o
  unfolding convert_scheduling_options_from convert_scheduling_options_to
  scheduling_options_from_to o = ground arith

  pub report_options_from_to :
      (o : Option (V1.ReportConfiguration K))
      → convert_report_options_from K (convert_report_options_to K o) ≡ o
  unfolding convert_report_options_from convert_report_options_to
  report_options_from_to o = ground arith

  pub resource_options_from_to :
      (o : Option (V1.ResourceConfigList K))
      → convert_resource_options_from K (convert_resource_options_to K o) ≡ o
  unfolding convert_resource_options_from convert_resource_options_to
  resource_options_from_to o = ground arith

  -- What v1beta2 does not take over: the JMX port, and the services of Grafana and of the storage.
  abbrev pub kept_core_service : V1.CoreServiceConfig K → V1.CoreServiceConfig K
  kept_core_service config = record config { jmx_port = none }

  abbrev pub kept_services : V1.ServiceConfigList K → V1.ServiceConfigList K
  kept_services opts = record opts {
    core_config = map_option kept_core_service opts.core_config;
    grafana_config = none;
    storage_config = none;
  }

  abbrev pub kept_networks : V1.NetworkConfigurationList K → V1.NetworkConfigurationList K
  kept_networks opts = record opts { command_config = none; grafana_config = none }

  abbrev pub kept_security : V1.SecurityOptions K → V1.SecurityOptions K
  kept_security opts = record opts {
    storage_security_context = none;
    database_security_context = none;
  }

  pub service_options_from_to :
      (o : Option (V1.ServiceConfigList K))
      → convert_service_options_from K (convert_service_options_to K o) ≡ map_option kept_services o
  unfolding convert_service_options_from convert_service_options_to
  service_options_from_to o = ground arith

  pub network_options_from_to :
      (o : Option (V1.NetworkConfigurationList K))
      → convert_network_options_from K (convert_network_options_to K o) ≡ map_option kept_networks o
  unfolding convert_network_options_from convert_network_options_to
  network_options_from_to o = ground arith

  pub security_options_from_to :
      (o : Option (V1.SecurityOptions K))
      → convert_security_options_from K (convert_security_options_to K o)
        ≡ map_option kept_security o
  unfolding convert_security_options_from convert_security_options_to
  security_options_from_to o = ground arith

  -- What is not taken over does not show in the result.
  pub service_options_to-kept :
      (o : Option (V1.ServiceConfigList K))
      → convert_service_options_to K (map_option kept_services o) ≡ convert_service_options_to K o
  unfolding convert_service_options_to
  service_options_to-kept o = ground arith

  pub network_options_to-kept :
      (o : Option (V1.NetworkConfigurationList K))
      → convert_network_options_to K (map_option kept_networks o) ≡ convert_network_options_to K o
  unfolding convert_network_options_to
  network_options_to-kept o = ground arith

  pub security_options_to-kept :
      (o : Option (V1.SecurityOptions K))
      → convert_security_options_to K (map_option kept_security o) ≡ convert_security_options_to K o
  unfolding convert_security_options_to
  security_options_to-kept o = ground arith
