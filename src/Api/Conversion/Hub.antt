-- ===== src/Api/Conversion/Hub.antt =====
-- A v1beta2 object through v1beta1 and back (api/v1beta1/cryostat_conversion.go): what is left of it.
use cryostat_operator.Prelude.{
  ◌≡◌, refl, ap, ◌∙◌, Option, none, some, List, [], ◌∷◌, map, arith, map_option,
}
use mathlib.Core.List.{map-map, map-id}
use cryostat_operator.Api.Kube.{Kube}
use cryostat_operator.Api.V1beta2
use cryostat_operator.Api.V1beta2.Options as V2
use cryostat_operator.Api.V1beta2.Services as V2s
use cryostat_operator.Api.V1beta1
use cryostat_operator.Api.Conversion.To.{convert_to}
use cryostat_operator.Api.Conversion.From.{convert_from}
use cryostat_operator.Api.Conversion.To.Plain.{
  convert_cert_secrets_to, convert_event_templates_to, convert_jmx_cache_options_to,
  convert_target_discovery_to, convert_database_options_to, convert_operand_metadata_to,
}
use cryostat_operator.Api.Conversion.To.Pods.{
  convert_storage_options_to, convert_report_options_to, convert_resource_options_to,
  convert_security_options_to, convert_scheduling_options_to,
}
use cryostat_operator.Api.Conversion.To.Networks.{
  convert_service_options_to, convert_network_options_to,
}
use cryostat_operator.Api.Conversion.From.Plain.{
  convert_cert_secrets_from, convert_event_templates_from, convert_jmx_cache_options_from,
  convert_target_discovery_from, convert_database_options_from, convert_operand_metadata_from,
}
use cryostat_operator.Api.Conversion.From.Pods.{
  convert_storage_options_from, convert_report_options_from, convert_resource_options_from,
  convert_security_options_from, convert_scheduling_options_from,
}
use cryostat_operator.Api.Conversion.From.Networks.{
  convert_service_options_from, convert_network_options_from,
}

-- A certificate from a config map cannot be told in v1beta1.
abbrev pub without_config_map : V2.CertificateSecret → V2.CertificateSecret
without_config_map cert = record cert { config_map_name = "" }

cert_secrets_to_from :
    (o : Option (List V2.CertificateSecret))
    → convert_cert_secrets_to (convert_cert_secrets_from o) ≡ map_option (map without_config_map) o
unfolding convert_cert_secrets_from convert_cert_secrets_to
cert_secrets_to_from none = refl
cert_secrets_to_from (some certs) = ap some (map-map _ _ certs)

event_templates_to_from :
    (o : Option (List V2.TemplateConfigMap))
    → convert_event_templates_to (convert_event_templates_from o) ≡ o
unfolding convert_event_templates_from convert_event_templates_to
event_templates_to_from none = refl
event_templates_to_from (some templates) = ap some (map-map _ _ templates ∙ map-id templates)

jmx_cache_options_to_from :
    (o : Option V2.TargetConnectionCacheOptions)
    → convert_jmx_cache_options_to (convert_jmx_cache_options_from o) ≡ o
unfolding convert_jmx_cache_options_from convert_jmx_cache_options_to
jmx_cache_options_to_from o = ground arith

target_discovery_to_from :
    (o : Option V2.TargetDiscoveryOptions)
    → convert_target_discovery_to (convert_target_discovery_from o) ≡ o
unfolding convert_target_discovery_from convert_target_discovery_to
target_discovery_to_from o = ground arith

database_options_to_from :
    (o : Option V2.DatabaseOptions)
    → convert_database_options_to (convert_database_options_from o) ≡ o
unfolding convert_database_options_from convert_database_options_to
database_options_to_from o = ground arith

operand_metadata_to_from :
    (o : Option V2.OperandMetadata)
    → convert_operand_metadata_to (convert_operand_metadata_from o) ≡ o
unfolding convert_operand_metadata_from convert_operand_metadata_to
operand_metadata_to_from o = ground arith

module _ (K : Kube) where
  abbrev pub legacy_storage : V2.StorageConfigurations K → V2.StorageConfigurations K
  legacy_storage opts = record opts { database = none; object_storage = none }

  abbrev pub old_resources : V2.ResourceConfigList K → V2.ResourceConfigList K
  old_resources opts = record opts {
    auth_proxy_resources = K.no_resources;
    database_resources = K.no_resources;
    object_storage_resources = K.no_resources;
    agent_proxy_resources = K.no_resources;
  }

  abbrev pub old_security : V2.SecurityOptions K → V2.SecurityOptions K
  old_security opts = record opts {
    auth_proxy_security_context = none;
    storage_security_context = none;
    database_security_context = none;
    agent_proxy_security_context = none;
  }

  abbrev pub old_services : V2s.ServiceConfigList K → V2s.ServiceConfigList K
  old_services opts = record opts {
    database_config = none;
    storage_config = none;
    agent_gateway_config = none;
    agent_callback_config = none;
  }

  abbrev old_network : V2s.NetworkConfiguration K → V2s.NetworkConfiguration K
  old_network config = record config { external_host = none }

  abbrev pub old_networks : V2s.NetworkConfigurationList K → V2s.NetworkConfigurationList K
  old_networks opts = record { core_config = map_option old_network opts.core_config }

  storage_options_to_from :
      (o : Option (V2.StorageConfigurations K))
      → convert_storage_options_to K (convert_storage_options_from K o)
        ≡ map_option legacy_storage o
  unfolding convert_storage_options_from convert_storage_options_to
  storage_options_to_from o = ground arith

  scheduling_options_to_from :
      (o : Option (V2.SchedulingConfiguration K))
      → convert_scheduling_options_to K (convert_scheduling_options_from K o) ≡ o
  unfolding convert_scheduling_options_from convert_scheduling_options_to
  scheduling_options_to_from o = ground arith

  report_options_to_from :
      (o : Option (V2.ReportConfiguration K))
      → convert_report_options_to K (convert_report_options_from K o) ≡ o
  unfolding convert_report_options_from convert_report_options_to
  report_options_to_from o = ground arith

  resource_options_to_from :
      (o : Option (V2.ResourceConfigList K))
      → convert_resource_options_to K (convert_resource_options_from K o)
        ≡ map_option old_resources o
  unfolding convert_resource_options_from convert_resource_options_to
  resource_options_to_from o = ground arith

  security_options_to_from :
      (o : Option (V2.SecurityOptions K))
      → convert_security_options_to K (convert_security_options_from K o)
        ≡ map_option old_security o
  unfolding convert_security_options_from convert_security_options_to
  security_options_to_from o = ground arith

  service_options_to_from :
      (o : Option (V2s.ServiceConfigList K))
      → convert_service_options_to K (convert_service_options_from K o) ≡ map_option old_services o
  unfolding convert_service_options_from convert_service_options_to
  service_options_to_from o = ground arith

  network_options_to_from :
      (o : Option (V2s.NetworkConfigurationList K))
      → convert_network_options_to K (convert_network_options_from K o) ≡ map_option old_networks o
  unfolding convert_network_options_from convert_network_options_to
  network_options_to_from o = ground arith

ruleset hub_parts = (
  cert_secrets_to_from, event_templates_to_from, jmx_cache_options_to_from,
  target_discovery_to_from, database_options_to_from, operand_metadata_to_from,
  storage_options_to_from, scheduling_options_to_from, report_options_to_from,
  resource_options_to_from, security_options_to_from, service_options_to_from,
  network_options_to_from,
)

module _ (K : Kube) where
  -- The hub object `o` as it comes back onto `d`: the settings that v1beta1 has too, over the
  -- settings of `d` for all else, with its own namespace as the only target namespace.
  abbrev pub old_object : V1beta2.Cryostat K → V1beta2.Cryostat K → V1beta2.Cryostat K
  old_object o d = record {
    object_meta = o.object_meta;
    spec = record (d.spec) {
      target_namespaces = some (K.namespace o.object_meta ∷ []);
      enable_cert_manager = o.spec.enable_cert_manager;
      trusted_cert_secrets = map_option (map without_config_map) o.spec.trusted_cert_secrets;
      event_templates = o.spec.event_templates;
      storage_options = map_option (legacy_storage K) o.spec.storage_options;
      service_options = map_option (old_services K) o.spec.service_options;
      network_options = map_option (old_networks K) o.spec.network_options;
      report_options = o.spec.report_options;
      target_connection_cache_options = o.spec.target_connection_cache_options;
      resources = map_option (old_resources K) o.spec.resources;
      security_options = map_option (old_security K) o.spec.security_options;
      scheduling_options = o.spec.scheduling_options;
      target_discovery_options = o.spec.target_discovery_options;
      database_options = o.spec.database_options;
      operand_metadata = o.spec.operand_metadata;
    };
    status = record (d.status) {
      target_namespaces = some (K.namespace o.object_meta ∷ []);
      application_url = o.status.application_url;
      conditions = o.status.conditions;
    };
  }

  -- A v1beta2 object that is converted to v1beta1 and back onto `d` is `old_object`: the settings
  -- of both versions are kept, those that only v1beta2 has are taken from `d`, or are empty inside
  -- a part that both have, and the target namespaces become the object's own namespace.
  pub to_from :
      (o d : V1beta2.Cryostat K) (e : V1beta1.Cryostat K)
      → convert_to K (convert_from K o e) d ≡ old_object o d
  unfolding convert_from convert_to
  to_from o d e = simp hub_parts
