-- ===== src/Api/Conversion/To/Plain.antt =====
-- The parts of the spec with no Kubernetes types, from v1beta1 to v1beta2
-- (api/v1beta1/cryostat_conversion.go).
use cryostat_operator.Prelude.{Option, none, some, List, map}
use cryostat_operator.Api.V1beta1.Options as V1
use cryostat_operator.Api.V1beta2.Options as V2

convert_cert_secret_to : V1.CertificateSecret → V2.CertificateSecret
convert_cert_secret_to cert = record {
  secret_name = cert.secret_name;
  -- The field that v1beta1 does not have keeps its zero value.
  config_map_name = "";
  certificate_key = cert.certificate_key;
}

unfoldable pub convert_cert_secrets_to :
    Option (List V1.CertificateSecret) → Option (List V2.CertificateSecret)
unfolding convert_cert_secret_to
convert_cert_secrets_to none = none
convert_cert_secrets_to (some certs) = some (map convert_cert_secret_to certs)

convert_event_template_to : V1.TemplateConfigMap → V2.TemplateConfigMap
convert_event_template_to template = record {
  config_map_name = template.config_map_name;
  filename = template.filename;
}

unfoldable pub convert_event_templates_to :
    Option (List V1.TemplateConfigMap) → Option (List V2.TemplateConfigMap)
unfolding convert_event_template_to
convert_event_templates_to none = none
convert_event_templates_to (some templates) = some (map convert_event_template_to templates)

unfoldable pub convert_jmx_cache_options_to :
    Option V1.JmxCacheOptions → Option V2.TargetConnectionCacheOptions
convert_jmx_cache_options_to none = none
convert_jmx_cache_options_to (some opts) = some (record {
  target_cache_size = opts.target_cache_size;
  target_cache_ttl = opts.target_cache_ttl;
})

unfoldable pub convert_target_discovery_to :
    Option V1.TargetDiscoveryOptions → Option V2.TargetDiscoveryOptions
convert_target_discovery_to none = none
convert_target_discovery_to (some opts) = some (record {
  disable_built_in_discovery = opts.built_in_discovery_disabled;
  disable_built_in_port_names = opts.disable_built_in_port_names;
  discovery_port_names = opts.discovery_port_names;
  disable_built_in_port_numbers = opts.disable_built_in_port_numbers;
  discovery_port_numbers = opts.discovery_port_numbers;
})

unfoldable pub convert_database_options_to :
    Option V1.JmxCredentialsDatabaseOptions → Option V2.DatabaseOptions
convert_database_options_to none = none
convert_database_options_to (some opts) = some (record { secret_name = opts.database_secret_name })

unfoldable pub convert_resource_metadata_to :
    Option V1.ResourceMetadata → Option V2.ResourceMetadata
convert_resource_metadata_to none = none
convert_resource_metadata_to (some meta) =
    some (record { annotations = meta.annotations; labels = meta.labels })

unfoldable pub convert_operand_metadata_to : Option V1.OperandMetadata → Option V2.OperandMetadata
unfolding convert_resource_metadata_to
convert_operand_metadata_to none = none
convert_operand_metadata_to (some opts) = some (record {
  deployment_metadata = convert_resource_metadata_to opts.deployment_metadata;
  pod_metadata = convert_resource_metadata_to opts.pod_metadata;
})
