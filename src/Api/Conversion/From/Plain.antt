-- ===== src/Api/Conversion/From/Plain.antt =====
-- The parts of the spec with no Kubernetes types, from v1beta2 to v1beta1
-- (api/v1beta1/cryostat_conversion.go).
use cryostat_operator.Prelude.{Option, none, some, List, map}
use cryostat_operator.Api.V1beta1.Options as V1
use cryostat_operator.Api.V1beta2.Options as V2

convert_cert_secret_from : V2.CertificateSecret → V1.CertificateSecret
convert_cert_secret_from cert = record {
  secret_name = cert.secret_name;
  certificate_key = cert.certificate_key;
}

unfoldable pub convert_cert_secrets_from :
    Option (List V2.CertificateSecret) → Option (List V1.CertificateSecret)
unfolding convert_cert_secret_from
convert_cert_secrets_from none = none
convert_cert_secrets_from (some certs) = some (map convert_cert_secret_from certs)

convert_event_template_from : V2.TemplateConfigMap → V1.TemplateConfigMap
convert_event_template_from template = record {
  config_map_name = template.config_map_name;
  filename = template.filename;
}

unfoldable pub convert_event_templates_from :
    Option (List V2.TemplateConfigMap) → Option (List V1.TemplateConfigMap)
unfolding convert_event_template_from
convert_event_templates_from none = none
convert_event_templates_from (some templates) = some (map convert_event_template_from templates)

unfoldable pub convert_jmx_cache_options_from :
    Option V2.TargetConnectionCacheOptions → Option V1.JmxCacheOptions
convert_jmx_cache_options_from none = none
convert_jmx_cache_options_from (some opts) = some (record {
  target_cache_size = opts.target_cache_size;
  target_cache_ttl = opts.target_cache_ttl;
})

unfoldable pub convert_target_discovery_from :
    Option V2.TargetDiscoveryOptions → Option V1.TargetDiscoveryOptions
convert_target_discovery_from none = none
convert_target_discovery_from (some opts) = some (record {
  built_in_discovery_disabled = opts.disable_built_in_discovery;
  disable_built_in_port_names = opts.disable_built_in_port_names;
  discovery_port_names = opts.discovery_port_names;
  disable_built_in_port_numbers = opts.disable_built_in_port_numbers;
  discovery_port_numbers = opts.discovery_port_numbers;
})

unfoldable pub convert_database_options_from :
    Option V2.DatabaseOptions → Option V1.JmxCredentialsDatabaseOptions
convert_database_options_from none = none
convert_database_options_from (some opts) =
    some (record { database_secret_name = opts.secret_name })

unfoldable pub convert_resource_metadata_from :
    Option V2.ResourceMetadata → Option V1.ResourceMetadata
convert_resource_metadata_from none = none
convert_resource_metadata_from (some meta) =
    some (record { annotations = meta.annotations; labels = meta.labels })

unfoldable pub convert_operand_metadata_from : Option V2.OperandMetadata → Option V1.OperandMetadata
unfolding convert_resource_metadata_from
convert_operand_metadata_from none = none
convert_operand_metadata_from (some opts) = some (record {
  deployment_metadata = convert_resource_metadata_from opts.deployment_metadata;
  pod_metadata = convert_resource_metadata_from opts.pod_metadata;
})
