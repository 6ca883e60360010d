-- ===== src/Api/Conversion/From.antt =====
-- `ConvertFrom`: the hub version v1beta2 to v1beta1 (api/v1beta1/cryostat_conversion.go). `dst` is the
-- object that the caller passes; the fields that the code does not assign keep its values.
pub mod Plain
pub mod Pods
pub mod Networks
use cryostat_operator.Api.Kube.{Kube}
use cryostat_operator.Api.V1beta1 as V1
use cryostat_operator.Api.V1beta2 as V2
use Plain.{
  convert_cert_secrets_from, convert_event_templates_from, convert_jmx_cache_options_from,
  convert_target_discovery_from, convert_database_options_from, convert_operand_metadata_from,
}
use Pods.{
  convert_storage_options_from, convert_report_options_from, convert_resource_options_from,
  convert_security_options_from, convert_scheduling_options_from,
}
use Networks.{convert_service_options_from, convert_network_options_from}

module _ (K : Kube) where
  unfoldable pub convert_spec_from : V2.CryostatSpec K → V1.CryostatSpec K → V1.CryostatSpec K
  convert_spec_from src dst = record dst {
    enable_cert_manager = src.enable_cert_manager;
    trusted_cert_secrets = convert_cert_secrets_from src.trusted_cert_secrets;
    event_templates = convert_event_templates_from src.event_templates;
    storage_options = convert_storage_options_from K src.storage_options;
    service_options = convert_service_options_from K src.service_options;
    network_options = convert_network_options_from K src.network_options;
    report_options = convert_report_options_from K src.report_options;
    jmx_cache_options = convert_jmx_cache_options_from src.target_connection_cache_options;
    resources = convert_resource_options_from K src.resources;
    security_options = convert_security_options_from K src.security_options;
    scheduling_options = convert_scheduling_options_from K src.scheduling_options;
    target_discovery_options = convert_target_discovery_from src.target_discovery_options;
    jmx_credentials_database_options = convert_database_options_from src.database_options;
    operand_metadata = convert_operand_metadata_from src.operand_metadata;
  }

  unfoldable pub convert_status_from :
      V2.CryostatStatus K → V1.CryostatStatus K → V1.CryostatStatus K
  convert_status_from src dst = record dst {
    application_url = src.application_url;
    conditions = src.conditions;
  }

  -- It always succeeds; the error result is left out.
  unfoldable pub convert_from : V2.Cryostat K → V1.Cryostat K → V1.Cryostat K
  unfolding convert_spec_from convert_status_from
  convert_from src dst = record {
    object_meta = src.object_meta;
    spec = convert_spec_from src.spec dst.spec;
    status = convert_status_from src.status dst.status;
  }
