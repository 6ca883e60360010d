-- ===== src/Api/Conversion/To.antt =====
-- `ConvertTo`: v1beta1 to the hub version v1beta2 (api/v1beta1/cryostat_conversion.go). `dst` is the
-- object that the caller passes; the fields that the code does not assign keep its values.
pub mod Plain
pub mod Pods
pub mod Networks
use cryostat_operator.Prelude.{some, [], ◌∷◌}
use cryostat_operator.Api.Kube.{Kube}
use cryostat_operator.Api.V1beta1 as V1
use cryostat_operator.Api.V1beta2 as V2
use Plain.{
  convert_cert_secrets_to, convert_event_templates_to, convert_jmx_cache_options_to,
  convert_target_discovery_to, convert_database_options_to, convert_operand_metadata_to,
}
use Pods.{
  convert_storage_options_to, convert_report_options_to, convert_resource_options_to,
  convert_security_options_to, convert_scheduling_options_to,
}
use Networks.{convert_service_options_to, convert_network_options_to}

module _ (K : Kube) where
  unfoldable pub convert_spec_to : V1.CryostatSpec K → V2.CryostatSpec K → V2.CryostatSpec K
  convert_spec_to src dst = record dst {
    enable_cert_manager = src.enable_cert_manager;
    trusted_cert_secrets = convert_cert_secrets_to src.trusted_cert_secrets;
    event_templates = convert_event_templates_to src.event_templates;
    storage_options = convert_storage_options_to K src.storage_options;
    service_options = convert_service_options_to K src.service_options;
    network_options = convert_network_options_to K src.network_options;
    report_options = convert_report_options_to K src.report_options;
    target_connection_cache_options = convert_jmx_cache_options_to src.jmx_cache_options;
    resources = convert_resource_options_to K src.resources;
    security_options = convert_security_options_to K src.security_options;
    scheduling_options = convert_scheduling_options_to K src.scheduling_options;
    target_discovery_options = convert_target_discovery_to src.target_discovery_options;
    database_options = convert_database_options_to src.jmx_credentials_database_options;
    operand_metadata = convert_operand_metadata_to src.operand_metadata;
  }

  unfoldable pub convert_status_to : V1.CryostatStatus K → V2.CryostatStatus K → V2.CryostatStatus K
  convert_status_to src dst = record dst {
    application_url = src.application_url;
    conditions = src.conditions;
  }

  -- It always succeeds; the error result is left out.
  unfoldable pub convert_to : V1.Cryostat K → V2.Cryostat K → V2.Cryostat K
  unfolding convert_spec_to convert_status_to
  convert_to src dst =
      let spec = convert_spec_to src.spec dst.spec in
      let status = convert_status_to src.status dst.status in
      let own = some (K.namespace src.object_meta ∷ []) in
      record {
        object_meta = src.object_meta;
        spec = record spec { target_namespaces = own };
        status = record status { target_namespaces = own };
      }
