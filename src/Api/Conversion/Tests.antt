-- ===== src/Api/Conversion/Tests.antt =====
-- The conversion at concrete objects.
use cryostat_operator.Prelude.{◌≡◌, true, false, none, some, [], ◌∷◌}
use cryostat_operator.Prelude.Int.{pos}
use cryostat_operator.Examples.{texts, empty_cryostat}
use cryostat_operator.Api.V1beta1
use cryostat_operator.Api.Conversion.To.{convert_to}
use cryostat_operator.Api.Conversion.From.{convert_from}
use cryostat_operator.Api.Conversion.RoundTrip.{kept_object, from_to}
use cryostat_operator.Api.Conversion.Hub.{old_object, to_from}

abbrev old : V1beta1.Cryostat texts
old = record {
  object_meta = ("cryostat", "apps");
  spec = record {
    minimal = true;
    trusted_cert_secrets = some (record { secret_name = "ca"; certificate_key = none } ∷ []);
    event_templates = some [];
    enable_cert_manager = some false;
    storage_options = some (record {
      pvc = none;
      empty_dir = some (record { enabled = true; medium = "Memory"; size_limit = "1Gi" });
    });
    service_options = some (record {
      core_config = some (record {
        http_port = some (pos 8080);
        jmx_port = some (pos 9095);
        service_config = record {
          service_type = some "NodePort";
          annotations = none;
          labels = some (("team", "a") ∷ []);
        };
      });
      grafana_config = none;
      reports_config = none;
      storage_config = none;
    });
    network_options = none;
    report_options = none;
    max_ws_connections = pos 4;
    jmx_cache_options = none;
    resources = none;
    auth_properties = none;
    security_options = some (record {
      pod_security_context = none;
      core_security_context = some "restricted";
      data_source_security_context = none;
      grafana_security_context = none;
      storage_security_context = some "restricted";
      database_security_context = none;
    });
    scheduling_options = none;
    target_discovery_options = none;
    jmx_credentials_database_options = some (record { database_secret_name = some "db" });
    operand_metadata = none;
  };
  status = record {
    conditions = some ("TLSSetupComplete" ∷ []);
    grafana_secret = "grafana";
    application_url = "https://cryostat";
  };
}

from_to_example :
    convert_from texts (convert_to texts old empty_cryostat) old ≡ kept_object texts old old
from_to_example = from_to texts old old empty_cryostat

to_from_example :
    convert_to texts (convert_from texts empty_cryostat old) empty_cryostat
    ≡ old_object texts empty_cryostat empty_cryostat
to_from_example = to_from texts empty_cryostat empty_cryostat old
