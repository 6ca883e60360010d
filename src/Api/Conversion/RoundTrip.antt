-- ===== src/Api/Conversion/RoundTrip.antt =====
-- A v1beta1 object through the hub version and back, and the other way round
-- (api/v1beta1/cryostat_conversion.go).
use cryostat_operator.Prelude.{◌≡◌, ap, ◌∙◌, map_option}
use cryostat_operator.Api.Kube.{Kube}
use cryostat_operator.Api.V1beta1 as V1
use cryostat_operator.Api.V1beta2 as V2
use cryostat_operator.Api.Conversion.To.{convert_spec_to, convert_to}
use cryostat_operator.Api.Conversion.From.{convert_spec_from, convert_from}
use cryostat_operator.Api.Conversion.Parts.{
  cert_secrets_from_to, event_templates_from_to, jmx_cache_options_from_to,
  target_discovery_from_to, database_options_from_to, operand_metadata_from_to,
  storage_options_from_to, scheduling_options_from_to, report_options_from_to,
  resource_options_from_to, service_options_from_to, network_options_from_to,
  security_options_from_to, kept_services, kept_networks, kept_security, service_options_to-kept,
  network_options_to-kept, security_options_to-kept,
}

ruleset parts = (
  cert_secrets_from_to, event_templates_from_to, jmx_cache_options_from_to,
  target_discovery_from_to, database_options_from_to, operand_metadata_from_to,
  storage_options_from_to, scheduling_options_from_to, report_options_from_to,
  resource_options_from_to, service_options_from_to, network_options_from_to,
  security_options_from_to,
)

ruleset kept = (service_options_to-kept, network_options_to-kept, security_options_to-kept)

module _ (K : Kube) where
  -- The spec `s` as it comes back onto `e`: all of it but what v1beta2 does not take over.
  abbrev pub kept_spec : V1.CryostatSpec K → V1.CryostatSpec K → V1.CryostatSpec K
  kept_spec s e = record s {
    minimal = e.minimal;
    max_ws_connections = e.max_ws_connections;
    auth_properties = e.auth_properties;
    service_options = map_option (kept_services K) s.service_options;
    network_options = map_option (kept_networks K) s.network_options;
    security_options = map_option (kept_security K) s.security_options;
  }

  pub spec_from_to :
      (s e : V1.CryostatSpec K) (d : V2.CryostatSpec K)
      → convert_spec_from K (convert_spec_to K s d) e ≡ kept_spec s e
  unfolding convert_spec_from convert_spec_to
  spec_from_to s e d = simp parts

  abbrev pub kept_object : V1.Cryostat K → V1.Cryostat K → V1.Cryostat K
  kept_object src e = record {
    object_meta = src.object_meta;
    spec = kept_spec src.spec e.spec;
    status = record (src.status) { grafana_secret = e.status.grafana_secret };
  }

  -- A v1beta1 object that is converted to v1beta2 and back comes back with its metadata, its status
  -- but for the Grafana secret, and its spec but for what `kept_spec` replaces.
  pub from_to :
      (src e : V1.Cryostat K) (d : V2.Cryostat K)
      → convert_from K (convert_to K src d) e ≡ kept_object src e
  unfolding convert_from convert_to
  from_to src e d = simp parts

  to-kept_object :
      (src e : V1.Cryostat K) (d : V2.Cryostat K)
      → convert_to K (kept_object src e) d ≡ convert_to K src d
  unfolding convert_to
  to-kept_object src e d = simp kept

  -- A v1beta2 object that came from v1beta1 survives the way to v1beta1 and back unchanged.
  to_from_to :
      (src e : V1.Cryostat K) (d : V2.Cryostat K)
      → convert_to K (convert_from K (convert_to K src d) e) d ≡ convert_to K src d
  to_from_to src e d = ap (λ o. convert_to K o d) (from_to src e d) ∙ to-kept_object src e d
