-- ===== src/Api/V1beta1.antt =====
-- The v1beta1 custom resource (api/v1beta1/cryostat_types.go). A pointer is an `Option`, and so is
-- a slice or a map that the code compares with nil.
pub mod Options
use cryostat_operator.Prelude.{Bool, String, Option, List}
use cryostat_operator.Prelude.Int.{ℤ}
use cryostat_operator.Api.Kube.{Kube}
use Options.{
  OperandMetadata, ResourceConfigList, StorageConfiguration, ReportConfiguration,
  SchedulingConfiguration, ServiceConfigList, NetworkConfigurationList, JmxCacheOptions,
  CertificateSecret, TemplateConfigMap, AuthorizationProperties, SecurityOptions,
  TargetDiscoveryOptions, JmxCredentialsDatabaseOptions,
}

module _ (K : Kube) where
  pub record CryostatSpec : Type 0 where
    pub minimal : Bool
    pub trusted_cert_secrets : Option (List CertificateSecret)
    pub event_templates : Option (List TemplateConfigMap)
    pub enable_cert_manager : Option Bool
    pub storage_options : Option (StorageConfiguration K)
    pub service_options : Option (ServiceConfigList K)
    pub network_options : Option (NetworkConfigurationList K)
    pub report_options : Option (ReportConfiguration K)
    pub max_ws_connections : ℤ
    pub jmx_cache_options : Option JmxCacheOptions
    pub resources : Option (ResourceConfigList K)
    pub auth_properties : Option AuthorizationProperties
    pub security_options : Option (SecurityOptions K)
    pub scheduling_options : Option (SchedulingConfiguration K)
    pub target_discovery_options : Option TargetDiscoveryOptions
    pub jmx_credentials_database_options : Option JmxCredentialsDatabaseOptions
    pub operand_metadata : Option OperandMetadata

  pub record CryostatStatus : Type 0 where
    pub conditions : Option (List K.Condition)
    pub grafana_secret : String
    pub application_url : String

  pub record Cryostat : Type 0 where
    pub object_meta : K.ObjectMeta
    pub spec : CryostatSpec
    pub status : CryostatStatus
