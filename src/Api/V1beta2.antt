-- ===== src/Api/V1beta2.antt =====
-- The v1beta2 custom resource, the hub version (api/v1beta2/cryostat_types.go), and the view of it
-- that the controller works with (internal/controller/model/instance.go).
pub mod Options
pub mod Services
use cryostat_operator.Prelude.{Bool, String, Option, List}
use cryostat_operator.Api.Kube.{Kube}
use Options.{
  OperandMetadata, ResourceConfigList, StorageConfigurations, ReportConfiguration,
  SchedulingConfiguration, TargetConnectionCacheOptions, CertificateSecret, AutomatedRuleConfigMap,
  TemplateConfigMap, ProbeTemplateConfigMap, DeclarativeCredential, AuthorizationOptions,
  SecurityOptions, TargetDiscoveryOptions, DatabaseOptions, ObjectStorageOptions, AgentOptions,
  LoggingOptions,
}
use Services.{ServiceConfigList, NetworkPoliciesList, NetworkConfigurationList}

module _ (K : Kube) where
  pub record CryostatSpec : Type 0 where
    pub target_namespaces : Option (List String)
    pub trusted_cert_secrets : Option (List CertificateSecret)
    pub automated_rules : Option (List AutomatedRuleConfigMap)
    pub event_templates : Option (List TemplateConfigMap)
    pub probe_templates : Option (List ProbeTemplateConfigMap)
    pub declarative_credentials : Option (List DeclarativeCredential)
    pub enable_cert_manager : Option Bool
    pub storage_options : Option (StorageConfigurations K)
    pub service_options : Option (ServiceConfigList K)
    pub network_policies : Option NetworkPoliciesList
    pub network_options : Option (NetworkConfigurationList K)
    pub report_options : Option (ReportConfiguration K)
    pub enable_audit : Option Bool
    pub target_connection_cache_options : Option TargetConnectionCacheOptions
    pub resources : Option (ResourceConfigList K)
    pub authorization_options : Option (AuthorizationOptions K)
    pub security_options : Option (SecurityOptions K)
    pub scheduling_options : Option (SchedulingConfiguration K)
    pub target_discovery_options : Option TargetDiscoveryOptions
    pub database_options : Option DatabaseOptions
    pub object_storage_options : Option ObjectStorageOptions
    pub operand_metadata : Option OperandMetadata
    pub agent_options : Option (AgentOptions K)
    pub logging_options : Option LoggingOptions

  pub record CryostatStatus : Type 0 where
    pub target_namespaces : Option (List String)
    pub conditions : Option (List K.Condition)
    pub application_url : String
    pub storage_secret : String
    pub database_secret : String

  pub record Cryostat : Type 0 where
    pub object_meta : K.ObjectMeta
    pub spec : CryostatSpec
    pub status : CryostatStatus
