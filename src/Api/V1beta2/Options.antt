-- ===== src/Api/V1beta2/Options.antt =====
-- The parts of the v1beta2 spec, services and networks apart (api/v1beta2/cryostat_types.go).
use cryostat_operator.Prelude.{Bool, String, Option, List}
use cryostat_operator.Prelude.Int.{ℤ}
use cryostat_operator.Prelude.Dict.{Dict}
use cryostat_operator.Api.Kube.{Kube, StringMap}

pub record ResourceMetadata : Type 0 where
  pub annotations : StringMap
  pub labels : StringMap

pub record OperandMetadata : Type 0 where
  pub deployment_metadata : Option ResourceMetadata
  pub pod_metadata : Option ResourceMetadata

pub record TargetConnectionCacheOptions : Type 0 where
  pub target_cache_size : ℤ
  pub target_cache_ttl : ℤ

pub record CertificateSecret : Type 0 where
  pub secret_name : String
  pub config_map_name : String
  pub certificate_key : Option String

pub record DeclarativeCredential : Type 0 where
  pub secret_name : String

pub record ProbeTemplateConfigMap : Type 0 where
  pub config_map_name : String
  pub filename : String

pub record TemplateConfigMap : Type 0 where
  pub config_map_name : String
  pub filename : String

pub record AutomatedRuleConfigMap : Type 0 where
  pub config_map_name : String
  pub filename : String

pub record SecretFile : Type 0 where
  pub secret_name : Option String
  pub filename : Option String

pub record TargetDiscoveryOptions : Type 0 where
  pub disable_built_in_discovery : Bool
  pub disable_built_in_port_names : Bool
  pub discovery_port_names : Option (List String)
  pub disable_built_in_port_numbers : Bool
  pub discovery_port_numbers : Option (List ℤ)

pub record DatabaseOptions : Type 0 where
  pub secret_name : Option String

pub record ObjectStorageProviderOptions : Type 0 where
  pub url : Option String
  pub use_virtual_host_access : Option Bool
  pub disable_presigned_file_transfers : Option Bool
  pub disable_presigned_downloads : Option Bool
  pub region : Option String
  pub tls_trust_all : Option Bool
  pub metadata_mode : Option String

pub record StorageBucketNameOptions : Type 0 where
  pub archived_recordings : Option String
  pub archived_reports : Option String
  pub event_templates : Option String
  pub jmc_agent_probe_templates : Option String
  pub heap_dumps : Option String
  pub thread_dumps : Option String
  pub metadata : Option String

pub record ObjectStorageOptions : Type 0 where
  pub secret_name : Option String
  pub provider : Option ObjectStorageProviderOptions
  pub storage_bucket_name_options : Option StorageBucketNameOptions

pub record LoggingOptions : Type 0 where
  pub core_log_level : Option String

module _ (K : Kube) where
  pub record ResourceConfigList : Type 0 where
    pub auth_proxy_resources : K.ResourceRequirements
    pub core_resources : K.ResourceRequirements
    pub data_source_resources : K.ResourceRequirements
    pub grafana_resources : K.ResourceRequirements
    pub database_resources : K.ResourceRequirements
    pub object_storage_resources : K.ResourceRequirements
    pub agent_proxy_resources : K.ResourceRequirements

  pub record PersistentVolumeClaimConfig : Type 0 where
    pub spec : Option K.PersistentVolumeClaimSpec
    pub resource_metadata : ResourceMetadata

  pub record EmptyDirConfig : Type 0 where
    pub enabled : Bool
    pub medium : K.StorageMedium
    pub size_limit : String

  pub record StorageConfiguration : Type 0 where
    pub pvc : Option PersistentVolumeClaimConfig
    pub empty_dir : Option EmptyDirConfig

  pub record LegacyStorageConfiguration : Type 0 where
    pub pvc : Option PersistentVolumeClaimConfig
    pub empty_dir : Option EmptyDirConfig

  pub record StorageConfigurations : Type 0 where
    pub database : Option StorageConfiguration
    pub object_storage : Option StorageConfiguration
    pub legacy : LegacyStorageConfiguration

  pub record Affinity : Type 0 where
    pub node_affinity : Option K.NodeAffinity
    pub pod_affinity : Option K.PodAffinity
    pub pod_anti_affinity : Option K.PodAntiAffinity

  pub record SchedulingConfiguration : Type 0 where
    pub node_selector : Option (Dict String)
    pub affinity : Option Affinity
    pub tolerations : Option (List K.Toleration)

  pub record ReportsSecurityOptions : Type 0 where
    pub pod_security_context : Option K.PodSecurityContext
    pub reports_security_context : Option K.SecurityContext

  pub record ReportConfiguration : Type 0 where
    pub replicas : ℤ
    pub resources : K.ResourceRequirements
    pub sub_process_max_heap_size : ℤ
    pub security_options : Option ReportsSecurityOptions
    pub scheduling_options : Option SchedulingConfiguration

  pub record OpenShiftSsoConfig : Type 0 where
    pub disable : Option Bool
    pub access_review : Option K.ResourceAttributes

  pub record AuthorizationOptions : Type 0 where
    pub open_shift_sso : Option OpenShiftSsoConfig
    pub basic_auth : Option SecretFile

  pub record SecurityOptions : Type 0 where
    pub pod_security_context : Option K.PodSecurityContext
    pub auth_proxy_security_context : Option K.SecurityContext
    pub core_security_context : Option K.SecurityContext
    pub data_source_security_context : Option K.SecurityContext
    pub grafana_security_context : Option K.SecurityContext
    pub storage_security_context : Option K.SecurityContext
    pub database_security_context : Option K.SecurityContext
    pub agent_proxy_security_context : Option K.SecurityContext

  pub record AgentOptions : Type 0 where
    pub disable_hostname_verification : Bool
    pub allow_insecure : Bool
    pub resources : K.ResourceRequirements
