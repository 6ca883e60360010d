-- ===== src/Api/V1beta1/Options.antt =====
-- The parts of the v1beta1 spec (api/v1beta1/cryostat_types.go).
use cryostat_operator.Prelude.{Bool, String, Option, List}
use cryostat_operator.Prelude.Int.{ℤ}
use cryostat_operator.Prelude.Dict.{Dict}
use cryostat_operator.Api.Kube.{Kube, StringMap}

pub record ResourceMetadata : Type 0 where
  pub annotations : StringMap
  pub labels : StringMap

pub record OperandMetadata : Type 0 where
  pub deployment_metadata : Option ResourceMetadata
  pub pod_metadata : Option ResourceMetadata

pub record JmxCacheOptions : Type 0 where
  pub target_cache_size : ℤ
  pub target_cache_ttl : ℤ

pub record CertificateSecret : Type 0 where
  pub secret_name : String
  pub certificate_key : Option String

pub record TemplateConfigMap : Type 0 where
  pub config_map_name : String
  pub filename : String

pub record AuthorizationProperties : Type 0 where
  pub cluster_role_name : String
  pub config_map_name : String
  pub filename : String

pub record TargetDiscoveryOptions : Type 0 where
  pub built_in_discovery_disabled : Bool
  pub disable_built_in_port_names : Bool
  pub discovery_port_names : Option (List String)
  pub disable_built_in_port_numbers : Bool
  pub discovery_port_numbers : Option (List ℤ)

pub record JmxCredentialsDatabaseOptions : Type 0 where
  pub database_secret_name : Option String

module _ (K : Kube) where
  pub record ResourceConfigList : Type 0 where
    pub core_resources : K.ResourceRequirements
    pub data_source_resources : K.ResourceRequirements
    pub grafana_resources : K.ResourceRequirements

  pub record PersistentVolumeClaimConfig : Type 0 where
    pub annotations : StringMap
    pub labels : StringMap
    pub spec : Option K.PersistentVolumeClaimSpec

  pub record EmptyDirConfig : Type 0 where
    pub enabled : Bool
    pub medium : K.StorageMedium
    pub size_limit : String

  pub record StorageConfiguration : Type 0 where
    pub pvc : Option PersistentVolumeClaimConfig
    pub empty_dir : Option EmptyDirConfig

  pub record Affinity : Type 0 where
    pub node_affinity : Option K.NodeAffinity
    pub pod_affinity : Option K.PodAffinity
    pub pod_anti_affinity : Option K.PodAntiAffinity

  pub record SchedulingConfiguration : Type 0 where
    pub node_selector : Option (Dict String)
    pub affinity : Option Affinity
    pub tolerations : Option (List K.Toleration)

  pub record ReportsSecurityOptions : Type 0 where
    pub pod_security_context : Option K.PodSecurityContext
    pub reports_security_context : Option K.SecurityContext

  pub record ReportConfiguration : Type 0 where
    pub replicas : ℤ
    pub resources : K.ResourceRequirements
    pub sub_process_max_heap_size : ℤ
    pub security_options : Option ReportsSecurityOptions
    pub scheduling_options : Option SchedulingConfiguration

  pub record ServiceConfig : Type 0 where
    pub service_type : Option K.ServiceType
    pub annotations : StringMap
    pub labels : StringMap

  pub record CoreServiceConfig : Type 0 where
    pub http_port : Option ℤ
    pub jmx_port : Option ℤ
    pub service_config : ServiceConfig

  pub record GrafanaServiceConfig : Type 0 where
    pub http_port : Option ℤ
    pub service_config : ServiceConfig

  pub record StorageServiceConfig : Type 0 where
    pub http_port : Option ℤ
    pub service_config : ServiceConfig

  pub record ReportsServiceConfig : Type 0 where
    pub http_port : Option ℤ
    pub service_config : ServiceConfig

  pub record ServiceConfigList : Type 0 where
    pub core_config : Option CoreServiceConfig
    pub grafana_config : Option GrafanaServiceConfig
    pub reports_config : Option ReportsServiceConfig
    pub storage_config : Option StorageServiceConfig

  pub record NetworkConfiguration : Type 0 where
    pub ingress_spec : Option K.IngressSpec
    pub annotations : StringMap
    pub labels : StringMap

  pub record NetworkConfigurationList : Type 0 where
    pub core_config : Option NetworkConfiguration
    pub command_config : Option NetworkConfiguration
    pub grafana_config : Option NetworkConfiguration

  pub record SecurityOptions : Type 0 where
    pub pod_security_context : Option K.PodSecurityContext
    pub core_security_context : Option K.SecurityContext
    pub data_source_security_context : Option K.SecurityContext
    pub grafana_security_context : Option K.SecurityContext
    pub storage_security_context : Option K.SecurityContext
    pub database_security_context : Option K.SecurityContext
