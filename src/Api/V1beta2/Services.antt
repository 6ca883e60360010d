-- ===== src/Api/V1beta2/Services.antt =====
-- The services and networks of the v1beta2 spec (api/v1beta2/cryostat_types.go).
use cryostat_operator.Prelude.{Bool, String, Option}
use cryostat_operator.Prelude.Int.{ℤ}
use cryostat_operator.Api.Kube.{Kube}
use cryostat_operator.Api.V1beta2.Options.{ResourceMetadata}

pub record AgentCallbackServiceConfig : Type 0 where
  pub resource_metadata : ResourceMetadata

pub record NetworkPolicyConfig : Type 0 where
  pub disabled : Option Bool
  pub ingress_disabled : Option Bool
  pub egress_enabled : Option Bool

pub record NetworkPoliciesList : Type 0 where
  pub core_config : Option NetworkPolicyConfig
  pub reports_config : Option NetworkPolicyConfig
  pub database_config : Option NetworkPolicyConfig
  pub storage_config : Option NetworkPolicyConfig

module _ (K : Kube) where
  pub record ServiceConfig : Type 0 where
    pub service_type : Option K.ServiceType
    pub resource_metadata : ResourceMetadata

  pub record CoreServiceConfig : Type 0 where
    pub http_port : Option ℤ
    pub service_config : ServiceConfig

  pub record ReportsServiceConfig : Type 0 where
    pub http_port : Option ℤ
    pub service_config : ServiceConfig

  pub record DatabaseServiceConfig : Type 0 where
    pub database_port : Option ℤ
    pub service_config : ServiceConfig

  pub record StorageServiceConfig : Type 0 where
    pub http_port : Option ℤ
    pub service_config : ServiceConfig

  pub record AgentGatewayServiceConfig : Type 0 where
    pub http_port : Option ℤ
    pub service_config : ServiceConfig

  pub record ServiceConfigList : Type 0 where
    pub core_config : Option CoreServiceConfig
    pub reports_config : Option ReportsServiceConfig
    pub database_config : Option DatabaseServiceConfig
    pub storage_config : Option StorageServiceConfig
    pub agent_gateway_config : Option AgentGatewayServiceConfig
    pub agent_callback_config : Option AgentCallbackServiceConfig

  pub record NetworkConfiguration : Type 0 where
    pub external_host : Option String
    pub ingress_spec : Option K.IngressSpec
    pub resource_metadata : ResourceMetadata

  pub record NetworkConfigurationList : Type 0 where
    pub core_config : Option NetworkConfiguration
