-- ===== src/Controller/ServiceObject.antt =====
-- The objects that the services are made of, and the functions that mutate them when they are created
-- or updated (internal/controller/services.go).
use cryostat_operator.Prelude.{
  zero, suc, String, Bool, true, false, Option, none, some, List, [], ◌∷◌, get_or, if◌then◌else◌,
}
use cryostat_operator.Prelude.Int.{ℤ, pos, negsuc}
use cryostat_operator.Api.Kube.{Kube, StringMap}
use cryostat_operator.Api.V1beta2.Services.{ServiceConfig, AgentCallbackServiceConfig}
use cryostat_operator.Common.Constants.{
  auth_proxy_http_container_port, agent_label_cryostat_name, agent_label_cryostat_namespace,
  http_port_name, https_port_name,
}
use cryostat_operator.Common.Instance.{CryostatInstance}
use cryostat_operator.Common.Metadata.{Metadata, merge_labels_and_annotations}
use cryostat_operator.Cluster.{Ownership}
use cryostat_operator.Cluster.Monad.{Result, ok, and_then, deref}

pub record ServicePort : Type 0 where
  pub name : String
  pub port : ℤ
  pub target_port : ℤ
  pub app_protocol : Option String

-- What the code writes of a `Service`: `service_type` is `none` and `cluster_ip` empty before they
-- are set.
pub record Service (K : Kube) (O : Ownership) : Type 0 where
  pub metadata : Metadata
  pub owners : O.Owners
  pub service_type : Option K.ServiceType
  pub cluster_ip : String
  pub selector : StringMap
  pub ports : List ServicePort

-- A URL with the host and the port of `url.URL`'s `Host`.
pub record Url : Type 0 where
  pub scheme : String
  pub host : String
  pub port : ℤ
  pub path : String

abbrev pub is_zero : ℤ → Bool
is_zero (pos zero) = true
is_zero (pos (suc n)) = false
is_zero (negsuc n) = false

abbrev pub core_port : Bool → ℤ → ServicePort
core_port tls port = record {
  name = http_port_name;
  port = port;
  target_port = auth_proxy_http_container_port;
  app_protocol = some (if tls then https_port_name else http_port_name);
}

abbrev pub http_to : ℤ → ℤ → ServicePort
http_to target port = record {
  name = http_port_name;
  port = port;
  target_port = target;
  app_protocol = none;
}

module _ {K : Kube} {O : Ownership} where
  new_service : Service K O
  new_service = record {
    metadata = record { labels = none; annotations = none };
    owners = O.no_owners;
    service_type = none;
    cluster_ip = "";
    selector = none;
    ports = [];
  }

  -- The mutate function of `createOrUpdateService`.
  unfoldable pub mutate_service :
      ServiceConfig K
      → (Service K O → Result (Service K O))
      → Option (Service K O)
      → Result (Service K O)
  unfolding new_service
  mutate_service config delegate found =
      let svc = get_or found new_service in
      let wanted = config.resource_metadata in
      let metadata = merge_labels_and_annotations svc.metadata wanted.labels wanted.annotations in
      and_then (O.set_controller svc.owners) λ owners.
        and_then (deref config.service_type) λ service_type.
          delegate
            (record svc { metadata = metadata; owners = owners; service_type = some service_type })

  -- The delegates of the services: a selector by application and component, and one port.
  unfoldable pub select_and_expose :
      String → String → Option ℤ → (ℤ → ServicePort) → Service K O → Result (Service K O)
  select_and_expose app component port with_port svc = and_then (deref port) λ p. ok (record svc {
    selector = some (("app", app) ∷ ("component", component) ∷ []);
    ports = with_port p ∷ [];
  })

  -- The mutate function of `reconcileAgentCallbackServices`.
  unfoldable pub mutate_callback_service :
      AgentCallbackServiceConfig → CryostatInstance K → Option (Service K O) → Service K O
  unfolding new_service
  mutate_callback_service config cr found =
      let svc = get_or found new_service in
      let wanted = config.resource_metadata in
      record svc {
        metadata = merge_labels_and_annotations svc.metadata wanted.labels wanted.annotations;
        selector = some (
            (agent_label_cryostat_name, cr.name)
            ∷ (agent_label_cryostat_namespace, cr.install_namespace)
            ∷ []);
        ports = [];
        service_type = some K.cluster_ip;
        cluster_ip = "None";
      }
