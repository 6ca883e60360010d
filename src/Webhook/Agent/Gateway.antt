-- ===== src/Webhook/Agent/Gateway.antt =====
-- The agents reach the installation's gateway service.
use cryostat_operator.Prelude.{none, ◌≡◌, Bool, some, arith, get_or}
use cryostat_operator.Api.Kube.{Kube}
use cryostat_operator.Common.Constants.{agent_proxy_container_port}
use cryostat_operator.Common.Instance.{CryostatInstance}
use cryostat_operator.Common.Naming.{agent_gateway_service_name}
use cryostat_operator.Cluster.{Ownership, Resource, IsLawful}
use cryostat_operator.Cluster.Monad.{ok}
use cryostat_operator.Controller.ServiceConfig.{
  setting, configure_agent_gateway_service, configure_service,
}
use cryostat_operator.Controller.ServiceObject.{Service, http_to}
use cryostat_operator.Controller.Services.{service_key, reconcile_agent_gateway_service}
use cryostat_operator.Controller.Services.Stored.{routing, routes, routing-create_or_update_service}
use cryostat_operator.Webhook.Agent.{pos, cryostat_url, get_agent_gateway_http_port}

module _ {K : Kube} {O : Ownership} {S : Type 0} (V : Resource S (Service K O)) (L : IsLawful V)
    (cr : CryostatInstance K) where
  -- The type of the gateway service: the user's, or the default.
  abbrev pub gateway_type : K.ServiceType
  gateway_type =
      let config = setting cr.spec.service_options λ opts. opts.agent_gateway_config in
      get_or (setting config λ c. c.service_config.service_type) K.cluster_ip

  gateway_config :
      ((configure_agent_gateway_service cr).http_port ≡ some (get_agent_gateway_http_port cr))
      × ((configure_agent_gateway_service cr).service_config.service_type ≡ some gateway_type)
  unfolding configure_agent_gateway_service configure_service get_agent_gateway_http_port
  gateway_config = ground arith

  -- After a reconciliation of the gateway service that succeeds, the service sends the traffic that
  -- comes to the port of the URL that the agents are given, with TLS or without, to the port of the
  -- agent proxy in the installation's own pod.
  pub routing-reconcile_agent_gateway_service :
      (tls : Bool) (s : S)
      → (reconcile_agent_gateway_service V cr s).0 ≡ ok tt
      → routing (
          V.read
            (reconcile_agent_gateway_service V cr s).1
            (service_key cr (agent_gateway_service_name cr)))
        ≡ routes K cr.name "cryostat"
            (record {
              name = "http";
              port = (cryostat_url cr tls).port;
              target_port = pos 8282;
              app_protocol = none;
            })
            gateway_type
  unfolding reconcile_agent_gateway_service cryostat_url
  routing-reconcile_agent_gateway_service tls s h =
      let (port, service_type) = gateway_config in
      routing-create_or_update_service V L _ _ _ _ _ (http_to agent_proxy_container_port) _ _ s port
        service_type h
