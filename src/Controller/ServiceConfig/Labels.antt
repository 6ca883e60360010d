-- ===== src/Controller/ServiceConfig/Labels.antt =====
-- The labels that each service gets, whatever labels the user asks for.
use cryostat_operator.Prelude.{◌≡◌, refl, ap, ◌∙◌, String, [], ◌∷◌, get_or, arith}
use cryostat_operator.Prelude.Dict.{Dict, lookup, lookup-insert}
use cryostat_operator.Api.Kube.{Kube}
use cryostat_operator.Api.V1beta2.Options.{ResourceMetadata}
use cryostat_operator.Api.V1beta2.Services.{AgentCallbackServiceConfig}
use cryostat_operator.Common.Instance.{CryostatInstance}
use cryostat_operator.Common.Metadata.{labels_for_target_namespace_object}
use cryostat_operator.Common.Metadata.Laws.{value_at, prefer, DistinctKeys, lookup-copy}
use cryostat_operator.Controller.ServiceConfig.{
  configure_metadata, configure_agent_callback_service, setting, no_metadata,
}

-- The labels by which the objects of an installation's component are found.
abbrev pub required_labels : String → String → Dict String
required_labels app component =
    ("app.kubernetes.io/part-of", "cryostat")
    ∷ ("app.kubernetes.io/component", component)
    ∷ ("app.kubernetes.io/instance", app)
    ∷ ("app.kubernetes.io/name", "cryostat")
    ∷ ("component", component)
    ∷ ("app", app)
    ∷ []

-- A service's label has the required value if it is a required one, even where the user asks for
-- another value, and else the user's.
lookup-configure_metadata :
    (config : ResourceMetadata) (app component k : String)
    → value_at k (configure_metadata config app component).labels
      ≡ prefer (lookup k (required_labels app component)) (value_at k config.labels)
unfolding configure_metadata lookup
lookup-configure_metadata config app component k =
    rw (lookup-insert, lookup-insert, lookup-insert, lookup-insert, lookup-insert, lookup-insert)
      (ground arith)

pub labels_for_target-DistinctKeys :
    {K : Kube} (cr : CryostatInstance K) → DistinctKeys (labels_for_target_namespace_object cr)
unfolding labels_for_target_namespace_object lookup
labels_for_target-DistinctKeys cr = (refl, (refl, tt))

-- What the user asks for the callback service.
abbrev pub user_callback_metadata : {K : Kube} → CryostatInstance K → ResourceMetadata
user_callback_metadata cr =
    let empty : AgentCallbackServiceConfig = record { resource_metadata = no_metadata } in
    let config =
      get_or (setting cr.spec.service_options λ opts. opts.agent_callback_config) empty in
    config.resource_metadata

-- The callback service of the agents has, on top of these, the labels by which the controller finds
-- the objects that it has created in a target namespace.
pub lookup-configure_agent_callback_service :
    {K : Kube} (cr : CryostatInstance K) (k : String)
    → value_at k (configure_agent_callback_service cr).resource_metadata.labels
      ≡ prefer (lookup k (labels_for_target_namespace_object cr)) (
          prefer
            (lookup k (required_labels cr.name "cryostat-agent-callback"))
            (value_at k (user_callback_metadata cr).labels))
unfolding configure_agent_callback_service
lookup-configure_agent_callback_service cr k =
    lookup-copy k (labels_for_target_namespace_object cr) _ (labels_for_target-DistinctKeys cr)
    ∙ ap (prefer (lookup k (labels_for_target_namespace_object cr)))
        (lookup-configure_metadata (user_callback_metadata cr) cr.name "cryostat-agent-callback" k)
