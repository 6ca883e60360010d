-- ===== src/Webhook/Deployment/Tests.antt =====
-- A concrete deployment.
use cryostat_operator.Webhook.Deployment.{
  get_harvester_exit_max_age, get_harvester_exit_max_size, has_prefix,
}
use cryostat_operator.Prelude.Strconv.{parse_bool}
use cryostat_operator.Prelude.Dict.{lookup, insert}
use cryostat_operator.Webhook.Agent.{get_agent_callback_port, has_write_access}
use cryostat_operator.Prelude.{◌≡◌, refl, true, none, some, [], ◌∷◌, get_or, contains}
use cryostat_operator.Api.Kube.{StringMap}
use cryostat_operator.Api.V1beta2.{Cryostat}
use cryostat_operator.Cluster.{Key}
use cryostat_operator.Cluster.Monad.{Result, ok}
use cryostat_operator.Common.Metadata.Laws.{value_at}
use cryostat_operator.Examples.{texts, empty_cryostat}
use cryostat_operator.Prelude.Int.{pos}
use cryostat_operator.Webhook.Deployment.{
  get_harvester_exit_max_age, Parsers, Deployment, cryostat_of, default_deployment,
}
use cryostat_operator.Webhook.Deployment.Labels.{
  lookup-default_deployment, default_deployment_guard,
}

abbrev parsers : Parsers
parsers = record { milliseconds = λ s. none; quantity = λ s. none }

-- A Cryostat object that targets the namespace "a".
abbrev targeting_a : Key → Result (Cryostat texts)
targeting_a k = ok (record empty_cryostat {
  status = record (empty_cryostat.status) { target_namespaces = some ("a" ∷ []) };
})

abbrev labels : StringMap
labels =
    some (("cryostat.io/name", "c") ∷ ("cryostat.io/read-only", "true") ∷ ("app", "outer") ∷ [])

abbrev deployment : Deployment
deployment = record {
  namespace = "a";
  labels = labels;
  template_labels = some (("app", "inner") ∷ []);
}

abbrev mutated : Deployment
mutated = record {
  namespace = "a";
  labels = labels;
  template_labels =
      some (("app", "inner") ∷ ("cryostat.io/name", "c") ∷ ("cryostat.io/read-only", "true") ∷ []);
}

lookup-default_deployment_example : value_at "app" mutated.template_labels ≡ some "inner"
unfolding default_deployment contains get_agent_callback_port lookup has_write_access parse_bool
    get_harvester_exit_max_age get_harvester_exit_max_size has_prefix insert
lookup-default_deployment_example =
    lookup-default_deployment parsers targeting_a deployment mutated "app" refl

default_deployment_guard_example :
    (cr : Cryostat texts) × (cryostat_of parsers targeting_a deployment ≡ ok cr)
    × (contains (get_or cr.status.target_namespaces []) "a" ≡ true)
unfolding default_deployment contains get_agent_callback_port lookup has_write_access parse_bool
    get_harvester_exit_max_age get_harvester_exit_max_size has_prefix insert
default_deployment_guard_example =
    default_deployment_guard parsers targeting_a deployment mutated refl

-- A duration of two hours, whatever the label says.
abbrev two_hours : Parsers
two_hours = record { milliseconds = λ s. some (pos 7200000); quantity = λ s. none }
