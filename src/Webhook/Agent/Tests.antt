-- ===== src/Webhook/Agent/Tests.antt =====
-- Agents of concrete pods.
use cryostat_operator.Webhook.Agent.{extend_java_opts_var, cryostat_url}
use cryostat_operator.Controller.ServiceConfig.{configure_agent_gateway_service}
use cryostat_operator.Controller.ServiceObject.{Service, http_to, mutate_service, select_and_expose}
use cryostat_operator.Controller.Services.{create_or_update_service}
use cryostat_operator.Prelude.Strconv.{parse_int}
use cryostat_operator.Prelude.Dict.{lookup}
use cryostat_operator.Prelude.{◌≡◌, refl, ◌<◌, ◌≤◌, ℕ, String, ◌<>◌, true, none, some, [], ◌∷◌}
use cryostat_operator.Prelude.Int.{pos}
use cryostat_operator.Prelude.Strconv.{Fits}
use cryostat_operator.Api.Kube.{StringMap}
use cryostat_operator.Examples.{texts, ownership, installation}
use cryostat_operator.Cluster.Memory.{Objects, in_memory, in_memory-IsLawful}
use cryostat_operator.Common.Naming.{agent_gateway_service_name}
use cryostat_operator.Controller.Services.{service_key, reconcile_agent_gateway_service}
use cryostat_operator.Controller.Services.Stored.{routing, routes}
use cryostat_operator.Webhook.Agent.{
  EnvVar, agent_arg_line, get_agent_callback_port, get_harvester_max_files,
}
use cryostat_operator.Webhook.Agent.Bounds.{
  get_agent_callback_port-Fits, get_harvester_max_files_bounds,
}
use cryostat_operator.Webhook.Agent.Gateway.{routing-reconcile_agent_gateway_service}
use cryostat_operator.Webhook.Agent.JavaOptions.{first_named, first_named-extend_java_opts_var}

abbrev labels : StringMap
labels =
    some (("cryostat.io/callback-port", "8081") ∷ ("cryostat.io/harvester-max-files", "+3") ∷ [])

get_agent_callback_port-Fits_example : Fits 32 (pos 8081)
unfolding get_agent_callback_port lookup parse_int
get_agent_callback_port-Fits_example = get_agent_callback_port-Fits labels (pos 8081) refl

get_harvester_max_files_bounds_example : (n : ℕ) × (pos 3 ≡ pos n) × (1 ≤ n) × (n < 2147483648)
unfolding get_harvester_max_files lookup parse_int
get_harvester_max_files_bounds_example = get_harvester_max_files_bounds labels (pos 3) refl

no_services : Objects (Service texts ownership)
no_services = []

routing-reconcile_agent_gateway_service_example :
    routing (
      in_memory.read
        (reconcile_agent_gateway_service in_memory installation no_services).1
        (service_key installation "c-agent"))
    ≡ routes texts "c" "cryostat" (http_to (pos 8282) (pos 8282)) "ClusterIP"
unfolding no_services reconcile_agent_gateway_service create_or_update_service in_memory
    mutate_service configure_agent_gateway_service select_and_expose agent_gateway_service_name
    cryostat_url
routing-reconcile_agent_gateway_service_example =
    routing-reconcile_agent_gateway_service in_memory in_memory-IsLawful installation true
      no_services refl

abbrev options : EnvVar String
options = record { name = "JAVA_OPTS"; value = "-Xmx1g"; value_from = none }

abbrev extended : EnvVar String
extended = record {
  name = "JAVA_OPTS";
  value = "-Xmx1g" <> (" " <> agent_arg_line "off");
  value_from = none;
}

first_named-extend_java_opts_var_example : first_named (extended ∷ []) "JAVA_OPTS" ≡ some extended
unfolding extend_java_opts_var first_named
first_named-extend_java_opts_var_example =
    first_named-extend_java_opts_var (options ∷ []) (extended ∷ []) "JAVA_OPTS" "off" "JAVA_OPTS"
      refl
