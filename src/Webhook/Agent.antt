-- ===== src/Webhook/Agent.antt =====
-- The settings that a pod's labels give to its agent (internal/webhook/agent/webhook_utils.go), and
-- the Java options that start the agent (pod_defaulter.go).
pub mod Bounds
pub mod Gateway
pub mod JavaOptions
mod Tests
use cryostat_operator.Prelude.{
  ℕ, zero, suc, String, ◌<>◌, Bool, true, false, not, ◌==◌, Option, none, some, List, [], ◌∷◌, ◌++◌,
  get_or, map_option, is_some, if◌then◌else◌,
}
use cryostat_operator.Prelude.Int.{ℤ, pos, negsuc}
use cryostat_operator.Prelude.Strconv.{parse_int, parse_bool}
use cryostat_operator.Api.Kube.{Kube, StringMap}
use cryostat_operator.Common.Constants.{
  agent_proxy_container_port, agent_callback_container_port, agent_label_callback_port,
  agent_label_read_only, agent_label_log_level, agent_label_java_options_var,
  agent_label_harvester_max_files, agent_label_container, http_scheme, https_scheme,
}
use cryostat_operator.Common.Instance.{CryostatInstance}
use cryostat_operator.Common.Metadata.Laws.{value_at}
use cryostat_operator.Common.Naming.{agent_gateway_service_name}
use cryostat_operator.Cluster.Monad.{Result, ok, err, failure, and_then}
use cryostat_operator.Controller.ServiceConfig.{setting}
use cryostat_operator.Controller.ServiceObject.{Url}

module _ {K : Kube} (cr : CryostatInstance K) where
  unfoldable pub get_agent_gateway_http_port : ℤ
  get_agent_gateway_http_port =
      let config = setting cr.spec.service_options λ opts. opts.agent_gateway_config in
      get_or (setting config λ c. c.http_port) agent_proxy_container_port

  -- The URL of the agent proxy, which Go prints as one text.
  unfoldable pub cryostat_url : Bool → Url
  unfolding get_agent_gateway_http_port
  cryostat_url tls = record {
    scheme = if not tls then http_scheme else https_scheme;
    host = agent_gateway_service_name cr <> ("." <> (cr.install_namespace <> ".svc"));
    port = get_agent_gateway_http_port;
    path = "";
  }

abbrev pub invalid_label : {A : Type 0} → String → Result A
invalid_label label = err (failure ("invalid label value for " <> label))

unfoldable pub get_agent_callback_port : StringMap → Result ℤ
get_agent_callback_port labels = elim (value_at agent_label_callback_port labels) [
  | none ↦ ok agent_callback_container_port
  | some port ↦ elim (parse_int 32 port) [
    | none ↦ invalid_label agent_label_callback_port
    | some parsed ↦ ok parsed
  ]
]

unfoldable pub has_write_access : StringMap → Result Bool
has_write_access labels = elim (value_at agent_label_read_only labels) [
  | none ↦ ok true
  | some value ↦ elim (parse_bool value) [
    | none ↦ invalid_label agent_label_read_only
    | some parsed ↦ ok (not parsed)
  ]
]

unfoldable pub get_log_level : StringMap → String
get_log_level labels = get_or (value_at agent_label_log_level labels) "off"

unfoldable pub get_java_options_var : StringMap → String
get_java_options_var labels =
    get_or (value_at agent_label_java_options_var labels) "JAVA_TOOL_OPTIONS"

-- The parsed value, unless it is 0 or negative.
abbrev pub if_positive : ℤ → Result (Option ℤ)
if_positive (pos zero) = invalid_label agent_label_harvester_max_files
if_positive (pos (suc n)) = ok (some (pos (suc n)))
if_positive (negsuc n) = invalid_label agent_label_harvester_max_files

-- No label is a nil pointer.
unfoldable pub get_harvester_max_files : StringMap → Result (Option ℤ)
get_harvester_max_files labels = elim (value_at agent_label_harvester_max_files labels) [
  | none ↦ ok none
  | some max_files ↦ elim (parse_int 32 max_files) [
    | none ↦ invalid_label agent_label_harvester_max_files
    | some parsed ↦ if_positive parsed
  ]
]

-- `Source` is `EnvVarSource` of Kubernetes.
pub record EnvVar (Source : Type 0) : Type 0 where
  pub name : String
  pub value : String
  pub value_from : Option Source

abbrev pub agent_arg_line : String → String
agent_arg_line log_level =
    "-javaagent:/tmp/cryostat-agent/cryostat-agent-shaded.jar"
    <> ("="
        <> ("io.cryostat.agent.shaded.org.slf4j.simpleLogger.defaultLogLevel"
            <> ("=" <> log_level)))

module _ {Source : Type 0} where
  -- The index of the variable to which Go returns a pointer.
  unfoldable pub find_java_opts_var : List (EnvVar Source) → String → Result (Option ℕ)
  find_java_opts_var [] java_opts_var = ok none
  find_java_opts_var (env ∷ envs) java_opts_var =
      let rest = find_java_opts_var envs java_opts_var in
      if env.name == java_opts_var
      then (if is_some env.value_from
          then err (failure ("cannot be extended: " <> java_opts_var))
          else ok (some 0))
      else and_then rest λ found. ok (map_option suc found)

  unfoldable pub extend_at : ℕ → String → List (EnvVar Source) → List (EnvVar Source)
  extend_at i suffix [] = []
  extend_at zero suffix (env ∷ envs) = record env { value = env.value <> suffix } ∷ envs
  extend_at (suc i) suffix (env ∷ envs) = env ∷ extend_at i suffix envs

  unfoldable pub extend_java_opts_var :
      List (EnvVar Source) → String → String → Result (List (EnvVar Source))
  unfolding find_java_opts_var extend_at
  extend_java_opts_var envs java_opts_var log_level =
      let line = agent_arg_line log_level in
      let added : EnvVar Source = record {
        name = java_opts_var;
        value = line;
        value_from = none;
      } in
      and_then (find_java_opts_var envs java_opts_var) λ existing.
        ok (elim existing [ none ↦ envs ++ (added ∷ []) | some i ↦ extend_at i (" " <> line) envs ])
