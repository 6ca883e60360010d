-- ===== src/Common/Constants.antt =====
-- The constants of the controller (internal/controller/constants/constants.go).
use cryostat_operator.Prelude.{String}
use cryostat_operator.Prelude.Int.{ℤ, pos}

abbrev pub auth_proxy_http_container_port : ℤ
auth_proxy_http_container_port = pos 4180

abbrev pub reports_container_port : ℤ
reports_container_port = pos 10000

abbrev pub storage_port : ℤ
storage_port = pos 8333

abbrev pub database_port : ℤ
database_port = pos 5432

abbrev pub agent_proxy_container_port : ℤ
agent_proxy_container_port = pos 8282

abbrev pub agent_callback_container_port : ℤ
agent_callback_container_port = pos 9977

abbrev pub label_app_name : String
label_app_name = "cryostat"

abbrev pub target_namespace_cr_name_label : String
target_namespace_cr_name_label = "operator.cryostat.io/name"

abbrev pub target_namespace_cr_namespace_label : String
target_namespace_cr_namespace_label = "operator.cryostat.io/namespace"

-- Labels for agent auto-configuration.
abbrev pub agent_label_prefix : String
agent_label_prefix = "cryostat.io/"

abbrev pub agent_label_cryostat_name : String
agent_label_cryostat_name = "cryostat.io/name"

abbrev pub agent_label_cryostat_namespace : String
agent_label_cryostat_namespace = "cryostat.io/namespace"

abbrev pub agent_label_log_level : String
agent_label_log_level = "cryostat.io/log-level"

abbrev pub agent_label_callback_port : String
agent_label_callback_port = "cryostat.io/callback-port"

abbrev pub agent_label_container : String
agent_label_container = "cryostat.io/container"

abbrev pub agent_label_read_only : String
agent_label_read_only = "cryostat.io/read-only"

abbrev pub agent_label_java_options_var : String
agent_label_java_options_var = "cryostat.io/java-options-var"

abbrev pub agent_label_harvester_max_files : String
agent_label_harvester_max_files = "cryostat.io/harvester-max-files"

abbrev pub http_scheme : String
http_scheme = "http"

abbrev pub http_port_name : String
http_port_name = "http"

abbrev pub https_scheme : String
https_scheme = "https"

abbrev pub https_port_name : String
https_port_name = "https"

abbrev pub agent_label_harvester_exit_max_age : String
agent_label_harvester_exit_max_age = "cryostat.io/harvester-exit-max-age"

abbrev pub agent_label_harvester_exit_max_size : String
agent_label_harvester_exit_max_size = "cryostat.io/harvester-exit-max-size"
