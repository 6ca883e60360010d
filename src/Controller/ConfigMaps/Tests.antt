-- ===== src/Controller/ConfigMaps/Tests.antt =====
-- The configuration maps of a concrete installation, of which one has been made immutable.
use cryostat_operator.Controller.ConfigMaps.{mutate_config_map, delete_config_map}
use cryostat_operator.Common.Metadata.{value_of}
use cryostat_operator.Prelude.{◌≡◌, refl, String, true, false, none, some, [], ◌∷◌}
use cryostat_operator.Examples.{installation, ownership, ownership-IsOwnership}
use cryostat_operator.Cluster.Memory.{Objects, in_memory, in_memory-IsLawful}
use cryostat_operator.Cluster.Monad.{ok}
use cryostat_operator.Controller.ConfigMaps.{
  is_immutable, dh_params, create_or_update_config_map, nginx_params, ConfigMap, agent_proxy_key,
  reconcile_agent_proxy_config,
}
use cryostat_operator.Controller.ConfigMaps.Contents.{TlsConfig, Formats}
use cryostat_operator.Controller.ConfigMaps.Stored.{
  IsMap, create_or_update_config_map_stored, reconcile_agent_proxy_config_stored,
}

formats : Formats
formats = record {
  join = λ parts. "path";
  marshal = λ config. ok "{}";
  execute = λ params. ok params.server_name;
}

tls : TlsConfig
tls = record {
  cryostat_secret = "c-tls";
  reports_secret = "c-reports-tls";
  database_secret = "c-database-tls";
  storage_secret = "c-storage-tls";
  agent_proxy_secret = "c-agent-proxy-tls";
  keystore_pass_secret = "c-keystore";
  ca_cert = "";
}

frozen : ConfigMap ownership
frozen = record { owners = false; contents = none; immutable = some true }

cluster : Objects (ConfigMap ownership)
cluster = (agent_proxy_key installation, frozen) ∷ []

create_or_update_config_map_stored_example : IsMap ownership-IsOwnership (some (("k", "v") ∷ [])) (
    in_memory.read
      (create_or_update_config_map in_memory 2
        (agent_proxy_key installation)
        (some (("k", "v") ∷ []))
        cluster).1
      (agent_proxy_key installation))
unfolding create_or_update_config_map in_memory mutate_config_map cluster frozen delete_config_map
create_or_update_config_map_stored_example =
    (create_or_update_config_map_stored in_memory in_memory-IsLawful ownership-IsOwnership 0
        (agent_proxy_key installation) (some (("k", "v") ∷ [])) cluster).1
      refl

reconcile_agent_proxy_config_stored_example :
    (conf : String) × (cm : ConfigMap ownership) × (formats.execute
        (nginx_params formats "c" "ns" (some tls))
      ≡ ok conf)
    × (in_memory.read
          (reconcile_agent_proxy_config in_memory installation formats (some tls) cluster).1
          (agent_proxy_key installation)
        ≡ some cm)
    × (value_of "nginx.conf" cm.contents ≡ some conf)
    × (value_of "dhparam.pem" cm.contents ≡ some dh_params)
    × (is_immutable cm ≡ false)
    × (ownership.is_controlled cm.owners ≡ true)
unfolding reconcile_agent_proxy_config formats create_or_update_config_map in_memory
    mutate_config_map cluster frozen delete_config_map
reconcile_agent_proxy_config_stored_example =
    reconcile_agent_proxy_config_stored in_memory in_memory-IsLawful ownership-IsOwnership
      installation formats (some tls) cluster refl
