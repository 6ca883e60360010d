-- ===== src/Controller/ConfigMaps.antt =====
-- The configuration maps of an installation (internal/controller/configmaps.go).
pub mod Contents
pub mod Stored
mod Tests
use cryostat_operator.Prelude.{
  ℕ, String, Bool, true, false, not, ◌&&◌, ◌<>◌, Option, none, some, [], ◌∷◌, get_or, is_some,
  if◌then◌else◌,
}
use cryostat_operator.Prelude.Dict.{Dict, insert}
use cryostat_operator.Api.Kube.{Kube, StringMap}
use cryostat_operator.Common.Instance.{CryostatInstance}
use cryostat_operator.Cluster.{Key, Ownership, Resource}
use cryostat_operator.Cluster.Monad.{
  Result, ok, err, Err, and_then, config_map_immutable_modified, M, lift, ◌>>=◌, ◌>>◌,
  ignore_not_found,
}
use cryostat_operator.Cluster.Recreate.{create_or_recreate}
use Contents.{TlsConfig, Formats, alpha_config, nginx_params}

-- What the code reads and writes of a `ConfigMap`.
pub record ConfigMap (O : Ownership) : Type 0 where
  pub owners : O.Owners
  pub contents : StringMap
  pub immutable : Option Bool

abbrev pub is_config_map_immutable_modified : Err → Bool
is_config_map_immutable_modified config_map_immutable_modified = true
is_config_map_immutable_modified _ = false

-- The parameters of `https://ssl-config.mozilla.org/ffdhe2048.txt`.
abbrev pub dh_params : String
dh_params =
    "-----BEGIN DH PARAMETERS-----\nMIIBCAKCAQEA//////////+t+FRYortKmq/cViAnPTzx2LnFg84tNpWp4TZBFGQz\n+8yTnc4kmz75fS/jY2MMddj2gbICrsRhetPfHtXV/WVhJDP1H18GbtCFY2VVPe0a\n87VXE15/V8k1mE8McODmi3fipona8+/och3xWKE2rec1MKzKT0g6eXq8CrGCsyT7\nYdEIqUuyyOP7uWrat2DX9GgdT0Kj3jlN9K5W7edjcrsZCwenyO4KbXCeAvzhzffi\n7MA0BM0oNC9hkXL+nOmFg/+OTxIy7vKBg8P+OxtMb61zO7X8vC7CIAXFjvGDfRaD\nssbzSibBsu/6iGtCOGEoXJf//////////wIBAg==\n-----END DH PARAMETERS-----"

module _ {O : Ownership} where
  unfoldable pub is_immutable : ConfigMap O → Bool
  is_immutable cm = get_or cm.immutable false

  abbrev pub new_config_map : ConfigMap O
  new_config_map = record { owners = O.no_owners; contents = none; immutable = none }

  -- The mutate function of `createOrUpdateConfigMap`. The map that is wanted is not immutable.
  unfoldable pub mutate_config_map : StringMap → Option (ConfigMap O) → Result (ConfigMap O)
  unfolding is_immutable
  mutate_config_map contents found =
      let cm = get_or found new_config_map in
      if is_immutable cm && not (is_immutable new_config_map)
      then err config_map_immutable_modified
      else and_then (O.set_controller cm.owners)
          (λ owners. ok (record cm { owners = owners; contents = contents }))

module _ {K : Kube} (cr : CryostatInstance K) where
  abbrev pub lock_key : Key
  lock_key = record { name = cr.name <> "-lock"; namespace = cr.install_namespace }

  abbrev pub oauth2_proxy_key : Key
  oauth2_proxy_key = record {
    name = cr.name <> "-oauth2-proxy-cfg";
    namespace = cr.install_namespace;
  }

  abbrev pub agent_proxy_key : Key
  agent_proxy_key = record { name = cr.name <> "-agent-proxy"; namespace = cr.install_namespace }

module _ {O : Ownership} {S : Type 0} (V : Resource S (ConfigMap O)) where
  unfoldable pub delete_config_map : Key → M S (Unit {0})
  unfolding ignore_not_found
  delete_config_map k = ignore_not_found (V.delete k)

  unfoldable pub recreate_config_map : Key → M S (Unit {0}) → M S (Unit {0})
  recreate_config_map k again = do delete_config_map k; again

  unfoldable pub create_or_update_config_map : ℕ → Key → StringMap → M S (Unit {0})
  unfolding recreate_config_map create_or_recreate
  create_or_update_config_map fuel k contents =
      create_or_recreate V is_config_map_immutable_modified (recreate_config_map k) fuel k
        (mutate_config_map contents)

  module _ {K : Kube} (cr : CryostatInstance K) where
    unfoldable pub reconcile_lock_config_map : M S (Unit {0})
    reconcile_lock_config_map = create_or_update_config_map 2 (lock_key cr) none

    -- On OpenShift another proxy is used, which needs no such map.
    unfoldable pub reconcile_oauth2_proxy_config :
        Formats → Bool → Option TlsConfig → M S (Unit {0})
    unfolding alpha_config
    reconcile_oauth2_proxy_config F is_open_shift tls =
        if is_open_shift
        then delete_config_map (oauth2_proxy_key cr)
        else (lift (F.marshal (alpha_config F tls)) >>= λ encoded.
            create_or_update_config_map 2 (oauth2_proxy_key cr)
              (some (("alpha_config.json", encoded) ∷ [])))

    abbrev pub dh_data : Option TlsConfig → Dict String
    dh_data tls = if is_some tls then ("dhparam.pem", dh_params) ∷ [] else []

    unfoldable pub reconcile_agent_proxy_config : Formats → Option TlsConfig → M S (Unit {0})
    unfolding nginx_params
    reconcile_agent_proxy_config F tls =
        lift (F.execute (nginx_params F cr.name cr.install_namespace tls)) >>= λ conf.
        create_or_update_config_map 2 (agent_proxy_key cr)
          (some (insert "nginx.conf" conf (dh_data tls)))
