-- ===== src/Controller/ConfigMaps/Contents.antt =====
-- The contents of the configuration maps (internal/controller/configmaps.go), and the functions of
-- Go's library that write them out: the encoding as JSON, the execution of the nginx template, and
-- `path.Join` are parameters.
use cryostat_operator.Prelude.{String, Bool, true, false, Option, none, some, List, [], ◌∷◌, ◌<>◌}
use cryostat_operator.Prelude.Int.{ℤ, pos}
use cryostat_operator.Cluster.Monad.{Result}

-- `TLSConfig` (common/resource_definitions): the names of the secrets, and the CA's certificate.
pub record TlsConfig : Type 0 where
  pub cryostat_secret : String
  pub reports_secret : String
  pub database_secret : String
  pub storage_secret : String
  pub agent_proxy_secret : String
  pub keystore_pass_secret : String
  pub ca_cert : String

pub record TlsSecretSource : Type 0 where
  pub from_file : String

pub record ProxyTls : Type 0 where
  pub key : TlsSecretSource
  pub cert : TlsSecretSource

pub record AlphaConfigServer : Type 0 where
  pub bind_address : String
  pub secure_bind_address : String
  pub tls : Option ProxyTls

pub record AlphaConfigUpstream : Type 0 where
  pub id : String
  pub path : String
  pub rewrite_target : String
  pub uri : String
  pub pass_host_header : Option Bool
  pub proxy_web_sockets : Option Bool

pub record AlphaConfigUpstreamConfig : Type 0 where
  pub proxy_raw_path : Bool
  pub upstreams : List AlphaConfigUpstream

pub record AlphaConfigProvider : Type 0 where
  pub id : String
  pub name : String
  pub client_id : String
  pub client_secret : String
  pub provider : String

pub record OAuth2ProxyAlphaConfig : Type 0 where
  pub server : AlphaConfigServer
  pub upstream_config : AlphaConfigUpstreamConfig
  pub providers : List AlphaConfigProvider

pub record NginxConfParams : Type 0 where
  pub server_name : String
  pub tls_enabled : Bool
  pub tls_cert_file : String
  pub tls_key_file : String
  pub ca_cert_file : String
  pub dh_param_file : String
  pub container_port : ℤ
  pub health_port : ℤ
  pub cryostat_port : ℤ
  pub allowed_path_prefixes : List String

pub record Formats : Type 0 where
  pub join : List String → String
  pub marshal : OAuth2ProxyAlphaConfig → Result String
  pub execute : NginxConfParams → Result String

abbrev pub secret_mount_prefix : String
secret_mount_prefix = "/var/run/secrets/operator.cryostat.io"

-- `http://localhost:%d` with the port of the core, of Grafana and of the storage.
abbrev pub upstreams : List AlphaConfigUpstream
upstreams =
    record {
      id = "cryostat";
      path = "/";
      rewrite_target = "";
      uri = "http://localhost:8181";
      pass_host_header = none;
      proxy_web_sockets = none;
    }
    ∷ record {
      id = "grafana";
      path = "/grafana/";
      rewrite_target = "";
      uri = "http://localhost:3000";
      pass_host_header = none;
      proxy_web_sockets = none;
    }
    ∷ record {
      id = "storage";
      path = "^/storage/(.*)$";
      rewrite_target = "/$1";
      uri = "http://localhost:8333";
      pass_host_header = some false;
      proxy_web_sockets = some false;
    }
    ∷ []

module _ (F : Formats) where
  abbrev in_secret : String → String → String
  in_secret secret key = F.join (secret_mount_prefix ∷ secret ∷ key ∷ [])

  unfoldable pub alpha_server : Option TlsConfig → AlphaConfigServer
  alpha_server none = record {
    bind_address = "http://0.0.0.0:4180";
    secure_bind_address = "";
    tls = none;
  }
  alpha_server (some config) = record {
    bind_address = "";
    secure_bind_address = "https://0.0.0.0:4180";
    tls = some (record {
      key = record { from_file = in_secret config.cryostat_secret "tls.key" };
      cert = record { from_file = in_secret config.cryostat_secret "tls.crt" };
    });
  }

  unfoldable pub alpha_config : Option TlsConfig → OAuth2ProxyAlphaConfig
  unfolding alpha_server
  alpha_config tls = record {
    server = alpha_server tls;
    upstream_config = record { proxy_raw_path = true; upstreams = upstreams };
    providers =
        record {
          id = "dummy";
          name = "Unused - Sign In Below";
          client_id = "CLIENT_ID";
          client_secret = "CLIENT_SECRET";
          provider = "google";
        }
        ∷ [];
  }

  abbrev plain_params : String → String → NginxConfParams
  plain_params name namespace = record {
    server_name = name <> "-agent." <> namespace <> ".svc";
    tls_enabled = false;
    tls_cert_file = "";
    tls_key_file = "";
    ca_cert_file = "";
    dh_param_file = "";
    container_port = pos 8282;
    health_port = pos 8281;
    cryostat_port = pos 8181;
    allowed_path_prefixes =
        "/health" ∷ "/api/v4/discovery" ∷ "/api/v4.2/discovery" ∷ "/api/v4.3/discovery"
        ∷ "/api/beta/diagnostics" ∷ "/api/beta/recordings" ∷ "/api/beta/targets" ∷ [];
  }

  unfoldable pub nginx_params : String → String → Option TlsConfig → NginxConfParams
  nginx_params name namespace none = plain_params name namespace
  nginx_params name namespace (some config) = record (plain_params name namespace) {
    tls_enabled = true;
    tls_cert_file = in_secret config.agent_proxy_secret "tls.crt";
    tls_key_file = in_secret config.agent_proxy_secret "tls.key";
    ca_cert_file = in_secret config.agent_proxy_secret "ca.crt";
    dh_param_file = F.join ("/etc/nginx-cryostat" ∷ "dhparam.pem" ∷ []);
  }
