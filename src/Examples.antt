-- ===== src/Examples.antt =====
-- Concrete values that the modules of tests share.
use cryostat_operator.Prelude.{refl, get_or, some, String, Bool, false, true, none, [], ◌∷◌}
use cryostat_operator.Api.Kube.{Kube}
use cryostat_operator.Api.V1beta2.{CryostatSpec, Cryostat}
use cryostat_operator.Cluster.{Ownership, IsOwnership}
use cryostat_operator.Cluster.Monad.{ok}
use cryostat_operator.Prelude.Dict.{insert, lookup-insert}
use cryostat_operator.Common.Metadata.{SetMetaData, SetsOne}
use cryostat_operator.Common.Instance.{CryostatInstance}
use cryostat_operator.Common.Naming.{Checksums, GroupVersionKind}

-- Every Kubernetes type as a text that stands for its value.
abbrev pub texts : Kube
texts = record {
  ResourceRequirements = String;
  no_resources = "";
  PodSecurityContext = String;
  SecurityContext = String;
  NodeAffinity = String;
  PodAffinity = String;
  PodAntiAffinity = String;
  Toleration = String;
  ServiceType = String;
  cluster_ip = "ClusterIP";
  IngressSpec = String;
  PersistentVolumeClaimSpec = String;
  StorageMedium = String;
  ResourceAttributes = String;
  Condition = String;
  ObjectMeta = String × String;
  name = λ m. m.0;
  namespace = λ m. m.1;
  is_uncreated = λ m. true;
  resource_version = λ m. "";
}

-- A checksum that is the text itself, and one that is always the same.
abbrev pub checksums : Checksums
checksums = record { sha256 = λ s. s; fnv128 = λ s. "0123456789abcdef0123456789abcdef" }

abbrev pub cryostat_kind : GroupVersionKind
cryostat_kind = record { group = "operator.cryostat.io"; version = "v1beta2"; kind = "Cryostat" }

-- A specification without any setting.
abbrev pub no_settings : (K : Kube) → CryostatSpec K
no_settings K = record {
  target_namespaces = none;
  trusted_cert_secrets = none;
  automated_rules = none;
  event_templates = none;
  probe_templates = none;
  declarative_credentials = none;
  enable_cert_manager = none;
  storage_options = none;
  service_options = none;
  network_policies = none;
  network_options = none;
  report_options = none;
  enable_audit = none;
  target_connection_cache_options = none;
  resources = none;
  authorization_options = none;
  security_options = none;
  scheduling_options = none;
  target_discovery_options = none;
  database_options = none;
  object_storage_options = none;
  operand_metadata = none;
  agent_options = none;
  logging_options = none;
}

abbrev pub empty_spec : CryostatSpec texts
empty_spec = no_settings texts

-- An object without any setting.
abbrev pub empty_cryostat : Cryostat texts
empty_cryostat = record {
  object_meta = ("", "");
  spec = empty_spec;
  status = record {
    target_namespaces = none;
    conditions = none;
    application_url = "";
    storage_secret = "";
    database_secret = "";
  };
}

-- An installation that targets `a` and has targeted `b` before.
abbrev pub installation : CryostatInstance texts
installation = record {
  name = "c";
  install_namespace = "ns";
  target_namespaces = "a" ∷ [];
  target_namespace_status = "b" ∷ [];
  spec = empty_spec;
  status = empty_cryostat.status;
}

-- An object has a controller, or has none yet.
abbrev pub ownership : Ownership
ownership = record {
  Owners = Bool;
  no_owners = false;
  set_controller = λ owners. ok true;
  is_controlled = λ owners. owners;
}

pub ownership-IsOwnership : IsOwnership ownership
ownership-IsOwnership = record {
  no_owners_uncontrolled = refl;
  set_controller_ok = λ o controlled h. cc;
  set_controller_err = λ o e h. cc;
}

abbrev pub set_meta_data : SetMetaData
set_meta_data m key value = some (insert key value (get_or m []))

pub set_meta_data-SetsOne : SetsOne set_meta_data
set_meta_data-SetsOne m key value asked = lookup-insert key asked value (get_or m [])
