-- ===== src/Controller/Secrets/Tests.antt =====
-- The secrets of a concrete installation, in a cluster that keeps secrets and the status.
use cryostat_operator.Controller.Secrets.{database_secret_name}
use cryostat_operator.Controller.Secrets.Object.{
  mutate_secret, fill_cookie, fill_database, fill_storage,
}
use cryostat_operator.Controller.Secrets.{
  reconcile_auth_proxy_cookie_secret, reconcile_database_connection_secret,
  reconcile_storage_secret,
}
use cryostat_operator.Prelude.{
  ◌⊎◌, ◌≡◌, refl, true, none, some, [], ◌∷◌, get_or, ◌++◌, String, arith,
}
use cryostat_operator.Prelude.Dict.{Dict, lookup}
use cryostat_operator.Examples.{installation, ownership, texts}
use cryostat_operator.Api.V1beta2.{CryostatStatus}
use cryostat_operator.Cluster.{Key, IsLawful}
use cryostat_operator.Controller.Secrets.Kept.{stored_value, ReadsPlain}
use cryostat_operator.Cluster.Apart.{first, first-IsLawful}
use cryostat_operator.Cluster.Memory.{Objects, in_memory, in_memory-IsLawful}
use cryostat_operator.Cluster.Monad.{database_secret_updated, err, ok}
use cryostat_operator.Cluster.Self.{Self, IsSelf, IsBeside}
use cryostat_operator.Controller.Secrets.{
  database_key, Resource, CryostatInstance, cookie_key, Passwords, reconcile_secrets,
}
use cryostat_operator.Controller.Secrets.Object.{Secret, Admit, IsAdmission}
use cryostat_operator.Controller.Secrets.All.{reconcile_secrets_keeps}
use cryostat_operator.Controller.Secrets.Status.{
  reconcile_secrets_status, reconcile_secrets_mismatch,
}

abbrev Kinds : Type 0
Kinds = Objects (Secret ownership) × CryostatStatus texts

self : Self Kinds (CryostatStatus texts)
self = record {
  read_status = λ s. s.1;
  update_status = λ st s. (ok tt, (s.0, st));
  warn = λ e s. s;
}

admit : Admit ownership
admit o = record o {
  contents = some (get_or o.string_data [] ++ get_or o.contents []);
  string_data = none;
}

lookup-append :
    (key : String) (l m : Dict String)
    → lookup key (l ++ m) ≡ elim (lookup key l) [ none ↦ lookup key m | some v ↦ some v ]
unfolding lookup
lookup-append key [] m = refl
lookup-append key ((k, v) ∷ l) m = ground (arith, lookup-append key l m)

admit-IsAdmission : IsAdmission admit
unfolding admit
admit-IsAdmission = record {
  admit_value = λ o key. lookup-append key (get_or o.string_data []) (get_or o.contents []);
  admit_string_data = λ o. refl;
  admit_owners = λ o. refl;
}

self-IsSelf : IsSelf self
unfolding self
self-IsSelf = record { update_status_ok = λ st s h. refl; warn_status = λ e s. refl }

secrets : Resource Kinds (Secret ownership)
secrets = first in_memory

secrets-IsLawful : IsLawful secrets
unfolding secrets
secrets-IsLawful = first-IsLawful in_memory in_memory-IsLawful

self-IsBeside : IsBeside secrets.read self
unfolding self secrets
self-IsBeside = record { status_keeps = λ st s. refl; warn_keeps = λ e s. refl }

passwords : Passwords
passwords = record { cookie = "p1"; connection = "p2"; encryption = "p3"; storage = "p4" }

-- The cookie's secret is there, with a value of its own.
abbrev cookie_secret : Secret ownership
cookie_secret = record {
  owners = true;
  contents = some (("OAUTH2_PROXY_COOKIE_SECRET", "own") ∷ []);
  string_data = none;
  immutable = none;
}

cluster : Kinds
cluster = ((cookie_key installation, cookie_secret) ∷ [], installation.status)

cluster-ReadsPlain : ReadsPlain secrets cluster
unfolding cluster secrets in_memory
cluster-ReadsPlain k o stored = ground arith

installed : CryostatInstance texts
installed = record installation {
  status = record installation.status { database_secret = "c-db"; storage_secret = "c-storage" };
}

reconcile_secrets_keeps_example :
    ReadsPlain secrets (reconcile_secrets secrets admit self passwords installation cluster).1
    × ((j : Key) (key v : String)
        → stored_value (secrets.read cluster j) key ≡ some v
        → stored_value
            (secrets.read (reconcile_secrets secrets admit self passwords installation cluster).1 j)
            key
          ≡ some v)
unfolding reconcile_secrets reconcile_auth_proxy_cookie_secret secrets in_memory mutate_secret
    fill_cookie cluster reconcile_database_connection_secret fill_database self
    reconcile_storage_secret fill_storage installed
reconcile_secrets_keeps_example =
    reconcile_secrets_keeps secrets secrets-IsLawful admit admit-IsAdmission self self-IsBeside
      passwords installation cluster installed cluster-ReadsPlain refl

reconcile_secrets_status_example :
    (installed.status ≡ installed.status)
    × (installed.status.database_secret ≡ "c-db")
    × (installed.status.storage_secret ≡ "c-storage")
    × ((installation.status.database_secret ≡ "") ⊎ (installation.status.database_secret ≡ "c-db"))
unfolding reconcile_secrets reconcile_auth_proxy_cookie_secret secrets in_memory mutate_secret
    fill_cookie cluster reconcile_database_connection_secret fill_database self
    reconcile_storage_secret fill_storage installed
reconcile_secrets_status_example =
    reconcile_secrets_status secrets admit self passwords installation cluster installed self-IsSelf
      refl

-- The status names another database secret than the specification.
moved : CryostatInstance texts
moved = record installation { status = record installation.status { database_secret = "old" } }

reconcile_secrets_mismatch_example :
    ((reconcile_secrets secrets admit self passwords moved cluster).0 ≡ err database_secret_updated)
    × (self.read_status (reconcile_secrets secrets admit self passwords moved cluster).1
        ≡ self.read_status cluster)
    × (secrets.read
          (reconcile_secrets secrets admit self passwords moved cluster).1
          (database_key moved)
        ≡ secrets.read cluster (database_key moved))
unfolding moved self secrets database_secret_name reconcile_auth_proxy_cookie_secret in_memory
    mutate_secret fill_cookie cluster
reconcile_secrets_mismatch_example =
    reconcile_secrets_mismatch secrets admit self passwords moved cluster (database_key moved)
      self-IsSelf secrets-IsLawful self-IsBeside
      (record { update_keeps = λ k f s. refl; delete_keeps = λ k s. refl }) refl refl refl refl
