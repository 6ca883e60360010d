-- ===== src/Controller/Secrets.antt =====
-- The secrets of an installation (internal/controller/secrets.go). The generated passwords
-- (`GenPasswd(32)`) are arguments.
pub mod Object
pub mod Kept
pub mod All
pub mod Status
mod Tests
use cryostat_operator.Prelude.{
  ◌≡◌, String, Bool, true, false, not, ◌&&◌, ◌==◌, ◌<>◌, Option, none, some, get_or, is_some,
  if◌then◌else◌,
}
use cryostat_operator.Api.Kube.{Kube}
use cryostat_operator.Api.V1beta2.{CryostatStatus}
use cryostat_operator.Common.Instance.{CryostatInstance}
use cryostat_operator.Cluster.{Key, Ownership, Resource}
use cryostat_operator.Cluster.Monad.{
  Result, ok, and_then, database_secret_updated, M, pure, raise, ◌>>=◌, ◌>>◌, ignore_not_found,
}
use cryostat_operator.Cluster.Self.{Self, Event}
use Object.{Secret, Admit, mutate_secret, fill_cookie, fill_database, fill_storage}

-- The passwords that one reconciliation generates, if it needs them.
pub record Passwords : Type 0 where
  pub cookie : String
  pub connection : String
  pub encryption : String
  pub storage : String

abbrev pub mismatch_event : Event
mismatch_event = record {
  reason = "DatabaseSecretMismatched";
  message =
      "\"databaseOptions.secretName\" field cannot be updated, please revert its value or re-create this Cryostat custom resource";
}

module _ {K : Kube} (cr : CryostatInstance K) where
  abbrev pub cookie_key : Key
  cookie_key = record { name = cr.name <> "-oauth2-cookie"; namespace = cr.install_namespace }

  abbrev pub database_key : Key
  database_key = record { name = cr.name <> "-db"; namespace = cr.install_namespace }

  abbrev pub storage_key : Key
  storage_key = record { name = cr.name <> "-storage"; namespace = cr.install_namespace }

  -- The name that the user has given, if any.
  unfoldable pub provided_secret : Option String
  provided_secret = elim cr.spec.database_options [ none ↦ none | some opts ↦ opts.secret_name ]

  unfoldable pub database_secret_name : String
  unfolding provided_secret
  database_secret_name = get_or provided_secret (database_key.name)

  -- A secret that the status names cannot be replaced by another.
  unfoldable pub database_secret_mismatch : Bool
  unfolding database_secret_name
  database_secret_mismatch =
      not (cr.status.database_secret == "")
      && not (cr.status.database_secret == database_secret_name)

  abbrev pub with_status : CryostatStatus K → CryostatInstance K
  with_status st = record cr { status = st }

module _ {O : Ownership} {S : Type 0} (V : Resource S (Secret O)) (admit : Admit O) where
  unfoldable pub create_or_update_secret :
      Key → Bool → (Option (Secret O) → Secret O → Result (Secret O)) → M S (Unit {0})
  create_or_update_secret k owned delegate =
      V.create_or_update k
        (λ found. and_then (mutate_secret owned delegate found) λ o. ok (admit o))

  unfoldable pub delete_secret : Key → M S (Unit {0})
  unfolding ignore_not_found
  delete_secret k = ignore_not_found (V.delete k)

  module _ {K : Kube} (C : Self S (CryostatStatus K)) (passwords : Passwords) where
    unfoldable pub reconcile_auth_proxy_cookie_secret : CryostatInstance K → M S (Unit {0})
    unfolding create_or_update_secret
    reconcile_auth_proxy_cookie_secret cr =
        create_or_update_secret (cookie_key cr) true (fill_cookie passwords.cookie)

    -- The instance whose status has been updated.
    abbrev pub save : CryostatInstance K → CryostatStatus K → M S (CryostatInstance K)
    save cr st = C.update_status st >>= λ _. pure (with_status cr st)

    -- A secret that the user provides is not the operator's to make.
    unfoldable pub create_database_secret : CryostatInstance K → M S (Unit {0})
    unfolding create_or_update_secret provided_secret
    create_database_secret cr =
        if is_some (provided_secret cr)
        then pure tt
        else create_or_update_secret (database_key cr) true
            (fill_database passwords.connection passwords.encryption)

    unfoldable pub reconcile_database_connection_secret :
        CryostatInstance K → M S (CryostatInstance K)
    unfolding create_database_secret database_secret_mismatch database_secret_name
    reconcile_database_connection_secret cr =
        let st = record cr.status { database_secret = database_secret_name cr } in
        if database_secret_mismatch cr
        then (λ s. raise database_secret_updated (C.warn mismatch_event s))
        else (create_database_secret cr >>= λ _. save cr st)

    unfoldable pub reconcile_storage_secret : CryostatInstance K → M S (CryostatInstance K)
    unfolding create_or_update_secret
    reconcile_storage_secret cr =
        create_or_update_secret (storage_key cr) true (fill_storage passwords.storage) >>= λ _.
        save cr (record cr.status { storage_secret = (storage_key cr).name })

    unfoldable pub reconcile_secrets : CryostatInstance K → M S (CryostatInstance K)
    reconcile_secrets cr = reconcile_auth_proxy_cookie_secret cr >>= λ _.
        reconcile_database_connection_secret cr >>= reconcile_storage_secret
