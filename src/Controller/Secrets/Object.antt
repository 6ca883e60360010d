-- ===== src/Controller/Secrets/Object.antt =====
-- The secrets and their mutate functions (internal/controller/secrets.go), and how the API server
-- stores a secret.
use cryostat_operator.Prelude.{
  ◌≡◌, String, Bool, true, Option, none, some, [], get_or, if◌then◌else◌,
}
use cryostat_operator.Prelude.Dict.{insert}
use cryostat_operator.Api.Kube.{StringMap}
use cryostat_operator.Common.Metadata.{value_of}
use cryostat_operator.Cluster.{Ownership}
use cryostat_operator.Cluster.Monad.{Result, ok, and_then}

-- What the code reads and writes of a `Secret`.
pub record Secret (O : Ownership) : Type 0 where
  pub owners : O.Owners
  pub contents : StringMap
  pub string_data : StringMap
  pub immutable : Option Bool

-- What the API server makes of a secret that is written.
abbrev pub Admit : Ownership → Type 0
Admit O = Secret O → Secret O

-- `stringData` is merged into `data`, here `contents`, whose values it replaces, and is never part of what is read.
pub record IsAdmission {O : Ownership} (admit : Admit O) : Type 0 where
  pub admit_value :
      (o : Secret O) (key : String)
      → value_of key (admit o).contents
        ≡ elim (value_of key o.string_data) [ none ↦ value_of key o.contents | some v ↦ some v ]
  pub admit_string_data : (o : Secret O) → (admit o).string_data ≡ none
  pub admit_owners : (o : Secret O) → (admit o).owners ≡ o.owners

module _ {O : Ownership} where
  abbrev pub new_secret : Secret O
  new_secret = record {
    owners = O.no_owners;
    contents = none;
    string_data = none;
    immutable = none;
  }

  -- The mutate function of `createOrUpdateSecret`: the delegate is given what was found, to tell if
  -- the creation timestamp is zero, and the secret.
  unfoldable pub mutate_secret :
      Bool
      → (Option (Secret O) → Secret O → Result (Secret O))
      → Option (Secret O)
      → Result (Secret O)
  mutate_secret owned delegate found =
      let secret = get_or found new_secret in
      if owned
      then and_then (O.set_controller secret.owners)
          (λ owners. delegate found (record secret { owners = owners }))
      else delegate found secret

  -- `secret.StringData[key] = value`, after a nil map has been created.
  abbrev pub with_string : String → String → Secret O → Secret O
  with_string key value secret = record secret {
    string_data = some (insert key value (get_or secret.string_data []));
  }

  abbrev pub with_strings : Secret O → Secret O
  with_strings secret = record secret { string_data = some (get_or secret.string_data []) }

  -- A secret that exists keeps its cookie.
  unfoldable pub fill_cookie : String → Option (Secret O) → Secret O → Result (Secret O)
  fill_cookie password none secret =
      ok (with_string "OAUTH2_PROXY_COOKIE_SECRET" password (with_strings secret))
  fill_cookie password (some old) secret = ok (with_strings secret)

  unfoldable pub fill_database : String → String → Option (Secret O) → Secret O → Result (Secret O)
  fill_database connection encryption none secret =
      let connected = with_string "CONNECTION_KEY" connection (with_strings secret) in
      let encrypted = with_string "ENCRYPTION_KEY" encryption connected in
      ok (record encrypted { immutable = some true })
  fill_database connection encryption (some old) secret =
      ok (record (with_strings secret) { immutable = some true })

  unfoldable pub set_data_if_not_present : String → String → Secret O → Secret O
  set_data_if_not_present key value secret = elim (value_of key secret.contents) [
    | none ↦ with_string key value secret
    | some v ↦ secret
  ]

  unfoldable pub fill_storage : String → Option (Secret O) → Secret O → Result (Secret O)
  unfolding set_data_if_not_present
  fill_storage password found secret =
      let named = set_data_if_not_present "ACCESS_KEY" "cryostat" (with_strings secret) in
      ok (set_data_if_not_present "SECRET_KEY" password named)
