-- ===== src/Controller/Hashes.antt =====
-- The hashes of the secrets and configuration maps that a pod refers to, by which it is rolled out
-- anew when they change: `AnnotateWithObjRefHashes` of internal/controller/common/common_utils.go.
pub mod Outcome
use Prim.Native.Nat.{Ordering}
use Prim.Native.String.{compare}
use cryostat_operator.Prelude.{
  String, ◌<>◌, Bool, true, false, Option, none, some, List, [], ◌∷◌, get_or, contains,
  if◌then◌else◌,
}
use cryostat_operator.Prelude.Dict.{insert}
use cryostat_operator.Common.Metadata.{Metadata}
use cryostat_operator.Common.Naming.{Checksums}
use cryostat_operator.Cluster.{Key, Getter}
use cryostat_operator.Cluster.Monad.{Result, M, pure, lift, ◌>>=◌}

-- What the code reads of a variable's source, of a source of variables, and of a projection: the
-- name of a secret, or of a configuration map.
pub record ObjectRef : Type 0 where
  pub secret : Option String
  pub config_map : Option String

pub record Container : Type 0 where
  -- `Env[].ValueFrom`
  pub env : List (Option ObjectRef)
  pub env_from : List ObjectRef

pub record Volume : Type 0 where
  pub source : ObjectRef
  pub projected : Option (List ObjectRef)

-- The sets `secrets` and `configMaps`, each in the order in which names were added.
pub record References : Type 0 where
  pub secrets : List String
  pub config_maps : List String

-- `objectSet.add`
unfoldable pub add_name : List String → String → List String
add_name names name = if contains names name then names else name ∷ names

unfoldable pub add_ref : References → ObjectRef → References
unfolding add_name
add_ref refs ref = elim (ref.secret) [
  | some name ↦ record refs { secrets = add_name refs.secrets name }
  | none ↦ elim (ref.config_map) [
    | some name ↦ record refs { config_maps = add_name refs.config_maps name }
    | none ↦ refs
  ]
]

unfoldable pub add_refs : References → List ObjectRef → References
add_refs refs [] = refs
add_refs refs (ref ∷ rest) = add_refs (add_ref refs ref) rest

unfoldable pub add_env : References → List (Option ObjectRef) → References
add_env refs [] = refs
add_env refs (none ∷ rest) = add_env refs rest
add_env refs (some ref ∷ rest) = add_env (add_ref refs ref) rest

unfoldable pub add_containers : References → List Container → References
unfolding add_env add_refs
add_containers refs [] = refs
add_containers refs (container ∷ rest) =
    add_containers (add_refs (add_env refs container.env) container.env_from) rest

has_source : ObjectRef → Bool
has_source ref = elim (ref.secret) [
  | some name ↦ true
  | none ↦ elim (ref.config_map) [ some name ↦ true | none ↦ false ]
]

-- A volume is a secret, a configuration map, or projected.
unfoldable pub add_volume : References → Volume → References
unfolding has_source add_ref add_refs
add_volume refs volume =
    if has_source volume.source
    then add_ref refs volume.source
    else add_refs refs (get_or volume.projected [])

unfoldable pub add_volumes : References → List Volume → References
add_volumes refs [] = refs
add_volumes refs (volume ∷ rest) = add_volumes (add_volume refs volume) rest

unfoldable pub references : List Container → List Volume → References
unfolding add_containers add_volumes
references containers volumes =
    add_volumes (add_containers (record { secrets = []; config_maps = [] }) containers) volumes

unfoldable pub insert_sorted : String → List String → List String
insert_sorted name [] = name ∷ []
insert_sorted name (first ∷ rest) =
    let later = insert_sorted name rest in
    elim (compare name first) [ Ordering.gt ↦ first ∷ later | _ ↦ name ∷ first ∷ rest ]

-- `objectSet.toSortedSlice`
unfoldable pub to_sorted_slice : List String → List String
unfolding insert_sorted
to_sorted_slice [] = []
to_sorted_slice (name ∷ rest) = insert_sorted name (to_sorted_slice rest)

-- `client.Get` of the data of secrets and of configuration maps, `json.Marshal` of them, and the
-- checksums as hexadecimal texts.
pub record HashCalls (S : Type 0) : Type 1 where
  pub SecretData : Type 0
  pub ConfigMapData : Type 0
  pub get_secret : Getter S SecretData
  pub get_config_map : Getter S ConfigMapData
  pub marshal_secret : SecretData → Result String
  pub marshal_config_map : ConfigMapData → Result String
  pub checksums : Checksums

abbrev pub with_hashes : Metadata → String → String → Metadata
with_hashes template secret_hash config_map_hash = record template {
  annotations = some (
      insert "io.cryostat/config-map-hash" config_map_hash
        (insert "io.cryostat/secret-hash" secret_hash (get_or template.annotations [])));
}

module _ {S : Type 0} where
  -- The JSON of the objects of these names, one behind the other: the loop of `hashSecrets` and of
  -- `hashConfigMaps`.
  unfoldable pub combine_json :
      {Data : Type 0}
      → Getter S Data
      → (Data → Result String)
      → String
      → List String
      → String
      → M S String
  combine_json get marshal namespace [] combined = pure combined
  combine_json get marshal namespace (name ∷ rest) combined =
      get (record { name = name; namespace = namespace }) >>= λ data_of.
      lift (marshal data_of) >>= λ buf. combine_json get marshal namespace rest (combined <> buf)

  unfoldable pub hash_secrets : HashCalls S → String → List String → M S String
  unfolding combine_json to_sorted_slice
  hash_secrets C namespace secrets =
      combine_json C.get_secret C.marshal_secret namespace (to_sorted_slice secrets) "" >>= λ json.
      pure (C.checksums.sha256 json)

  unfoldable pub hash_config_maps : HashCalls S → String → List String → M S String
  unfolding combine_json to_sorted_slice
  hash_config_maps C namespace config_maps =
      combine_json C.get_config_map C.marshal_config_map namespace (to_sorted_slice config_maps) ""
      >>= λ json. pure (C.checksums.fnv128 json)

  unfoldable pub annotate_with_obj_ref_hashes :
      HashCalls S → String → List Container → List Volume → Metadata → M S Metadata
  unfolding hash_secrets hash_config_maps references
  annotate_with_obj_ref_hashes C namespace containers volumes template =
      let refs = references containers volumes in
      hash_secrets C namespace refs.secrets >>= λ secret_hash.
      hash_config_maps C namespace refs.config_maps >>= λ config_map_hash.
      pure (with_hashes template secret_hash config_map_hash)
