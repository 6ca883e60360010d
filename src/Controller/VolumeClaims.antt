-- ===== src/Controller/VolumeClaims.antt =====
-- The persistent volume claims of an installation (internal/controller/pvc.go).
pub mod Stored
mod Tests
use cryostat_operator.Prelude.{
  ◌≡◌, String, Bool, true, false, ◌&&◌, ◌<>◌, Option, none, some, List, [], ◌∷◌, get_or,
  if◌then◌else◌,
}
use cryostat_operator.Prelude.Dict.{Dict, insert, lookup}
use cryostat_operator.Api.Kube.{Kube}
use cryostat_operator.Api.V1beta2.{CryostatStatus}
use cryostat_operator.Api.V1beta2.Options.{
  EmptyDirConfig, LegacyStorageConfiguration, PersistentVolumeClaimConfig, ResourceMetadata,
  StorageConfiguration, StorageConfigurations,
}
use cryostat_operator.Common.Instance.{CryostatInstance}
use cryostat_operator.Common.Metadata.{Metadata, merge_labels_and_annotations}
use cryostat_operator.Cluster.{Key, Ownership, Resource}
use cryostat_operator.Cluster.Monad.{
  Result, ok, err, Err, api, invalid, nil_pointer, and_then, deref, M, pure, raise, catch,
}
use cryostat_operator.Cluster.Self.{Self, Event}
use cryostat_operator.Controller.Services.{deploy_managed_storage}

-- What the code reads and writes of a `PersistentVolumeClaimSpec`: the requested resources, `none` for
-- a nil map, and the access modes. Quantities are those of Kubernetes.
pub record ClaimSpecs (K : Kube) : Type 1 where
  pub Quantity : Type 0
  pub zero_quantity : Quantity
  -- `resource.NewQuantity` of the default sizes: 500 MiB and 32 GiB.
  pub default_database_size : Quantity
  pub default_storage_size : Quantity
  pub AccessMode : Type 0
  pub read_write_once : AccessMode
  -- The zero value of the struct.
  pub no_spec : K.PersistentVolumeClaimSpec
  pub requests : K.PersistentVolumeClaimSpec → Option (Dict Quantity)
  pub set_requests : K.PersistentVolumeClaimSpec → Dict Quantity → K.PersistentVolumeClaimSpec
  pub access_modes : K.PersistentVolumeClaimSpec → Option (List AccessMode)
  pub set_access_modes : K.PersistentVolumeClaimSpec → List AccessMode → K.PersistentVolumeClaimSpec

-- What the code writes of a `PersistentVolumeClaim`.
pub record VolumeClaim (K : Kube) (O : Ownership) : Type 0 where
  pub metadata : Metadata
  pub owners : O.Owners
  pub spec : K.PersistentVolumeClaimSpec

module _ {K : Kube} (Q : ClaimSpecs K) where
  unfoldable pub default_requests :
      K.PersistentVolumeClaimSpec → Q.Quantity → K.PersistentVolumeClaimSpec
  default_requests spec default_size = elim (Q.requests spec) [
    | none ↦ Q.set_requests spec (("storage", default_size) ∷ [])
    | some requested ↦ spec
  ]

  unfoldable pub default_access_modes : K.PersistentVolumeClaimSpec → K.PersistentVolumeClaimSpec
  default_access_modes spec = elim (Q.access_modes spec) [
    | none ↦ Q.set_access_modes spec (Q.read_write_once ∷ [])
    | some modes ↦ spec
  ]

  abbrev pub configured_claim : Option (StorageConfiguration K) → PersistentVolumeClaimConfig K
  configured_claim cfg =
      let unset : PersistentVolumeClaimConfig K = record {
        spec = none;
        resource_metadata = record { annotations = none; labels = none };
      } in
      elim cfg [ none ↦ unset | some c ↦ get_or c.pvc unset ]

  -- The user's settings with the defaults; the label `app` replaces the user's.
  unfoldable pub configure_pvc :
      String → Option (StorageConfiguration K) → Q.Quantity → PersistentVolumeClaimConfig K
  unfolding default_requests default_access_modes
  configure_pvc name cfg default_size =
      let config = configured_claim cfg in
      let spec = get_or config.spec Q.no_spec in
      record {
        spec = some (default_access_modes (default_requests spec default_size));
        resource_metadata = record {
          labels = some (insert "app" name (get_or config.resource_metadata.labels []));
          annotations = some (get_or config.resource_metadata.annotations []);
        };
      }

  -- `Requests.Storage()`
  abbrev pub storage_of : Option (Dict Q.Quantity) → Q.Quantity
  storage_of requested = get_or (lookup "storage" (get_or requested [])) Q.zero_quantity

  -- Of the specification of a claim that exists, the requested storage alone is set. To set a value
  -- in a nil map panics.
  unfoldable pub claim_spec :
      Option K.PersistentVolumeClaimSpec
      → K.PersistentVolumeClaimSpec
      → Result K.PersistentVolumeClaimSpec
  claim_spec none wanted = ok wanted
  claim_spec (some old) wanted = and_then (deref (Q.requests old)) λ requested.
      ok (Q.set_requests old (insert "storage" (storage_of (Q.requests wanted)) requested))

  module _ {O : Ownership} where
    unfoldable pub make_claim :
        PersistentVolumeClaimConfig K
        → Metadata
        → O.Owners
        → Option K.PersistentVolumeClaimSpec
        → Result (VolumeClaim K O)
    unfolding claim_spec
    make_claim config metadata owners old =
        let wanted = config.resource_metadata in
        and_then (O.set_controller owners) λ controlled. and_then (deref config.spec) λ spec.
          and_then (claim_spec old spec) λ claimed. ok (record {
            metadata = merge_labels_and_annotations metadata wanted.labels wanted.annotations;
            owners = controlled;
            spec = claimed;
          })

    -- The mutate function of `createOrUpdatePVC`.
    unfoldable pub mutate_claim :
        PersistentVolumeClaimConfig K → Option (VolumeClaim K O) → Result (VolumeClaim K O)
    unfolding make_claim
    mutate_claim config none =
        make_claim config (record { labels = none; annotations = none }) O.no_owners none
    mutate_claim config (some claim) =
        make_claim config claim.metadata claim.owners (some claim.spec)

    module _ {S : Type 0} (V : Resource S (VolumeClaim K O)) (C : Self S (CryostatStatus K))
        (error_text : Err → String) where
      unfoldable pub create_or_update_pvc : Key → PersistentVolumeClaimConfig K → M S (Unit {0})
      create_or_update_pvc k config = V.create_or_update k (mutate_claim config)

      abbrev pub is_invalid : Err → Bool
      is_invalid (api invalid) = true
      is_invalid _ = false

      abbrev pub is_empty_dir : Option (StorageConfiguration K) → Bool
      is_empty_dir cfg = elim cfg [
        | none ↦ false
        | some c ↦ elim c.empty_dir [ none ↦ false | some dir ↦ dir.enabled ]
      ]

      abbrev pub invalid_event : Err → Event
      invalid_event e = record { reason = "PersistentVolumeClaimInvalid"; message = error_text e }

      abbrev pub pvc_key : CryostatInstance K → String → Key
      pvc_key cr suffix = record {
        name = cr.name <> "-" <> suffix;
        namespace = cr.install_namespace;
      }

      -- The claim is left alone if the user asks for an empty directory. Both callers give a suffix.
      unfoldable pub reconcile_pvc :
          CryostatInstance K
          → Option (StorageConfiguration K)
          → Q.Quantity
          → String
          → M S (Unit {0})
      unfolding create_or_update_pvc configure_pvc
      reconcile_pvc cr cfg default_size suffix =
          if is_empty_dir cfg
          then pure tt
          else catch
              (create_or_update_pvc (pvc_key cr suffix) (configure_pvc cr.name cfg default_size))
              (λ e s. raise e (if is_invalid e then C.warn (invalid_event e) s else s))

      -- The component's configuration, or else the common one of older versions.
      unfoldable pub storage_configuration :
          CryostatInstance K
          → (StorageConfigurations K → Option (StorageConfiguration K))
          → Option (StorageConfiguration K)
      storage_configuration cr own = elim cr.spec.storage_options [
        | none ↦ none
        | some opts ↦ elim (own opts) [
          | none ↦ some (record { pvc = opts.legacy.pvc; empty_dir = opts.legacy.empty_dir })
          | some cfg ↦ some cfg
        ]
      ]

      unfoldable pub reconcile_database_pvc : CryostatInstance K → M S (Unit {0})
      unfolding reconcile_pvc storage_configuration
      reconcile_database_pvc cr =
          reconcile_pvc cr (storage_configuration cr (λ opts. opts.database))
            Q.default_database_size "database"

      -- The claim is left alone if the storage is not the operator's.
      unfoldable pub reconcile_storage_pvc : CryostatInstance K → M S (Unit {0})
      unfolding reconcile_pvc storage_configuration
      reconcile_storage_pvc cr =
          let cfg = storage_configuration cr (λ opts. opts.object_storage) in
          if deploy_managed_storage cr
          then reconcile_pvc cr cfg Q.default_storage_size "storage"
          else pure tt
