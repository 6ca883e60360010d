-- ===== src/Controller/VolumeClaims/Tests.antt =====
-- A volume claim that is enlarged.
use cryostat_operator.Controller.VolumeClaims.{configure_pvc, mutate_claim}
use cryostat_operator.Prelude.{◌≡◌, refl, String, true, false, Option, none, some, List, [], ◌∷◌}
use cryostat_operator.Prelude.Dict.{Dict}
use cryostat_operator.Examples.{no_settings, ownership, ownership-IsOwnership, texts}
use cryostat_operator.Api.Kube.{Kube}
use cryostat_operator.Api.V1beta2.{CryostatStatus}
use cryostat_operator.Api.V1beta2.Options.{StorageConfiguration}
use cryostat_operator.Common.Instance.{CryostatInstance}
use cryostat_operator.Cluster.Memory.{Objects, in_memory, in_memory-IsLawful}
use cryostat_operator.Cluster.Monad.{ok, Err}
use cryostat_operator.Cluster.Self.{Self}
use cryostat_operator.Controller.VolumeClaims.{Key, ClaimSpecs, VolumeClaim, pvc_key, reconcile_pvc}
use cryostat_operator.Controller.VolumeClaims.Stored.{IsSpecFrom, reconcile_pvc_stored}

-- A specification is its requests and its access modes.
abbrev kinds : Kube
kinds = record texts { PersistentVolumeClaimSpec = Option (Dict String) × Option (List String) }

abbrev claim_specs : ClaimSpecs kinds
claim_specs = record {
  Quantity = String;
  zero_quantity = "0";
  default_database_size = "500Mi";
  default_storage_size = "32Gi";
  AccessMode = String;
  read_write_once = "ReadWriteOnce";
  no_spec = (none, none);
  requests = λ spec. spec.0;
  set_requests = λ spec requested. (some requested, spec.1);
  access_modes = λ spec. spec.1;
  set_access_modes = λ spec modes. (spec.0, some modes);
}

abbrev Claims : Type 0
Claims = Objects (VolumeClaim kinds ownership)

abbrev installed : CryostatInstance kinds
installed = record {
  name = "c";
  install_namespace = "ns";
  target_namespaces = [];
  target_namespace_status = [];
  spec = no_settings kinds;
  status = record {
    target_namespaces = none;
    conditions = none;
    application_url = "";
    storage_secret = "";
    database_secret = "";
  };
}

abbrev self : Self Claims (CryostatStatus kinds)
self = record {
  read_status = λ s. installed.status;
  update_status = λ st s. (ok tt, s);
  warn = λ e s. s;
}

abbrev error_text : Err → String
error_text e = "invalid"

-- The user asks for 1 GiB.
abbrev settings : StorageConfiguration kinds
settings = record {
  pvc = some (record {
    spec = some (some (("storage", "1Gi") ∷ []), none);
    resource_metadata = record { annotations = none; labels = none };
  });
  empty_dir = none;
}

abbrev key : Key
key = pvc_key claim_specs in_memory self error_text installed "database"

-- The claim that is there is smaller, and Kubernetes has filled in the access modes.
abbrev claims : Claims
claims =
    (
      key,
      record {
        metadata = record { labels = none; annotations = none };
        owners = false;
        spec = (some (("storage", "500Mi") ∷ []), some ("ReadWriteOnce" ∷ []));
      },
    )
    ∷ []

reconcile_pvc_stored_example :
    (claim : VolumeClaim kinds ownership) × (in_memory.read
        (reconcile_pvc claim_specs in_memory self error_text installed
          (some settings)
          "500Mi"
          "database"
          claims).1
        key
      ≡ some claim)
    × (ownership.is_controlled claim.owners ≡ true)
    × IsSpecFrom claim_specs
        (in_memory.read claims key)
        (some (("storage", "1Gi") ∷ []), some ("ReadWriteOnce" ∷ []))
        claim.spec
unfolding configure_pvc reconcile_pvc in_memory mutate_claim
reconcile_pvc_stored_example =
    reconcile_pvc_stored claim_specs in_memory in_memory-IsLawful ownership-IsOwnership self
      error_text installed (some settings) "500Mi" "database"
      (some (("storage", "1Gi") ∷ []), some ("ReadWriteOnce" ∷ [])) claims refl refl refl
