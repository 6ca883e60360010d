-- ===== src/Common/Metadata.antt =====
-- Labels and annotations (internal/controller/common/common_utils.go).
pub mod Laws
mod Tests
use cryostat_operator.Prelude.{◌≡◌, ◌==◌, if◌then◌else◌, String, Option, some, [], ◌∷◌, get_or}
use cryostat_operator.Prelude.Dict.{Dict, copy, lookup}
use cryostat_operator.Api.Kube.{Kube, StringMap}
use cryostat_operator.Common.Constants.{
  target_namespace_cr_name_label, target_namespace_cr_namespace_label,
}
use cryostat_operator.Common.Instance.{CryostatInstance}

-- What the code writes of an object's `ObjectMeta`.
pub record Metadata : Type 0 where
  pub labels : StringMap
  pub annotations : StringMap

-- A nil map is created, and the source's entries are copied over it. To range over a nil source
-- is to range over an empty one.
unfoldable pub merge_map : StringMap → StringMap → StringMap
merge_map dest src = some (copy (get_or src []) (get_or dest []))

unfoldable pub merge_labels_and_annotations : Metadata → StringMap → StringMap → Metadata
unfolding merge_map
merge_labels_and_annotations dest src_labels src_annotations = record {
  labels = merge_map dest.labels src_labels;
  annotations = merge_map dest.annotations src_annotations;
}

-- `metav1.SetMetaDataLabel` and `SetMetaDataAnnotation`, which are not part of this repository: they
-- set one value in a map, which they create if it is nil.
abbrev pub SetMetaData : Type 0
SetMetaData = StringMap → String → String → StringMap

-- The value of a key, as `m[key]` reads it, nil maps included.
abbrev pub value_of : String → StringMap → Option String
value_of key m = lookup key (get_or m [])

abbrev pub SetsOne : SetMetaData → Type 0
SetsOne set =
    (m : StringMap) (key value asked : String)
    → value_of asked (set m key value) ≡ (if asked == key then some value else value_of asked m)

-- `for key, val := range values { metav1.SetMetaDataLabel(…, key, val) }`
unfoldable pub set_each : SetMetaData → StringMap → Dict String → StringMap
set_each set m [] = m
set_each set m ((key, value) ∷ rest) = set_each set (set m key value) rest

unfoldable pub labels_for_target_namespace_object : {K : Kube} → CryostatInstance K → Dict String
labels_for_target_namespace_object cr =
    (target_namespace_cr_name_label, cr.name)
    ∷ (target_namespace_cr_namespace_label, cr.install_namespace)
    ∷ []
