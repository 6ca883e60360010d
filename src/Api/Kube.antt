-- ===== src/Api/Kube.antt =====
-- The Kubernetes API types that the custom resource embeds and that the operator hands on whole.
-- They are not part of this repository: each is a parameter, with what the code reads of it.
use cryostat_operator.Prelude.{Option, String, Bool}
use cryostat_operator.Prelude.Dict.{Dict}

-- A `map[string]string` of labels or annotations, `none` for a nil map.
abbrev pub StringMap : Type 0
StringMap = Option (Dict String)

pub record Kube : Type 1 where
  pub ResourceRequirements : Type 0
  -- The zero value of the struct.
  pub no_resources : ResourceRequirements
  pub PodSecurityContext : Type 0
  pub SecurityContext : Type 0
  pub NodeAffinity : Type 0
  pub PodAffinity : Type 0
  pub PodAntiAffinity : Type 0
  pub Toleration : Type 0
  pub ServiceType : Type 0
  -- The service type `ClusterIP`.
  pub cluster_ip : ServiceType
  pub IngressSpec : Type 0
  pub PersistentVolumeClaimSpec : Type 0
  pub StorageMedium : Type 0
  pub ResourceAttributes : Type 0
  pub Condition : Type 0
  pub ObjectMeta : Type 0
  pub name : ObjectMeta → String
  pub namespace : ObjectMeta → String
  -- `CreationTimestamp.IsZero()`
  pub is_uncreated : ObjectMeta → Bool
  pub resource_version : ObjectMeta → String
