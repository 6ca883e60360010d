-- ===== src/Controller/FsGroup/Tests.antt =====
-- The group that OpenShift gives a namespace.
use cryostat_operator.Prelude.Dict.{lookup}
use cryostat_operator.Controller.FsGroup.{get_fs_group}
use cryostat_operator.Prelude.Strconv.{parse_int}
use cryostat_operator.Controller.FsGroup.Bounds.{get_fs_group_bounds}
use cryostat_operator.Cluster.Monad.{ok}
use cryostat_operator.Cluster.{Getter}
use cryostat_operator.Controller.FsGroup.{pos, parse_sup_groups, leading_digits}
use cryostat_operator.Prelude.{◌^◌, ◌<◌, List, ℕ, ◌≡◌, refl, String, true, none, some, [], ◌∷◌}
use cryostat_operator.Common.Metadata.{Metadata}

abbrev supplemental_groups : String
supplemental_groups = "openshift.io/sa.scc.supplemental-groups"

abbrev get_namespace : Getter (List Metadata) Metadata
get_namespace k s = (
  ok (record {
    labels = none;
    annotations = some ((supplemental_groups, "1000740000/10000") ∷ []);
  }),
  s,
)

first_of_range : parse_sup_groups supplemental_groups "1000740000/10000" ≡ ok (pos 1000740000)
unfolding parse_sup_groups parse_int
first_of_range = refl

no_group : (leading_digits "system:1000") ≡ ""
unfolding leading_digits
no_group = refl

get_fs_group_bounds_example : (n : ℕ) × (pos 1000740000 ≡ pos n) × (n < 2 ^ 63)
unfolding get_fs_group lookup parse_int
get_fs_group_bounds_example =
    get_fs_group_bounds get_namespace supplemental_groups true "ns" [] (pos 1000740000) refl
