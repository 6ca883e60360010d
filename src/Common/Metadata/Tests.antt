-- ===== src/Common/Metadata/Tests.antt =====
-- A merge of concrete labels.
use cryostat_operator.Prelude.{◌≡◌, refl, none, some, [], ◌∷◌}
use cryostat_operator.Prelude.Dict.{lookup}
use cryostat_operator.Api.Kube.{StringMap}
use cryostat_operator.Common.Metadata.{Metadata, merge_labels_and_annotations}
use cryostat_operator.Common.Metadata.Laws.{value_at, prefer, lookup-merge}

abbrev current : Metadata
current = record { labels = some (("app", "old") ∷ ("team", "a") ∷ []); annotations = none }

abbrev wanted : StringMap
wanted = some (("app", "cryostat") ∷ [])

lookup-merge_example :
    (value_at "app" (merge_labels_and_annotations current wanted none).labels
      ≡ prefer (value_at "app" wanted) (value_at "app" current.labels))
    × (value_at "app" (merge_labels_and_annotations current wanted none).annotations
        ≡ prefer (value_at "app" none) (value_at "app" none))
unfolding lookup
lookup-merge_example = lookup-merge "app" current wanted none (refl, tt) tt
