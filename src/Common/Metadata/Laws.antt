-- ===== src/Common/Metadata/Laws.antt =====
-- What a merge leaves at each key.
use cryostat_operator.Prelude.{
  ◌≡◌, refl, String, Option, none, some, [], ◌∷◌, eq_iff, arith, get_or,
}
use cryostat_operator.Prelude.Dict.{Dict, lookup, insert, lookup-insert, copy}
use cryostat_operator.Api.Kube.{StringMap}
use cryostat_operator.Common.Metadata.{Metadata, merge_labels_and_annotations}

-- A nil map has no entry.
abbrev pub value_at : String → StringMap → Option String
value_at k m = lookup k (get_or m [])

abbrev pub prefer {ℓ} : {A : Type ℓ} → Option A → Option A → Option A
prefer none y = y
prefer (some x) y = some x

-- The keys of a Go map are distinct.
abbrev pub DistinctKeys {ℓ} : {V : Type ℓ} → Dict V → Type ℓ
DistinctKeys [] = Unit
DistinctKeys ((k, v) ∷ m) = (lookup k m ≡ none) × DistinctKeys m

pub lookup-copy {ℓ} :
    {V : Type ℓ} (k : String) (src dest : Dict V)
    → DistinctKeys src
    → lookup k (copy src dest) ≡ prefer (lookup k src) (lookup k dest)
unfolding copy lookup
lookup-copy k [] dest d = refl
lookup-copy k ((j, v) ∷ src) dest (fresh, d) =
    ground (
      arith,
      lookup-copy k src (insert j v dest) d,
      lookup-insert j k v dest,
      eq_iff j k,
      eq_iff k j,
    )

-- After a merge of maps with distinct keys a key has the source's value if the source has one, and
-- else the value that it had; in the labels and in the annotations.
pub lookup-merge :
    (k : String) (dest : Metadata) (labels annotations : StringMap)
    → DistinctKeys (get_or labels [])
    → DistinctKeys (get_or annotations [])
    → (value_at k (merge_labels_and_annotations dest labels annotations).labels
        ≡ prefer (value_at k labels) (value_at k dest.labels))
      × (value_at k (merge_labels_and_annotations dest labels annotations).annotations
          ≡ prefer (value_at k annotations) (value_at k dest.annotations))
unfolding merge_labels_and_annotations
lookup-merge k dest labels annotations dl da = (lookup-copy k _ _ dl, lookup-copy k _ _ da)
