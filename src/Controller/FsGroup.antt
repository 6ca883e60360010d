-- ===== src/Controller/FsGroup.antt =====
-- The group of the volumes' files: `getFSGroup` and `parseSupGroups` (internal/controller/reconciler.go).
pub mod Bounds
mod Tests
use Prim.Native.Char.{Char, code}
use cryostat_operator.Prelude.{
  get_or, ◌&&◌, leb, if◌then◌else◌, ◌≡◌, ℕ, String, Bool, true, false, ◌<>◌, Option, none, some, [],
}
use cryostat_operator.Prelude.Int.{ℤ, pos}
use cryostat_operator.Prelude.Dict.{Dict, lookup}
use cryostat_operator.Prelude.Strconv.{parse_int}
use cryostat_operator.Common.Metadata.{Metadata}
use cryostat_operator.Cluster.{Key, Getter}
use cryostat_operator.Cluster.Monad.{◌>>=◌, Result, ok, err, failure, M, pure, lift}

abbrev pub default_fs_group : ℤ
default_fs_group = pos 18500

-- `supGroupRegexp.FindString`, of the regular expression `^\d+`; the empty text where nothing matches.
unfoldable pub leading_digits : String → String
leading_digits String.[] = String.[]
leading_digits (String.◌∷◌ c s) =
    let rest = leading_digits s in
    if leb 48 (code c) && leb (code c) 57 then String.◌∷◌ c rest else String.[]

-- The match is digits alone, so that `ParseInt` can only fail for its size.
unfoldable pub group_of_match : String → String → Result ℤ
group_of_match annotation String.[] =
    err (failure ("no group ID found in " <> (annotation <> " annotation")))
group_of_match annotation (String.◌∷◌ c s) = elim (parse_int 64 (String.◌∷◌ c s)) [
  | none ↦
      err (failure ("strconv.ParseInt: parsing \"" <> (String.◌∷◌ c s <> "\": value out of range")))
  | some gid ↦ ok gid
]

-- `annotation` is the name `SupplementalGroupsAnnotation` of the OpenShift API.
unfoldable pub parse_sup_groups : String → String → Result ℤ
unfolding group_of_match leading_digits
parse_sup_groups annotation sup_groups = group_of_match annotation (leading_digits sup_groups)

abbrev pub group_of_annotation : String → Option String → Result ℤ
group_of_annotation annotation none = ok default_fs_group
group_of_annotation annotation (some sup_groups) = parse_sup_groups annotation sup_groups

unfoldable pub get_fs_group : {S : Type 0} → Getter S Metadata → String → Bool → String → M S ℤ
unfolding parse_sup_groups
get_fs_group get annotation is_open_shift namespace =
    if is_open_shift
    then (get (record { name = namespace; namespace = "" }) >>= λ ns.
        lift (group_of_annotation annotation (lookup annotation (get_or ns.annotations []))))
    else pure default_fs_group
