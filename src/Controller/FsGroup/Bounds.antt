-- ===== src/Controller/FsGroup/Bounds.antt =====
-- The group of the volumes' files is a number that fits.
use cryostat_operator.Prelude.Strconv.{parse_int-digit}
use cryostat_operator.Cluster.Monad.{Result-of, ok}
use cryostat_operator.Prelude.Int.{ℤ}
use cryostat_operator.Controller.FsGroup.{
  get_or, lookup, parse_int, Bool, Metadata, group_of_annotation, pos, Getter, Option,
  leading_digits, ℕ, leb, get_fs_group, group_of_match, parse_sup_groups,
}
use Prim.Native.Char.{Char, code}
use cryostat_operator.Prelude.{
  ◌&&◌, false, none, [], inr, inl, some, ◌^◌, Option-cases, arith, ◌<◌, true, String, ◌≡◌,
  Bool-cases,
}

abbrev IsGroup : ℤ → Type 0
IsGroup g = (n : ℕ) × (g ≡ pos n) × (n < 2 ^ 63)

group_of_match_bounds :
    (annotation : String) (c : Char) (s : String) (g : ℤ)
    → leb 48 (code c) ≡ true
    → group_of_match annotation (String.◌∷◌ c s) ≡ ok g
    → IsGroup g
unfolding group_of_match
group_of_match_bounds annotation c s g digit h =
    elim (Option-cases (parse_int 64 (String.◌∷◌ c s))) [
      | inl none_found ↦ absurd (ground arith)
      | inr (i, found) ↦ parse_int-digit 64 c s g digit (ground arith)
    ]

parse_sup_groups_bounds :
    (annotation sup_groups : String) (g : ℤ)
    → parse_sup_groups annotation sup_groups ≡ ok g
    → IsGroup g
unfolding parse_sup_groups leading_digits group_of_match
parse_sup_groups_bounds annotation String.[] g h = cc
parse_sup_groups_bounds annotation (String.◌∷◌ c s) g h =
    elim (Bool-cases (leb 48 (code c) && leb (code c) 57)) [
      | inl digit ↦
          group_of_match_bounds annotation c (leading_digits s) g (ground arith) (rw digit at h)
      | inr other ↦
          let missing : group_of_match annotation "" ≡ ok g = rw other at h in absurd (ground arith)
    ]

group_of_annotation_bounds :
    (annotation : String) (found : Option String) (g : ℤ)
    → group_of_annotation annotation found ≡ ok g
    → IsGroup g
group_of_annotation_bounds annotation none g h = (18500, ground arith, ground arith)
group_of_annotation_bounds annotation (some sup_groups) g h =
    parse_sup_groups_bounds annotation sup_groups g h

-- A group that `getFSGroup` returns is not negative, and fits a signed integer of 64 bits, whatever
-- the annotation of the namespace is.
pub get_fs_group_bounds :
    {S : Type 0} (get : Getter S Metadata) (annotation : String) (is_open_shift : Bool)
    (namespace : String) (s : S) (g : ℤ)
    → (get_fs_group get annotation is_open_shift namespace s).0 ≡ ok g
    → (n : ℕ) × (g ≡ pos n) × (n < 2 ^ 63)
unfolding get_fs_group
get_fs_group_bounds get annotation false namespace s g h = (18500, ground arith, ground arith)
get_fs_group_bounds get annotation true namespace s g h =
    elim (Result-of (get (record { name = namespace; namespace = "" }) s).0) [
      | inl (ns, found) ↦
          group_of_annotation_bounds annotation (lookup annotation (get_or ns.annotations [])) g
            (ground arith)
      | inr (e, failed) ↦ absurd (ground arith)
    ]
