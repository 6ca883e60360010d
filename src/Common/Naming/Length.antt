-- ===== src/Common/Naming/Length.antt =====
-- The length of a short cluster-unique name.
use Prim.Native.String.{count}
use text.Mathlib.TextLemmas.{length-append, length-cons}
use cryostat_operator.Prelude.{
  ◌+◌, ◌≤◌, ◌≡◌, refl, ◌∙◌, ap, suc, sym, inl, inr, String, arith, Bool-cases,
}
use cryostat_operator.Common.Naming.{
  Checksums, GroupVersionKind, prefix_with_kind, to_lower, is_nonempty,
  cluster_unique_short_name_with_prefix,
}

count-to_lower : (s : String) → count (to_lower s) ≡ count s
unfolding to_lower
count-to_lower String.[] = refl
count-to_lower (String.◌∷◌ c s) =
    length-cons _ _ ∙ ap suc (count-to_lower s) ∙ sym (length-cons c s)

prefix_with_kind-count :
    (gvk : GroupVersionKind) (prefix : String)
    → count (prefix_with_kind gvk prefix) ≤ count gvk.kind + count prefix + 1
unfolding prefix_with_kind
prefix_with_kind-count gvk prefix = elim (Bool-cases (is_nonempty prefix)) [
  | inl e ↦ rw e (rw (length-append, length-append) (omega (arith, count-to_lower gvk.kind)))
  | inr e ↦ rw e (omega (arith, count-to_lower gvk.kind))
]

-- The short name of an object has at most 63 characters, as a label or a DNS name may have, if the
-- kind and the prefix have at most 29 together and the FNV checksum has 32.
pub cluster_unique_short_name_fits :
    (H : Checksums) (gvk : GroupVersionKind) (prefix name namespace : String)
    → ((s : String) → count (H.fnv128 s) ≡ 32)
    → count gvk.kind + count prefix ≤ 29
    → count (cluster_unique_short_name_with_prefix H gvk prefix name namespace) ≤ 63
unfolding cluster_unique_short_name_with_prefix
cluster_unique_short_name_fits H gvk prefix name namespace h fits =
    rw (length-append, length-append) (rw h (omega (arith, prefix_with_kind-count gvk prefix)))
