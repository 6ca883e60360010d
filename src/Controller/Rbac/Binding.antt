-- ===== src/Controller/Rbac/Binding.antt =====
-- One role binding: how it is created, updated, created anew and deleted.
use cryostat_operator.Prelude.{
  true, ◌≡◌, refl, ◌⊎◌, inr, ℕ, suc, String, false, eq_iff, Option, none, some, List, arith,
}
use cryostat_operator.Prelude.Dict.{Dict}
use cryostat_operator.Cluster.{Key, same_key, Resource, IsLawful}
use cryostat_operator.Cluster.Delete.{EndsByApi, ignored_ends, ignored_gone, ignored_frame}
use cryostat_operator.Cluster.Recreate.{
  create_or_recreate_keeps, create_or_recreate_outcome, IsApi, ends_by_api,
}
use cryostat_operator.Cluster.Monad.{ok, err, Err}
use cryostat_operator.Controller.Rbac.{
  is_role_ref_modified, Subject, RoleRef, RoleBinding, mutate_role_binding, delete_role_binding,
  create_or_update_role_binding, recreate_role_binding,
}

mutate_role_binding_ok :
    (subjects : List Subject) (ref : RoleRef) (labels : Dict String) (old : Option RoleBinding)
    {b : RoleBinding}
    → mutate_role_binding subjects ref labels old ≡ ok b
    → (b.subjects ≡ subjects) × (b.role_ref ≡ ref)
unfolding mutate_role_binding
mutate_role_binding_ok subjects ref labels none {b} h = ground arith
mutate_role_binding_ok subjects ref labels (some old) {b} h = ground (
  arith,
  eq_iff old.role_ref.api_group ref.api_group,
  eq_iff old.role_ref.kind ref.kind,
  eq_iff old.role_ref.name ref.name,
)

api_not_modified : (e : Err) → IsApi e → is_role_ref_modified e ≡ false
api_not_modified e (x, is_api) = ground arith

new_role_binding_err :
    (subjects : List Subject) (ref : RoleRef) (labels : Dict String) (e : Err)
    → mutate_role_binding subjects ref labels none ≡ err e
    → IsApi e
unfolding mutate_role_binding
new_role_binding_err subjects ref labels e h = cc

old_role_binding_err :
    (subjects : List Subject) (ref : RoleRef) (labels : Dict String) (b : RoleBinding) (e : Err)
    → mutate_role_binding subjects ref labels (some b) ≡ err e
    → IsApi e ⊎ (is_role_ref_modified e ≡ true)
unfolding mutate_role_binding
old_role_binding_err subjects ref labels b e h = inr (ground arith)

module _ {S : Type 0} (B : Resource S RoleBinding) (L : IsLawful B) where
  module _ (k : Key) (subjects : List Subject) (ref : RoleRef) (labels : Dict String) where
    -- The binding holds the subjects and the role that are wanted.
    abbrev Wanted : Option RoleBinding → Type 0
    Wanted found =
        (b : RoleBinding) × (found ≡ some b) × (b.subjects ≡ subjects) × (b.role_ref ≡ ref)

    -- The call ends with a success or an error of the API, and after a success the binding is as
    -- it is wanted.
    pub create_or_update_role_binding_done :
        (fuel : ℕ) (s : S)
        → EndsByApi (create_or_update_role_binding B (suc (suc fuel)) k subjects ref labels s).0
          × ((create_or_update_role_binding B (suc (suc fuel)) k subjects ref labels s).0 ≡ ok tt
              → Wanted (
                  B.read
                    (create_or_update_role_binding B (suc (suc fuel)) k subjects ref labels s).1
                    k))
    unfolding create_or_update_role_binding recreate_role_binding delete_role_binding
    create_or_update_role_binding_done fuel s =
        let (ends, made) =
          create_or_recreate_outcome B is_role_ref_modified (recreate_role_binding B k)
            (delete_role_binding B k) (λ again t. refl) k (mutate_role_binding subjects ref labels)
            L IsApi (λ x. (x, refl)) api_not_modified (new_role_binding_err subjects ref labels)
            (old_role_binding_err subjects ref labels) (ignored_ends B L k) (ignored_gone B L k)
            fuel s in
        (
          ends_by_api ends,
          λ good.
              let (b, old, made_of, stored, from) = made good in
              let (same_subjects, same_ref) =
                mutate_role_binding_ok subjects ref labels old made_of in
              (b, stored, same_subjects, same_ref),
        )

  -- However the call ends, it has left every other binding alone.
  pub create_or_update_role_binding_frame :
      (fuel : ℕ) (k j : Key) (subjects : List Subject) (ref : RoleRef) (labels : Dict String)
      (s : S)
      → same_key k j ≡ false
      → B.read (create_or_update_role_binding B fuel k subjects ref labels s).1 j ≡ B.read s j
  unfolding create_or_update_role_binding recreate_role_binding delete_role_binding
  create_or_update_role_binding_frame fuel k j subjects ref labels s h =
      create_or_recreate_keeps B is_role_ref_modified (recreate_role_binding B k)
        (delete_role_binding B k) (λ again t. refl) k (mutate_role_binding subjects ref labels)
        (λ t. B.read t j) (λ t. L.create_or_update_frame k j _ t h) (λ t. ignored_frame B L k j t h)
        fuel s
