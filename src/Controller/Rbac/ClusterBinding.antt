-- ===== src/Controller/Rbac/ClusterBinding.antt =====
-- The installation's cluster role binding (internal/controller/rbac.go).
use cryostat_operator.Prelude.{
  ◌≡◌, refl, ◌⊎◌, inr, ℕ, true, eq_iff, Option, none, some, List, [], ◌∷◌, arith,
}
use cryostat_operator.Api.Kube.{Kube}
use cryostat_operator.Common.Instance.{CryostatInstance}
use cryostat_operator.Common.Naming.{Checksums, GroupVersionKind, cluster_unique_name}
use cryostat_operator.Cluster.{Key, Resource, IsLawful}
use cryostat_operator.Cluster.Apart.{IsApart, ignored_keeps}
use cryostat_operator.Cluster.Delete.{EndsByApi, ignored_ends, ignored_gone}
use cryostat_operator.Cluster.Monad.{Result, ok, err, Err, and_then, M, ◌>>◌, ignore_not_found}
use cryostat_operator.Cluster.Recreate.{
  create_or_recreate, create_or_recreate_keeps, create_or_recreate_outcome, IsApi, ends_by_api,
}
use cryostat_operator.Controller.Rbac.{
  Subject, RoleRef, RoleBinding, get_role_ref, is_role_ref_modified, service_account_subject,
}

-- The mutate function of `createOrUpdateClusterRoleBinding`.
unfoldable pub mutate_cluster_role_binding :
    List Subject → RoleRef → Option RoleBinding → Result RoleBinding
unfolding get_role_ref
mutate_cluster_role_binding subjects ref none = and_then (get_role_ref none ref) λ r. ok (record {
  metadata = record { labels = none; annotations = none };
  subjects = subjects;
  role_ref = r;
})
mutate_cluster_role_binding subjects ref (some binding) =
    and_then (get_role_ref (some binding.role_ref) ref)
      λ r. ok (record binding { subjects = subjects; role_ref = r })

module _ {S : Type 0} (C : Resource S RoleBinding) where
  unfoldable pub delete_cluster_role_binding : Key → M S (Unit {0})
  unfolding ignore_not_found
  delete_cluster_role_binding k = ignore_not_found (C.delete k)

  unfoldable pub recreate_cluster_role_binding : Key → M S (Unit {0}) → M S (Unit {0})
  recreate_cluster_role_binding k again = do delete_cluster_role_binding k; again

  unfoldable pub create_or_update_cluster_role_binding :
      ℕ → Key → List Subject → RoleRef → M S (Unit {0})
  unfolding recreate_cluster_role_binding create_or_recreate
  create_or_update_cluster_role_binding fuel k subjects ref =
      create_or_recreate C is_role_ref_modified (recreate_cluster_role_binding k) fuel k
        (mutate_cluster_role_binding subjects ref)

  module _ (H : Checksums) (gvk : GroupVersionKind) {K : Kube} (cr : CryostatInstance K) where
    -- The object has no namespace.
    abbrev pub cluster_role_binding_key : Key
    cluster_role_binding_key = record {
      name = cluster_unique_name H gvk cr.name cr.install_namespace;
      namespace = "";
    }

    abbrev pub cluster_role_ref : RoleRef
    cluster_role_ref = record {
      api_group = "rbac.authorization.k8s.io";
      kind = "ClusterRole";
      name = "cryostat-operator-cryostat";
    }

    unfoldable pub reconcile_cluster_role_binding : M S (Unit {0})
    reconcile_cluster_role_binding =
        create_or_update_cluster_role_binding 2 cluster_role_binding_key
          (service_account_subject C H gvk cr ∷ []) cluster_role_ref

mutate_cluster_role_binding_ok :
    (subjects : List Subject) (ref : RoleRef) (old : Option RoleBinding) {b : RoleBinding}
    → mutate_cluster_role_binding subjects ref old ≡ ok b
    → (b.subjects ≡ subjects) × (b.role_ref ≡ ref)
unfolding mutate_cluster_role_binding get_role_ref
mutate_cluster_role_binding_ok subjects ref none {b} h = ground arith
mutate_cluster_role_binding_ok subjects ref (some old) {b} h = ground (
  arith,
  eq_iff old.role_ref.api_group ref.api_group,
  eq_iff old.role_ref.kind ref.kind,
  eq_iff old.role_ref.name ref.name,
)

new_cluster_role_binding_err :
    (subjects : List Subject) (ref : RoleRef) (e : Err)
    → mutate_cluster_role_binding subjects ref none ≡ err e
    → IsApi e
unfolding mutate_cluster_role_binding get_role_ref
new_cluster_role_binding_err subjects ref e h = cc

old_cluster_role_binding_err :
    (subjects : List Subject) (ref : RoleRef) (b : RoleBinding) (e : Err)
    → mutate_cluster_role_binding subjects ref (some b) ≡ err e
    → IsApi e ⊎ (is_role_ref_modified e ≡ true)
unfolding mutate_cluster_role_binding get_role_ref
old_cluster_role_binding_err subjects ref b e h = inr (ground arith)

module _ {S : Type 0} (C : Resource S RoleBinding) (H : Checksums) (gvk : GroupVersionKind)
    {K : Kube} (cr : CryostatInstance K) where
  -- The call ends with a success or an error of the API, and after a success the binding gives the
  -- cluster role to the service account alone.
  pub reconcile_cluster_role_binding_done :
      (L : IsLawful C) (s : S)
      → EndsByApi (reconcile_cluster_role_binding C H gvk cr s).0
        × ((reconcile_cluster_role_binding C H gvk cr s).0 ≡ ok tt
            → (b : RoleBinding) × (C.read
                  (reconcile_cluster_role_binding C H gvk cr s).1
                  (cluster_role_binding_key C H gvk cr)
                ≡ some b)
              × (b.subjects ≡ service_account_subject C H gvk cr ∷ [])
              × (b.role_ref ≡ cluster_role_ref C H gvk cr))
  unfolding reconcile_cluster_role_binding create_or_update_cluster_role_binding
      recreate_cluster_role_binding delete_cluster_role_binding
  reconcile_cluster_role_binding_done L s =
      let k = cluster_role_binding_key C H gvk cr in
      let subjects = service_account_subject C H gvk cr ∷ [] in
      let ref = cluster_role_ref C H gvk cr in
      let (ends, made) =
        create_or_recreate_outcome C is_role_ref_modified (recreate_cluster_role_binding C k)
          (delete_cluster_role_binding C k) (λ again t. refl) k
          (mutate_cluster_role_binding subjects ref) L IsApi (λ x. (x, refl))
          (λ e is_api. ground arith) (new_cluster_role_binding_err subjects ref)
          (old_cluster_role_binding_err subjects ref) (ignored_ends C L k) (ignored_gone C L k) 0
          s in
      (
        ends_by_api ends,
        λ good.
            let (b, old, made_of, stored, from) = made good in
            let (same_subjects, same_ref) =
              mutate_cluster_role_binding_ok subjects ref old made_of in
            (b, stored, same_subjects, same_ref),
      )

  pub reconcile_cluster_role_binding_keeps :
      {X : Type 0} (view : S → X)
      → IsApart view C
      → (s : S) → view (reconcile_cluster_role_binding C H gvk cr s).1 ≡ view s
  unfolding reconcile_cluster_role_binding create_or_update_cluster_role_binding
      recreate_cluster_role_binding delete_cluster_role_binding
  reconcile_cluster_role_binding_keeps view apart s =
      let k = cluster_role_binding_key C H gvk cr in
      create_or_recreate_keeps C is_role_ref_modified (recreate_cluster_role_binding C k)
        (delete_cluster_role_binding C k) (λ again t. refl) k _ view (λ t. apart.update_keeps k _ t)
        (λ t. ignored_keeps view C apart k t) 2 s
