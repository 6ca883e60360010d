-- ===== src/Controller/Rbac.antt =====
-- The role bindings in the target namespaces (internal/controller/rbac.go).
pub mod Binding
pub mod ServiceAccount
pub mod ClusterBinding
pub mod All
pub mod Rounds
pub mod Namespaces
mod Tests
mod AccessTests
use cryostat_operator.Prelude.{
  ℕ, zero, suc, String, Bool, true, false, ◌&&◌, ◌==◌, Option, none, some, List, [], ◌∷◌,
  if◌then◌else◌,
}
use cryostat_operator.Prelude.Dict.{Dict}
use cryostat_operator.Api.Kube.{Kube}
use cryostat_operator.Common.Instance.{CryostatInstance}
use cryostat_operator.Common.Metadata.{
  Metadata, merge_labels_and_annotations, labels_for_target_namespace_object,
}
use cryostat_operator.Common.Naming.{Checksums, GroupVersionKind, cluster_unique_name}
use cryostat_operator.Cluster.{Key, Resource}
use cryostat_operator.Cluster.Monad.{
  Result, ok, err, Err, role_ref_modified, out_of_fuel, M, pure, raise, ◌>>=◌, ◌>>◌, catch,
  ignore_not_found,
}
use cryostat_operator.Cluster.Loop.{for_each}
use cryostat_operator.Cluster.Recreate.{create_or_recreate}
use cryostat_operator.Controller.Namespaces.{to_delete}

pub record Subject : Type 0 where
  pub kind : String
  pub name : String
  pub namespace : String

pub record RoleRef : Type 0 where
  pub api_group : String
  pub kind : String
  pub name : String

-- A `RoleBinding`, or a `ClusterRoleBinding`.
pub record RoleBinding : Type 0 where
  pub metadata : Metadata
  pub subjects : List Subject
  pub role_ref : RoleRef

-- `cmp.Equal`
abbrev same_ref : RoleRef → RoleRef → Bool
same_ref a b = a.api_group == b.api_group && (a.kind == b.kind && a.name == b.name)

-- The binding has a zero creation timestamp if there is no old reference.
unfoldable pub get_role_ref : Option RoleRef → RoleRef → Result RoleRef
get_role_ref none new_ref = ok new_ref
get_role_ref (some old_ref) new_ref =
    if same_ref old_ref new_ref then ok old_ref else err role_ref_modified

with_role_ref : Metadata → List Subject → Result RoleRef → Result RoleBinding
with_role_ref metadata subjects (ok ref) =
    ok (record { metadata = metadata; subjects = subjects; role_ref = ref })
with_role_ref metadata subjects (err e) = err e

-- The mutate function of `createOrUpdateRoleBinding`.
unfoldable pub mutate_role_binding :
    List Subject → RoleRef → Dict String → Option RoleBinding → Result RoleBinding
unfolding get_role_ref with_role_ref
mutate_role_binding subjects ref labels none =
    let created : Metadata = record { labels = none; annotations = none } in
    with_role_ref (merge_labels_and_annotations created (some labels) (some [])) subjects
      (get_role_ref none ref)
mutate_role_binding subjects ref labels (some binding) =
    with_role_ref (merge_labels_and_annotations binding.metadata (some labels) (some [])) subjects
      (get_role_ref (some binding.role_ref) ref)

abbrev pub is_role_ref_modified : Err → Bool
is_role_ref_modified role_ref_modified = true
is_role_ref_modified _ = false

module _ {S : Type 0} (B : Resource S RoleBinding) where
  unfoldable pub delete_role_binding : Key → M S (Unit {0})
  unfolding ignore_not_found
  delete_role_binding k = ignore_not_found (B.delete k)

  -- `again` is the call of `createOrUpdateRoleBinding`.
  unfoldable pub recreate_role_binding : Key → M S (Unit {0}) → M S (Unit {0})
  recreate_role_binding k again = do delete_role_binding k; again

  unfoldable pub create_or_update_role_binding :
      ℕ → Key → List Subject → RoleRef → Dict String → M S (Unit {0})
  unfolding recreate_role_binding create_or_recreate
  create_or_update_role_binding fuel k subjects ref labels =
      create_or_recreate B is_role_ref_modified (recreate_role_binding k) fuel k
        (mutate_role_binding subjects ref labels)

  module _ (H : Checksums) (gvk : GroupVersionKind) {K : Kube} (cr : CryostatInstance K) where
    abbrev pub role_binding_key : String → Key
    role_binding_key namespace = record {
      name = cluster_unique_name H gvk cr.name cr.install_namespace;
      namespace = namespace;
    }

    -- The service account of the installation (`newServiceAccount`).
    abbrev pub service_account_subject : Subject
    service_account_subject = record {
      kind = "ServiceAccount";
      name = cr.name;
      namespace = cr.install_namespace;
    }

    abbrev pub namespaced_role_ref : RoleRef
    namespaced_role_ref = record {
      api_group = "rbac.authorization.k8s.io";
      kind = "ClusterRole";
      name = "cryostat-operator-cryostat-namespaced";
    }

    -- Two rounds of fuel: `Rbac/Binding.antt` shows that they are enough.
    abbrev pub bind_namespace : String → M S (Unit {0})
    bind_namespace ns =
        create_or_update_role_binding 2 (role_binding_key ns) (service_account_subject ∷ [])
          namespaced_role_ref (labels_for_target_namespace_object cr)

    unfoldable pub reconcile_role_binding : M S (Unit {0})
    reconcile_role_binding = do
      for_each cr.target_namespaces bind_namespace
      for_each (to_delete cr) (λ ns. delete_role_binding (role_binding_key ns))

    unfoldable pub finalize_role_bindings : M S (Unit {0})
    finalize_role_bindings =
        for_each cr.target_namespaces (λ ns. delete_role_binding (role_binding_key ns))
