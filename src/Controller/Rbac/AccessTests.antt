-- ===== src/Controller/Rbac/AccessTests.antt =====
-- The access rights of a concrete installation, in a cluster of four kinds of objects in memory.
use cryostat_operator.Controller.Rbac.Rounds.{targeting, World, Rounds}
use cryostat_operator.Prelude.Dict.{copy}
use cryostat_operator.Controller.Rbac.ClusterBinding.{
  create_or_update_cluster_role_binding, mutate_cluster_role_binding,
  reconcile_cluster_role_binding, recreate_cluster_role_binding,
}
use cryostat_operator.Common.Metadata.{
  labels_for_target_namespace_object, merge_labels_and_annotations, merge_map, set_each,
}
use cryostat_operator.Cluster.Recreate.{create_or_recreate}
use cryostat_operator.Cluster.Monad.{ignore_not_found}
use cryostat_operator.Controller.Namespaces.{to_delete, contains_namespace, not_requested}
use cryostat_operator.Common.Naming.{
  cluster_unique_name_with_prefix, cluster_unique_name_with_prefix_target_ns, is_nonempty,
}
use cryostat_operator.Controller.Rbac.{
  List, reconcile_role_binding, create_or_update_role_binding, mutate_role_binding, get_role_ref,
  recreate_role_binding, with_role_ref,
}
use cryostat_operator.Controller.Rbac.ServiceAccount.{
  reconcile_service_account, mutate_service_account, reconcile_role, clean_up_role,
  service_account_annotations,
}
use cryostat_operator.Cluster.Loop.{for_each}
use cryostat_operator.Controller.Rbac.{finalize_role_bindings, delete_role_binding}
use cryostat_operator.Common.Naming.{cluster_unique_name, prefix_with_kind, to_lower}
use cryostat_operator.Controller.Rbac.ClusterBinding.{delete_cluster_role_binding}
use cryostat_operator.Prelude.{
  false, is_some, ◌≡◌, refl, String, true, none, some, [], ◌∷◌, contains,
}
use cryostat_operator.Prelude.Dict.{insert}
use cryostat_operator.Examples.{
  checksums, cryostat_kind, installation, ownership, ownership-IsOwnership, set_meta_data,
  set_meta_data-SetsOne,
}
use cryostat_operator.Cluster.Apart.{first, second, first-IsLawful, second-IsLawful}
use cryostat_operator.Cluster.Memory.{
  Objects, in_memory, in_memory-IsLawful, get_in_memory, get_in_memory-IsFaithful,
}
use cryostat_operator.Cluster.Monad.{ok}
use cryostat_operator.Controller.Rbac.{Key, RoleBinding, role_binding_key}
use cryostat_operator.Controller.Rbac.ServiceAccount.{ServiceAccount, Role}
use cryostat_operator.Controller.Rbac.ClusterBinding.{cluster_role_binding_key}
use cryostat_operator.Controller.Rbac.All.{
  Access, IsAccess, reconcile_rbac, reconcile_rbac_grants, finalize_rbac, finalize_rbac_removes,
}
use cryostat_operator.Controller.Rbac.Namespaces.{grant}

abbrev Kinds : Type 0
Kinds =
    Objects (ServiceAccount ownership)
    × (Objects (Role ownership) × (Objects RoleBinding × Objects RoleBinding))

access : Access ownership Kinds
access = record {
  accounts = first in_memory;
  roles = second (first in_memory);
  get_role = λ k s. ((get_in_memory k s.1.0).0, s);
  bindings = second (second (first in_memory));
  cluster_bindings = second (second (second in_memory));
  set_meta_data = set_meta_data;
  marshal = λ kind name. ok name;
}

access-IsAccess : IsAccess access
unfolding access in_memory get_in_memory
access-IsAccess = record {
  owner_laws = ownership-IsOwnership;
  accounts_lawful = first-IsLawful in_memory in_memory-IsLawful;
  get_role_faithful = record {
    get_keeps = λ k s. refl;
    get_ok = λ k s o h. get_in_memory-IsFaithful.get_ok k s.1.0 o h;
    get_not_found = λ k s h. get_in_memory-IsFaithful.get_not_found k s.1.0 h;
    get_err = λ k s e h. get_in_memory-IsFaithful.get_err k s.1.0 e h;
  };
  bindings_lawful =
      second-IsLawful (second (first in_memory))
        (second-IsLawful (first in_memory) (first-IsLawful in_memory in_memory-IsLawful));
  cluster_bindings_lawful =
      second-IsLawful (second (second in_memory))
        (second-IsLawful (second in_memory) (second-IsLawful in_memory in_memory-IsLawful));
  sets_one = set_meta_data-SetsOne;
  accounts_roles = record { update_keeps = λ k f s. refl; delete_keeps = λ k s. refl };
  accounts_bindings = record { update_keeps = λ k f s. refl; delete_keeps = λ k s. refl };
  accounts_cluster = record { update_keeps = λ k f s. refl; delete_keeps = λ k s. refl };
  bindings_accounts = record { update_keeps = λ k f s. refl; delete_keeps = λ k s. refl };
  bindings_roles = record { update_keeps = λ k f s. refl; delete_keeps = λ k s. refl };
  bindings_cluster = record { update_keeps = λ k f s. refl; delete_keeps = λ k s. refl };
  cluster_bindings_apart = record { update_keeps = λ k f s. refl; delete_keeps = λ k s. refl };
}

-- A binding to another role, as an older version of the operator has left it.
abbrev stale : RoleBinding
stale = record {
  metadata = record { labels = none; annotations = none };
  subjects = [];
  role_ref = record { api_group = ""; kind = "Role"; name = "old" };
}

abbrev key_in : String → Key
key_in ns = role_binding_key access.bindings checksums cryostat_kind installation ns

abbrev cluster_key : Key
cluster_key = cluster_role_binding_key access.cluster_bindings checksums cryostat_kind installation

abbrev cluster : Kinds
cluster = (
  [],
  (
    [],
    (
      (key_in "a", stale) ∷ (key_in "b", stale) ∷ (key_in "z", stale) ∷ [],
      (cluster_key, stale) ∷ [],
    ),
  ),
)

finalize_rbac_removes_example :
    (access.cluster_bindings.read
        (finalize_rbac access checksums cryostat_kind installation cluster).1
        cluster_key
      ≡ none)
    × (access.bindings.read
          (finalize_rbac access checksums cryostat_kind installation cluster).1
          (key_in "b")
        ≡ some stale)
unfolding finalize_rbac delete_cluster_role_binding access in_memory cluster_unique_name
    prefix_with_kind to_lower finalize_role_bindings for_each delete_role_binding contains
finalize_rbac_removes_example =
    finalize_rbac_removes access checksums cryostat_kind installation access-IsAccess cluster "b"
      refl

reconcile_rbac_grants_example :
    (grant (
        access.bindings.read
          (reconcile_rbac access checksums cryostat_kind installation true cluster).1
          (key_in "b"))
      ≡ none)
unfolding contains reconcile_rbac reconcile_service_account access in_memory mutate_service_account
    reconcile_role get_in_memory reconcile_role_binding for_each create_or_update_role_binding
    mutate_role_binding cluster_unique_name prefix_with_kind to_lower delete_role_binding to_delete
    contains_namespace ignore_not_found create_or_recreate labels_for_target_namespace_object
    merge_labels_and_annotations merge_map set_each cluster_unique_name_with_prefix
    cluster_unique_name_with_prefix_target_ns is_nonempty not_requested
    create_or_update_cluster_role_binding delete_cluster_role_binding mutate_cluster_role_binding
    reconcile_cluster_role_binding recreate_cluster_role_binding clean_up_role
    service_account_annotations get_role_ref recreate_role_binding with_role_ref copy insert
reconcile_rbac_grants_example =
    (reconcile_rbac_grants access checksums cryostat_kind installation access-IsAccess true cluster
      "b" refl).1

-- Nothing is there at first.
abbrev fresh : World Kinds
fresh = record { recorded = []; cluster = ([], ([], ([], []))) }

abbrev round_in : List String → World Kinds → World Kinds
round_in targets w = record {
  recorded = targets;
  cluster =
      (reconcile_rbac access checksums cryostat_kind
        (targeting access checksums cryostat_kind installation targets w) false w.cluster).1;
}

-- A reconciliation that stops after the access rights, so that the status records nothing.
abbrev stopped : World Kinds
stopped = record (round_in ("a" ∷ "b" ∷ []) fresh) { recorded = [] }

-- A namespace that is dropped before a reconciliation has finished keeps its role binding.
left_behind :
    is_some (access.bindings.read (round_in ("b" ∷ "d" ∷ []) stopped).cluster (key_in "a")) ≡ true
unfolding access in_memory reconcile_rbac reconcile_service_account mutate_service_account
    reconcile_role get_in_memory reconcile_role_binding for_each create_or_update_role_binding
    mutate_role_binding cluster_unique_name prefix_with_kind to_lower to_delete
    reconcile_cluster_role_binding create_or_update_cluster_role_binding ignore_not_found
    create_or_recreate labels_for_target_namespace_object merge_labels_and_annotations merge_map
    set_each cluster_unique_name_with_prefix cluster_unique_name_with_prefix_target_ns is_nonempty
    contains_namespace not_requested delete_cluster_role_binding mutate_cluster_role_binding
    recreate_cluster_role_binding clean_up_role service_account_annotations delete_role_binding
    get_role_ref recreate_role_binding with_role_ref copy insert
left_behind = refl
