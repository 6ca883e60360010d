-- ===== src/Controller/Rbac/Tests.antt =====
-- Role bindings of a concrete installation in a cluster that is kept in memory.
use cryostat_operator.Prelude.{◌≡◌, refl, String, none, [], ◌∷◌}
use cryostat_operator.Examples.{checksums, cryostat_kind, installation}
use cryostat_operator.Common.Naming.{cluster_unique_name, prefix_with_kind, to_lower}
use cryostat_operator.Cluster.{Key}
use cryostat_operator.Cluster.Memory.{Objects, in_memory, in_memory-IsLawful}
use cryostat_operator.Controller.Rbac.{RoleBinding, role_binding_key, reconcile_role_binding}
use cryostat_operator.Controller.Rbac.Namespaces.{reconcile_role_binding_frame}

-- A binding to another role, as an older version of the operator has left it.
abbrev stale : RoleBinding
stale = record {
  metadata = record { labels = none; annotations = none };
  subjects = [];
  role_ref = record { api_group = ""; kind = "Role"; name = "old" };
}

abbrev key_in : String → Key
key_in ns = role_binding_key in_memory checksums cryostat_kind installation ns

abbrev cluster : Objects RoleBinding
cluster = (key_in "a", stale) ∷ (key_in "b", stale) ∷ (key_in "z", stale) ∷ []

other_key : Key
other_key = record { name = "mine"; namespace = "a" }

reconcile_role_binding_frame_example :
    in_memory.read
      (reconcile_role_binding in_memory checksums cryostat_kind installation cluster).1
      other_key
    ≡ in_memory.read cluster other_key
unfolding other_key cluster_unique_name prefix_with_kind to_lower
reconcile_role_binding_frame_example =
    reconcile_role_binding_frame in_memory in_memory-IsLawful checksums cryostat_kind installation
      cluster other_key refl
