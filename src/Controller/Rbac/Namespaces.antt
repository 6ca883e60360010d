-- ===== src/Controller/Rbac/Namespaces.antt =====
-- Which namespaces have a role binding of an installation, after it is reconciled or finalized.
use cryostat_operator.Prelude.{
  ap, ◌≡◌, String, false, ◌==◌, Option, none, some, List, [], ◌∷◌, arith, contains, map_option,
  if◌then◌else◌, Bool-cases, inl, inr,
}
use cryostat_operator.Api.Kube.{Kube}
use cryostat_operator.Common.Instance.{CryostatInstance}
use cryostat_operator.Common.Naming.{Checksums, GroupVersionKind, cluster_unique_name}
use cryostat_operator.Cluster.{Key, same_key, Resource, IsLawful}
use cryostat_operator.Cluster.Monad.{ok, M}
use cryostat_operator.Cluster.Loop.{for_each, for_each_keeps, for_each_done, for_each_frame}
use cryostat_operator.Cluster.Delete.{ignored_gone, ignored_frame}
use cryostat_operator.Controller.PerNamespace.{sync_target, sync_dropped, sync_other}
use cryostat_operator.Controller.Namespaces.{to_delete}
use cryostat_operator.Controller.Rbac.{
  Subject, RoleRef, RoleBinding, delete_role_binding, bind_namespace, role_binding_key,
  service_account_subject, namespaced_role_ref, reconcile_role_binding, finalize_role_bindings,
}
use cryostat_operator.Controller.Rbac.Binding.{
  create_or_update_role_binding_done, create_or_update_role_binding_frame,
}

-- Who gets which role by a binding.
abbrev pub grant : Option RoleBinding → Option (List Subject × RoleRef)
grant = map_option (λ b. (b.subjects, b.role_ref))

module _ {S : Type 0} (B : Resource S RoleBinding) (L : IsLawful B) (H : Checksums)
    (gvk : GroupVersionKind) {K : Kube} (cr : CryostatInstance K) where
  abbrev binding_in : S → String → Option RoleBinding
  binding_in s ns = B.read s (role_binding_key B H gvk cr ns)

  abbrev remove_in : String → M S (Unit {0})
  remove_in ns = delete_role_binding B (role_binding_key B H gvk cr ns)

  other_namespace :
      (ns j : String)
      → (ns == j) ≡ false
      → same_key (role_binding_key B H gvk cr ns) (role_binding_key B H gvk cr j) ≡ false
  other_namespace ns j h = ground arith

  bind-frame :
      (ns j : String) (s : S)
      → (ns == j) ≡ false
      → binding_in (bind_namespace B H gvk cr ns s).1 j ≡ binding_in s j
  bind-frame ns j s h =
      create_or_update_role_binding_frame B L 2 _ _ _ _ _ s (other_namespace ns j h)

  remove-frame :
      (ns j : String) (s : S) → (ns == j) ≡ false → binding_in (remove_in ns s).1 j ≡ binding_in s j
  unfolding delete_role_binding
  remove-frame ns j s h = ignored_frame B L _ _ s (other_namespace ns j h)

  remove_done :
      (ns : String) (s : S) → (remove_in ns s).0 ≡ ok tt → binding_in (remove_in ns s).1 ns ≡ none
  unfolding delete_role_binding
  remove_done ns s h = ignored_gone B L _ s h

  abbrev Granted : String → Option RoleBinding → Type 0
  Granted ns found =
      grant found ≡ some (service_account_subject B H gvk cr ∷ [], namespaced_role_ref B H gvk cr)

  bind_done :
      (ns : String) (s : S)
      → (bind_namespace B H gvk cr ns s).0 ≡ ok tt
      → Granted ns (binding_in (bind_namespace B H gvk cr ns s).1 ns)
  bind_done ns s h =
      let (b, found, subjects, ref) = (create_or_update_role_binding_done B L _ _ _ _ 0 s).1 h in
      ground arith

  -- After a reconciliation that succeeds, each target namespace has a binding of the service
  -- account to the namespaced role, a namespace of the status that is no target any more has none,
  -- and any other namespace has the binding that it had.
  pub reconcile_role_binding_grants :
      (s : S) (ns : String)
      → (reconcile_role_binding B H gvk cr s).0 ≡ ok tt
      → grant (B.read (reconcile_role_binding B H gvk cr s).1 (role_binding_key B H gvk cr ns)) ≡ (
          if contains cr.target_namespaces ns
          then some (service_account_subject B H gvk cr ∷ [], namespaced_role_ref B H gvk cr)
          else if contains cr.target_namespace_status ns
          then none
          else grant (B.read s (role_binding_key B H gvk cr ns)))
  unfolding reconcile_role_binding
  reconcile_role_binding_grants s ns h = elim (Bool-cases (contains cr.target_namespaces ns)) [
    | inl target ↦ rw target (
        sync_target (bind_namespace B H gvk cr) remove_in binding_in Granted bind-frame bind_done
          remove-frame remove_done cr s ns h target)
    | inr other ↦ elim (Bool-cases (contains cr.target_namespace_status ns)) [
      | inl dropped ↦ rw other (
          rw dropped (
            ap grant (
              sync_dropped (bind_namespace B H gvk cr) remove_in binding_in Granted bind-frame
                bind_done remove-frame remove_done cr s ns h other dropped)))
      | inr unknown ↦ rw other (
          rw unknown (
            ap grant (
              sync_other (bind_namespace B H gvk cr) remove_in binding_in Granted bind-frame
                bind_done remove-frame remove_done cr s ns h other unknown)))
    ]
  ]

  -- Finalizing the role bindings, if it succeeds, has removed the installation's binding from each
  -- target namespace, and from no other namespace.
  pub finalize_role_bindings_removes :
      (s : S) (ns : String)
      → (finalize_role_bindings B H gvk cr s).0 ≡ ok tt
      → B.read (finalize_role_bindings B H gvk cr s).1 (role_binding_key B H gvk cr ns) ≡ (
          if contains cr.target_namespaces ns
          then none
          else B.read s (role_binding_key B H gvk cr ns))
  unfolding finalize_role_bindings
  finalize_role_bindings_removes s ns h = elim (Bool-cases (contains cr.target_namespaces ns)) [
    | inl target ↦ rw target (
        for_each_done remove_in binding_in (λ _ found. found ≡ none) remove-frame remove_done
          cr.target_namespaces s ns h target)
    | inr other ↦ rw other (
        for_each_frame remove_in binding_in (λ _ found. found ≡ none) remove-frame remove_done
          cr.target_namespaces s ns other)
  ]

  -- Neither touches a binding that has another name than the installation's, even if it fails.
  other_name :
      (ns : String) (j : Key)
      → (cluster_unique_name H gvk cr.name cr.install_namespace == j.name) ≡ false
      → same_key (role_binding_key B H gvk cr ns) j ≡ false
  other_name ns j h = ground arith

  -- A binding whose name is not the installation's own is left alone by a reconciliation, whether
  -- it succeeds or fails.
  pub reconcile_role_binding_frame :
      (s : S) (j : Key)
      → (cluster_unique_name H gvk cr.name cr.install_namespace == j.name) ≡ false
      → B.read (reconcile_role_binding B H gvk cr s).1 j ≡ B.read s j
  unfolding reconcile_role_binding delete_role_binding
  reconcile_role_binding_frame s j h =
      let bind = for_each cr.target_namespaces (bind_namespace B H gvk cr) in
      let bound =
        for_each_keeps (bind_namespace B H gvk cr) (λ t. B.read t j)
          (λ ns t. create_or_update_role_binding_frame B L 2 _ j _ _ _ t (other_name ns j h))
          cr.target_namespaces s in
      let cleaned =
        for_each_keeps remove_in (λ t. B.read t j)
          (λ ns t. ignored_frame B L _ j t (other_name ns j h)) (to_delete cr) (bind s).1 in
      ground arith
