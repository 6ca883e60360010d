-- ===== src/Controller/Rbac/All.antt =====
-- `reconcileRBAC` and `finalizeRBAC` (internal/controller/rbac.go): service account, role, role
-- bindings and cluster role binding, in this order.
use cryostat_operator.Prelude.{
  refl, ap, ◌≡◌, ◌∙◌, String, Bool, Option, none, some, List, [], ◌∷◌, contains, if◌then◌else◌,
  arith,
}
use cryostat_operator.Api.Kube.{Kube}
use cryostat_operator.Common.Instance.{CryostatInstance}
use cryostat_operator.Common.Metadata.{SetMetaData, SetsOne}
use cryostat_operator.Common.Naming.{Checksums, GroupVersionKind}
use cryostat_operator.Cluster.{Key, Ownership, IsOwnership, Resource, IsLawful, Getter, IsFaithful}
use cryostat_operator.Cluster.Apart.{IsApart, ignored_keeps}
use cryostat_operator.Cluster.Delete.{ignored_gone}
use cryostat_operator.Cluster.Loop.{for_each, for_each_keeps, >>-eq-ok}
use cryostat_operator.Cluster.Monad.{ok, M, ◌>>◌}
use cryostat_operator.Cluster.Recreate.{create_or_recreate_keeps}
use cryostat_operator.Controller.Namespaces.{to_delete}
use cryostat_operator.Controller.Rbac.{
  Subject, RoleRef, RoleBinding, is_role_ref_modified, recreate_role_binding, delete_role_binding,
  create_or_update_role_binding, bind_namespace, role_binding_key, service_account_subject,
  namespaced_role_ref, reconcile_role_binding, finalize_role_bindings,
}
use cryostat_operator.Controller.Rbac.ServiceAccount.{
  ServiceAccount, Role, Marshal, IsAccountOf, service_account_key, reconcile_service_account,
  reconcile_service_account_ok, reconcile_service_account_keeps, reconcile_role,
  reconcile_role_keeps,
}
use cryostat_operator.Controller.Rbac.ClusterBinding.{
  delete_cluster_role_binding, cluster_role_binding_key, cluster_role_ref,
  reconcile_cluster_role_binding, reconcile_cluster_role_binding_done,
  reconcile_cluster_role_binding_keeps,
}
use cryostat_operator.Controller.Rbac.Namespaces.{
  grant, reconcile_role_binding_grants, finalize_role_bindings_removes,
}

-- The calls for the kinds of objects that `rbac.go` makes, and what else it calls.
pub record Access (O : Ownership) (S : Type 0) : Type 0 where
  pub accounts : Resource S (ServiceAccount O)
  pub roles : Resource S (Role O)
  pub get_role : Getter S (Role O)
  pub bindings : Resource S RoleBinding
  pub cluster_bindings : Resource S RoleBinding
  pub set_meta_data : SetMetaData
  pub marshal : Marshal

-- The calls have their documented behaviour, and those for one kind leave the other kinds alone.
pub record IsAccess {O : Ownership} {S : Type 0} (A : Access O S) : Type 0 where
  pub owner_laws : IsOwnership O
  pub accounts_lawful : IsLawful A.accounts
  pub get_role_faithful : IsFaithful A.roles A.get_role
  pub bindings_lawful : IsLawful A.bindings
  pub cluster_bindings_lawful : IsLawful A.cluster_bindings
  pub sets_one : SetsOne A.set_meta_data
  pub accounts_roles : IsApart A.accounts.read A.roles
  pub accounts_bindings : IsApart A.accounts.read A.bindings
  pub accounts_cluster : IsApart A.accounts.read A.cluster_bindings
  pub bindings_accounts : IsApart A.bindings.read A.accounts
  pub bindings_roles : IsApart A.bindings.read A.roles
  pub bindings_cluster : IsApart A.bindings.read A.cluster_bindings
  pub cluster_bindings_apart : IsApart A.cluster_bindings.read A.bindings

module _ {S : Type 0} (B : Resource S RoleBinding) (H : Checksums) (gvk : GroupVersionKind)
    {K : Kube} (cr : CryostatInstance K) {X : Type 0} (view : S → X) (apart : IsApart view B) where
  unbind-keeps :
      (ns : String) (s : S)
      → view (delete_role_binding B (role_binding_key B H gvk cr ns) s).1 ≡ view s
  unfolding delete_role_binding
  unbind-keeps ns s = ignored_keeps view B apart _ s

  bind-keeps : (ns : String) (s : S) → view (bind_namespace B H gvk cr ns s).1 ≡ view s
  unfolding create_or_update_role_binding recreate_role_binding delete_role_binding
  bind-keeps ns s =
      let k = role_binding_key B H gvk cr ns in
      create_or_recreate_keeps B is_role_ref_modified (recreate_role_binding B k)
        (delete_role_binding B k) (λ again t. refl) k _ view (λ t. apart.update_keeps k _ t)
        (λ t. ignored_keeps view B apart k t) 2 s

  pub reconcile_role_binding_keeps : (s : S) → view (reconcile_role_binding B H gvk cr s).1 ≡ view s
  unfolding reconcile_role_binding
  reconcile_role_binding_keeps s =
      let bound =
        for_each_keeps (bind_namespace B H gvk cr) view bind-keeps cr.target_namespaces s in
      let remove : String → M S (Unit {0}) =
        λ ns. delete_role_binding B (role_binding_key B H gvk cr ns) in
      let cleaned =
        for_each_keeps remove view unbind-keeps (to_delete cr)
          (for_each cr.target_namespaces (bind_namespace B H gvk cr) s).1 in
      ground arith

  pub finalize_role_bindings_keeps : (s : S) → view (finalize_role_bindings B H gvk cr s).1 ≡ view s
  unfolding finalize_role_bindings
  finalize_role_bindings_keeps s =
      for_each_keeps (λ ns. delete_role_binding B (role_binding_key B H gvk cr ns)) view
        unbind-keeps cr.target_namespaces s

grant_of :
    {found : Option RoleBinding} {b : RoleBinding} {subjects : List Subject} {ref : RoleRef}
    → found ≡ some b
    → b.subjects ≡ subjects
    → b.role_ref ≡ ref
    → grant found ≡ some (subjects, ref)
grant_of stored same_subjects same_ref = ground arith

module _ {O : Ownership} {S : Type 0} (A : Access O S) (H : Checksums) (gvk : GroupVersionKind)
    {K : Kube} (cr : CryostatInstance K) where
  unfoldable pub reconcile_rbac : Bool → M S (Unit {0})
  reconcile_rbac is_open_shift = do
    reconcile_service_account cr A.accounts A.set_meta_data A.marshal is_open_shift
    reconcile_role cr A.roles A.get_role
    reconcile_role_binding A.bindings H gvk cr
    reconcile_cluster_role_binding A.cluster_bindings H gvk cr

  unfoldable pub finalize_rbac : M S (Unit {0})
  finalize_rbac = do
    delete_cluster_role_binding A.cluster_bindings
        (cluster_role_binding_key A.cluster_bindings H gvk cr)
    finalize_role_bindings A.bindings H gvk cr

  -- What a namespace's binding grants after the reconciliation, from the bindings before it.
  abbrev pub granted_in : String → (Key → Option RoleBinding) → Option (List Subject × RoleRef)
  granted_in ns before =
      if contains cr.target_namespaces ns
      then some (
        service_account_subject A.bindings H gvk cr ∷ [],
        namespaced_role_ref A.bindings H gvk cr,
      )
      else if contains cr.target_namespace_status ns
      then none
      else grant (before (role_binding_key A.bindings H gvk cr ns))

  -- If the reconciliation of the access rights succeeds, then the service account is there with the
  -- installation as its controller, its label `app` is the installation's name and its other labels
  -- are as before; a namespace has the binding of the account to the namespaced role if it is a
  -- target, none if it is only in the status, and otherwise the binding that it had; and the cluster
  -- role is bound to the account alone.
  pub reconcile_rbac_grants :
      (I : IsAccess A) (openshift : Bool) (s : S) (ns : String)
      → (reconcile_rbac openshift s).0 ≡ ok tt
      → ((sa : ServiceAccount O) × (A.accounts.read
              (reconcile_rbac openshift s).1
              (service_account_key cr)
            ≡ some sa)
          × IsAccountOf cr.name (A.accounts.read s (service_account_key cr)) sa)
        × (grant (
              A.bindings.read
                (reconcile_rbac openshift s).1
                (role_binding_key A.bindings H gvk cr ns))
            ≡ (granted_in ns (A.bindings.read s)))
        × (grant (
              A.cluster_bindings.read
                (reconcile_rbac openshift s).1
                (cluster_role_binding_key A.cluster_bindings H gvk cr))
            ≡ some (
              service_account_subject A.bindings H gvk cr ∷ [],
              cluster_role_ref A.cluster_bindings H gvk cr,
            ))
  unfolding reconcile_rbac
  reconcile_rbac_grants I openshift s ns h =
      let account = reconcile_service_account cr A.accounts A.set_meta_data A.marshal openshift in
      let role = reconcile_role cr A.roles A.get_role in
      let bind = reconcile_role_binding A.bindings H gvk cr in
      let cluster = reconcile_cluster_role_binding A.cluster_bindings H gvk cr in
      let s1 = (account s).1 in
      let s2 = (role s1).1 in
      let s3 = (bind s2).1 in
      let (h1, later1, same1) = >>-eq-ok account (do role; bind; cluster) s h in
      let (h2, later2, same2) = >>-eq-ok role (do bind; cluster) s1 later1 in
      let (h3, h4, same3) = >>-eq-ok bind cluster s2 later2 in
      let same = same1 ∙ same2 ∙ same3 in
      let accounts_kept : A.accounts.read (reconcile_rbac openshift s).1 ≡ A.accounts.read s1 =
        ap A.accounts.read same
        ∙ reconcile_cluster_role_binding_keeps A.cluster_bindings H gvk cr A.accounts.read
            I.accounts_cluster s3
        ∙ reconcile_role_binding_keeps A.bindings H gvk cr A.accounts.read I.accounts_bindings s2
        ∙ reconcile_role_keeps cr A.roles A.get_role I.get_role_faithful A.accounts.read
            I.accounts_roles s1 in
      let bindings_kept : A.bindings.read (reconcile_rbac openshift s).1 ≡ A.bindings.read s3 =
        ap A.bindings.read same
        ∙ reconcile_cluster_role_binding_keeps A.cluster_bindings H gvk cr A.bindings.read
            I.bindings_cluster s3 in
      let bindings_before : A.bindings.read s2 ≡ A.bindings.read s =
        reconcile_role_keeps cr A.roles A.get_role I.get_role_faithful A.bindings.read
          I.bindings_roles s1
        ∙ reconcile_service_account_keeps cr A.accounts A.set_meta_data A.marshal openshift
            A.bindings.read I.bindings_accounts s in
      let (sa, stored, is_account) =
        reconcile_service_account_ok cr A.accounts A.set_meta_data A.marshal openshift
          I.accounts_lawful I.owner_laws I.sets_one s h1 in
      let (b, bound, subjects, ref) =
        (reconcile_cluster_role_binding_done A.cluster_bindings H gvk cr I.cluster_bindings_lawful
            s3).1
          h4 in
      (
        (sa, ap (λ r. r (service_account_key cr)) accounts_kept ∙ stored, is_account),
        ap (λ r. grant (r (role_binding_key A.bindings H gvk cr ns))) bindings_kept
            ∙ reconcile_role_binding_grants A.bindings I.bindings_lawful H gvk cr s2 ns h3
            ∙ ap (granted_in ns) bindings_before,
        ap
              (λ t.
                grant (
                  A.cluster_bindings.read t (cluster_role_binding_key A.cluster_bindings H gvk cr)))
              same
            ∙ grant_of bound subjects ref,
      )

  -- Finalizing the access rights, if it succeeds, has removed the installation's cluster role binding,
  -- and its binding from each target namespace and from no other namespace.
  pub finalize_rbac_removes :
      (I : IsAccess A) (s : S) (ns : String)
      → (finalize_rbac s).0 ≡ ok tt
      → (A.cluster_bindings.read
            (finalize_rbac s).1
            (cluster_role_binding_key A.cluster_bindings H gvk cr)
          ≡ none)
        × (A.bindings.read (finalize_rbac s).1 (role_binding_key A.bindings H gvk cr ns) ≡ (
            if contains cr.target_namespaces ns
            then none
            else A.bindings.read s (role_binding_key A.bindings H gvk cr ns)))
  unfolding finalize_rbac delete_cluster_role_binding
  finalize_rbac_removes I s ns h =
      let k = cluster_role_binding_key A.cluster_bindings H gvk cr in
      let unbind = delete_cluster_role_binding A.cluster_bindings k in
      let s1 = (unbind s).1 in
      let (h1, h2, same) = >>-eq-ok unbind (finalize_role_bindings A.bindings H gvk cr) s h in
      let kept =
        finalize_role_bindings_keeps A.bindings H gvk cr A.cluster_bindings.read
          I.cluster_bindings_apart s1 in
      let before = ignored_keeps A.bindings.read A.cluster_bindings I.bindings_cluster k s in
      (
        ap (λ t. A.cluster_bindings.read t k) same
            ∙ ap (λ r. r k) kept
            ∙ ignored_gone A.cluster_bindings I.cluster_bindings_lawful k s h1,
        ap (λ t. A.bindings.read t (role_binding_key A.bindings H gvk cr ns)) same
            ∙ finalize_role_bindings_removes A.bindings I.bindings_lawful H gvk cr s1 ns h2
            ∙ ap
                (λ r.
                  if contains cr.target_namespaces ns
                  then none
                  else r (role_binding_key A.bindings H gvk cr ns))
                before,
      )
