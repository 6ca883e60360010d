-- ===== src/Controller/Rbac/Rounds.antt =====
-- The role bindings over a sequence of reconciliations between which the user edits the target
-- namespaces. Each is `reconcileRBAC`, after which the status records the namespaces that were
-- targeted, as `reconcileCryostat` does at its end (internal/controller/reconciler.go); what it does
-- in between is not part of this.
use cryostat_operator.Prelude.{◌≡◌, String, Bool, List, is_some, contains}
use cryostat_operator.Api.Kube.{Kube}
use cryostat_operator.Common.Instance.{CryostatInstance}
use cryostat_operator.Common.Naming.{Checksums, GroupVersionKind}
use cryostat_operator.Cluster.{Ownership}
use cryostat_operator.Cluster.Monad.{ok}
use cryostat_operator.Controller.Rbac.{role_binding_key}
use cryostat_operator.Controller.Rbac.All.{Access, reconcile_rbac}

-- The namespaces that the status records, and the cluster.
pub record World (S : Type 0) : Type 0 where
  pub recorded : List String
  pub cluster : S

module _ {O : Ownership} {S : Type 0} (A : Access O S) (H : Checksums) (gvk : GroupVersionKind)
    {K : Kube} (cr : CryostatInstance K) where
  -- The instance with the namespaces that the user targets now, and with those of the status.
  abbrev pub targeting : List String → World S → CryostatInstance K
  targeting targets w = record cr {
    target_namespaces = targets;
    target_namespace_status = w.recorded;
  }

  module _ (openshift : Bool) where
    -- The reconciliations that have succeeded one after the other, each for its own targets.
    pub data Rounds (start : World S) : World S → Type 0 where
      not_yet : Rounds start start
      reconciled :
          {w : World S} (targets : List String)
          → Rounds start w
          → (reconcile_rbac A H gvk (targeting targets w) openshift w.cluster).0 ≡ ok tt
          → Rounds start (record {
            recorded = targets;
            cluster = (reconcile_rbac A H gvk (targeting targets w) openshift w.cluster).1;
          })

  -- The installation's service account has a role in the namespaces that the status records, and in
  -- no other.
  abbrev pub IsExact : World S → Type 0
  IsExact w =
      (ns : String)
      → is_some (A.bindings.read w.cluster (role_binding_key A.bindings H gvk cr ns))
        ≡ contains w.recorded ns
