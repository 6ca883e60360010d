-- ===== src/Controller/Reconciler.antt =====
-- One reconciliation (internal/controller/reconciler.go, internal/controller/cryostat_controller.go):
-- `reconcileCryostat`, `finalizeCryostat` and `Reconcile`.
pub mod Waits
mod Tests
use cryostat_operator.Prelude.{
  ◌≡◌, ℕ, String, Bool, true, false, Option, none, some, List, [], ◌∷◌, get_or, is_some,
  if◌then◌else◌,
}
use cryostat_operator.Prelude.Int.{ℤ}
use cryostat_operator.Api.Kube.{Kube}
use cryostat_operator.Api.V1beta2.{Cryostat, CryostatStatus}
use cryostat_operator.Common.Instance.{CryostatInstance, from_cryostat}
use cryostat_operator.Cluster.{Key, Getter}
use cryostat_operator.Cluster.Monad.{
  Result, ok, err, Err, cert_not_ready, ingress_not_ready, M, pure, raise, lift, ◌>>=◌, ◌>>◌, catch,
  is_not_found,
}
use cryostat_operator.Cluster.Self.{Self}
use cryostat_operator.Controller.ConfigMaps.Contents.{TlsConfig}

-- `reconcile.Result` without an error: nothing to do, or again after some seconds.
pub data Requeue : Type 0 where
  finished : Requeue
  requeue_after : ℕ → Requeue

-- What the code reads of the object's metadata.
pub record ObjectState : Type 0 where
  pub is_deleted : Bool
  pub has_finalizer : Bool

-- The methods that `reconcileCryostat` and `finalizeCryostat` call, one field for each, with the
-- types that they hand on: `Specs` for `ServiceSpecs`, which the services fill in, and `Deployment`.
-- A method that writes the status returns the instance with it.
pub record Steps (K : Kube) (S : Type 0) : Type 1 where
  pub Specs : Type 0
  pub Deployment : Type 0
  pub add_finalizer : M S (Unit {0})
  pub remove_finalizer : M S (Unit {0})
  pub reconcile_lock_config_map : CryostatInstance K → M S (Unit {0})
  pub reconcile_secrets : CryostatInstance K → M S (CryostatInstance K)
  pub reconcile_rbac : CryostatInstance K → M S (Unit {0})
  pub configure_tls : CryostatInstance K → M S (Option TlsConfig × CryostatInstance K)
  pub reconcile_oauth2_proxy_config : CryostatInstance K → Option TlsConfig → M S (Unit {0})
  pub reconcile_agent_proxy_config : CryostatInstance K → Option TlsConfig → M S (Unit {0})
  pub new_specs : Specs
  -- The text of the core's URL, if one is known.
  pub core_url : Specs → Option String
  pub reconcile_core_service : CryostatInstance K → Option TlsConfig → Specs → M S Specs
  pub reconcile_core_network_policy : CryostatInstance K → M S (Unit {0})
  pub reconcile_agent_gateway_service : CryostatInstance K → M S (Unit {0})
  pub reconcile_agent_callback_services : CryostatInstance K → M S (Unit {0})
  pub get_fs_group : String → M S ℤ
  pub reconcile_database :
      CryostatInstance K → Option TlsConfig → Specs → ℤ → M S (CryostatInstance K × Specs)
  pub reconcile_storage :
      CryostatInstance K → Option TlsConfig → Specs → ℤ → M S (CryostatInstance K × Specs)
  pub reconcile_reports :
      CryostatInstance K → Option TlsConfig → Specs → M S (CryostatInstance K × Specs)
  pub new_deployment : CryostatInstance K → Option TlsConfig → Specs → ℤ → Result Deployment
  pub create_or_update_deployment : CryostatInstance K → Deployment → M S (Unit {0})
  pub reconcile_open_shift : CryostatInstance K → M S (Unit {0})
  pub update_conditions_from_deployment : CryostatInstance K → Deployment → M S (CryostatInstance K)
  pub finalize_rbac : CryostatInstance K → M S (Unit {0})
  pub finalize_open_shift : CryostatInstance K → M S (Unit {0})
  pub finalize_agent_callback_services : CryostatInstance K → M S (Unit {0})
  pub is_cert_manager_enabled : CryostatInstance K → Bool
  pub finalize_tls : CryostatInstance K → M S (Unit {0})

-- `if err == … { return reconcile.Result{RequeueAfter: 5 * time.Second}, nil }`
unfoldable pub requeue_if : {S : Type 0} → (Err → Bool) → Err → M S Requeue
requeue_if waits e = if waits e then pure (requeue_after 5) else raise e

abbrev pub is_cert_not_ready : Err → Bool
is_cert_not_ready cert_not_ready = true
is_cert_not_ready _ = false

abbrev pub is_ingress_not_ready : Err → Bool
is_ingress_not_ready ingress_not_ready = true
is_ingress_not_ready _ = false

-- A call whose error may mean to wait: the rest of the reconciliation is the continuation.
abbrev pub wait_or :
    {S A : Type 0} → (Err → Bool) → Result A × S → (A → M S Requeue) → Result Requeue × S
wait_or waits (ok a, s) rest = rest a s
wait_or waits (err e, s) rest = requeue_if waits e s

abbrev pub attempt : {S A : Type 0} → (Err → Bool) → M S A → (A → M S Requeue) → M S Requeue
attempt waits m rest s = wait_or waits (m s) rest

module _ {K : Kube} {S : Type 0} (C : Self S (CryostatStatus K)) (P : Steps K S) where
  unfoldable pub finalize_cryostat : CryostatInstance K → M S (Unit {0})
  finalize_cryostat cr = do
    P.finalize_rbac cr
    P.finalize_open_shift cr
    P.finalize_agent_callback_services cr
    (if P.is_cert_manager_enabled cr then P.finalize_tls cr else pure tt)
    P.remove_finalizer

  -- Before the access rights: the finalizer, the lock and the secrets.
  unfoldable pub prepare : ObjectState → CryostatInstance K → M S (CryostatInstance K)
  prepare object cr = do
    (if object.has_finalizer then pure tt else P.add_finalizer)
    P.reconcile_lock_config_map cr
    P.reconcile_secrets cr

  -- What the status records when everything is in place: the URL, and the namespaces.
  abbrev pub recorded : CryostatInstance K → P.Specs → CryostatInstance K
  recorded cr specs = record cr {
    target_namespace_status = cr.target_namespaces;
    status = record cr.status {
      application_url = get_or (P.core_url specs) cr.status.application_url;
      target_namespaces = some cr.target_namespaces;
    };
  }

  -- The core's deployment, the status, and what comes after it.
  unfoldable pub complete : CryostatInstance K → Option TlsConfig → P.Specs → ℤ → M S Requeue
  complete cr tls specs fs_group = do
    deployment ← lift (P.new_deployment cr tls specs fs_group)
    P.create_or_update_deployment cr deployment
    C.update_status (recorded cr specs).status
    P.reconcile_open_shift (recorded cr specs)
    updated ← P.update_conditions_from_deployment (recorded cr specs) deployment
    pure finished

  -- Behind the core's service: the other services, and the deployments.
  unfoldable pub deploy : CryostatInstance K → Option TlsConfig → P.Specs → M S Requeue
  unfolding complete
  deploy cr tls specs = do
    P.reconcile_core_network_policy cr
    P.reconcile_agent_gateway_service cr
    P.reconcile_agent_callback_services cr
    fs_group ← P.get_fs_group cr.install_namespace
    database ← P.reconcile_database cr tls specs fs_group
    storage ← P.reconcile_storage database.0 tls database.1 fs_group
    reports ← P.reconcile_reports storage.0 tls storage.1
    complete reports.0 tls reports.1 fs_group

  -- Behind the access rights: TLS, the configuration maps and the core's service.
  unfoldable pub serve : CryostatInstance K → M S Requeue
  unfolding deploy
  serve cr = attempt is_cert_not_ready (P.configure_tls cr) λ secured. do
    P.reconcile_oauth2_proxy_config secured.1 secured.0
    P.reconcile_agent_proxy_config secured.1 secured.0
    attempt is_ingress_not_ready (P.reconcile_core_service secured.1 secured.0 P.new_specs)
        (deploy secured.1 secured.0)

  unfoldable pub reconcile_cryostat : ObjectState → CryostatInstance K → M S Requeue
  unfolding finalize_cryostat prepare serve
  reconcile_cryostat object cr =
      if object.is_deleted
      then (do (if object.has_finalizer then finalize_cryostat cr else pure tt); pure finished)
      else (do prepared ← prepare object cr; P.reconcile_rbac prepared; serve prepared)

  -- An object that is gone needs nothing more.
  unfoldable pub reconcile : Getter S (Cryostat K) → (Cryostat K → ObjectState) → Key → M S Requeue
  unfolding reconcile_cryostat
  reconcile get object_state request = do
    found ←
        catch (get request >>= λ cr. pure (some cr))
          (λ e. if is_not_found e then pure none else raise e)
    elim found [
      | none ↦ pure finished
      | some cr ↦ reconcile_cryostat (object_state cr) (from_cryostat K cr)
    ]
