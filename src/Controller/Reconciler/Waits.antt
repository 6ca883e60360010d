-- ===== src/Controller/Reconciler/Waits.antt =====
-- What a reconciliation waits for.
use cryostat_operator.Prelude.{◌≡◌, ◌⊎◌, Option}
use cryostat_operator.Api.Kube.{Kube}
use cryostat_operator.Api.V1beta2.{CryostatStatus}
use cryostat_operator.Common.Instance.{CryostatInstance}
use cryostat_operator.Cluster.Monad.{ok, err, cert_not_ready, ingress_not_ready, M}
use cryostat_operator.Cluster.Self.{Self}
use cryostat_operator.Controller.ConfigMaps.Contents.{TlsConfig}
use cryostat_operator.Controller.Reconciler.{Steps, Requeue, finished, requeue_after}

module _ {S : Type 0} where
  -- All results of a computation are of a kind.
  abbrev Gives : {B : Type 0} → (B → Type 0) → M S B → Type 0
  Gives {B} E m = (s : S) (b : B) → (m s).0 ≡ ok b → E b

module _ {K : Kube} {S : Type 0} (C : Self S (CryostatStatus K)) (P : Steps K S) where
  -- Some call of `configureTLS` has said that the certificates are not ready.
  abbrev pub TlsWaits : Type 0
  TlsWaits = (cr : CryostatInstance K) × (s : S) × ((P.configure_tls cr s).0 ≡ err cert_not_ready)

  -- Some call of `reconcileCoreService` has said that the ingress is not ready.
  abbrev pub IngressWaits : Type 0
  IngressWaits =
      (cr : CryostatInstance K) × (tls : Option TlsConfig) × (s : S) × ((P.reconcile_core_service cr
          tls P.new_specs s).0
        ≡ err ingress_not_ready)

  abbrev IsExplained : Requeue → Type 0
  IsExplained finished = Unit {0}
  IsExplained (requeue_after n) = (n ≡ 5) × (TlsWaits ⊎ IngressWaits)
