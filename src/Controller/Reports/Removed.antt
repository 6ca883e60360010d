-- ===== src/Controller/Reports/Removed.antt =====
-- Without replicas nothing is left of the report generator.
use cryostat_operator.Prelude.{◌≡◌, Bool, true, none, Option, arith, ap, ◌∙◌, ℕ, zero, suc, [], ◌∷◌}
use cryostat_operator.Prelude.Int.{pos, negsuc}
use cryostat_operator.Api.Kube.{Kube}
use cryostat_operator.Common.Instance.{CryostatInstance}
use cryostat_operator.Cluster.{IsLawful, Ownership}
use cryostat_operator.Cluster.Apart.{IsApart, ignored_keeps}
use cryostat_operator.Cluster.Delete.{ignored_gone}
use cryostat_operator.Cluster.Loop.{bind-eq-ok}
use cryostat_operator.Cluster.Monad.{ok}
use cryostat_operator.Cluster.Self.{IsBeside}
use cryostat_operator.Controller.Deployments.{Deployment, delete_deployment}
use cryostat_operator.Api.V1beta2.{CryostatStatus}
use cryostat_operator.Controller.Conditions.{with_conditions, remove_condition_if_present}
use cryostat_operator.Controller.Templates.{new_deployment_for_reports}
use cryostat_operator.Controller.Policies.{reconcile_reports_network_policy}
use cryostat_operator.Controller.Policies.Admitted.{reconcile_reports_network_policy_keeps}
use cryostat_operator.Controller.ServiceObject.{Url, is_zero}
use cryostat_operator.Controller.Services.{reconcile_reports_service}
use cryostat_operator.Controller.Services.Stored.{routing, routing-reconcile_reports_service}
use cryostat_operator.Controller.Reports.{
  ℤ, remove_reports, ReportsCalls, desired_reports, reports_key, reconcile_reports, scale_reports,
}

-- What the calls leave alone: those for one kind of object, the objects of the other kinds.
pub record IsApartReports {K : Kube} {O : Ownership} {S : Type 0} (C : ReportsCalls K O S)
    : Type 0 where
  pub policies_apart : IsApart C.services.read C.policies
  pub deployments_apart : IsApart C.services.read C.deployments
  pub status_beside_services : IsBeside C.services.read C.self
  pub status_beside_deployments : IsBeside C.deployments.read C.self

module _ {K : Kube} {O : Ownership} {S : Type 0} (C : ReportsCalls K O S) (cr : CryostatInstance K)
    (services_lawful : IsLawful C.services) (deployments_lawful : IsLawful C.deployments)
    (A : IsApartReports C) where
  service_removed :
      (tls : Bool) (s : S) (url : Option Url)
      → is_zero (desired_reports C cr) ≡ true
      → (reconcile_reports_service C.services cr tls s).0 ≡ ok url
      → C.services.read (reconcile_reports_service C.services cr tls s).1 (reports_key C cr) ≡ none
  service_removed tls s url unasked h =
      let unrouted : routing
            (C.services.read (reconcile_reports_service C.services cr tls s).1 (reports_key C cr))
          ≡ none =
        rw unasked at
          (routing-reconcile_reports_service C.services services_lawful cr tls s url h) in
      ground arith

  abbrev left_status : CryostatStatus K
  left_status =
      (with_conditions C.conditions C.self cr (
        remove_condition_if_present C.conditions
          ("ReportsDeploymentAvailable" ∷ "ReportsDeploymentProgressing"
            ∷ "ReportsDeploymentReplicaFailure" ∷ [])
          cr.status.conditions)).status

  remove_reports_ok :
      (s : S) (updated : CryostatInstance K)
      → (remove_reports C cr s).0 ≡ ok updated
      → (C.deployments.read (remove_reports C cr s).1 (reports_key C cr) ≡ none)
        × (C.services.read (remove_reports C cr s).1 ≡ C.services.read s)
  unfolding remove_reports delete_deployment
  remove_reports_ok s updated h =
      let (u, deleted, saved, same1) =
        bind-eq-ok (delete_deployment C.deployments (reports_key C cr)) _ s h in
      let (v, written, returned, saved_same) =
        bind-eq-ok (C.self.update_status left_status) _ _ saved in
      let s1 = (delete_deployment C.deployments (reports_key C cr) s).1 in
      let same : (remove_reports C cr s).1 ≡ (C.self.update_status left_status s1).1 =
        same1 ∙ saved_same in
      (
        ap (λ x. C.deployments.read x (reports_key C cr)) same
            ∙ ap (λ r. r (reports_key C cr))
                (A.status_beside_deployments.status_keeps left_status s1)
            ∙ ignored_gone C.deployments deployments_lawful (reports_key C cr) s deleted,
        ap C.services.read same
            ∙ A.status_beside_services.status_keeps left_status s1
            ∙ ignored_keeps C.services.read C.deployments A.deployments_apart (reports_key C cr) s,
      )

  scale_removes :
      (fuel : ℕ) (deployment : Deployment C.types O) (desired : ℤ) (s : S)
      (updated : CryostatInstance K)
      → is_zero desired ≡ true
      → (scale_reports C cr fuel deployment desired s).0 ≡ ok updated
      → (C.deployments.read (scale_reports C cr fuel deployment desired s).1 (reports_key C cr)
          ≡ none)
        × (C.services.read (scale_reports C cr fuel deployment desired s).1 ≡ C.services.read s)
  scale_removes fuel deployment (pos zero) s updated unasked h = remove_reports_ok s updated h
  scale_removes fuel deployment (pos (suc n)) s updated unasked h = absurd (ground arith)
  scale_removes fuel deployment (negsuc n) s updated unasked h = absurd (ground arith)

  -- If no replicas of the report generator are asked for, a reconciliation of it that succeeds leaves
  -- neither its service nor its deployment, also where both were there before.
  pub reconcile_reports_removes :
      (fuel : ℕ) (tls : Bool) (s : S) (out : CryostatInstance K × Option Url)
      → is_zero (desired_reports C cr) ≡ true
      → (reconcile_reports C cr fuel tls s).0 ≡ ok out
      → (C.services.read (reconcile_reports C cr fuel tls s).1 (reports_key C cr) ≡ none)
        × (C.deployments.read (reconcile_reports C cr fuel tls s).1 (reports_key C cr) ≡ none)
  unfolding reconcile_reports
  reconcile_reports_removes fuel tls s out unasked h =
      let (url, served, h1, same1) =
        bind-eq-ok (reconcile_reports_service C.services cr tls) _ s h in
      let s1 = (reconcile_reports_service C.services cr tls s).1 in
      let (u, allowed, h2, same2) =
        bind-eq-ok (reconcile_reports_network_policy C.policies cr) _ s1 h1 in
      let s2 = (reconcile_reports_network_policy C.policies cr s1).1 in
      let scale =
        scale_reports C cr fuel (new_deployment_for_reports C.types O cr (C.new_pod tls url))
          (desired_reports C cr) in
      let (updated, scaled, h3, same3) = bind-eq-ok scale _ s2 h2 in
      let (gone, kept) =
        scale_removes fuel (new_deployment_for_reports C.types O cr (C.new_pod tls url))
          (desired_reports C cr) s2 updated unasked scaled in
      let same : (reconcile_reports C cr fuel tls s).1 ≡ (scale s2).1 = same1 ∙ same2 ∙ same3 in
      let unserved = service_removed tls s url unasked served in
      (
        ap (λ x. C.services.read x (reports_key C cr)) same
            ∙ ap (λ r. r (reports_key C cr))
                (kept
                  ∙ reconcile_reports_network_policy_keeps C.policies C.services.read
                      A.policies_apart cr s1)
            ∙ unserved,
        ap (λ x. C.deployments.read x (reports_key C cr)) same ∙ gone,
      )
