-- ===== src/Webhook/Deployment/Labels.antt =====
-- Which labels the pods of a deployment get.
use cryostat_operator.Prelude.{
  ◌≡◌, String, true, ◌&&◌, ◌==◌, eq_iff, Option, none, some, [], ◌∷◌, arith, contains, get_or,
  is_some, if◌then◌else◌, Bool-cases, Option-cases, inl, inr,
}
use cryostat_operator.Prelude.Dict.{Dict, lookup, lookup-insert}
use cryostat_operator.Api.Kube.{Kube, StringMap}
use cryostat_operator.Api.V1beta2.{Cryostat}
use cryostat_operator.Common.Metadata.Laws.{value_at, prefer}
use cryostat_operator.Cluster.{Key}
use cryostat_operator.Cluster.Monad.{Result, ok, and_then, and_then-eq-ok}
use cryostat_operator.Webhook.Deployment.{
  Parsers, Deployment, has_prefix, copy_label_if_exists, propagate_labels, cryostat_of,
  check_target, check_labels, default_deployment,
}

-- The agent's labels of the deployment, and no others.
abbrev pub handed_on : StringMap → String → Option String
handed_on labels k = if has_prefix "cryostat.io/" k then value_at k labels else none

lookup-copy_label_if_exists :
    (labels template out : StringMap) (key k : String)
    → copy_label_if_exists labels key template ≡ ok out
    → value_at k out
      ≡ (if k == key then prefer (value_at k labels) (value_at k template) else value_at k template)
unfolding copy_label_if_exists
lookup-copy_label_if_exists labels none out key k h = ground (arith, eq_iff k key)
lookup-copy_label_if_exists labels (some m) out key k h =
    elim (Option-cases (value_at key labels)) [
      | inl absent ↦ ground (arith, eq_iff k key)
      | inr (v, present) ↦ ground (arith, eq_iff k key, lookup-insert key k v m)
    ]

lookup-propagate_labels :
    (l : Dict String) (labels template out : StringMap) (k : String)
    → propagate_labels l labels template ≡ ok out
    → value_at k out ≡ (
        if has_prefix "cryostat.io/" k && is_some (lookup k l)
        then prefer (value_at k labels) (value_at k template)
        else value_at k template)
unfolding propagate_labels lookup
lookup-propagate_labels [] labels template out k h = ground arith
lookup-propagate_labels ((key, value) ∷ rest) labels template out k h =
    let step : Result StringMap =
      if has_prefix "cryostat.io/" key
      then copy_label_if_exists labels key template
      else ok template in
    let (next, stepped, later) = and_then-eq-ok step (propagate_labels rest labels) h in
    let again = lookup-propagate_labels rest labels next out k later in
    elim (Bool-cases (has_prefix "cryostat.io/" key)) [
      | inl agent ↦
          let copied =
            lookup-copy_label_if_exists labels template next key k (rw agent at stepped) in
          ground (arith, eq_iff k key)
      | inr other ↦ let same : template ≡ next = ground arith in ground (arith, eq_iff k key)
    ]

module _ (P : Parsers) {K : Kube} (get_cryostat : Key → Result (Cryostat K))
    (deployment out : Deployment) where
  -- What a deployment that passes has passed.
  abbrev Passed : Type 0
  Passed =
      ((cr : Cryostat K) × (cryostat_of P get_cryostat deployment ≡ ok cr)
        × (check_target P get_cryostat deployment cr ≡ ok tt))
      × (check_labels P get_cryostat deployment.labels ≡ ok tt)
      × ((template : StringMap) × (propagate_labels (get_or deployment.labels []) deployment.labels
              deployment.template_labels
            ≡ ok template)
          × (out ≡ record deployment { template_labels = template }))

  default_deployment_passed : default_deployment P get_cryostat deployment ≡ ok out → Passed
  unfolding default_deployment
  default_deployment_passed h =
      let propagated =
        propagate_labels (get_or deployment.labels []) deployment.labels
          deployment.template_labels in
      let finish : StringMap → Result Deployment =
        λ template. ok (record deployment { template_labels = template }) in
      let (cr, found, h1) =
        and_then-eq-ok (cryostat_of P get_cryostat deployment)
          (λ cr. and_then (check_target P get_cryostat deployment cr) λ _.
            and_then (check_labels P get_cryostat deployment.labels)
              λ _. and_then propagated finish)
          h in
      let (_, target, h2) =
        and_then-eq-ok (check_target P get_cryostat deployment cr)
          (λ _.
            and_then (check_labels P get_cryostat deployment.labels)
              λ _. and_then propagated finish)
          h1 in
      let (_, labels, h3) =
        and_then-eq-ok (check_labels P get_cryostat deployment.labels)
          (λ _. and_then propagated finish) h2 in
      let (template, copied, h4) = and_then-eq-ok propagated finish h3 in
      ((cr, found, target), labels, (template, copied, ground arith))

  -- If the webhook lets a deployment pass, each of the deployment's labels with the agent's prefix
  -- has its value in the pods' labels, and each other label of the pods is what it was.
  pub lookup-default_deployment :
      (k : String)
      → default_deployment P get_cryostat deployment ≡ ok out
      → value_at k out.template_labels
        ≡ prefer (handed_on deployment.labels k) (value_at k deployment.template_labels)
  lookup-default_deployment k h =
      let (_, _, (template, copied, same)) = default_deployment_passed h in
      let found =
        lookup-propagate_labels (get_or deployment.labels []) deployment.labels
          deployment.template_labels template k copied in
      rw same (ground arith)

  -- The webhook lets a deployment pass only in a target namespace, by the status, of the Cryostat
  -- object that the deployment's labels name.
  pub default_deployment_guard :
      default_deployment P get_cryostat deployment ≡ ok out
      → (cr : Cryostat K) × (cryostat_of P get_cryostat deployment ≡ ok cr)
        × (contains (get_or cr.status.target_namespaces []) deployment.namespace ≡ true)
  unfolding check_target
  default_deployment_guard h =
      let ((cr, found, target), _, _) = default_deployment_passed h in (cr, found, ground arith)
