-- ===== src/Webhook/Deployment.antt =====
-- The labels of a deployment that are handed on to its pods
-- (internal/webhook/agent/deployment_defaulter.go), and the labels with durations and sizes
-- (webhook_utils.go). Durations and quantities are parsed by parameters.
pub mod Labels
mod Tests
use Prim.Native.Char.{Char, code}
use cryostat_operator.Prelude.{
  String, Bool, true, false, ◌&&◌, not, nat_eq, Option, none, some, List, [], ◌∷◌, get_or, contains,
  if◌then◌else◌,
}
use cryostat_operator.Prelude.Dict.{Dict, insert}
use cryostat_operator.Prelude.Int.{ℤ, pos, to_int32}
use cryostat_operator.Api.Kube.{Kube, StringMap}
use cryostat_operator.Api.V1beta2.{Cryostat}
use cryostat_operator.Common.Constants.{
  agent_label_prefix, agent_label_cryostat_name, agent_label_cryostat_namespace,
  agent_label_harvester_exit_max_age, agent_label_harvester_exit_max_size,
}
use cryostat_operator.Common.Metadata.Laws.{value_at}
use cryostat_operator.Cluster.{Key}
use cryostat_operator.Cluster.Monad.{Result, ok, err, failure, nil_pointer, and_then}
use cryostat_operator.Webhook.Agent.{invalid_label, get_agent_callback_port, has_write_access}

-- `time.ParseDuration` with its whole milliseconds, and `resource.ParseQuantity` with its value:
-- `none` is an error.
pub record Parsers : Type 0 where
  pub milliseconds : String → Option ℤ
  pub quantity : String → Option ℤ

-- `strings.HasPrefix`
unfoldable pub has_prefix : String → String → Bool
has_prefix String.[] s = true
has_prefix (String.◌∷◌ c prefix) String.[] = false
has_prefix (String.◌∷◌ c prefix) (String.◌∷◌ d s) = nat_eq (code c) (code d) && has_prefix prefix s

module _ (P : Parsers) where
  unfoldable pub get_harvester_exit_max_age : StringMap → Result ℤ
  get_harvester_exit_max_age labels = elim (value_at agent_label_harvester_exit_max_age labels) [
    | none ↦ ok (pos 30000)
    | some age ↦ elim (P.milliseconds age) [
      | none ↦ invalid_label agent_label_harvester_exit_max_age
      | some parsed ↦ ok (to_int32 parsed)
    ]
  ]

  unfoldable pub get_harvester_exit_max_size : StringMap → Result ℤ
  get_harvester_exit_max_size labels = elim (value_at agent_label_harvester_exit_max_size labels) [
    | none ↦ ok (pos 20971520)
    | some size ↦ elim (P.quantity size) [
      | none ↦ invalid_label agent_label_harvester_exit_max_size
      | some parsed ↦ ok (to_int32 parsed)
    ]
  ]

-- What the webhook reads and writes of a `Deployment`: its namespace, its labels and its template's.
pub record Deployment : Type 0 where
  pub namespace : String
  pub labels : StringMap
  pub template_labels : StringMap

-- `m[key] = value`
abbrev pub assign : String → String → StringMap → Result StringMap
assign key value none = err nil_pointer
assign key value (some m) = ok (some (insert key value m))

abbrev pub assign_found : String → Option String → StringMap → Result StringMap
assign_found key none template = ok template
assign_found key (some value) template = assign key value template

unfoldable pub copy_label_if_exists : StringMap → String → StringMap → Result StringMap
copy_label_if_exists labels key template = assign_found key (value_at key labels) template

-- The loop over the keys of the deployment's labels.
unfoldable pub propagate_labels : Dict String → StringMap → StringMap → Result StringMap
unfolding copy_label_if_exists
propagate_labels [] labels template = ok template
propagate_labels ((key, value) ∷ rest) labels template =
    let step : Result StringMap =
      if has_prefix agent_label_prefix key
      then copy_label_if_exists labels key template
      else ok template in
    and_then step λ next. propagate_labels rest labels next

module _ (P : Parsers) {K : Kube} (get_cryostat : Key → Result (Cryostat K)) where
  abbrev pub cryostat_of : Deployment → Result (Cryostat K)
  cryostat_of deployment = get_cryostat (record {
    name = get_or (value_at agent_label_cryostat_name deployment.labels) "";
    namespace = get_or (value_at agent_label_cryostat_namespace deployment.labels) "";
  })

  -- The checks of the labels that are not texts.
  unfoldable pub check_labels : StringMap → Result (Unit {0})
  check_labels labels = and_then (get_agent_callback_port labels) λ port.
      and_then (has_write_access labels) λ write.
        and_then (get_harvester_exit_max_age P labels)
          λ age. and_then (get_harvester_exit_max_size P labels) λ size. ok tt

  unfoldable pub check_target : Deployment → Cryostat K → Result (Unit {0})
  check_target deployment cr =
      if contains (get_or cr.status.target_namespaces []) deployment.namespace
      then ok tt
      else err (failure "not a target namespace")

  -- `deploymentMutator.Default`
  unfoldable pub default_deployment : Deployment → Result Deployment
  unfolding check_labels check_target propagate_labels
  default_deployment deployment =
      let labels = deployment.labels in
      and_then (cryostat_of deployment) λ cr. and_then (check_target deployment cr) λ _.
        and_then (check_labels labels) λ _.
          and_then (propagate_labels (get_or labels []) labels deployment.template_labels)
            λ template. ok (record deployment { template_labels = template })
