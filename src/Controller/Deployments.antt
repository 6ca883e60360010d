-- ===== src/Controller/Deployments.antt =====
-- Deployments: how one is created, updated, and created anew when its selector has changed
-- (internal/controller/reconciler.go).
pub mod Stored
mod Tests
use cryostat_operator.Prelude.{
  ◌≡◌, ℕ, zero, suc, String, Bool, true, false, not, Option, none, some, List, [], if◌then◌else◌,
}
use cryostat_operator.Prelude.Int.{ℤ}
use cryostat_operator.Prelude.Dict.{Dict}
use cryostat_operator.Common.Metadata.{Metadata, merge_labels_and_annotations}
use cryostat_operator.Controller.Hashes.{HashCalls, Container, Volume, annotate_with_obj_ref_hashes}
use cryostat_operator.Cluster.{Key, Ownership, Resource}
use cryostat_operator.Cluster.Monad.{
  Result, ok, err, Err, selector_modified, out_of_fuel, and_then, M, raise, ◌>>=◌, ◌>>◌, catch,
  ignore_not_found,
}

-- The parts of a deployment that the code hands on whole: selector, strategy and pod specification,
-- of which it reads the references to secrets and configuration maps.
-- `same_selector` is `cmp.Equal`.
pub record DeploymentTypes : Type 1 where
  pub Selector : Type 0
  pub same_selector : Selector → Selector → Bool
  -- `metav1.LabelSelector{MatchLabels: …}`
  pub match_labels : Dict String → Selector
  pub Strategy : Type 0
  -- The zero value, which stands for the API's default, and `RecreateDeploymentStrategyType`.
  pub no_strategy : Strategy
  pub recreate_strategy : Strategy
  pub PodSpec : Type 0
  pub containers : PodSpec → List Container
  pub volumes : PodSpec → List Volume

-- What the code reads and writes of a `Deployment`.
pub record Deployment (T : DeploymentTypes) (O : Ownership) : Type 0 where
  pub metadata : Metadata
  pub owners : O.Owners
  pub selector : T.Selector
  pub replicas : Option ℤ
  pub strategy : T.Strategy
  pub template_metadata : Metadata
  pub template_spec : T.PodSpec

abbrev pub is_selector_modified : Err → Bool
is_selector_modified selector_modified = true
is_selector_modified _ = false

module _ {T : DeploymentTypes} {O : Ownership} where
  -- A deployment that is created starts as the one that is wanted, and one that is there keeps its
  -- labels, annotations and owners.
  unfoldable pub selected : Deployment T O → Option (Deployment T O) → Result T.Selector
  selected desired none = ok desired.selector
  selected desired (some old) =
      if not (T.same_selector old.selector desired.selector)
      then err selector_modified
      else ok old.selector

  abbrev pub found_or : Deployment T O → Option (Deployment T O) → Deployment T O
  found_or desired none = desired
  found_or desired (some old) = old

  -- The mutate function of `createOrUpdateDeployment`.
  unfoldable pub mutate_deployment :
      Deployment T O → Option (Deployment T O) → Result (Deployment T O)
  unfolding selected
  mutate_deployment desired found =
      let deploy = found_or desired found in
      let wanted = desired.metadata in
      let template = desired.template_metadata in
      and_then (O.set_controller deploy.owners) λ owners.
        and_then (selected desired found) λ selector. ok (record {
          metadata = merge_labels_and_annotations deploy.metadata wanted.labels wanted.annotations;
          owners = owners;
          selector = selector;
          replicas = desired.replicas;
          strategy = desired.strategy;
          template_metadata =
              merge_labels_and_annotations deploy.template_metadata template.labels
                template.annotations;
          template_spec = desired.template_spec;
        })

  module _ {S : Type 0} (V : Resource S (Deployment T O)) where
    unfoldable pub delete_deployment : Key → M S (Unit {0})
    unfolding ignore_not_found
    delete_deployment k = ignore_not_found (V.delete k)

    unfoldable pub recreate_deployment : Key → M S (Unit {0}) → M S (Unit {0})
    recreate_deployment k again = do delete_deployment k; again

    -- The fuel bounds how often the deployment is created anew.
    unfoldable pub create_or_update_deployment :
        HashCalls S → ℕ → Key → Deployment T O → M S (Unit {0})
    unfolding recreate_deployment
    create_or_update_deployment H zero k desired = raise out_of_fuel
    create_or_update_deployment H (suc fuel) k desired =
        annotate_with_obj_ref_hashes H k.namespace (T.containers desired.template_spec)
          (T.volumes desired.template_spec) desired.template_metadata
        >>= λ template.
            let annotated : Deployment T O = record desired { template_metadata = template } in
            let again = create_or_update_deployment H fuel k annotated in
            catch (V.create_or_update k (mutate_deployment annotated))
              λ e. if is_selector_modified e then recreate_deployment k again else raise e
