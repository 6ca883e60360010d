-- ===== src/Controller/Deployments/Stored.antt =====
-- What the cluster holds after a deployment is created, updated, or created anew.
use mathlib.Core.Path.{subst}
use cryostat_operator.Prelude.{
  if◌then◌else◌, ap, sym, ◌∙◌, ◌≡◌, ◌≢◌, refl, ◌⊎◌, inl, inr, ℕ, suc, true, Option, none, some,
  arith,
}
use cryostat_operator.Cluster.{Key, Ownership, IsOwnership, Resource, IsLawful}
use cryostat_operator.Cluster.Delete.{ignored_ends, ignored_gone}
use cryostat_operator.Cluster.Monad.{
  ◌>>=◌, ◌>>◌, raise, ignore_not_found, catch, Result, ok, err, Err, api, M, Result-of,
  and_then-eq-ok,
}
use cryostat_operator.Cluster.Recreate.{EndsIn, IsApiOrOwner}
use cryostat_operator.Controller.Hashes.{HashCalls, annotate_with_obj_ref_hashes}
use cryostat_operator.Controller.Hashes.Outcome.{IsHashCalls, IsHashError, annotate-IsQuery}
use cryostat_operator.Controller.Deployments.{
  Metadata, found_or, DeploymentTypes, Deployment, create_or_update_deployment, delete_deployment,
  is_selector_modified, mutate_deployment, recreate_deployment, selected,
}

module _ {T : DeploymentTypes} {O : Ownership} (desired : Deployment T O) where
  -- The deployment runs what is wanted, selects as is wanted, and is the installation's.
  abbrev pub IsDeployed : Option (Deployment T O) → Type 0
  IsDeployed found =
      (d : Deployment T O) × (found ≡ some d)
      × (d.replicas ≡ desired.replicas)
      × (d.strategy ≡ desired.strategy)
      × (d.template_spec ≡ desired.template_spec)
      × (T.same_selector d.selector desired.selector ≡ true)
      × (O.is_controlled d.owners ≡ true)

  selected_ok :
      (found : Option (Deployment T O)) (selector : T.Selector)
      → ((s : T.Selector) → T.same_selector s s ≡ true)
      → selected desired found ≡ ok selector
      → T.same_selector selector desired.selector ≡ true
  unfolding selected
  selected_ok none selector same_refl h = ground (arith, same_refl desired.selector)
  selected_ok (some old) selector same_refl h = ground arith

  mutate_deployment_ok :
      (found : Option (Deployment T O)) (d : Deployment T O)
      → IsOwnership O
      → ((s : T.Selector) → T.same_selector s s ≡ true)
      → mutate_deployment desired found ≡ ok d
      → (d.replicas ≡ desired.replicas)
        × (d.strategy ≡ desired.strategy)
        × (d.template_spec ≡ desired.template_spec)
        × (T.same_selector d.selector desired.selector ≡ true)
        × (O.is_controlled d.owners ≡ true)
  unfolding mutate_deployment
  mutate_deployment_ok found d laws same_refl h =
      let (owners, owned, h1) =
        and_then-eq-ok (O.set_controller (found_or desired found).owners) _ h in
      let named = laws.set_controller_ok (found_or desired found).owners owners owned in
      elim (Result-of (selected desired found)) [
        | inl (selector, chosen) ↦
            let same = selected_ok found selector same_refl chosen in
            (ground arith, ground arith, ground arith, ground arith, ground arith)
        | inr (e, failed) ↦ absurd (ground arith)
      ]

  mutate_deployment_err :
      (found : Option (Deployment T O)) (e : Err)
      → IsOwnership O
      → mutate_deployment desired found ≡ err e
      → IsApiOrOwner e ⊎ ((is_selector_modified e ≡ true) × (found ≢ none))
  unfolding mutate_deployment selected
  mutate_deployment_err none e laws h =
      inl (inr (laws.set_controller_err desired.owners e (ground arith)))
  mutate_deployment_err (some old) e laws h = elim (Result-of (O.set_controller old.owners)) [
    | inl (owners, owned) ↦ inr (ground arith, λ c. cc)
    | inr (x, refused) ↦ inl (inr (laws.set_controller_err old.owners e (ground arith)))
  ]

-- The error is one of the API's, that another controller owns the deployment, or one of the encoding
-- of what the pods refer to.
abbrev pub IsDeployError : {S : Type 0} → HashCalls S → Err → Type 0
IsDeployError H e = IsApiOrOwner e ⊎ IsHashError H e

module _ {T : DeploymentTypes} {O : Ownership} {S : Type 0} (V : Resource S (Deployment T O))
    (L : IsLawful V) (laws : IsOwnership O)
    (same_refl : (s : T.Selector) → T.same_selector s s ≡ true) (H : HashCalls S)
    (H_laws : IsHashCalls H) (k : Key) where
  abbrev Settles : Deployment T O → Result (Unit {0}) × S → Type 0
  Settles desired r =
      EndsIn (IsDeployError H) r.0 × (r.0 ≡ ok tt → IsDeployed desired (V.read r.1 k))

  abbrev round : Deployment T O → M S (Unit {0}) → M S (Unit {0})
  round d again =
      catch (V.create_or_update k (mutate_deployment d))
        λ e. if is_selector_modified e then recreate_deployment V k again else raise e

  fails :
      (d : Deployment T O) (again : M S (Unit {0})) (s : S) (e : Err)
      → (V.create_or_update k (mutate_deployment d) s).0 ≡ err e
      → IsApiOrOwner e
      → Settles d (round d again s)
  fails d again s e h (inl (x, is_api)) =
      (inr (e, ground arith, inl (inl (x, is_api))), λ good. absurd (ground arith))
  fails d again s e h (inr (t, is_owner)) =
      (inr (e, ground arith, inl (inr (t, is_owner))), λ good. absurd (ground arith))

  round-Settles :
      (d : Deployment T O) (again : M S (Unit {0})) (s : S)
      → (V.read s k ≢ none
          → Settles d
              (recreate_deployment V k again (V.create_or_update k (mutate_deployment d) s).1))
      → Settles d (round d again s)
  round-Settles d again s recreated =
      let call = V.create_or_update k (mutate_deployment d) in
      elim (Result-of (call s).0) [
        | inl (u, h) ↦
            let (o, made, stored) =
              L.create_or_update_ok k (mutate_deployment d) s (ground arith) in
            let (replicas, strategy, spec, same, controlled) =
              mutate_deployment_ok d (V.read s k) o laws same_refl made in
            (
              inl (ground arith),
              λ good. (o, ground arith, replicas, strategy, spec, same, controlled),
            )
        | inr (e, h) ↦ elim (L.create_or_update_err k (mutate_deployment d) s e h) [
          | inl is_api ↦ fails d again s e h (inl is_api)
          | inr refused ↦ elim (mutate_deployment_err d (V.read s k) e laws refused) [
            | inl allowed ↦ fails d again s e h allowed
            | inr (modified, found) ↦
                let same : round d again s ≡ recreate_deployment V k again (call s).1 =
                  ground arith in
                subst (Settles d) (sym same) (recreated found)
          ]
        ]
      ]

  abbrev annotate : Deployment T O → M S Metadata
  annotate d =
      annotate_with_obj_ref_hashes H k.namespace (T.containers d.template_spec)
        (T.volumes d.template_spec) d.template_metadata

  abbrev annotated : Deployment T O → Metadata → Deployment T O
  annotated d template = record d { template_metadata = template }

  annotate-eq : (d : Deployment T O) (s : S) → (annotate d s).1 ≡ s
  annotate-eq d s =
      (annotate-IsQuery H H_laws k.namespace (T.containers d.template_spec)
        (T.volumes d.template_spec) d.template_metadata s).0

  annotated-Settles :
      (desired : Deployment T O) (f : Metadata → M S (Unit {0})) (s : S)
      → ((m : Metadata) → Settles (annotated desired m) (f m (annotate desired s).1))
      → Settles desired ((annotate desired >>= f) s)
  annotated-Settles desired f s after = elim (Result-of (annotate desired s).0) [
    | inl (m, h) ↦
        let same : (annotate desired >>= f) s ≡ f m (annotate desired s).1 = ground arith in
        subst (Settles (annotated desired m)) (sym same) (after m)
    | inr (e, h) ↦
        let failed : ((annotate desired >>= f) s).0 ≡ err e = ground arith in
        let is_error =
          (annotate-IsQuery H H_laws k.namespace (T.containers desired.template_spec)
              (T.volumes desired.template_spec) desired.template_metadata s).1
            e h in
        (inr (e, failed, inr is_error), λ good. absurd (ground arith))
  ]

  new-Settles :
      (fuel : ℕ) (desired : Deployment T O) (s : S)
      → V.read s k ≡ none
      → Settles desired (create_or_update_deployment V H (suc fuel) k desired s)
  unfolding create_or_update_deployment
  new-Settles fuel desired s missing =
      annotated-Settles desired
        (λ m.
          round (annotated desired m)
            (create_or_update_deployment V H fuel k (annotated desired m)))
        s
        λ m.
          round-Settles (annotated desired m)
            (create_or_update_deployment V H fuel k (annotated desired m)) (annotate desired s).1
            λ found. absurd (found (ap (λ t. V.read t k) (annotate-eq desired s) ∙ missing))

  recreated-Settles :
      (fuel : ℕ) (d : Deployment T O) (s : S)
      → Settles d (recreate_deployment V k (create_or_update_deployment V H (suc fuel) k d) s)
  unfolding recreate_deployment delete_deployment
  recreated-Settles fuel d s = elim (ignored_ends V L k s) [
    | inl deleted ↦
        let gone =
          new-Settles fuel d (ignore_not_found (V.delete k) s).1 (ignored_gone V L k s deleted) in
        let same : (ignore_not_found (V.delete k) >> create_or_update_deployment V H (suc fuel) k d)
              s
            ≡ create_or_update_deployment V H (suc fuel) k d (ignore_not_found (V.delete k) s).1 =
          ground arith in
        subst (Settles d) (sym same) gone
    | inr (x, failed) ↦
        (inr (api x, ground arith, inl (inl (x, refl))), λ good. absurd (ground arith))
  ]

  -- With two rounds of fuel `createOrUpdateDeployment` always ends with a success, an error of the API,
  -- the error that another controller owns the deployment, or an error of the encoding of a secret or
  -- a configuration map that the pods refer to, never with the error that the selector was modified.
  -- After a success the deployment has the replicas, the strategy and the pod specification that are
  -- wanted, selects the same pods, and has the installation as its controller.
  pub create_or_update_deployment-Settles :
      (fuel : ℕ) (desired : Deployment T O) (s : S)
      → EndsIn (IsDeployError H) (create_or_update_deployment V H (suc (suc fuel)) k desired s).0
        × ((create_or_update_deployment V H (suc (suc fuel)) k desired s).0 ≡ ok tt
            → IsDeployed desired
                (V.read (create_or_update_deployment V H (suc (suc fuel)) k desired s).1 k))
  unfolding create_or_update_deployment
  create_or_update_deployment-Settles fuel desired s =
      annotated-Settles desired
        (λ m.
          round (annotated desired m)
            (create_or_update_deployment V H (suc fuel) k (annotated desired m)))
        s
        λ m.
          round-Settles (annotated desired m)
            (create_or_update_deployment V H (suc fuel) k (annotated desired m))
            (annotate desired s).1
            λ found.
              recreated-Settles fuel (annotated desired m)
                (V.create_or_update k (mutate_deployment (annotated desired m))
                  (annotate desired s).1).1
