-- ===== src/Controller/Conditions/Laws.antt =====
-- Which conditions the status shows after those of a deployment are taken over.
use cryostat_operator.Prelude.{
  ap, sym, ◌∙◌, ◌≡◌, refl, String, ◌==◌, eq_iff, Option, none, some, List, [], ◌∷◌, arith,
  map_option, if◌then◌else◌, Bool-cases, inl, inr,
}
use cryostat_operator.Prelude.Dict.{lookup}
use cryostat_operator.Api.Kube.{Kube}
use cryostat_operator.Api.V1beta2.{CryostatStatus}
use cryostat_operator.Common.Instance.{CryostatInstance}
use cryostat_operator.Common.Metadata.Laws.{DistinctKeys}
use cryostat_operator.Cluster.Loop.{bind-eq-ok}
use cryostat_operator.Cluster.Monad.{pure, ok, M}
use cryostat_operator.Cluster.Self.{Self, IsSelf}
use cryostat_operator.Controller.Conditions.{
  ConditionOps, DeploymentConditionTypeMap, NewCondition, find_deploy_condition, map_conditions,
  remove_condition_if_present, save_conditions, update_conditions_from_deployment, with_conditions,
}

-- What a condition shows, and the documented behaviour of the functions on lists of them: to set a
-- condition replaces the one of its type, and leaves those of other types alone.
pub record IsConditionOps {K : Kube} (Ops : ConditionOps K) : Type 0 where
  pub shown : K.Condition → NewCondition
  pub find_set :
      (l : Option (List K.Condition)) (new : NewCondition) (t : String)
      → map_option shown (Ops.find_condition (Ops.set_condition l new) t)
        ≡ (if t == new.type_name then some new else map_option shown (Ops.find_condition l t))
  pub find_remove :
      (l : Option (List K.Condition)) (removed t : String)
      → Ops.find_condition (Ops.remove_condition l removed) t
        ≡ (if t == removed then none else Ops.find_condition l t)

-- The conditions of one type, and the first of a list.
abbrev with_type : String → List NewCondition → List NewCondition
with_type t [] = []
with_type t (c ∷ l) = let rest = with_type t l in if c.type_name == t then c ∷ rest else rest

abbrev first_of : List NewCondition → Option NewCondition
first_of [] = none
first_of (c ∷ l) = some c

-- The condition of a type that a deployment reports, if it reports one: the first, if there are more.
abbrev pub reported : List NewCondition → String → Option NewCondition
reported deployed t = first_of (with_type t deployed)

find_deploy_condition-reported :
    (deployed : List NewCondition) (t : String)
    → find_deploy_condition deployed t ≡ reported deployed t
unfolding find_deploy_condition
find_deploy_condition-reported [] t = refl
find_deploy_condition-reported (c ∷ l) t = elim (Bool-cases (c.type_name == t)) [
  | inl same ↦ rw same refl
  | inr differs ↦ rw differs (find_deploy_condition-reported l t)
]

module _ {K : Kube} (Ops : ConditionOps K) (laws : IsConditionOps Ops) where
  -- The condition of a type that the status shows, if there is one.
  abbrev pub shows : Option (List K.Condition) → String → Option NewCondition
  shows l t = map_option laws.shown (Ops.find_condition l t)

  abbrev pub as_type : String → NewCondition → NewCondition
  as_type t c = record c { type_name = t }

  shows-removed :
      (removed t : String) (l : Option (List K.Condition))
      → shows (remove_condition_if_present Ops (removed ∷ []) l) t
        ≡ (if t == removed then none else shows l t)
  unfolding remove_condition_if_present
  shows-removed removed t l = ground (arith, laws.find_remove l removed t, eq_iff t removed)

  abbrev pub pick :
      List NewCondition → String → Option NewCondition → Option String → Option NewCondition
  pick deployed t before none = before
  pick deployed t before (some deploy_type) = map_option (as_type t) (reported deployed deploy_type)

  -- What the deployment reports of a type, or what was shown before.
  abbrev pub taken_over :
      DeploymentConditionTypeMap
      → List NewCondition
      → Option (List K.Condition)
      → String
      → Option NewCondition
  taken_over mapping deployed l t = pick deployed t (shows l t) (lookup t mapping)

  shows-one :
      (condition_type : String) (found : Option NewCondition) (l : Option (List K.Condition))
      (t : String)
      → shows
          (elim found [
            | none ↦ remove_condition_if_present Ops (condition_type ∷ []) l
            | some c ↦ Ops.set_condition l (as_type condition_type c)
          ])
          t
        ≡ (if t == condition_type then map_option (as_type t) found else shows l t)
  shows-one condition_type none l t = shows-removed condition_type t l
  shows-one condition_type (some c) l t =
      ground (arith, laws.find_set l (as_type condition_type c) t, eq_iff t condition_type)

  shows-map_conditions :
      (mapping : DeploymentConditionTypeMap) (deployed : List NewCondition)
      (l : Option (List K.Condition)) (t : String)
      → DistinctKeys mapping
      → shows (map_conditions Ops mapping deployed l) t ≡ taken_over mapping deployed l t
  unfolding map_conditions lookup
  shows-map_conditions [] deployed l t distinct = refl
  shows-map_conditions ((condition_type, deploy_type) ∷ rest) deployed l t (fresh, distinct) =
      let found = find_deploy_condition deployed deploy_type in
      let l' : Option (List K.Condition) = elim found [
        | none ↦ remove_condition_if_present Ops (condition_type ∷ []) l
        | some c ↦ Ops.set_condition l (as_type condition_type c)
      ] in
      let one : shows l' t
          ≡ (if t == condition_type then map_option (as_type t) found else shows l t) =
        shows-one condition_type found l t in
      let later = shows-map_conditions rest deployed l' t distinct in
      elim (Bool-cases (t == condition_type)) [
        | inl same ↦
            let e : t ≡ condition_type = (eq_iff t condition_type).0 same in
            let absent : lookup t rest ≡ none = ap (λ x. lookup x rest) e ∙ fresh in
            let shown : shows l' t ≡ map_option (as_type t) found = one ∙ (rw same refl) in
            later
            ∙ ap (pick deployed t (shows l' t)) absent
            ∙ shown
            ∙ ap (map_option (as_type t)) (find_deploy_condition-reported deployed deploy_type)
            ∙ sym (
                ap
                  (λ b. pick deployed t (shows l t) (if b then some deploy_type else lookup t rest))
                  same)
        | inr differs ↦
            let shown : shows l' t ≡ shows l t = one ∙ (rw differs refl) in
            later
            ∙ ap (λ x. pick deployed t x (lookup t rest)) shown
            ∙ sym (
                ap
                  (λ b. pick deployed t (shows l t) (if b then some deploy_type else lookup t rest))
                  differs)
      ]

  -- After the conditions are taken over from a deployment, the status on the API server shows, for
  -- each type of the mapping, the first condition that the deployment has of the type that it maps
  -- to, wherever it stands in the list, or none if the deployment has none; the conditions of other types are shown as before. The types of the mapping are distinct.
  pub update_conditions_from_deployment_shows :
      {S : Type 0} (C : Self S (CryostatStatus K)) (self_laws : IsSelf C)
      (get : M S (List NewCondition)) (mapping : DeploymentConditionTypeMap)
      (cr done : CryostatInstance K) (s : S) (t : String)
      → DistinctKeys mapping
      → (update_conditions_from_deployment Ops C get mapping cr s).0 ≡ ok done
      → (deployed : List NewCondition) × ((get s).0 ≡ ok deployed)
        × (shows
              (C.read_status
                (update_conditions_from_deployment Ops C get mapping cr s).1).conditions
              t
            ≡ taken_over mapping deployed cr.status.conditions t)
  unfolding update_conditions_from_deployment
  update_conditions_from_deployment_shows C self_laws get mapping cr done s t distinct h =
      let (deployed, got, later, same) =
        bind-eq-ok get
          (λ deployed.
            save_conditions Ops C cr (map_conditions Ops mapping deployed cr.status.conditions))
          s {b = done} h in
      let conditions = map_conditions Ops mapping deployed cr.status.conditions in
      let st = (with_conditions Ops C cr conditions).status in
      let s1 = (get s).1 in
      let (u, updated, last, same2) =
        bind-eq-ok (C.update_status st) (λ _. pure (with_conditions Ops C cr conditions)) s1
          {b = done} later in
      (
        deployed,
        got,
        ap (λ x. shows (C.read_status x).conditions t) (same ∙ same2)
            ∙ ap (λ x. shows x.conditions t) (self_laws.update_status_ok st s1 (ground arith))
            ∙ shows-map_conditions mapping deployed cr.status.conditions t distinct,
      )
