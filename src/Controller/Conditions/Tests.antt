-- ===== src/Controller/Conditions/Tests.antt =====
-- The conditions of a concrete installation: each is kept as its type and its status.
use cryostat_operator.Prelude.{
  map_option, eq_iff, ◌≡◌, refl, String, ◌==◌, Option, none, some, List, [], ◌∷◌, get_or,
  if◌then◌else◌, arith,
}
use cryostat_operator.Prelude.Dict.{lookup}
use cryostat_operator.Examples.{no_settings, texts}
use cryostat_operator.Api.Kube.{Kube}
use cryostat_operator.Api.V1beta2.{CryostatStatus}
use cryostat_operator.Cluster.Monad.{Result, ok, M, pure}
use cryostat_operator.Cluster.Self.{Self, IsSelf}
use cryostat_operator.Controller.Conditions.{
  CryostatInstance, ConditionOps, NewCondition, main_deployment_conditions,
  update_conditions_from_deployment,
}
use cryostat_operator.Controller.Conditions.Laws.{
  taken_over, IsConditionOps, shows, update_conditions_from_deployment_shows,
}

-- The Kubernetes types are texts, but for the conditions.
abbrev kinds : Kube
kinds = record texts { Condition = NewCondition }

find_in : List NewCondition → String → Option NewCondition
find_in [] t = none
find_in (c ∷ l) t = if t == c.type_name then some c else find_in l t

drop_in : List NewCondition → String → List NewCondition
drop_in [] t = []
drop_in (c ∷ l) t = let rest = drop_in l t in if c.type_name == t then rest else c ∷ rest

ops : ConditionOps kinds
ops = record {
  set_condition = λ l new. some (new ∷ drop_in (get_or l []) new.type_name);
  find_condition = λ l t. find_in (get_or l []) t;
  remove_condition = λ l t. some (drop_in (get_or l []) t);
}

find_in-drop_in :
    (l : List NewCondition) (removed t : String)
    → find_in (drop_in l removed) t ≡ (if t == removed then none else find_in l t)
unfolding find_in drop_in
find_in-drop_in [] removed t = ground arith
find_in-drop_in (c ∷ l) removed t = ground (
  arith,
  find_in-drop_in l removed t,
  eq_iff t removed,
  eq_iff c.type_name removed,
  eq_iff t c.type_name,
)

shown_same : (found : Option NewCondition) → map_option (λ c. c) found ≡ found
shown_same none = refl
shown_same (some c) = refl

ops-IsConditionOps : IsConditionOps ops
unfolding ops find_in
ops-IsConditionOps = record {
  shown = λ c. c;
  find_set = λ l new t. ground (
    arith,
    shown_same (find_in (new ∷ drop_in (get_or l []) new.type_name) t),
    shown_same (find_in (get_or l []) t),
    find_in-drop_in (get_or l []) new.type_name t,
    eq_iff t new.type_name,
  );
  find_remove = λ l removed t. find_in-drop_in (get_or l []) removed t;
}

self : Self (CryostatStatus kinds) (CryostatStatus kinds)
self = record { read_status = λ s. s; update_status = λ st s. (ok tt, st); warn = λ e s. s }

self-IsSelf : IsSelf self
unfolding self
self-IsSelf = record { update_status_ok = λ st s h. refl; warn_status = λ e s. refl }

abbrev condition_of : String → String → NewCondition
condition_of type_name status = record {
  type_name = type_name;
  status = status;
  reason = "";
  message = "";
}

-- The deployment was not available, and its replicas had failed.
abbrev installed : CryostatInstance kinds
installed = record {
  name = "c";
  install_namespace = "ns";
  target_namespaces = [];
  target_namespace_status = [];
  spec = no_settings kinds;
  status = record {
    target_namespaces = none;
    conditions = some (
        condition_of "MainDeploymentAvailable" "False"
        ∷ condition_of "MainDeploymentReplicaFailure" "True"
        ∷ []);
    application_url = "";
    storage_secret = "";
    database_secret = "";
  };
}

-- Now it is available, as its second condition says, and the failure is gone.
abbrev get_deployed : M (CryostatStatus kinds) (List NewCondition)
get_deployed = pure (condition_of "Progressing" "False" ∷ condition_of "Available" "True" ∷ [])

abbrev updated : Result (CryostatInstance kinds) × CryostatStatus kinds
updated =
    update_conditions_from_deployment ops self get_deployed main_deployment_conditions installed
      installed.status

update_conditions_from_deployment_shows_example :
    (deployed : List NewCondition) × ((get_deployed installed.status).0 ≡ ok deployed)
    × (shows ops ops-IsConditionOps
          (self.read_status updated.1).conditions
          "MainDeploymentAvailable"
        ≡ taken_over ops ops-IsConditionOps main_deployment_conditions deployed
            installed.status.conditions "MainDeploymentAvailable")
unfolding lookup update_conditions_from_deployment self
update_conditions_from_deployment_shows_example =
    update_conditions_from_deployment_shows ops ops-IsConditionOps self self-IsSelf get_deployed
      main_deployment_conditions installed (record installed { status = updated.1 })
      installed.status "MainDeploymentAvailable" (refl, (refl, (refl, tt))) refl
