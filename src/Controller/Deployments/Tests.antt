-- ===== src/Controller/Deployments/Tests.antt =====
-- A deployment whose selector has changed.
use cryostat_operator.Prelude.Dict.{lookup}
use cryostat_operator.Prelude.{get_or, contains}
use cryostat_operator.Controller.Hashes.{annotate_with_obj_ref_hashes, add_ref}
use cryostat_operator.Controller.Hashes.Outcome.{IsHashCalls}
use cryostat_operator.Controller.Deployments.{HashCalls, mutate_deployment, delete_deployment}
use cryostat_operator.Controller.Deployments.Stored.{
  create_or_update_deployment-Settles, IsDeployed,
}
use cryostat_operator.Controller.Deployments.{
  Deployment, create_or_update_deployment, DeploymentTypes,
}
use text.Mathlib.TextPositions.{eq_refl}
use cryostat_operator.Prelude.{if◌then◌else◌, arith, refl, String, false, none, some, [], ◌∷◌, ◌==◌}
use cryostat_operator.Prelude.Int.{pos}
use cryostat_operator.Common.Metadata.{Metadata}
use cryostat_operator.Examples.{ownership, ownership-IsOwnership}
use cryostat_operator.Cluster.{Key}
use cryostat_operator.Cluster.Memory.{Objects, in_memory, in_memory-IsLawful}
use cryostat_operator.Cluster.Monad.{api, err, ok, not_found}

-- A selector is the component that is selected, and a strategy and a specification are their names.
abbrev kinds : DeploymentTypes
kinds = record {
  Selector = String;
  same_selector = λ a b. a == b;
  match_labels = λ labels. get_or (lookup "component" labels) "";
  Strategy = String;
  no_strategy = "";
  recreate_strategy = "Recreate";
  PodSpec = String;
  containers = λ spec.
      record { env = []; env_from = record { secret = some spec; config_map = none } ∷ [] } ∷ [];
  volumes = λ spec. [];
}

abbrev unlabelled : Metadata
unlabelled = record { labels = none; annotations = none }

abbrev desired : Deployment kinds ownership
desired = record {
  metadata = unlabelled;
  owners = false;
  selector = "cryostat";
  replicas = some (pos 1);
  strategy = "Recreate";
  template_metadata = unlabelled;
  template_spec = "pod";
}

-- The deployments, and one secret that the pods refer to; the checksums are the texts.
abbrev hashes : HashCalls (Objects (Deployment kinds ownership))
hashes = record {
  SecretData = String;
  ConfigMapData = String;
  get_secret = λ k s. if k.name == "pod" then (ok "password", s) else (err (api not_found), s);
  get_config_map = λ k s. (err (api not_found), s);
  marshal_secret = λ d. ok d;
  marshal_config_map = λ d. ok d;
  checksums = record { sha256 = λ t. t; fnv128 = λ t. t };
}

hashes-IsHashCalls : IsHashCalls hashes
hashes-IsHashCalls = record {
  secrets_read = record {
    get_keeps = λ k s. ground arith;
    get_err = λ k s e h. (not_found, ground arith);
  };
  config_maps_read = record {
    get_keeps = λ k s. refl;
    get_err = λ k s e h. (not_found, ground arith);
  };
  marshal_secret_err = λ d e h. cc;
  marshal_config_map_err = λ d e h. cc;
}

abbrev key : Key
key = record { namespace = "ns"; name = "c" }

-- The deployment that is there selects other pods, and has none.
abbrev cluster : Objects (Deployment kinds ownership)
cluster = (key, record desired { selector = "old"; replicas = some (pos 0) }) ∷ []

create_or_update_deployment-Settles_example :
    IsDeployed desired
      (in_memory.read (create_or_update_deployment in_memory hashes 2 key desired cluster).1 key)
unfolding create_or_update_deployment annotate_with_obj_ref_hashes add_ref contains in_memory
    mutate_deployment delete_deployment
create_or_update_deployment-Settles_example =
    (create_or_update_deployment-Settles in_memory in_memory-IsLawful ownership-IsOwnership eq_refl
        hashes hashes-IsHashCalls key 0 desired cluster).1
      refl
