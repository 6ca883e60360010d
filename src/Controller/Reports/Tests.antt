-- ===== src/Controller/Reports/Tests.antt =====
-- An installation that asks for no report generator any more.
use cryostat_operator.Controller.Policies.{
  reconcile_reports_network_policy, ingress_disabled, create_or_update_policy, mutate_policy,
}
use cryostat_operator.Controller.Conditions.{remove_condition_if_present}
use cryostat_operator.Controller.Deployments.{delete_deployment}
use cryostat_operator.Cluster.Monad.{ignore_not_found}
use cryostat_operator.Controller.Services.{
  reconcile_reports_service, without_reports, delete_service,
}
use cryostat_operator.Controller.Reports.{
  NetworkPolicy, reconcile_reports, ReportsCalls, reports_key,
}
use cryostat_operator.Controller.Reports.Removed.{reconcile_reports_removes, IsApartReports}
use cryostat_operator.Common.Metadata.{Metadata}
use cryostat_operator.Prelude.Dict.{lookup}
use cryostat_operator.Prelude.{get_or, String, ◌≡◌, refl, true, none, some, [], ◌∷◌}
use cryostat_operator.Prelude.Int.{pos}
use cryostat_operator.Examples.{checksums, texts, installation, ownership}
use cryostat_operator.Cluster.Apart.{first, second, first-IsLawful, second-IsLawful}
use cryostat_operator.Cluster.Memory.{Objects, in_memory, in_memory-IsLawful}
use cryostat_operator.Cluster.Monad.{ok, pure}
use cryostat_operator.Controller.Deployments.{Deployment, DeploymentTypes}
use cryostat_operator.Controller.ServiceObject.{Service}

abbrev kinds : DeploymentTypes
kinds = record {
  Selector = String;
  same_selector = λ a b. true;
  match_labels = λ labels. get_or (lookup "component" labels) "";
  Strategy = String;
  no_strategy = "";
  recreate_strategy = "Recreate";
  PodSpec = String;
  containers = λ spec. [];
  volumes = λ spec. [];
}

-- The services, the deployments and the network policies of the cluster.
abbrev World : Type 0
World =
    Objects (Service texts ownership)
    × (Objects (Deployment kinds ownership) × Objects (NetworkPolicy ownership))

abbrev unlabelled : Metadata
unlabelled = record { labels = none; annotations = none }

abbrev generator : Deployment kinds ownership
generator = record {
  metadata = unlabelled;
  owners = true;
  selector = "reports";
  replicas = some (pos 1);
  strategy = "Recreate";
  template_metadata = unlabelled;
  template_spec = "pod";
}

abbrev calls : ReportsCalls texts ownership World
calls = record {
  types = kinds;
  services = first in_memory;
  deployments = second (first in_memory);
  policies = second (second in_memory);
  self = record {
    read_status = λ s. installation.status;
    update_status = λ st s. (ok tt, s);
    warn = λ e s. s;
  };
  conditions = record {
    set_condition = λ l c. l;
    find_condition = λ l t. none;
    remove_condition = λ l t. l;
  };
  new_pod = λ tls url. "pod";
  hashes = record {
    SecretData = String;
    ConfigMapData = String;
    get_secret = λ k s. (ok "password", s);
    get_config_map = λ k s. (ok "setting", s);
    marshal_secret = λ d. ok d;
    marshal_config_map = λ d. ok d;
    checksums = checksums;
  };
  get_conditions = λ k. pure [];
}

calls-IsApartReports : IsApartReports calls
calls-IsApartReports = record {
  policies_apart = record { update_keeps = λ k f s. refl; delete_keeps = λ k s. refl };
  deployments_apart = record { update_keeps = λ k f s. refl; delete_keeps = λ k s. refl };
  status_beside_services = record { status_keeps = λ st s. refl; warn_keeps = λ e s. refl };
  status_beside_deployments = record { status_keeps = λ st s. refl; warn_keeps = λ e s. refl };
}

abbrev old : Service texts ownership
old = record {
  metadata = unlabelled;
  owners = true;
  service_type = none;
  cluster_ip = "10.0.0.1";
  selector = none;
  ports = [];
}

-- Both are there.
abbrev world : World
world = (
  (reports_key calls installation, old) ∷ [],
  ((reports_key calls installation, generator) ∷ [], []),
)

reconcile_reports_removes_example :
    (calls.services.read
        (reconcile_reports calls installation 2 true world).1
        (reports_key calls installation)
      ≡ none)
    × (calls.deployments.read
          (reconcile_reports calls installation 2 true world).1
          (reports_key calls installation)
        ≡ none)
unfolding reconcile_reports reconcile_reports_service without_reports delete_service
    ignore_not_found in_memory delete_deployment remove_condition_if_present
    reconcile_reports_network_policy ingress_disabled create_or_update_policy mutate_policy
reconcile_reports_removes_example =
    reconcile_reports_removes calls installation (first-IsLawful in_memory in_memory-IsLawful)
      (second-IsLawful (first in_memory) (first-IsLawful in_memory in_memory-IsLawful))
      calls-IsApartReports 2 true world (installation, none) refl refl
