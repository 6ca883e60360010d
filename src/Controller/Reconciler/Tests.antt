-- ===== src/Controller/Reconciler/Tests.antt =====
-- A reconciliation in which the certificates are not ready.
use cryostat_operator.Prelude.{true, none}
use cryostat_operator.Prelude.Int.{pos}
use cryostat_operator.Examples.{installation, texts}
use cryostat_operator.Api.V1beta2.{CryostatStatus}
use cryostat_operator.Cluster.Monad.{ok, pure, raise, cert_not_ready}
use cryostat_operator.Cluster.Self.{Self}
use cryostat_operator.Controller.Reconciler.{Steps}

self : Self (Unit {0}) (CryostatStatus texts)
self = record {
  read_status = λ s. installation.status;
  update_status = λ st s. (ok tt, s);
  warn = λ e s. s;
}

waiting : Steps texts (Unit {0})
waiting = record {
  Specs = Unit {0};
  Deployment = Unit {0};
  add_finalizer = pure tt;
  remove_finalizer = pure tt;
  reconcile_lock_config_map = λ cr. pure tt;
  reconcile_secrets = λ cr. pure cr;
  reconcile_rbac = λ cr. pure tt;
  configure_tls = λ cr. raise cert_not_ready;
  reconcile_oauth2_proxy_config = λ cr t. pure tt;
  reconcile_agent_proxy_config = λ cr t. pure tt;
  new_specs = tt;
  core_url = λ specs. none;
  reconcile_core_service = λ cr t specs. pure specs;
  reconcile_core_network_policy = λ cr. pure tt;
  reconcile_agent_gateway_service = λ cr. pure tt;
  reconcile_agent_callback_services = λ cr. pure tt;
  get_fs_group = λ ns. pure (pos 18500);
  reconcile_database = λ cr t specs g. pure (cr, specs);
  reconcile_storage = λ cr t specs g. pure (cr, specs);
  reconcile_reports = λ cr t specs. pure (cr, specs);
  new_deployment = λ cr t specs g. ok tt;
  create_or_update_deployment = λ cr d. pure tt;
  reconcile_open_shift = λ cr. pure tt;
  update_conditions_from_deployment = λ cr d. pure cr;
  finalize_rbac = λ cr. pure tt;
  finalize_open_shift = λ cr. pure tt;
  finalize_agent_callback_services = λ cr. pure tt;
  is_cert_manager_enabled = λ cr. true;
  finalize_tls = λ cr. pure tt;
}
