-- ===== src/Api/Conversion/From/Pods.antt =====
-- Storage, scheduling, reports, resources and security, from v1beta2 to v1beta1
-- (api/v1beta1/cryostat_conversion.go).
use cryostat_operator.Prelude.{Option, none, some}
use cryostat_operator.Api.Kube.{Kube}
use cryostat_operator.Api.V1beta1.Options as V1
use cryostat_operator.Api.V1beta2.Options as V2

module _ (K : Kube) where
  convert_pvc_from :
      Option (V2.PersistentVolumeClaimConfig K) → Option (V1.PersistentVolumeClaimConfig K)
  convert_pvc_from none = none
  convert_pvc_from (some pvc) = some (record {
    annotations = pvc.resource_metadata.annotations;
    labels = pvc.resource_metadata.labels;
    spec = pvc.spec;
  })

  convert_empty_dir_from : Option (V2.EmptyDirConfig K) → Option (V1.EmptyDirConfig K)
  convert_empty_dir_from none = none
  convert_empty_dir_from (some dir) =
      some (record { enabled = dir.enabled; medium = dir.medium; size_limit = dir.size_limit })

  unfoldable pub convert_storage_options_from :
      Option (V2.StorageConfigurations K) → Option (V1.StorageConfiguration K)
  unfolding convert_pvc_from convert_empty_dir_from
  convert_storage_options_from none = none
  convert_storage_options_from (some opts) = some (record {
    pvc = convert_pvc_from opts.legacy.pvc;
    empty_dir = convert_empty_dir_from opts.legacy.empty_dir;
  })

  convert_affinity_from : Option (V2.Affinity K) → Option (V1.Affinity K)
  convert_affinity_from none = none
  convert_affinity_from (some affinity) = some (record {
    node_affinity = affinity.node_affinity;
    pod_affinity = affinity.pod_affinity;
    pod_anti_affinity = affinity.pod_anti_affinity;
  })

  unfoldable pub convert_scheduling_options_from :
      Option (V2.SchedulingConfiguration K) → Option (V1.SchedulingConfiguration K)
  unfolding convert_affinity_from
  convert_scheduling_options_from none = none
  convert_scheduling_options_from (some opts) = some (record {
    node_selector = opts.node_selector;
    affinity = convert_affinity_from opts.affinity;
    tolerations = opts.tolerations;
  })

  convert_reports_security_options_from :
      Option (V2.ReportsSecurityOptions K) → Option (V1.ReportsSecurityOptions K)
  convert_reports_security_options_from none = none
  convert_reports_security_options_from (some opts) = some (record {
    pod_security_context = opts.pod_security_context;
    reports_security_context = opts.reports_security_context;
  })

  unfoldable pub convert_report_options_from :
      Option (V2.ReportConfiguration K) → Option (V1.ReportConfiguration K)
  unfolding convert_reports_security_options_from convert_scheduling_options_from
  convert_report_options_from none = none
  convert_report_options_from (some opts) = some (record {
    replicas = opts.replicas;
    resources = opts.resources;
    sub_process_max_heap_size = opts.sub_process_max_heap_size;
    security_options = convert_reports_security_options_from opts.security_options;
    scheduling_options = convert_scheduling_options_from opts.scheduling_options;
  })

  unfoldable pub convert_resource_options_from :
      Option (V2.ResourceConfigList K) → Option (V1.ResourceConfigList K)
  convert_resource_options_from none = none
  convert_resource_options_from (some opts) = some (record {
    core_resources = opts.core_resources;
    data_source_resources = opts.data_source_resources;
    grafana_resources = opts.grafana_resources;
  })

  unfoldable pub convert_security_options_from :
      Option (V2.SecurityOptions K) → Option (V1.SecurityOptions K)
  convert_security_options_from none = none
  convert_security_options_from (some opts) = some (record {
    pod_security_context = opts.pod_security_context;
    core_security_context = opts.core_security_context;
    data_source_security_context = opts.data_source_security_context;
    grafana_security_context = opts.grafana_security_context;
    storage_security_context = none;
    database_security_context = none;
  })
