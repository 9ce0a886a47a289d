-- ===== src/Lpm/Exporter.antt =====
-- `NewExporter` and the two exporters: a Prometheus server and the exporter beside it, with the file of
-- the targets and a service. `encoding/json` on a list of strings is a parameter.
use l2s_m.Base.{false, List, [], ◌∷◌, ◌++◌, none, some, Text, codes, text_eq, if◌then◌else◌}
use l2s_m.Base.Dict
use l2s_m.Base.Dict.{Dict}
use l2s_m.Api.Monitor.{swm_method, swm_nt_namespace_option}
use l2s_m.Api.Switch.{Container, VolumeMount, EnvVar, unset, always, config_map, empty_dir}
use l2s_m.Api.Resources.{ConfigMap, Workload, Service, one_label}
use l2s_m.Lpm.Collector.{lpm_image, option_or}

pub data ExporterStrategy : Type 0 where
  swm_strategy : (namespace topology_namespace : Text) → ExporterStrategy
  regular_strategy : (namespace : Text) → ExporterStrategy

unfoldable pub new_exporter : Text → Text → Dict Text → ExporterStrategy
new_exporter method namespace options =
    if text_eq method swm_method
    then swm_strategy namespace (option_or (Dict.lookup swm_nt_namespace_option options) [])
    else regular_strategy namespace

abbrev pub mount : Text → Text → VolumeMount
mount name path = record { name = name; mount_path = path; sub_path = []; read_only = false }

abbrev pub prometheus : Container
prometheus = record {
  name = codes "prometheus";
  image = codes "prom/prometheus:v2.30.3";
  pull_policy = unset;
  command = [];
  args =
      codes "--config.file=/etc/prometheus/prometheus.yml"
      ∷ codes "--storage.tsdb.path=/prometheus"
      ∷ [];
  env = [];
  ports = record { name = []; port = 9090 } ∷ [];
  volume_mounts =
      mount (codes "config-volume") (codes "/etc/prometheus")
      ∷ mount (codes "data-volume") (codes "/prometheus")
      ∷ [];
  capabilities = [];
  privileged = false;
}

abbrev pub exporter_container : List Text → List EnvVar → Container
exporter_container args env = record {
  name = codes "exporter";
  image = lpm_image;
  pull_policy = always;
  command = [];
  args = args;
  env = env;
  ports = [];
  volume_mounts = [];
  capabilities = [];
  privileged = false;
}

-- A deployment, its config map and its service.
pub record Exporter : Type 0 where
  pub deployment : Workload
  pub config : ConfigMap
  pub service : Service

unfoldable pub prometheus_config : Text → Text
prometheus_config targets_json =
    codes
      "global:\n  scrape_interval: 15s\n  evaluation_interval: 15s\nscrape_configs:\n  - job_name: 'prometheus'\n    static_configs:\n      - targets: "
    ++ targets_json

-- What both exporters build, for the application's name, that of the config map, and the exporter.
unfoldable pub exporter_of : Text → Text → Text → Text → Text → Container → Exporter
unfolding prometheus_config
exporter_of namespace service_account app_name cm_name targets_json exporter = record {
  config = record {
    name = cm_name;
    namespace = namespace;
    labels = one_label (codes "app") app_name;
    contents = (codes "prometheus.yml", prometheus_config targets_json) ∷ [];
  };
  deployment = record {
    name = app_name;
    namespace = namespace;
    labels = one_label (codes "app") app_name;
    annotations = [];
    replicas = some 1;
    selector = one_label (codes "app") app_name;
    template = record {
      labels = one_label (codes "app") app_name;
      annotations = [];
      spec = record {
        switch = record {
          volumes =
              record { name = codes "config-volume"; source = config_map cm_name [] }
              ∷ record { name = codes "data-volume"; source = empty_dir }
              ∷ [];
          init_containers = [];
          containers = prometheus ∷ exporter ∷ [];
          host_network = false;
        };
        node_selector = [];
        tolerate_all = false;
        service_account = service_account;
        node_name = [];
      };
    };
  };
  service = record {
    name = app_name;
    namespace = namespace;
    labels = one_label (codes "app") app_name;
    selector = one_label (codes "app") app_name;
    headless = false;
    port_name = [];
    port = 9090;
  };
}

module _ (marshal_targets : List Text → Text) where
  unfoldable pub build_swm_exporter_internal : Text → Text → Text → Text → List Text → Exporter
  unfolding exporter_of
  build_swm_exporter_internal namespace service_account topology_namespace exporter_name targets =
      exporter_of namespace service_account (codes "prometheus-lpm-network")
        (codes "prometheus-config-" ++ exporter_name) (marshal_targets targets)
        (exporter_container (codes "exporter" ∷ codes "--target" ∷ codes "swm" ∷ []) (
          record {
            name = codes "TOPOLOGY_NAMESPACE";
            value = topology_namespace;
            field_path = none;
          }
          ∷ []))

  unfoldable pub build_regular_exporter_internal : Text → Text → Text → List Text → Exporter
  unfolding exporter_of
  build_regular_exporter_internal namespace service_account exporter_name targets =
      exporter_of namespace service_account (codes "prometheus-" ++ exporter_name)
        (codes "prometheus-config-" ++ exporter_name) (marshal_targets targets)
        (exporter_container (codes "exporter" ∷ []) [])

  -- `BuildResources`; its error is always nil
  unfoldable pub build_resources : ExporterStrategy → Text → List Text → Exporter
  unfolding build_swm_exporter_internal build_regular_exporter_internal
  build_resources (swm_strategy namespace topology_namespace) service_account targets =
      build_swm_exporter_internal namespace service_account topology_namespace (codes "swm-lpm")
        targets
  build_resources (regular_strategy namespace) service_account targets =
      build_regular_exporter_internal namespace service_account (codes "lpm") targets
