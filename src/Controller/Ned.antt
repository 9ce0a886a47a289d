-- ===== src/Controller/Ned.antt =====
-- internal/controller/networkedgedevice_controller.go: the switch of a network edge device, its
-- monitoring, and (in Reconcile) `Reconcile`. The defaults stand in Controller/Defaults.
pub mod Again
pub mod Reconcile
pub mod Releasing
pub mod Resources
mod Tests
use l2s_m.Base.{
  ℕ, Bool, true, false, not, ◌==◌, List, [], ◌∷◌, ◌++◌, map, length, Option, none, some, Text,
  codes, if◌then◌else◌, Result, ok, err,
}
use l2s_m.Base.Int.{pos}
use l2s_m.Base.Effects
use l2s_m.Base.Effects.{
  Act, Outcome, returned, panicked, run, try, handle, call, ret, pure, or_return, lift, deref,
  unwrap, when, when_some, ◌>>=◌, ◌>>◌,
}
use l2s_m.Datapath.{Datapath}
use l2s_m.Env.{Lookup}
use l2s_m.SwitchFiles.{SwitchNode, Settings, SwitchFiles}
use l2s_m.Utils.Naming.{network_edge_device, generate_switch_pod_name, generate_replica_set_name}
use l2s_m.Api.Meta.{ObjectKey, l2sm_finalizer}
use l2s_m.Api.Monitor.{MonitorSpec}
use l2s_m.Api.Ned.{NetworkEdgeDevice, NeighborSpec, NodeConfigSpec}
use l2s_m.Api.Provider.{ProviderSpec}
use l2s_m.Api.Switch.{Container, SwitchPodSpec, SwitchTemplateSpec}
use l2s_m.Api.Resources.{
  ConfigMap, Workload, Resource, config_map_object, replica_set_object, one_label, hostname_label,
}
use l2s_m.Cluster.{
  Cluster, ApiError, api, message, Reconciled, done, requeue_after, failed, ignore_not_found,
  finished,
}
use l2s_m.Sdn.Session.{Http}
use l2s_m.Lpm.{add_lpm_config_map_to_sps, attach_collector_config_to_replica_set}
use l2s_m.Lpm.Collector.{LpmLibrary, CollectorBuildOptions, option_or}
use l2s_m.Lpm.NedCollector.{build_ned_monitoring_resources}
use l2s_m.Monitoring.{MonitoringError, ClientFactory, ensure, delete, monitoring_client_factory}
use l2s_m.Controller.Defaults.{apply_network_edge_device_defaults}
use l2s_m.Controller.Owned.{OwnerReference, owner_index, create_all}
use l2s_m.Controller.Overlay.{
  ResourcesError, not_marshalled, no_node_config, no_collector, no_monitoring, not_all_created,
  not_applied,
}
use l2s_m.Controller.SwitchPod.{config_volume, switch_pod}

-- The reconciler's fields and what it calls outside.
pub record NedDeps (W F : Type 0) : Type 0 where
  pub cluster : Cluster W
  pub factory : Option (ClientFactory W)
  pub http : Http W
  pub lookup_env : Lookup
  pub dp : Datapath
  pub files : SwitchFiles
  pub lib : LpmLibrary F

-- The field index of replica sets and config maps.
unfoldable pub ned_owner_index : Option OwnerReference → List Text
unfolding owner_index
ned_owner_index owner = owner_index (codes "NetworkEdgeDevice") owner

abbrev pub ned_settings : Datapath → NodeConfigSpec → ProviderSpec → Settings
ned_settings dp node provider = record {
  controller_ip = provider.domain;
  controller_port = provider.of_port;
  node_name = node.node_name;
  switch_name = dp.switch_name node.node_name provider.name;
  interfaces_number = pos 0;
  provider_name = [];
}

abbrev pub ned_node : NetworkEdgeDevice → NodeConfigSpec → SwitchNode
ned_node ned node = record {
  name = node.node_name;
  node_ip = node.ip_address;
  neighbor_nodes = map (λ (n : NeighborSpec). n.domain) ned.spec.neighbors;
}

unfoldable pub construct_config_map_for_ned :
    Datapath → SwitchFiles → NetworkEdgeDevice → Outcome (Result ResourcesError ConfigMap)
construct_config_map_for_ned dp files ned = elim ned.spec.node_config [
  | none ↦ returned (err no_node_config)
  | some node ↦ elim ned.spec.provider [
    | none ↦ panicked
    | some provider ↦ elim (files.marshal_settings (ned_settings dp node provider)) [
      | none ↦ returned (err not_marshalled)
      | some settings_json ↦ elim (files.marshal_node (ned_node ned node)) [
        | none ↦ returned (err not_marshalled)
        | some neighbors_json ↦ returned (
            ok (record {
              name = ned.name ++ codes "-config";
              namespace = ned.namespace;
              labels = [];
              contents =
                  (codes "neighbors.json", neighbors_json)
                  ∷ (codes "config.json", settings_json)
                  ∷ [];
            }))
      ]
    ]
  ]
]

-- For the device's node and template, which are not nil.
unfoldable pub construct_replica_set_for_ned :
    NetworkEdgeDevice → NodeConfigSpec → SwitchTemplateSpec → Text → Workload
construct_replica_set_for_ned ned node template config_map_name = record {
  name =
      generate_replica_set_name
        (generate_switch_pod_name ned.name node.node_name network_edge_device);
  namespace = ned.namespace;
  labels = template.labels;
  annotations = template.annotations;
  replicas = some 1;
  selector = one_label (codes "app") (codes "l2sm");
  template = record {
    labels = one_label (codes "app") (codes "l2sm");
    annotations = [];
    spec = record {
      switch = switch_pod template (
          config_volume (codes "configurations") config_map_name (codes "neighbors.json")
            (codes "config.json"));
      node_selector = one_label hostname_label node.node_name;
      tolerate_all = true;
      service_account = [];
      node_name = [];
    };
  };
}

-- The collector in the replica set; then the switch's container is given the collector's file.
unfoldable pub with_ned_collector : Container → Workload → Workload
with_ned_collector collector rs =
    let switch = rs.template.spec.switch in
    let extended : SwitchPodSpec = record switch {
      containers = switch.containers ++ collector ∷ [];
    } in
    let mounted = add_lpm_config_map_to_sps extended in
    record rs {
      template = record rs.template {
        spec = record rs.template.spec {
          switch = option_or (attach_collector_config_to_replica_set mounted rs.name) mounted;
        };
      };
    }

abbrev pub ned_collector_options : Option Text → Option Text → CollectorBuildOptions
ned_collector_options ip_cidr spread_factor = record {
  network_cidr = none;
  ip_cidr = ip_cidr;
  ip_start = none;
  spread_factor = spread_factor;
  rtt_interval = none;
  throughput_interval = none;
  jitter_interval = none;
  collector_image = none;
  pull_policy = none;
  collector_name = none;
}
