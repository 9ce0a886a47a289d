-- ===== src/Controller/Overlay.antt =====
-- internal/controller/overlay_controller.go: what an overlay consists of in the cluster.
pub mod Reconcile
pub mod Complete
pub mod Created
pub mod Ports
pub mod Releasing
pub mod Resources
mod Tests
use l2s_m.Base.{
  true, false, ℕ, zero, suc, ◌+◌, ◌%◌, ◌^◌, List, [], ◌∷◌, ◌++◌, map, Option, none, some, Text,
  codes, join_comma, decimal, hex_padded, ltb, if◌then◌else◌, Result, ok, err,
}
use l2s_m.Base.Int.{ℤ, pos_part, pos}
use l2s_m.Base.Effects
use l2s_m.Base.Effects.{Act, ret, pure, or_return, lift, deref, unwrap, ◌>>=◌}
use l2s_m.Net.{Ipv6}
use l2s_m.Datapath.{Datapath}
use l2s_m.Env.{Lookup}
use l2s_m.SwitchFiles.{SwitchNode, SwitchLink, SwitchTopology, Settings, SwitchFiles}
use l2s_m.Annotation.{multus_annotation_key}
use l2s_m.Utils.Naming.{
  slice_packet_switch, generate_switch_pod_name, generate_service_name, generate_replica_set_name,
}
use l2s_m.Api.Meta.{NetAttachDef}
use l2s_m.Api.Monitor.{MonitorSpec}
use l2s_m.Api.Provider.{ProviderSpec}
use l2s_m.Api.Switch.{Container, VolumeMount, Volume, config_map, SwitchPodSpec, SwitchTemplateSpec}
use l2s_m.Api.Overlay.{Overlay, TopologySpec, Link, overlay_provider}
use l2s_m.Api.Resources.{
  ConfigMap, Workload, Service, Resource, config_map_object, net_attach_def_object,
  replica_set_object, deployment_object, service_object, one_label, hostname_label,
}
use l2s_m.Cluster.{Cluster, ApiError}
use l2s_m.Sdn.Session.{Http}
use l2s_m.Lpm.{add_lpm_config_map_to_sps, attach_collector_config_to_replica_set}
use l2s_m.Lpm.Collector.{
  LpmLibrary, CollectorBuildOptions, CollectorError, option_or,
  build_monitoring_collector_resources,
}
use l2s_m.Lpm.Exporter.{Exporter, new_exporter, build_resources}
use l2s_m.Monitoring.{MonitoringError, ClientFactory}
use l2s_m.Controller.Owned.{CreateError}
use l2s_m.Controller.SwitchPod.{
  interfaces, interface_name, generate_annotations, config_volume, switch_pod,
}

-- The reconciler's fields and what it calls outside; `random` is `rand.Uint64`.
pub record OverlayDeps (W F : Type 0) : Type 0 where
  pub cluster : Cluster W
  pub factory : Option (ClientFactory W)
  pub http : Http W
  pub lookup_env : Lookup
  pub dp : Datapath
  pub v6 : Ipv6
  pub files : SwitchFiles
  pub lib : LpmLibrary F
  pub marshal_targets : List Text → Text
  pub random : W → ℕ × W

pub data ResourcesError : Type 0 where
  not_marshalled no_node_config : ResourcesError
  no_collector : CollectorError → ResourcesError
  no_monitoring : MonitoringError → ResourcesError
  not_all_created : CreateError → ResourcesError
  not_applied : ApiError → ResourcesError

unfoldable pub topology_node : Text → Text → SwitchNode
topology_node overlay node = record {
  name = node;
  node_ip = generate_service_name (generate_switch_pod_name overlay node slice_packet_switch);
  neighbor_nodes = [];
}

unfoldable pub topology_link : Link → SwitchLink
topology_link l = record { endpoint_node_a = l.endpoint_a; endpoint_node_b = l.endpoint_b }

-- The topology and the provider are those of the overlay, which are not nil.
unfoldable pub build_topology_config_map :
    SwitchFiles → Overlay → TopologySpec → ProviderSpec → Option ConfigMap
unfolding topology_node topology_link
build_topology_config_map files overlay topology provider =
    let nodes = map (topology_node overlay.name) topology.nodes in
    let links = map topology_link topology.links in
    let settings : Settings = record {
      controller_ip = provider.domain;
      controller_port = provider.of_port;
      node_name = [];
      switch_name = [];
      interfaces_number = overlay.spec.interface_number;
      provider_name = overlay_provider;
    } in
    elim (files.marshal_topology (record { nodes = nodes; links = links })) [
      | none ↦ none
      | some topology_json ↦ elim (files.marshal_settings settings) [
        | none ↦ none
        | some config_json ↦ some (record {
          name = overlay.name ++ codes "-topology";
          namespace = overlay.namespace;
          labels = [];
          contents =
              (codes "topology.json", topology_json) ∷ (codes "config.json", config_json) ∷ [];
        })
      ]
    ]

unfoldable pub net_attach_def_of : Overlay → ℕ → NetAttachDef
unfolding interface_name
net_attach_def_of overlay i = record {
  meta = record {
    name = interface_name overlay.name i;
    namespace = overlay.namespace;
    labels = (codes "app", codes "l2sm") ∷ (codes "overlay", overlay.name) ∷ [];
    annotations = [];
    finalizers = [];
    deleting = false;
    generation = 0;
  };
  config =
      codes
        "{\n            \"cniVersion\": \"0.3.0\",\n            \"type\": \"bridge\",\n            \"bridge\": \"br"
      ++ (decimal i
          ++ (codes "\",\n            \"mtu\": 1400,\n            \"device\": \""
              ++ (interface_name overlay.name i
                  ++ codes "\",\n            \"ipam\": { \"type\":\"static\" }\n        }")));
}

unfoldable pub build_network_attachment_definitions : Overlay → List NetAttachDef
unfolding interfaces net_attach_def_of
build_network_attachment_definitions overlay =
    map (net_attach_def_of overlay) (interfaces overlay.spec.interface_number)

unfoldable pub replica_set_of : Overlay → SwitchTemplateSpec → Text → Text → Text → Workload
replica_set_of overlay template config_map_name node annotations =
    let name = generate_switch_pod_name overlay.name node slice_packet_switch in
    record {
      name = generate_replica_set_name name;
      namespace = overlay.namespace;
      labels = template.labels;
      annotations = template.annotations;
      replicas = some 1;
      selector = one_label (codes "app") name;
      template = record {
        labels = one_label (codes "app") name;
        annotations = one_label multus_annotation_key annotations;
        spec = record {
          switch = switch_pod template (
              config_volume (codes "config") config_map_name (codes "topology.json")
                (codes "config.json"));
          node_selector = one_label hostname_label node;
          tolerate_all = true;
          service_account = [];
          node_name = [];
        };
      };
    }

unfoldable pub service_of : Overlay → Text → Service
service_of overlay node =
    let name = generate_switch_pod_name overlay.name node slice_packet_switch in
    record {
      name = generate_service_name name;
      namespace = overlay.namespace;
      labels = one_label (codes "app") name;
      selector = one_label (codes "app") name;
      headless = true;
      port_name = codes "http";
      port = 80;
    }
