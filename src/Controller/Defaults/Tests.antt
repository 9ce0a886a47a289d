-- ===== src/Controller/Defaults/Tests.antt =====
-- Instances on a cluster with one control-plane node.
use l2s_m.Base.{◌≡◌, refl, [], ◌∷◌, some, none, ok, true, codes, text_eq}
use l2s_m.Base.Dict
use l2s_m.Api.Meta.{Node}
use l2s_m.Api.Ned.{NetworkEdgeDevice}
use l2s_m.Cluster.{Cluster}
use l2s_m.Controller.Fixtures.{meta_of, cluster_of}
use l2s_m.Controller.Defaults.{
  apply_network_edge_device_defaults, default_switch_template, ned_mode,
  get_control_plane_node_config,
}
use l2s_m.Controller.Defaults.Again.{apply_network_edge_device_defaults-again}

abbrev master : Node
master = record {
  name = codes "master";
  labels = (codes "node-role.kubernetes.io/control-plane", []) ∷ [];
  addresses = record { internal = true; address = codes "192.168.1.10" } ∷ [];
}

abbrev one_node : Cluster (Unit {0})
one_node = record (cluster_of []) { list_nodes = λ w. (ok (master ∷ []), w) }

abbrev plain_ned : NetworkEdgeDevice
plain_ned = record {
  meta = meta_of (codes "ned");
  spec = record {
    provider = none;
    node_config = none;
    neighbors = [];
    switch_template = none;
    monitor = none;
  };
  status = record {
    availability = none;
    connected_neighbors = [];
    openflow_id = [];
    link_metrics = none;
  };
}

abbrev full_ned : NetworkEdgeDevice
full_ned = record plain_ned {
  spec = record plain_ned.spec {
    node_config = some (record { node_name = codes "master"; ip_address = codes "192.168.1.10" });
    switch_template = some (default_switch_template ned_mode);
  };
}

defaults_test : apply_network_edge_device_defaults one_node plain_ned tt ≡ (ok full_ned, tt)
unfolding apply_network_edge_device_defaults get_control_plane_node_config Dict.contains text_eq
defaults_test = refl

apply_network_edge_device_defaults-again_example :
    apply_network_edge_device_defaults one_node full_ned tt ≡ (ok full_ned, tt)
apply_network_edge_device_defaults-again_example =
    apply_network_edge_device_defaults-again one_node plain_ned full_ned tt tt tt defaults_test
