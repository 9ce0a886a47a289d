-- ===== src/Controller/Defaults.antt =====
-- What overlays and network edge devices are given where their specification leaves it out:
-- internal/talpainterface/switchtemplate.go, `applyOverlayDefaults` of overlay_controller.go, and
-- `applyNetworkEdgeDeviceDefaults` of networkedgedevice_controller.go with the choice of the node.
pub mod Again
mod Tests
use l2s_m.Base.{
  ℕ, Bool, true, false, not, ◌&&◌, ◌||◌, List, [], ◌∷◌, ◌++◌, Option, none, some, Text, codes,
  is_empty, Result, ok, err, if◌then◌else◌, ◌>>=◌,
}
use l2s_m.Base.Dict
use l2s_m.Api.Meta.{Node, NodeAddress}
use l2s_m.Api.Switch.{Container, EnvVar, always, SwitchPodSpec, SwitchTemplateSpec}
use l2s_m.Api.Overlay.{Overlay}
use l2s_m.Api.Ned.{NetworkEdgeDevice, NodeConfigSpec}
use l2s_m.Cluster.{Cluster, ApiError}

pub data TemplateMode : Type 0 where
  ned_mode sps_mode : TemplateMode

abbrev pub default_switch_container : Container
default_switch_container = record {
  name = codes "l2sm-switch";
  image = codes "alexdecb/talpa:1.3.8";
  pull_policy = always;
  command = [];
  args = [];
  env = [];
  ports = [];
  volume_mounts = [];
  capabilities = codes "NET_ADMIN" ∷ [];
  privileged = false;
}

abbrev pub template_of : Bool → Container → SwitchTemplateSpec
template_of host_network c = record {
  labels = [];
  annotations = [];
  spec = record {
    volumes = [];
    init_containers = [];
    containers = c ∷ [];
    host_network = host_network;
  };
}

-- A mode other than these two is an error; the program uses no other.
unfoldable pub default_switch_template : TemplateMode → SwitchTemplateSpec
default_switch_template ned_mode =
    template_of true (record default_switch_container { args = codes "ned" ∷ [] })
default_switch_template sps_mode = template_of false (record default_switch_container {
  args = codes "sps-init" ∷ codes "--node_name=$(NODENAME)" ∷ [];
  env =
      record { name = codes "NODENAME"; value = []; field_path = some (codes "spec.nodeName") }
      ∷ [];
})

-- The template, or the default one if there is none.
unfoldable pub template_or_default : TemplateMode → Option SwitchTemplateSpec → SwitchTemplateSpec
unfolding default_switch_template
template_or_default mode none = default_switch_template mode
template_or_default mode (some t) = t

-- The overlay that is given is not nil.
unfoldable pub apply_overlay_defaults : Overlay → Overlay
unfolding template_or_default
apply_overlay_defaults overlay = record overlay {
  spec = record overlay.spec {
    switch_template = some (template_or_default sps_mode overlay.spec.switch_template);
  };
}

pub data NodeError : Type 0 where
  list_failed : ApiError → NodeError
  no_control_plane : NodeError
  no_internal_ip : Text → NodeError

unfoldable pub first_internal : List NodeAddress → Option Text
unfolding is_empty
first_internal [] = none
first_internal (a ∷ addresses) =
    let rest = first_internal addresses in
    if a.internal && not (is_empty a.address) then some a.address else rest

unfoldable pub get_node_internal_ip : Node → Result NodeError Text
unfolding first_internal
get_node_internal_ip node = elim (first_internal node.addresses) [
  | none ↦ err (no_internal_ip node.name)
  | some ip ↦ ok ip
]

abbrev pub is_control_plane : Node → Bool
is_control_plane node =
    Dict.contains (codes "node-role.kubernetes.io/control-plane") node.labels
    || Dict.contains (codes "node-role.kubernetes.io/master") node.labels

-- The loop over the nodes: the first control plane decides.
unfoldable pub pick_control_plane : List Node → Result NodeError NodeConfigSpec
unfolding get_node_internal_ip
pick_control_plane [] = err no_control_plane
pick_control_plane (node ∷ nodes) = elim (is_control_plane node) [
  | true ↦ elim (get_node_internal_ip node) [
    | err e ↦ err e
    | ok ip ↦ ok (record { node_name = node.name; ip_address = ip })
  ]
  | false ↦ pick_control_plane nodes
]

module _ {W : Type 0} (c : Cluster W) where
  unfoldable pub get_control_plane_node_config : W → Result NodeError NodeConfigSpec × W
  unfolding pick_control_plane
  get_control_plane_node_config w =
      let (r, w') = c.list_nodes w in
      elim r [ err e ↦ (err (list_failed e), w') | ok nodes ↦ (pick_control_plane nodes, w') ]

  abbrev pub with_node_config :
      NetworkEdgeDevice
      → Result NodeError NodeConfigSpec × W
      → Result NodeError NetworkEdgeDevice × W
  with_node_config ned (err e, w) = (err e, w)
  with_node_config ned (ok config, w) =
      (ok (record ned { spec = record ned.spec { node_config = some config } }), w)

  -- The device that is given is not nil.
  unfoldable pub apply_network_edge_device_defaults :
      NetworkEdgeDevice → W → Result NodeError NetworkEdgeDevice × W
  unfolding template_or_default
  apply_network_edge_device_defaults ned w =
      let templated : NetworkEdgeDevice = record ned {
        spec = record ned.spec {
          switch_template = some (template_or_default ned_mode ned.spec.switch_template);
        };
      } in
      elim ned.spec.node_config [
        | some _ ↦ (ok templated, w)
        | none ↦ with_node_config templated (get_control_plane_node_config w)
      ]
