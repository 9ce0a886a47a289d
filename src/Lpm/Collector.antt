-- ===== src/Lpm/Collector.antt =====
-- `BuildMonitoringCollectorResources` and `BuildNEDMonitoringResources`: the container that measures
-- links, and for every node the addresses that it probes. The file's type and its printing as JSON
-- belong to the lpm module and to encoding/json (`NodeConfig`, `LpmLibrary`).
use l2s_m.Base.{
  false, List, [], ◌∷◌, ◌++◌, Option, none, some, Text, codes, text_eq, is_empty, length, Result,
  ok, err, if◌then◌else◌, ◌>>=◌, or_err,
}
use l2s_m.Base.Dict
use l2s_m.Base.Dict.{Dict}
use l2s_m.Base.Int.{ℤ, pos}
use l2s_m.Net.{Ipv6}
use l2s_m.Datapath.{Datapath}
use l2s_m.Utils.Ip.{IpError, allocate_ipv4s}
use l2s_m.Utils.Naming.{slice_packet_switch, generate_switch_pod_name, generate_replica_set_name}
use l2s_m.Api.Switch.{Container, PullPolicy, if_not_present}
use l2s_m.Api.Resources.{ConfigMap}
use l2s_m.Api.Overlay.{overlay_provider}
use l2s_m.Controller.SwitchPod
use l2s_m.Lpm.{
  collector_config_key, collector_volume_name, collector_mount_path, collector_mounted_cfg_name,
  generate_configmap_name,
}

-- What a node measures towards a neighbour, and its whole configuration. `F` are Go's 64-bit floats.
pub record MetricConfiguration : Type 0 where
  pub name : Text
  pub ip : Text
  pub rtt : ℤ
  pub throughput : ℤ
  pub jitter : ℤ

pub record NodeConfig (F : Type 0) : Type 0 where
  pub node_name : Text
  pub ip_address : Text
  pub probe_interface : Text
  pub neighbours : List MetricConfiguration
  pub spread_factor : F

pub record LpmLibrary (F : Type 0) : Type 0 where
  -- `strconv.ParseFloat(…, 64)`
  pub parse_float : Text → Option F
  -- `json.MarshalIndent`, which fails on a number that is not finite
  pub marshal : NodeConfig F → Option Text

pub record CollectorBuildOptions : Type 0 where
  pub network_cidr : Option Text
  pub ip_cidr : Option Text
  pub ip_start : Option ℤ
  pub spread_factor : Option Text
  pub rtt_interval : Option ℤ
  pub throughput_interval : Option ℤ
  pub jitter_interval : Option ℤ
  pub collector_image : Option Text
  pub pull_policy : Option PullPolicy
  pub collector_name : Option Text

pub data CollectorError : Type 0 where
  no_nodes no_ip bad_spread_factor not_marshalled : CollectorError
  not_allocated : IpError → CollectorError

-- An option that is nil or empty takes the default value.
unfoldable pub text_or : Option Text → Text → Text
unfolding is_empty
text_or none v = v
text_or (some t) v = if is_empty t then v else t

abbrev pub option_or : {A : Type 0} → Option A → A → A
option_or none v = v
option_or (some a) v = a

abbrev pub lpm_image : Text
lpm_image = codes "alexdecb/lpm:1.2.6"

-- The container; `defaultCollectorPort` is its port.
unfoldable pub collector_container : CollectorBuildOptions → Container
unfolding text_or
collector_container opts = record {
  name = text_or opts.collector_name (codes "lpm-collector");
  image = text_or opts.collector_image lpm_image;
  pull_policy = option_or opts.pull_policy if_not_present;
  command = [];
  args = codes "collector" ∷ (codes "--config_file=" ++ collector_mount_path) ∷ [];
  env = [];
  ports = record { name = codes "lpm"; port = 8090 } ∷ [];
  volume_mounts =
      record {
        name = collector_volume_name;
        mount_path = collector_mount_path;
        sub_path = collector_mounted_cfg_name;
        read_only = false;
      }
      ∷ [];
  capabilities = [];
  privileged = false;
}

unfoldable pub metric : CollectorBuildOptions → Text → Text → MetricConfiguration
metric opts name ip = record {
  name = name;
  ip = ip;
  rtt = option_or opts.rtt_interval (pos 10);
  throughput = option_or opts.throughput_interval (pos 20);
  jitter = option_or opts.jitter_interval (pos 5);
}

-- `nodeIP[n] = allocated[i]`, node by node
unfoldable pub node_ips : Dict Text → List Text → List Text → Dict Text
node_ips ips (n ∷ nodes) (a ∷ allocated) = node_ips (Dict.insert n a ips) nodes allocated
node_ips ips _ _ = ips

-- `nodeIP[n]`; a missing node has the empty text
abbrev pub node_ip : Dict Text → Text → Text
node_ip ips n = option_or (Dict.lookup n ips) []

-- All nodes except the node itself.
unfoldable pub neighbour_metrics :
    CollectorBuildOptions → Dict Text → Text → List Text → List MetricConfiguration
unfolding metric
neighbour_metrics opts ips node [] = []
neighbour_metrics opts ips node (other ∷ nodes) =
    let rest = neighbour_metrics opts ips node nodes in
    if text_eq other node then rest else metric opts other (node_ip ips other) ∷ rest

unfoldable pub collector_config_map : Text → Text → Text → Text → Text → ConfigMap
collector_config_map pod_name namespace owner_label owner text = record {
  name = generate_configmap_name (generate_replica_set_name pod_name);
  namespace = namespace;
  labels = (codes "app", codes "l2sm") ∷ (owner_label, owner) ∷ [];
  contents = (collector_config_key, text) ∷ [];
}

module _ {F : Type 0} (lib : LpmLibrary F) (dp : Datapath) where
  unfoldable pub node_config :
      CollectorBuildOptions → F → Dict Text → Text → List Text → Text → NodeConfig F
  unfolding neighbour_metrics
  node_config opts sf ips mask nodes node = record {
    node_name = node;
    ip_address = node_ip ips node ++ mask;
    probe_interface = SwitchPod.probe_interface dp node overlay_provider;
    neighbours = neighbour_metrics opts ips node nodes;
    spread_factor = sf;
  }

  -- The loop over the nodes, which stops at a configuration that cannot be printed.
  unfoldable pub config_maps :
      Text → Text → (Text → NodeConfig F) → List Text → Result CollectorError (List ConfigMap)
  unfolding collector_config_map
  config_maps overlay namespace config [] = ok []
  config_maps overlay namespace config (node ∷ nodes) = do
    text ← or_err (lib.marshal (config node)) not_marshalled
    let pod_name = generate_switch_pod_name overlay node slice_packet_switch
    rest ← config_maps overlay namespace config nodes
    ok (collector_config_map pod_name namespace (codes "overlay") overlay text ∷ rest)

  -- The nodes are those of the overlay's topology, which is not nil.
  unfoldable pub build_monitoring_collector_resources :
      Ipv6
      → Text
      → Text
      → List Text
      → CollectorBuildOptions
      → Result CollectorError (Container × List ConfigMap)
  unfolding collector_container node_config node_ips config_maps text_or
  build_monitoring_collector_resources v6 overlay namespace [] opts = err no_nodes
  build_monitoring_collector_resources v6 overlay namespace (n ∷ ns) opts =
      let nodes = n ∷ ns in
      elim (allocate_ipv4s v6 (text_or opts.network_cidr (codes "10.0.0.0/24"))
        (option_or opts.ip_start (pos 2)) (pos (length nodes))) [
          | err e ↦ err (not_allocated e)
          | ok (allocated, mask) ↦ do
            sf ←
                or_err (lib.parse_float (text_or opts.spread_factor (codes "0.2")))
                  bad_spread_factor
            maps ←
                config_maps overlay namespace
                  (node_config opts sf (node_ips [] nodes allocated) mask nodes) nodes
            ok (collector_container opts, maps)
        ]
