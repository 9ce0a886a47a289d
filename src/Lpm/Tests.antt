-- ===== src/Lpm/Tests.antt =====
-- Instances on a pod with one switch.
use l2s_m.Base.{◌≡◌, refl, [], ◌∷◌, ◌++◌, some, none, false, Text, codes, text_eq}
use l2s_m.Base.Dict
use l2s_m.Base.Dict.{Dict}
use l2s_m.Lpm.Collector.{
  LpmLibrary, CollectorBuildOptions, MetricConfiguration, NodeConfig, node_ips, node_config,
  neighbour_metrics,
}
use l2s_m.Lpm.Neighbours.{node_config_neighbour}
use l2s_m.Controller.Fixtures.{datapath}
use l2s_m.Api.Switch.{Container, SwitchPodSpec, unset}
use l2s_m.Lpm.{attach_collector_config_to_replica_set, collector_volume}

abbrev switch : Container
switch = record {
  name = codes "l2sm-switch";
  image = codes "switch";
  pull_policy = unset;
  command = [];
  args = [];
  env = [];
  ports = [];
  volume_mounts = [];
  capabilities = [];
  privileged = false;
}

abbrev pod_spec : SwitchPodSpec
pod_spec = record {
  volumes = [];
  init_containers = [];
  containers = switch ∷ [];
  host_network = false;
}

abbrev attached : SwitchPodSpec
attached = record pod_spec { volumes = collector_volume (codes "rs-1") ∷ [] }

attached_test : attach_collector_config_to_replica_set pod_spec (codes "rs-1") ≡ some attached
unfolding attach_collector_config_to_replica_set
attached_test = refl

abbrev lib : LpmLibrary (Unit {0})
lib = record { parse_float = λ t. some tt; marshal = λ c. some (codes "{}") }

abbrev options : CollectorBuildOptions
options = record {
  network_cidr = none;
  ip_cidr = none;
  ip_start = none;
  spread_factor = none;
  rtt_interval = none;
  throughput_interval = none;
  jitter_interval = none;
  collector_image = none;
  pull_policy = none;
  collector_name = none;
}

abbrev addresses : Dict Text
addresses =
    node_ips [] (codes "a" ∷ codes "b" ∷ codes "c" ∷ [])
      (codes "10.0.0.2" ∷ codes "10.0.0.3" ∷ codes "10.0.0.4" ∷ [])

abbrev config_of : Text → NodeConfig (Unit {0})
config_of =
    node_config lib datapath options tt addresses (codes "/24")
      (codes "a" ∷ codes "b" ∷ codes "c" ∷ [])

address_test : (config_of (codes "b")).ip_address ≡ codes "10.0.0.3/24"
unfolding node_config node_ips Dict.insert Dict.lookup text_eq
address_test = refl

other_name_test : text_eq (codes "b") (codes "c") ≡ false
unfolding text_eq
other_name_test = refl

node_config_neighbour_example :
    (m : MetricConfiguration) × ((config_of (codes "c")).neighbours
      ≡ neighbour_metrics options addresses (codes "c") (codes "a" ∷ [])
        ++ m ∷ neighbour_metrics options addresses (codes "c") (codes "c" ∷ []))
    × (m.name ≡ codes "b")
    × (m.ip ++ codes "/24" ≡ (config_of (codes "b")).ip_address)
node_config_neighbour_example =
    node_config_neighbour lib datapath options tt addresses (codes "/24") (codes "c") (codes "b")
      (codes "a" ∷ []) (codes "c" ∷ []) other_name_test
