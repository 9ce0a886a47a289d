-- ===== src/Controller/Ned/Tests.antt =====
-- An instance on a device with monitoring.
use l2s_m.Base.{◌≡◌, refl, [], ◌∷◌, none, some, codes}
use l2s_m.Api.Monitor.{MonitorSpec}
use l2s_m.Api.Ned.{NetworkEdgeDevice}
use l2s_m.Controller.Fixtures.{meta_of, cluster_of, datapath}
use l2s_m.Controller.Ned.{NedDeps}
use l2s_m.Controller.Ned.Resources.{reconcile_ned}
use l2s_m.Controller.Ned.Reconcile.{release_ned}
use l2s_m.Controller.Ned.Releasing.{traced, Releases, release_ned-Releasing}
use l2s_m.Controller.Ned.Again.{with_spread_factor, reconcile_ned_spread_factor}

abbrev monitor : MonitorSpec
monitor = record {
  metrics = [];
  spread_factor = codes "0.5";
  export_metrics = none;
  network_cidr = none;
  ip_cidr = some (codes "10.0.0.2/24");
}

abbrev ned : NetworkEdgeDevice
ned = record {
  meta = meta_of (codes "edge");
  spec = record {
    provider = some (record {
      name = codes "provider";
      domain = codes "example.org" ∷ [];
      sdn_port = [];
      dns_port = [];
      dns_grpc_port = [];
      of_port = codes "6653";
    });
    node_config = some (record { node_name = codes "node"; ip_address = codes "10.0.0.9" });
    neighbors = [];
    switch_template = none;
    monitor = some monitor;
  };
  status = record {
    availability = none;
    connected_neighbors = [];
    openflow_id = [];
    link_metrics = none;
  };
}

abbrev deps : NedDeps (Unit {0}) (Unit {0})
deps = record {
  cluster = cluster_of [];
  factory = none;
  http = record { send = λ r w. (some 200, w); marshal = λ p. []; base64 = λ t. t };
  lookup_env = λ t. none;
  dp = datapath;
  files = record {
    marshal_topology = λ t. some (codes "{}");
    marshal_settings = λ t. some (codes "{}");
    marshal_node = λ t. some (codes "{}");
  };
  lib = record { parse_float = λ t. some tt; marshal = λ c. some (codes "{}") };
}

reconcile_ned_spread_factor_example :
    reconcile_ned deps (with_spread_factor (codes "0.9") monitor ned) tt ≡ reconcile_ned deps ned tt
reconcile_ned_spread_factor_example =
    reconcile_ned_spread_factor deps ned monitor (codes "0.9") tt refl

release_ned-Releasing_example : Releases deps ned tt [] (release_ned (traced deps) ned (tt, []))
release_ned-Releasing_example = release_ned-Releasing deps ned tt []
