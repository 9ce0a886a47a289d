-- ===== src/Controller/Overlay/Tests.antt =====
-- Instances on a cluster that answers always alike and an overlay of two nodes.
use l2s_m.Base.{map, decimal, decimal, ◌≡◌, refl, List, [], ◌∷◌, none, some, codes, has_prefix, ok}
use l2s_m.Base.Int.{pos}
use l2s_m.Base.Effects.{returned}
use l2s_m.Net.Parse.{no_v6}
use l2s_m.Utils.Naming.{generate_switch_pod_name, slice_packet_switch}
use l2s_m.Utils.Strings.{index, veth}
use l2s_m.Api.Meta.{l2sm_finalizer}
use l2s_m.Api.Provider.{ProviderSpec}
use l2s_m.Api.Monitor.{MonitorSpec}
use l2s_m.Api.Overlay.{Overlay}
use l2s_m.Api.Resources.{Workload, Resource, config_map_object}
use l2s_m.Cluster.{Cluster}
use l2s_m.Monitoring.{ClientFactory}
use l2s_m.Controller.Defaults.{template_or_default, sps_mode}
use l2s_m.Controller.Fixtures.{meta_of, cluster_of, client, datapath}
use l2s_m.Controller.Owned.{create_all}
use l2s_m.Trace.{traced_cluster}
use l2s_m.Controller.Owned
use l2s_m.Trace.{Event}
use l2s_m.Controller.Overlay.Created.{create_external_resources-Creating}
use l2s_m.Controller.Overlay.Resources.{create_external_resources}
use l2s_m.Controller.Overlay.{OverlayDeps, build_network_attachment_definitions, replica_set_of}
use l2s_m.Controller.SwitchPod.{numbered}
use l2s_m.Controller.Overlay.Reconcile.{release_overlay}
use l2s_m.Controller.Overlay.Ports.{read_port, counted, build_network_attachment_definitions-ports}
use l2s_m.Controller.Overlay.Complete.{switch_names}
use l2s_m.Controller.Overlay.Releasing.{traced, Releases, release_overlay-Releasing}

abbrev provider : ProviderSpec
provider = record {
  name = codes "provider";
  domain = codes "example.org" ∷ [];
  sdn_port = [];
  dns_port = [];
  dns_grpc_port = [];
  of_port = codes "6653";
}

abbrev monitor : MonitorSpec
monitor = record {
  metrics = [];
  spread_factor = codes "0.2";
  export_metrics = none;
  network_cidr = none;
  ip_cidr = none;
}

abbrev overlay : Overlay
overlay = record {
  meta = record (meta_of (codes "blue")) { finalizers = l2sm_finalizer ∷ [] };
  spec = record {
    provider = some provider;
    topology = some (record { nodes = codes "a" ∷ codes "b" ∷ []; links = [] });
    switch_template = some (template_or_default sps_mode none);
    interface_number = pos 12;
    monitor = some monitor;
  };
  status = record { link_metrics = none };
}

abbrev factory : ClientFactory (Unit {0})
factory = record {
  internal_client_of = λ w. (ok client, w);
  for_provider_of = λ p w. (ok client, w);
}

abbrev switch_set : Workload
switch_set =
    replica_set_of overlay (template_or_default sps_mode none) (codes "blue-topology") (codes "a")
      (codes "[]")

abbrev cluster : Cluster (Unit {0})
cluster = record (cluster_of []) {
  get_overlay = λ k w. (ok overlay, w);
  list_replica_sets = λ ns n w. (ok (switch_set ∷ []), w);
}

abbrev deps : OverlayDeps (Unit {0}) (Unit {0})
deps = record {
  cluster = cluster;
  factory = some factory;
  http = record { send = λ r w. (some 200, w); marshal = λ p. []; base64 = λ t. t };
  lookup_env = λ t. none;
  dp = datapath;
  v6 = no_v6;
  files = record {
    marshal_topology = λ t. some (codes "{}");
    marshal_settings = λ t. some (codes "{}");
    marshal_node = λ t. some (codes "{}");
  };
  lib = record { parse_float = λ t. some tt; marshal = λ c. some (codes "{}") };
  marshal_targets = λ ts. codes "[]";
  random = λ w. (0, w);
}

name_test : index overlay.name veth ≡ none
unfolding index has_prefix
name_test = refl

build_network_attachment_definitions-ports_example :
    map read_port (build_network_attachment_definitions overlay)
    ≡ map (λ i. ok (decimal i)) (counted 1 12)
build_network_attachment_definitions-ports_example =
    build_network_attachment_definitions-ports overlay name_test

release_overlay-Releasing_example :
    Releases deps overlay tt [] (release_overlay (traced deps) overlay (tt, []))
release_overlay-Releasing_example = release_overlay-Releasing deps overlay tt []

abbrev unmonitored : Overlay
unmonitored = record overlay {
  spec = record overlay.spec { monitor = none; interface_number = pos 1 };
}

abbrev calls : List Event
calls = (create_external_resources (traced deps) unmonitored (tt, [])).1.1

created_test :
    create_external_resources (traced deps) unmonitored (tt, []) ≡ (returned none, (tt, calls))
unfolding create_external_resources create_all numbered
created_test = refl

create_external_resources-Creating_example :
    (resources : List Resource) × (es : List Event) × (w1 : Unit {0}) × (calls ≡ es)
    × Owned.Creating cluster unmonitored.meta w1 resources none es
    × (switch_names resources
        ≡ generate_switch_pod_name (codes "blue") (codes "a") slice_packet_switch
          ∷ generate_switch_pod_name (codes "blue") (codes "b") slice_packet_switch
          ∷ [])
create_external_resources-Creating_example =
    create_external_resources-Creating deps unmonitored
      (record { nodes = codes "a" ∷ codes "b" ∷ []; links = [] }) tt tt [] calls refl created_test

abbrev two_maps : List Resource
two_maps =
    config_map_object
      (record { name = codes "a"; namespace = codes "ns"; labels = []; contents = [] })
    ∷ config_map_object
        (record { name = codes "b"; namespace = codes "ns"; labels = []; contents = [] })
    ∷ []

create_all-Creating_example :
    Owned.Creates cluster overlay.meta tt two_maps []
      (create_all (traced_cluster cluster) overlay.meta two_maps (tt, []))
create_all-Creating_example = Owned.create_all-Creating cluster overlay.meta two_maps tt []
