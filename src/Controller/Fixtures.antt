-- ===== src/Controller/Fixtures.antt =====
-- A cluster and an SDN controller that answer always alike, for the instances.
use l2s_m.Base.{
  ℕ, [], ◌∷◌, ◌++◌, List, true, false, some, none, ok, err, Text, codes, text_eq, if◌then◌else◌,
}
use l2s_m.Base.Int.{pos}
use l2s_m.Base.Dict.{Dict}
use l2s_m.Base.Effects.{returned}
use l2s_m.Datapath.{Datapath}
use l2s_m.Annotation.{Json, NetworkAnnotation}
use l2s_m.Utils.Strings.{contains, remove_string}
use l2s_m.Sdn.{Client}
use l2s_m.Api.Meta.{ObjectMeta, Pod}
use l2s_m.Api.L2Network.{L2Network, vnet}
use l2s_m.Api.Quarantine.{QuarantinePodRequest, LabelSelector}
use l2s_m.Cluster.{Cluster, not_found}

abbrev pub meta_of : Text → ObjectMeta
meta_of name = record {
  name = name;
  namespace = codes "ns";
  labels = [];
  annotations = [];
  finalizers = [];
  deleting = false;
  generation = 1;
}

abbrev pub network_of : Text → ℕ → Dict Text → L2Network
network_of name n ips = record {
  meta = meta_of name;
  spec = record {
    type = vnet;
    config = none;
    provider = none;
    network_cidr = codes "10.0.0.0/24";
    pod_address_range = [];
    ids = none;
  };
  status = record {
    connected_pod_count = pos n;
    last_assigned_ip = [];
    assigned_ips = some ips;
    internal_connectivity = none;
    provider_connectivity = none;
  };
}

abbrev pub source_network : L2Network
source_network = network_of (codes "red") 1 ((codes "10.0.0.5", codes "web") ∷ [])

abbrev pub target_network : L2Network
target_network = network_of (codes "jail") 0 []

-- The networks of the pod, in the two annotations.
abbrev pub networks_of : Text → List NetworkAnnotation
networks_of name =
    record {
      name = name;
      namespace = codes "ns";
      ip_addresses = codes "10.0.0.5/24" ∷ [];
      if_name = codes "net1";
    }
    ∷ []

abbrev pub text_json : Json
text_json = record {
  marshal = λ n. codes "l2sm";
  unmarshal = λ t. (
    networks_of (if text_eq t (codes "multus") then codes "overlay-veth3" else codes "red"),
    true,
  );
}

abbrev pub web : Pod
web = record {
  meta = record (meta_of (codes "web")) {
    annotations =
        (codes "l2sm/networks", codes "l2sm")
        ∷ (codes "k8s.v1.cni.cncf.io/networks", codes "multus")
        ∷ [];
  };
  node_name = codes "node";
}

abbrev pub selector : LabelSelector
selector = record { match_labels = []; match_expressions = [] }

abbrev pub request : QuarantinePodRequest
request = record {
  meta = meta_of (codes "request");
  spec = record {
    selector = record { pod_label_selector = selector; l2_network_selector = selector };
    target_l2_network = codes "jail";
  };
  status = record {
    observed_generation = 0;
    source_l2_network_name = [];
    target_l2_network_name = [];
    matched_pod_count = pos 0;
    moved_pod_count = pos 0;
    conditions = [];
  };
}

-- `sources` are the networks that the selector matches.
abbrev pub cluster_of : {W : Type 0} → List L2Network → Cluster W
cluster_of sources = record {
  get_pod = λ k w. (ok web, w);
  get_network = λ k w. (ok target_network, w);
  get_net_attach_def = λ k w. (err not_found, w);
  get_request = λ k w. (ok request, w);
  update_pod = λ p w. (ok p, w);
  update_network = λ n w. (ok n, w);
  update_net_attach_def = λ n w. (ok n, w);
  update_network_status = λ n w. (ok n, w);
  update_request_status = λ q w. (ok q, w);
  list_networks = λ w. (ok sources, w);
  list_networks_in = λ ns s w. (ok sources, w);
  list_pods_in = λ ns s w. (ok (web ∷ []), w);
  list_nodes = λ w. (ok [], w);
  list_free_net_attach_defs = λ ns l w. (ok [], w);
  is_selector = λ s. true;
  get_overlay = λ k w. (err not_found, w);
  update_overlay = λ o w. (ok o, w);
  get_ned = λ k w. (err not_found, w);
  update_ned = λ n w. (ok n, w);
  list_neds = λ w. (ok [], w);
  list_replica_sets = λ ns n w. (ok [], w);
  create = λ r w. (none, w);
  apply = λ r w. (none, w);
  delete_net_attach_defs = λ ns n w. (none, w);
  set_controller_reference = λ o r. some r;
  contains_finalizer = contains;
  add_finalizer = λ fs f. fs ++ f ∷ [];
  remove_finalizer = remove_string;
}

abbrev pub client : {W : Type 0} → Client W
client = record {
  create_network = λ t p w. (returned none, w);
  delete_network = λ t n w. (returned none, w);
  check_network_exists = λ t n w. (returned (ok true), w);
  attach_pod_to_network = λ t p w. (returned none, w);
  detach_pod_from_network = λ t p w. (returned none, w);
  set_up_mirror_port = λ t p w. (returned none, w);
}

abbrev pub datapath : Datapath
datapath = record {
  switch_id = λ node provider. node;
  switch_name = λ node provider. node;
  port_name = λ node provider n. node;
  probe_name = λ node provider. node;
  reserved_probe_id = 9;
}
