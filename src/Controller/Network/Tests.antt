-- ===== src/Controller/Network/Tests.antt =====
-- Instances on a cluster and an SDN controller that answer always alike, and on a provider that
-- remembers whether it has the network.
use l2s_m.Base.{
  ◌≡◌, refl, Bool, true, false, [], ◌∷◌, Option, none, some, Text, codes, text_eq, ok,
  if◌then◌else◌, ℕ, arith,
}
use l2s_m.Base.Effects.{returned}
use l2s_m.Utils.Strings.{contains, default_if_empty}
use l2s_m.Api.Meta.{NetAttachDef, l2sm_finalizer, ObjectKey}
use l2s_m.Api.Ned.{NetworkEdgeDevice}
use l2s_m.Api.Provider.{ProviderSpec}
use l2s_m.Api.L2Network.{L2Network, IdsRules, online}
use l2s_m.Cluster.{Cluster}
use l2s_m.Sdn.Session.{
  Request, new_session_client, get, post, delete, session_get, session_post, ok_status, no_content,
}
use l2s_m.Sdn.Create.{new_client}
use l2s_m.Sdn.Internal
use l2s_m.Controller.Networks.{get_free_net_attach_defs}
use l2s_m.Controller.Fixtures.{meta_of, source_network, cluster_of, client, datapath, text_json}
use l2s_m.Controller.Network.{
  NetworkDeps, connect_internal_switch_to_ned, inter_domain_reconcile, provider_config,
}
use l2s_m.Controller.Network.Reconcile.{
  delete_network, create_in_controller, set_up_ids, reconcile_network,
}
use l2s_m.Controller.Network.Protocol.{
  traced, Removes, delete_network-Removing, Creates, create_in_controller-Creating,
}
use l2s_m.Controller.Network.Switch.{Connects, connect_internal_switch_to_ned-Connecting}
use l2s_m.Controller.Network.Joined.{KeepsSpec}
use l2s_m.Controller.Network.Mirror.{Mirrors, set_up_ids-Mirroring}
use l2s_m.Controller.Network.Order.{Follows, reconcile_network-Follows}
use l2s_m.Controller.Network.Provider.{session_of, inter_domain_reconcile_online}

-- The provider's answers; the world is whether the network exists there.
abbrev answer : Request → Bool → Option ℕ × Bool
answer r known = elim r.method [
  | get ↦
      if text_eq r.url (codes "http://[example.org]:30808/onos/vnets/api/status")
      then (some 200, known)
      else (if known then some 200 else some 404, known)
  | post ↦ (some 204, true)
  | delete ↦ (some 204, false)
]

abbrev known : Text → Bool → Bool
known name w = w

abbrev provider : ProviderSpec
provider = record {
  name = codes "provider";
  domain = codes "example.org" ∷ [];
  sdn_port = [];
  dns_port = [];
  dns_grpc_port = [];
  of_port = [];
}

abbrev nad : NetAttachDef
nad = record {
  meta = record (meta_of (codes "overlay-veth3")) { labels = (codes "app", codes "l2sm") ∷ [] };
  config = [];
}

abbrev network : L2Network
network = record source_network { spec = record source_network.spec { provider = some provider } }

abbrev settled : L2Network
settled = record network { meta = record network.meta { finalizers = l2sm_finalizer ∷ [] } }

abbrev cluster : Cluster Bool
cluster = record (cluster_of []) {
  get_network = λ k w. (ok settled, w);
  list_free_net_attach_defs = λ ns l w. (ok (nad ∷ []), w);
}

abbrev deps : NetworkDeps Bool
deps = record {
  cluster = cluster;
  sdn = client;
  json = text_json;
  dp = datapath;
  http = record { send = answer; marshal = λ p. p.network_id; base64 = λ t. t };
  lookup_env = λ t. none;
  switches_namespace = codes "ns";
  random_bits = λ w. (0, w);
  ned_service = record { accepts = λ a. true; attach = λ a b w. (some (codes "7"), w) };
  add_server = λ a b c e f w. (true, w);
}

delete_network-Removing_example :
    Removes deps network false [] (delete_network (traced deps) network (false, []))
delete_network-Removing_example = delete_network-Removing deps network false []

create_in_controller-Creating_example :
    Creates deps network false [] (create_in_controller (traced deps) network (false, []))
create_in_controller-Creating_example = create_in_controller-Creating deps network false []

connect_internal_switch_to_ned-Connecting_example :
    Connects deps (codes "red") (codes "node") (codes "provider") false (nad ∷ []) [] (
      connect_internal_switch_to_ned
        (traced deps)
        (codes "red")
        (codes "node")
        (codes "provider")
        (false, []))
unfolding get_free_net_attach_defs
connect_internal_switch_to_ned-Connecting_example =
    connect_internal_switch_to_ned-Connecting deps (codes "red") (codes "node") (codes "provider")
      false []

abbrev key : ObjectKey
key = record { name = codes "red"; namespace = codes "ns" }

finalizer_test : contains settled.finalizers l2sm_finalizer ≡ true
unfolding contains text_eq
finalizer_test = refl

answer_known :
    session_get deps.http (session_of deps provider) (codes "/vnets/api/red") true
    ≡ (some 200, true)
unfolding session_get text_eq default_if_empty new_session_client provider_config
answer_known = refl

answer_unknown :
    session_get deps.http (session_of deps provider) (codes "/vnets/api/red") false
    ≡ (some 404, false)
unfolding session_get text_eq default_if_empty new_session_client provider_config
answer_unknown = refl

answers_ok :
    (w w' : Bool)
    → session_get deps.http (session_of deps provider) (codes "/vnets/api/red") w
      ≡ (some ok_status, w')
    → w' ≡ true
answers_ok true w' e = ground (arith, answer_known)
answers_ok false w' e = ground (arith, answer_unknown)

answers_no_content :
    (w w' : Bool)
    → session_post deps.http (session_of deps provider) (codes "/vnets/api") (codes "red") w
      ≡ (some no_content, w')
    → w' ≡ true
unfolding session_post
answers_no_content w w' e = ground arith

online_test : inter_domain_reconcile deps network false ≡ (returned (online, none), true)
unfolding inter_domain_reconcile new_client Internal.begin_session_controller session_get text_eq
    default_if_empty Internal.internal_client Internal.check_network_exists Internal.expect_exists
    Internal.create_network Internal.expect session_post
online_test = refl

inter_domain_reconcile_online_example : known (codes "red") true ≡ true
inter_domain_reconcile_online_example =
    inter_domain_reconcile_online deps network provider known answers_ok answers_no_content false
      true none refl online_test

abbrev ned : NetworkEdgeDevice
ned = record {
  meta = meta_of (codes "edge");
  spec = record {
    provider = some provider;
    node_config = some (record { node_name = codes "node"; ip_address = codes "10.0.0.9" });
    neighbors = [];
    switch_template = none;
    monitor = none;
  };
  status = record {
    availability = none;
    connected_neighbors = [];
    openflow_id = [];
    link_metrics = none;
  };
}

abbrev rules : IdsRules
rules = record {
  enabled = true;
  home_net_cidr = [];
  use_emerging_threats_open = false;
  custom_rule_sources = [];
  ignore_ports = [];
  node = codes "node";
  profile = [];
  namespace = [];
}

-- A network with a provider and intrusion detection that was not created yet.
abbrev fresh : L2Network
fresh = record network { spec = record network.spec { ids = some rules } }

abbrev fresh_deps : NetworkDeps Bool
fresh_deps = record deps {
  cluster = record cluster {
    get_network = λ k w. (ok fresh, w);
    list_neds = λ w. (ok (ned ∷ []), w);
  };
}

set_up_ids-Mirroring_example :
    Mirrors fresh_deps fresh rules false
      (nad ∷ [])
      []
      (set_up_ids (traced fresh_deps) fresh rules (false, []))
unfolding get_free_net_attach_defs
set_up_ids-Mirroring_example = set_up_ids-Mirroring fresh_deps fresh rules false []

status_test : KeepsSpec fresh_deps
status_test n m w w' e = ground arith

update_test :
    (n m : L2Network) (w w' : Bool)
    → fresh_deps.cluster.update_network n w ≡ (ok m, w')
    → m.spec ≡ n.spec
update_test n m w w' e = ground arith

reconcile_network-Follows_example :
    Follows fresh_deps status_test update_test fresh []
      (reconcile_network (traced fresh_deps) key (false, []))
unfolding contains
reconcile_network-Follows_example =
    reconcile_network-Follows fresh_deps status_test update_test key fresh false false [] refl refl
      refl
