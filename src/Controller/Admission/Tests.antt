-- ===== src/Controller/Admission/Tests.antt =====
-- The webhook and the pod controller on one pod.
use l2s_m.Base.{◌≡◌, refl, [], ◌∷◌, true, some, ok, codes, text_eq, is_empty, arith}
use l2s_m.Base.Dict
use l2s_m.Base.Effects.{returned}
use l2s_m.Net.Parse.{no_v6, parse_cidr, print_ip}
use l2s_m.Annotation.{NetworkAnnotation, multus_annotation_to_string, extract_networks, named}
use l2s_m.Api.Meta.{Pod, NetAttachDef}
use l2s_m.Cluster.{Cluster}
use l2s_m.Controller.Fixtures.{meta_of, network_of, cluster_of, client, datapath}
use l2s_m.Controller.Pod.{PodDeps}
use l2s_m.Net.{contains}
use l2s_m.Controller.Networks.{get_l2networks_map}
use l2s_m.Controller.NextIp.{get_next_available_ip, search, search_from, last_ip, seen_net, bump}
use l2s_m.Controller.Webhook.{WebhookDeps, patched, handle, attach_network}
use l2s_m.Controller.Admission.{Admits, handle-Admits}
use l2s_m.Controller.Admission.Codec.{coded, coded_decodes}

abbrev nad : NetAttachDef
nad = record {
  meta = record (meta_of (codes "overlay-veth2")) { labels = (codes "app", codes "l2sm") ∷ [] };
  config = [];
}

abbrev cluster : Cluster (Unit {0})
cluster = record (cluster_of (network_of (codes "red") 0 [] ∷ [])) {
  list_free_net_attach_defs = λ ns l w. (ok (nad ∷ []), w);
}

abbrev webhook : WebhookDeps (Unit {0})
webhook = record {
  cluster = cluster;
  json = coded;
  v6 = no_v6;
  switches_namespace = codes "ns";
  fuel = 256;
  random = λ n w. (0, w);
  random_bits = λ w. (0, w);
}

abbrev deps : PodDeps (Unit {0})
deps = record {
  cluster = cluster;
  sdn = client;
  json = coded;
  dp = datapath;
  v6 = no_v6;
  switches_namespace = codes "ns";
  create_event = λ e w. w;
  send_dns_entry = λ s e w. (true, w);
}

-- A pod that asks for the network `red`, before and after the webhook.
abbrev new : Pod
new = record {
  meta = record (meta_of (codes "web")) {
    annotations = (codes "l2sm/networks", coded.marshal (named (codes "red") ∷ [])) ∷ [];
  };
  node_name = codes "node";
}

abbrev attachment : NetworkAnnotation
attachment = record {
  name = codes "overlay-veth2";
  namespace = codes "ns";
  ip_addresses = codes "10.0.0.1/24" ∷ [];
  if_name = [];
}

abbrev with_attachment : Pod
with_attachment = record new {
  meta = record new.meta {
    annotations =
        (codes "l2sm/networks", coded.marshal (named (codes "red") ∷ []))
        ∷ (codes "k8s.v1.cni.cncf.io/networks", coded.marshal (attachment ∷ []))
        ∷ [];
  };
}

patched_test : handle webhook (some new) tt ≡ (returned (patched with_attachment), tt)
unfolding handle is_empty Dict.contains text_eq Dict.lookup extract_networks coded attach_network
    named get_l2networks_map Dict.insert parse_cidr get_next_available_ip search_from last_ip search
    contains seen_net bump print_ip multus_annotation_to_string
patched_test = refl

has_test : Dict.contains (codes "k8s.v1.cni.cncf.io/networks") with_attachment.annotations ≡ true
unfolding Dict.contains text_eq
has_test = refl

handle-Admits_example : Admits webhook deps with_attachment tt []
handle-Admits_example =
    handle-Admits webhook deps new with_attachment tt tt tt [] coded_decodes
      (λ p q w w' e. ground arith) patched_test has_test
