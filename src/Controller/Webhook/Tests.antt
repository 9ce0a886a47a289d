-- ===== src/Controller/Webhook/Tests.antt =====
-- Instances on a cluster that answers always alike.
use l2s_m.Base.{
  length, ℕ, ◌++◌, is_empty, some, false, arith, ◌≡◌, refl, [], ◌∷◌, List, map, none, Text, codes,
  text_eq,
}
use l2s_m.Base.Dict
use l2s_m.Base.Dict.{Dict}
use l2s_m.Base.Effects.{next}
use l2s_m.Net.{contains, IpNet, in_v6}
use l2s_m.Net.Parse.{no_v6, parse_cidr, parse_ip, print_ip}
use l2s_m.Api.Meta.{NetAttachDef}
use l2s_m.Api.L2Network.{L2Network}
use l2s_m.Annotation.{NetworkAnnotation, named}
use l2s_m.Controller.Fixtures.{web, meta_of, network_of, cluster_of, text_json}
use l2s_m.Controller.NextIp.{get_next_available_ip, search, search_from, seen_net, bump, last_ip}
use l2s_m.Controller.Webhook.Fresh.{choose_addresses_fresh}
use l2s_m.Controller.Webhook.{
  choose_addresses, assigned_key, WebhookDeps, attach_networks, attach_network,
}
use l2s_m.Base.Int.{pos}
use l2s_m.Trace.{net_attach_def_updated, network_status_updated}
use l2s_m.Controller.Networks.{set_label}
use l2s_m.Controller.Quarantine.Status.{increment}
use l2s_m.Controller.Webhook.Admitted.{traced}
use l2s_m.Controller.Webhook.Given.{Numbered}
use l2s_m.Controller.Webhook.Distinct.{
  Distinct, Admissions, none_yet, admitted, Admissions-Distinct,
}
use l2s_m.Controller.Webhook.InOrder.{first_names, attach_networks_in_order}

abbrev deps : WebhookDeps (Unit {0})
deps = record {
  cluster = cluster_of [];
  json = text_json;
  v6 = no_v6;
  switches_namespace = codes "ns";
  fuel = 256;
  random = λ n w. (0, w);
  random_bits = λ w. (0, w);
}

abbrev nad_of : Text → NetAttachDef
nad_of name = record {
  meta = record (meta_of name) { labels = (codes "app", codes "l2sm") ∷ [] };
  config = [];
}

-- A network to which nothing has been assigned: its map is nil.
abbrev fresh : L2Network
fresh =
    let n = network_of (codes "red") 0 [] in
    record n { status = record n.status { assigned_ips = none } }

abbrev twice : List NetworkAnnotation
twice = named (codes "red") ∷ named (codes "red") ∷ []

abbrev two_nads : List NetAttachDef
two_nads =
    nad_of (codes "overlay-veth1")
    ∷ nad_of (codes "overlay-veth2")
    ∷ nad_of (codes "overlay-veth3")
    ∷ []

abbrev attachment : Text → NetworkAnnotation
attachment name = record {
  name = name;
  namespace = codes "ns";
  ip_addresses = codes "10.0.0.1/24" ∷ [];
  if_name = [];
}

abbrev same_address : List NetworkAnnotation
same_address = attachment (codes "overlay-veth1") ∷ attachment (codes "overlay-veth2") ∷ []

-- A pod that names such a network twice gets the same address twice.
same_address_test :
    attach_networks deps web (codes "used-node") twice two_nads ((codes "red", fresh) ∷ []) tt
    ≡ (next same_address, tt)
unfolding attach_networks attach_network named Dict.lookup text_eq parse_cidr get_next_available_ip
    search_from last_ip search contains seen_net bump Dict.contains print_ip
same_address_test = refl

attach_networks_in_order_example :
    (length same_address ≡ length twice)
    × (map (λ (m : NetworkAnnotation). m.name) same_address ≡ first_names (length twice) two_nads)
attach_networks_in_order_example =
    attach_networks_in_order deps web (codes "used-node") twice two_nads ((codes "red", fresh) ∷ [])
      same_address tt tt same_address_test

-- A network whose last address is 10.0.0.5, and where the next one was given by hand.
abbrev busy : L2Network
busy =
    let n = network_of (codes "red") 1 ((codes "10.0.0.6", codes "other") ∷ []) in
    record n { status = record n.status { last_assigned_ip = codes "10.0.0.5" } }

abbrev after : L2Network
after = record busy { status = record busy.status { last_assigned_ip = codes "10.0.0.7" } }

abbrev ten_net : IpNet
ten_net = record { ip = 10 ∷ 0 ∷ 0 ∷ 0 ∷ []; ones = 24 }

ten_test : parse_cidr no_v6 (codes "10.0.0.0/24") ≡ some (in_v6 (10 ∷ 0 ∷ 0 ∷ 0 ∷ []), ten_net)
unfolding parse_cidr in_v6
ten_test = refl

last_test : last_ip no_v6 (codes "10.0.0.5") ≡ some (in_v6 (10 ∷ 0 ∷ 0 ∷ 5 ∷ []))
unfolding last_ip parse_ip in_v6 is_empty
last_test = refl

chosen_test :
    choose_addresses deps busy (named (codes "red")) tt
    ≡ (next (codes "10.0.0.7/24" ∷ [], after), tt)
unfolding choose_addresses named parse_cidr get_next_available_ip search_from last_ip parse_ip
    search contains seen_net bump Dict.contains text_eq print_ip
chosen_test = refl

choose_addresses_fresh_example :
    (cidr : Text) × (codes "10.0.0.7/24" ∷ [] ≡ cidr ∷ [])
    × (codes "10.0.0.7" ≡ assigned_key deps cidr)
    × (Dict.contains (assigned_key deps cidr) ((codes "10.0.0.6", codes "other") ∷ []) ≡ false)
unfolding named is_empty
choose_addresses_fresh_example =
    choose_addresses_fresh deps busy after (named (codes "red")) b'1' (codes "0.0.0.0/24")
      (in_v6 (10 ∷ 0 ∷ 0 ∷ 0 ∷ [])) (in_v6 (10 ∷ 0 ∷ 0 ∷ 0 ∷ [])) ten_net ten_net 10 0 0 5 tt tt
      (codes "10.0.0.7/24" ∷ []) refl refl ten_test (omega arith) ten_test (omega arith) last_test
      chosen_test (λ e. cc)

abbrev nad1 : NetAttachDef
nad1 = nad_of (codes "overlay-veth1")

abbrev taken : NetAttachDef
taken = set_label (codes "used-node") (codes "true") nad1

-- The network after `k` more pods, whose addresses are behind the one given by hand.
abbrev busier : ℕ → Text → Dict Text → L2Network
busier count last ips = record busy {
  status = record busy.status {
    connected_pod_count = pos count;
    last_assigned_ip = last;
    assigned_ips = some ips;
  };
}

abbrev ips1 : Dict Text
ips1 = (codes "10.0.0.6", codes "other") ∷ (codes "10.0.0.7", codes "web") ∷ []

abbrev ips2 : Dict Text
ips2 =
    (codes "10.0.0.6", codes "other")
    ∷ (codes "10.0.0.7", codes "web")
    ∷ (codes "10.0.0.8", codes "web")
    ∷ []

abbrev red : L2Network → Dict L2Network
red n = (codes "red", n) ∷ []

abbrev placed_at : Text → NetworkAnnotation
placed_at cidr = record (attachment (codes "overlay-veth1")) { ip_addresses = cidr ∷ [] }

first_test :
    attach_network
      (traced deps)
      web
      (codes "used-node")
      (named (codes "red"))
      nad1
      (red busy)
      (tt, [])
    ≡ (
      next (placed_at (codes "10.0.0.7/24"), red (busier 1 (codes "10.0.0.5") ips1)),
      (
        tt,
        net_attach_def_updated taken
            ∷ network_status_updated (busier 2 (codes "10.0.0.7") ips1)
            ∷ [],
      ),
    )
unfolding attach_network named Dict.lookup text_eq parse_cidr get_next_available_ip search_from
    last_ip search contains seen_net bump Dict.contains print_ip parse_ip Dict.insert increment
    assigned_key
first_test = refl

second_test :
    attach_network
      (traced deps)
      web
      (codes "used-node")
      (named (codes "red"))
      nad1
      (red (busier 2 (codes "10.0.0.7") ips1))
      (tt, [])
    ≡ (
      next (placed_at (codes "10.0.0.8/24"), red (busier 2 (codes "10.0.0.7") ips2)),
      (
        tt,
        net_attach_def_updated taken
            ∷ network_status_updated (busier 3 (codes "10.0.0.8") ips2)
            ∷ [],
      ),
    )
unfolding attach_network named Dict.lookup text_eq parse_cidr get_next_available_ip search_from
    last_ip search contains seen_net bump Dict.contains print_ip parse_ip Dict.insert increment
    assigned_key
second_test = refl

busy-Numbered : Numbered deps busy
unfolding is_empty
busy-Numbered = record {
  first = b'1';
  rest = codes "0.0.0.0/24";
  ip = in_v6 (10 ∷ 0 ∷ 0 ∷ 0 ∷ []);
  net = ten_net;
  range_ip = in_v6 (10 ∷ 0 ∷ 0 ∷ 0 ∷ []);
  range_net = ten_net;
  a = 10;
  b = 0;
  c = 0;
  e = 5;
  has_cidr = refl;
  parses = ten_test;
  small = omega arith;
  range_parses = ten_test;
  bytes = omega arith;
  last = last_test;
}

abbrev two_keys : List Text
two_keys =
    map (assigned_key (traced deps)) (codes "10.0.0.8/24" ∷ [])
    ++ (map (assigned_key (traced deps)) (codes "10.0.0.7/24" ∷ []) ++ [])

two_pods : Admissions deps busy two_keys (busier 3 (codes "10.0.0.8") ips2)
unfolding Dict.lookup text_eq named
two_pods =
    admitted
      (admitted none_yet web (codes "used-node") (named (codes "red")) nad1 taken (red busy)
        (red (busier 1 (codes "10.0.0.5") ips1)) (busier 2 (codes "10.0.0.7") ips1)
        (placed_at (codes "10.0.0.7/24")) tt tt refl refl first_test (λ e. cc))
      web (codes "used-node") (named (codes "red")) nad1 taken
      (red (busier 2 (codes "10.0.0.7") ips1)) (red (busier 2 (codes "10.0.0.7") ips2))
      (busier 3 (codes "10.0.0.8") ips2) (placed_at (codes "10.0.0.8/24")) tt tt refl refl
      second_test (λ e. cc)

Admissions-Distinct_example : Distinct two_keys
Admissions-Distinct_example =
    Admissions-Distinct deps busy (busier 3 (codes "10.0.0.8") ips2) two_keys busy-Numbered two_pods
