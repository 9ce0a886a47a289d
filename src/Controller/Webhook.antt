-- ===== src/Controller/Webhook.antt =====
-- internal/controller/pod_webhook.go: `Handle` gives a new pod one free attachment definition and the
-- addresses for each network that it names.
pub mod Admitted
pub mod Distinct
pub mod Fresh
pub mod Given
pub mod InOrder
pub mod Patched
mod Tests
use l2s_m.Base.{
  ℕ, Bool, true, false, not, ltb, ◌==◌, List, [], ◌∷◌, ◌++◌, Option, none, some, Text, codes,
  is_empty, length, get_elem?, decimal, Result, ok, err, if◌then◌else◌,
}
use l2s_m.Base.Dict
use l2s_m.Base.Dict.{Dict}
use l2s_m.Base.Effects
use l2s_m.Base.Effects.{
  Act, Outcome, run, try, ret, pure, when, or_return, lift, deref, ◌>>=◌, ◌>>◌,
}
use l2s_m.Base.Int.{pos}
use l2s_m.Net.{Ipv6}
use l2s_m.Net.Parse.{parse_cidr, print_ip}
use l2s_m.Annotation.{
  NetworkAnnotation, Json, extract_networks, multus_annotation_to_string, generate_ipv6_address,
  l2sm_network_annotation, multus_annotation_key, net_attach_label_prefix,
}
use l2s_m.Api.Meta.{Pod, NetAttachDef, ObjectMeta}
use l2s_m.Api.L2Network.{L2Network, raw}
use l2s_m.Cluster.{Cluster}
use l2s_m.Controller.NextIp.{get_next_available_ip}
use l2s_m.Controller.Networks.{get_l2networks_map, get_free_net_attach_defs, mark_taken}
use l2s_m.Controller.ErrorEvent.{error_annotation}
use l2s_m.Controller.Quarantine.Move.{annotate}
use l2s_m.Controller.Quarantine.Status.{increment, set_count, set_ips, assign_ip}

-- What the annotator uses: `random n` is `rand.Intn(n)`, and `random_bits` the 64 bits of an interface.
-- `fuel` bounds the search for an address.
pub record WebhookDeps (W : Type 0) : Type 0 where
  pub cluster : Cluster W
  pub json : Json
  pub v6 : Ipv6
  pub switches_namespace : Text
  pub fuel : ℕ
  pub random : ℕ → W → ℕ × W
  pub random_bits : W → ℕ × W

-- The response, without its texts; a patch is the pod that it leads to. `hangs` stands for a search
-- that used up its fuel.
pub data Response : Type 0 where
  errored allowed hangs : Response
  patched : Pod → Response

-- The zero value that a lookup of a missing network yields.
abbrev pub no_network : L2Network
no_network = record {
  meta = record {
    name = [];
    namespace = [];
    labels = [];
    annotations = [];
    finalizers = [];
    deleting = false;
    generation = 0;
  };
  spec = record {
    type = raw [];
    config = none;
    provider = none;
    network_cidr = [];
    pod_address_range = [];
    ids = none;
  };
  status = record {
    connected_pod_count = pos 0;
    last_assigned_ip = [];
    assigned_ips = none;
    internal_connectivity = none;
    provider_connectivity = none;
  };
}

abbrev pub find_network : Dict L2Network → Text → L2Network
find_network networks name = elim (Dict.lookup name networks) [ none ↦ no_network | some n ↦ n ]

abbrev pub set_last : Text → L2Network → L2Network
set_last ip n = record n { status = record n.status { last_assigned_ip = ip } }

abbrev pub assigned : L2Network → Dict Text
assigned n = elim n.status.assigned_ips [ none ↦ [] | some ips ↦ ips ]

-- A network is copied out of the map, but the copy shares the map of its addresses, unless that is nil.
-- The addresses that the server answers to the update of the status are taken to be those it was sent.
unfoldable pub share_ips : Text → L2Network → Dict L2Network → Dict L2Network
unfolding set_ips
share_ips name n networks = elim (Dict.lookup name networks) [
  | none ↦ networks
  | some old ↦ elim old.status.assigned_ips [
    | none ↦ networks
    | some _ ↦ Dict.insert name (set_ips n.status.assigned_ips old) networks
  ]
]

module _ {W : Type 0} (d : WebhookDeps W) where
  -- The address that a CIDR text gives to the map; `nil` is printed where it does not parse.
  unfoldable pub assigned_key : Text → Text
  assigned_key cidr = elim (parse_cidr d.v6 cidr) [
    | none ↦ codes "<nil>"
    | some (ip, _) ↦ print_ip d.v6 ip
  ]

  -- The addresses for one network: those the user wrote, none without a CIDR, or the next free one.
  unfoldable pub choose_addresses :
      L2Network → NetworkAnnotation → Act W Response (List Text × L2Network)
  choose_addresses network annotation = elim annotation.ip_addresses [
    | a ∷ rest ↦ pure (a ∷ rest, network)
    | [] ↦ elim network.spec.network_cidr [
      | [] ↦ pure ([], network)
      | c ∷ cs ↦ do
        parsed ← deref (parse_cidr d.v6 (c ∷ cs))
        let range =
            if is_empty network.spec.pod_address_range
            then c ∷ cs
            else network.spec.pod_address_range
        elim (get_next_available_ip d.v6 (assigned network) d.fuel range
            network.status.last_assigned_ip) [
              | none ↦ ret hangs
              | some r ↦
                  let next_ip : Text = elim r [ err _ ↦ [] | ok (t, _) ↦ t ] in
                  pure
                    ((next_ip ++ (b'/' ∷ decimal (parsed.1.ones))) ∷ [], set_last next_ip network)
            ]
    ]
  ]

  -- The annotation of the attachment, and the network with the address noted.
  unfoldable pub with_addresses :
      Text
      → NetworkAnnotation
      → List Text
      → L2Network
      → Act W Response (NetworkAnnotation × L2Network)
  unfolding assign_ip set_ips
  with_addresses pod_name multus [] network = do
    bits ← lift d.random_bits
    pure (generate_ipv6_address bits multus, network)
  with_addresses pod_name multus (a ∷ rest) network = pure (
    record multus { ip_addresses = a ∷ rest },
    set_ips (assign_ip (assigned_key a) pod_name network.status.assigned_ips) network,
  )

  -- One round of the loop; errors of the two updates are only logged.
  unfoldable pub attach_network :
      Pod
      → Text
      → NetworkAnnotation
      → NetAttachDef
      → Dict L2Network
      → Act W Response (NetworkAnnotation × Dict L2Network)
  unfolding choose_addresses with_addresses share_ips set_count mark_taken
  attach_network pod label annotation nad networks = do
    chosen ← choose_addresses (find_network networks annotation.name) annotation
    let multus : NetworkAnnotation = record {
      name = nad.name;
      namespace = d.switches_namespace;
      ip_addresses = [];
      if_name = [];
    }
    placed ← with_addresses pod.name multus (chosen.0) (chosen.1)
    taken ← mark_taken label nad
    u ← lift (d.cluster.update_net_attach_def taken)
    v ← lift (d.cluster.update_network_status (set_count increment (placed.1)))
    pure (placed.0, share_ips annotation.name (placed.1) networks)

  -- The loop over the networks; there are at least as many attachment definitions.
  unfoldable pub attach_networks :
      Pod
      → Text
      → List NetworkAnnotation
      → List NetAttachDef
      → Dict L2Network
      → Act W Response (List NetworkAnnotation)
  attach_networks pod label [] nads networks = pure []
  attach_networks pod label (n ∷ ns) [] networks = Effects.fault
  attach_networks pod label (n ∷ ns) (nad ∷ nads) networks = do
    first ← attach_network pod label n nad networks
    others ← attach_networks pod label ns nads (first.1)
    pure (first.0 ∷ others)

  unfoldable pub choose_node : Pod → Act W Response Pod
  choose_node pod = if not (is_empty pod.node_name) then pure pod else (do
    nodes ← try d.cluster.list_nodes (λ e. errored)
    when (length nodes == 0) (ret errored)
    k ← lift (d.random (length nodes))
    node ← deref (get_elem? nodes k)
    pure (record pod { node_name = node.name }))

  -- `none` is a request that cannot be decoded.
  unfoldable pub handle : Option Pod → W → Outcome Response × W
  unfolding choose_node attach_networks get_free_net_attach_defs annotate
  handle decoded = run (do
    new_pod ← or_return decoded errored
    when new_pod.deleting (ret allowed)
    pod ← choose_node new_pod
    when (Dict.contains error_annotation pod.annotations) (ret allowed)
    annotation ← or_return (Dict.lookup l2sm_network_annotation pod.annotations) allowed
    when (Dict.contains multus_annotation_key pod.annotations) (ret allowed)
    let label = net_attach_label_prefix ++ pod.node_name
    let annotations = extract_networks d.json annotation d.switches_namespace
    found ← lift (get_l2networks_map d.cluster annotations)
    nads ← lift (get_free_net_attach_defs d.cluster d.switches_namespace label)
    when (ltb (length nads) (length annotations)) (
        ret (
          patched (
            annotate error_annotation (codes "No interfaces available for node " ++ pod.node_name)
              pod)))
    multus ← attach_networks pod label annotations nads (found.0)
    ret (patched (annotate multus_annotation_key (multus_annotation_to_string d.json multus) pod)))
