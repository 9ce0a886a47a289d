-- ===== src/Controller/Network.antt =====
-- internal/controller/l2network_controller.go, with `GetNetworkEdgeDevice` of
-- internal/talpainterface/grpcapi.go (its AttachInterface is Network/Attach): a network is created at the SDN controllers, joined to its
-- provider through a network edge device, and (in Reconcile) given its intrusion detection.
pub mod Attach
pub mod Device
pub mod Joined
pub mod Mirror
pub mod Opened
pub mod Order
pub mod Owning
pub mod Planned
pub mod Protocol
pub mod Provider
pub mod Reconcile
pub mod Silent
pub mod Switch
mod Tests
use l2s_m.Base.{
  ℕ, Bool, not, List, [], ◌∷◌, ◌++◌, Option, none, some, Text, codes, text_eq, Result, ok, err,
  get_elem?, if◌then◌else◌,
}
use l2s_m.Base.Effects
use l2s_m.Base.Effects.{
  Act, Outcome, returned, panicked, run, try, ret, pure, when, return_if, or_return, unwrap, lift,
  deref, call, ◌>>=◌, ◌>>◌,
}
use l2s_m.Datapath.{Datapath, of_port}
use l2s_m.Env.{Lookup}
use l2s_m.Dns.{add_server_to_local_core_dns}
use l2s_m.Annotation.{
  Json, generate_ipv6_address, multus_annotation_to_string, net_attach_label_prefix,
}
use l2s_m.Utils.Strings.{
  contains, remove_string, default_if_empty, get_port_number_from_net_attach_def,
}
use l2s_m.Api.Meta.{NetAttachDef, ObjectKey, l2sm_finalizer}
use l2s_m.Api.Provider.{ProviderSpec}
use l2s_m.Api.Ned.{NetworkEdgeDevice}
use l2s_m.Api.Overlay.{overlay_provider}
use l2s_m.Api.L2Network.{L2Network, ConnectivityStatus, online, offline, unknown, IdsRules, raw}
use l2s_m.Api.Resources.{Resource}
use l2s_m.Cluster.{
  Cluster, ApiError, ControllerError, api, sdn, message, Reconciled, done, failed, ignore_not_found,
  finished,
}
use l2s_m.Sdn.{Client}
use l2s_m.Sdn.Session.{Http}
use l2s_m.Sdn.Create.{ClientConfig, new_client, internal}
use l2s_m.Ids.{generate_external_resources}
use l2s_m.Monitoring.{payload, client_config}
use l2s_m.Controller.Networks.{get_free_net_attach_defs, set_label, mark_taken}
use l2s_m.Controller.Pod.{spaced, port_of}
use l2s_m.Controller.Network.Attach.{NedService, attach_interface}

-- The reconciler's fields and what it calls outside: `ned_service` are the network edge devices, `add_server` the config map manager of the l2sm-dns module.
pub record NetworkDeps (W : Type 0) : Type 0 where
  pub cluster : Cluster W
  pub sdn : Client W
  pub json : Json
  pub dp : Datapath
  pub http : Http W
  pub lookup_env : Lookup
  pub switches_namespace : Text
  pub random_bits : W → ℕ × W
  pub ned_service : NedService W
  pub add_server : Text → Text → Text → Text → Text → W → Bool × W

pub data NedError : Type 0 where
  not_listed : ApiError → NedError
  no_ned : Text → NedError

-- The first device of the provider; one without a provider panics.
unfoldable pub first_of_provider :
    Text → List NetworkEdgeDevice → Outcome (Result NedError NetworkEdgeDevice)
first_of_provider name [] = returned (err (no_ned name))
first_of_provider name (ned ∷ neds) =
    let rest = first_of_provider name neds in
    elim ned.spec.provider [
      | none ↦ panicked
      | some provider ↦ if text_eq provider.name name then returned (ok ned) else rest
    ]

unfoldable pub get_network_edge_device :
    {W : Type 0} → Cluster W → Text → W → Outcome (Result NedError NetworkEdgeDevice) × W
unfolding first_of_provider
get_network_edge_device cluster provider_name w =
    let (r, w') = cluster.list_neds w in
    elim r [
      | err e ↦ (returned (err (not_listed e)), w')
      | ok neds ↦ (first_of_provider provider_name neds, w')
    ]

abbrev pub with_internal : ConnectivityStatus → L2Network → L2Network
with_internal s n = record n { status = record n.status { internal_connectivity = some s } }

abbrev pub with_provider : ConnectivityStatus → L2Network → L2Network
with_provider s n = record n { status = record n.status { provider_connectivity = some s } }

-- The domains as `%s` prints a list, and the port of the provider's SDN controller.
unfoldable pub provider_config : ProviderSpec → ClientConfig
unfolding spaced client_config
provider_config provider =
    client_config (b'[' ∷ (spaced provider.domain ++ codes "]"))
      (default_if_empty provider.sdn_port (codes "30808"))

-- `SetFinalizers(append(…))` and `SetFinalizers(RemoveString(…))`
abbrev pub set_network_finalizers : (List Text → List Text) → L2Network → L2Network
set_network_finalizers f n = record n { meta = record n.meta { finalizers = f (n.finalizers) } }

-- The network of a controller that has just created it there.
abbrev pub initialised : L2Network → L2Network
initialised n =
    set_network_finalizers (λ fs. fs ++ l2sm_finalizer ∷ [])
      (record n { status = record n.status { assigned_ips = some [] } })

module _ {W : Type 0} (d : NetworkDeps W) where
  -- The status and the error, which the caller only logs.
  unfoldable pub inter_domain_reconcile :
      L2Network → W → Outcome (ConnectivityStatus × Option ControllerError) × W
  unfolding provider_config
  inter_domain_reconcile network = run (do
    provider ← or_return network.spec.provider (unknown, some (message (codes "no provider")))
    client ←
        try (new_client d.http internal (provider_config provider)) (λ e. (offline, some (sdn e)))
    found ← call (client.check_network_exists network.spec.type network.name)
    exists ← unwrap found (λ e. ret (unknown, some (sdn e)))
    return_if exists (online, none)
    created ← call (client.create_network network.spec.type (payload network.name []))
    elim created [ some e ↦ ret (offline, some (sdn e)) | none ↦ ret (online, none) ])

  -- The server's answer replaces the network; after an error the status stays in memory.
  unfoldable pub update_controller_status : L2Network → ConnectivityStatus → W → L2Network × W
  update_controller_status network s w =
      let (r, w') = d.cluster.update_network_status (with_internal s network) w in
      elim r [ ok n ↦ (n, w') | err _ ↦ (with_internal s network, w') ]

  -- The port that is used where the name has none is empty.
  abbrev pub port_or_empty : NetAttachDef → Text
  port_or_empty nad = elim (get_port_number_from_net_attach_def nad.name) [ ok t ↦ t | err _ ↦ [] ]

  unfoldable pub connect_internal_switch_to_ned :
      Text → Text → Text → W → Outcome (Result ControllerError NetAttachDef) × W
  unfolding get_free_net_attach_defs mark_taken
  connect_internal_switch_to_ned network_name ned_node_name provider_name = run (do
    let label = net_attach_label_prefix ++ ned_node_name
    nads ← lift (get_free_net_attach_defs d.cluster d.switches_namespace label)
    nad ← or_return (get_elem? nads 0) (err (message (codes "no interfaces")))
    let port = of_port d.dp ned_node_name overlay_provider (port_or_empty nad)
    attached ← call (d.sdn.attach_pod_to_network (raw (codes "vnets")) (port_of network_name port))
    elim attached [
      | some e ↦ ret (err (sdn e))
      | none ↦ do
        taken ← mark_taken label nad
        updated ← try (d.cluster.update_net_attach_def taken) (λ e. err (api e))
        ret (ok updated)
    ])

  -- The device is told which bridge to attach, and its new port is attached at the provider.
  unfoldable pub create_new_ned_connection :
      L2Network → Text → NetworkEdgeDevice → W → Outcome (Option ControllerError) × W
  unfolding provider_config
  create_new_ned_connection network bridge ned = run (do
    provider ← deref network.spec.provider
    client ← try (new_client d.http internal (provider_config provider)) (λ e. some (sdn e))
    node_config ← deref ned.spec.node_config
    ned_port ←
        try (attach_interface d.ned_service (node_config.ip_address ++ codes ":50051") bridge)
          (λ e. some (message (codes "no connection with ned")))
    let port = of_port d.dp node_config.node_name provider.name ned_port
    attached ← call (client.attach_pod_to_network network.spec.type (port_of network.name port))
    ret (elim attached [ none ↦ none | some e ↦ some (sdn e) ]))
