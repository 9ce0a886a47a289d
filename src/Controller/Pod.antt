-- ===== src/Controller/Pod.antt =====
-- internal/controller/pod_controller.go: a pod's ports are attached to its networks when the finalizer
-- is set, and detached before it is removed.
pub mod Attaching
pub mod Called
pub mod Detaching
pub mod Released
mod Tests
use l2s_m.Base.{
  ℕ, Bool, true, false, not, ◌==◌, List, [], ◌∷◌, ◌++◌, Option, none, some, Text, codes, length,
  get_elem?, Result, ok, err, if◌then◌else◌,
}
use l2s_m.Base.Dict
use l2s_m.Base.Effects
use l2s_m.Base.Effects.{
  Act, Outcome, run, handle, try, ret, pure, when, return_if, or_return, unwrap, lift, deref, call,
  ◌>>=◌, ◌>>◌,
}
use l2s_m.Net.{Ipv6, to4}
use l2s_m.Net.Parse.{parse_cidr, print_ip}
use l2s_m.Datapath.{Datapath, of_port}
use l2s_m.Annotation.{
  NetworkAnnotation, Json, extract_networks, l2sm_network_annotation, multus_annotation_key,
  net_attach_label_prefix,
}
use l2s_m.Utils.Strings.{
  contains, remove_string, default_if_empty, get_port_number_from_net_attach_def,
}
use l2s_m.Api.Meta.{Pod, NetAttachDef, ObjectKey, l2sm_finalizer}
use l2s_m.Api.Provider.{ProviderSpec}
use l2s_m.Api.Overlay.{overlay_provider}
use l2s_m.Api.L2Network.{L2Network, NetworkType, raw}
use l2s_m.Cluster.{
  Cluster, ApiError, not_found, ControllerError, api, message, Reconciled, done, failed,
  ignore_not_found, finished,
}
use l2s_m.Dns.{DnsEntry, add_dns_entry}
use l2s_m.Sdn.{SdnError, VnetPayload, Client}
use l2s_m.Controller.ErrorEvent.{error_annotation, PodEvent, create_error_event}
use l2s_m.Controller.Networks.{NetworksError, list_failed, no_network, get_l2networks, set_label}

abbrev pub pod_name_label : Text
pod_name_label = codes "l2sm/app"

-- The reconciler's fields and what it calls outside: `create_event` is the creation of an event,
-- `send_dns_entry` the call of a DNS server at an address.
pub record PodDeps (W : Type 0) : Type 0 where
  pub cluster : Cluster W
  pub sdn : Client W
  pub json : Json
  pub dp : Datapath
  pub v6 : Ipv6
  pub switches_namespace : Text
  pub create_event : PodEvent → W → W
  pub send_dns_entry : Text → DnsEntry → W → Bool × W

abbrev pub set_finalizers : (List Text → List Text) → Pod → Pod
set_finalizers f pod = record pod { meta = record pod.meta { finalizers = f (pod.finalizers) } }

-- `%s` of a list of strings
unfoldable pub spaced : List Text → Text
spaced [] = []
spaced (t ∷ []) = t
spaced (t ∷ u ∷ ts) = t ++ (b' ' ∷ spaced (u ∷ ts))

abbrev pub port_of : Text → Text → VnetPayload
port_of network port = record { network_id = network; port = port ∷ []; mirror_port = [] }

module _ {W : Type 0} (d : PodDeps W) where
  -- The type given to the client; it plays no part there.
  abbrev pub vnets : NetworkType
  vnets = raw (codes "vnets")

  abbrev pub switch_port : Pod → Text → Text
  switch_port pod port_number = of_port d.dp pod.node_name overlay_provider port_number

  abbrev pub in_use_label : Pod → Text
  in_use_label pod = net_attach_label_prefix ++ pod.node_name

  -- `CreateDNSEntry`; the error that it returns is only logged.
  unfoldable pub create_dns_entry : L2Network → ProviderSpec → Text → Text → W → W
  unfolding spaced
  create_dns_entry network provider pod_name pod_cidr w = elim (parse_cidr d.v6 pod_cidr) [
    | none ↦ w
    | some (ip, _) ↦
        let server =
          b'[' ∷ (spaced provider.domain ++ codes "]:")
          ++ default_if_empty provider.dns_grpc_port (codes "30818") in
        let address : Text = elim (to4 ip) [ none ↦ codes "<nil>" | some v4 ↦ print_ip d.v6 v4 ] in
        (add_dns_entry d.send_dns_entry (record { server_address = server; scope = codes "inter" })
          pod_name network.name address w).1
  ]

  -- One round of the loop on deletion: the label of the attachment definition.
  unfoldable pub free_net_attach_def : Pod → Text → Act W Reconciled (Unit {0})
  free_net_attach_def pod name = do
    found ←
        lift
          (d.cluster.get_net_attach_def (record { name = name; namespace = d.switches_namespace }))
    elim found [
      | err not_found ↦ pure tt
      | err ApiError.other ↦ ret done
      | ok nad ↦ do
        u ←
            try (d.cluster.update_net_attach_def (set_label (in_use_label pod) (codes "false") nad))
              (λ e. done)
        pure tt
    ]

  -- The loop over the networks of a pod that is deleted. An error of the SDN controller is passed over.
  unfoldable pub detach_ports :
      Pod → List NetworkAnnotation → List NetworkAnnotation → Act W Reconciled (Unit {0})
  unfolding free_net_attach_def
  detach_ports pod [] attachments = pure tt
  detach_ports pod (n ∷ networks) [] = Effects.fault
  detach_ports pod (n ∷ networks) (a ∷ attachments) = do
    port_number ← unwrap (get_port_number_from_net_attach_def a.name) (λ e. ret done)
    e ← call (d.sdn.detach_pod_from_network vnets (port_of n.name (switch_port pod port_number)))
    free_net_attach_def pod a.name
    detach_ports pod networks attachments

  -- The block for a pod that is being deleted and has the finalizer.
  unfoldable pub release_pod : Pod → Act W Reconciled (Unit {0})
  release_pod pod = do
    let l2sm_raw : Text = elim (Dict.lookup l2sm_network_annotation pod.annotations) [
      | none ↦ []
      | some t ↦ t
    ]
    multus_raw ← or_return (Dict.lookup multus_annotation_key pod.annotations) done
    let networks = extract_networks d.json l2sm_raw d.switches_namespace
    let attachments = extract_networks d.json multus_raw d.switches_namespace
    return_if (not (length attachments == length networks)) done
    detach_ports pod networks attachments
    updated ←
        try (d.cluster.update_pod (set_finalizers (λ fs. remove_string fs l2sm_finalizer) pod))
          (λ e. done)
    ret done

  -- The entry of a network with a provider in the provider's DNS.
  unfoldable pub register_pod : Pod → L2Network → NetworkAnnotation → Act W Reconciled (Unit {0})
  register_pod pod network a = elim network.spec.provider [
    | none ↦ pure tt
    | some provider ↦ do
      let name : Text = elim (Dict.lookup pod_name_label pod.labels) [
        | none ↦ pod.name
        | some n ↦ n
      ]
      cidr ← deref (get_elem? a.ip_addresses 0)
      lift (λ w. (tt, create_dns_entry network provider name cidr w))
  ]

  -- The loop over the networks of a new pod.
  unfoldable pub attach_ports :
      Pod → List L2Network → List NetworkAnnotation → Act W Reconciled (Unit {0})
  unfolding register_pod
  attach_ports pod [] attachments = pure tt
  attach_ports pod (n ∷ networks) [] = Effects.fault
  attach_ports pod (n ∷ networks) (a ∷ attachments) = do
    port_number ←
        unwrap (get_port_number_from_net_attach_def a.name)
          (λ e. ret (failed (message (codes "port number"))))
    attached ←
        call (d.sdn.attach_pod_to_network vnets (port_of n.name (switch_port pod port_number)))
    elim attached [
      | some e ↦ ret done
      | none ↦ do register_pod pod n a; attach_ports pod networks attachments
    ]

  -- `CreateErrorEvent`, if the webhook left an error.
  unfoldable pub report_error : Pod → Act W Reconciled (Unit {0})
  report_error pod = elim (Dict.lookup error_annotation pod.annotations) [
    | none ↦ pure tt
    | some msg ↦ do
      reported ← lift (create_error_event d.create_event pod msg (codes "NoInterfacesAvailable"))
      pure tt
  ]

  abbrev pub networks_error : NetworksError → ControllerError
  networks_error (list_failed e) = e
  networks_error (no_network n) = message n

  -- The block for a pod that has no finalizer yet.
  unfoldable pub attach_pod : Pod → Act W Reconciled (Unit {0})
  unfolding report_error
  attach_pod new_pod = do
    pod ←
        try (d.cluster.update_pod (set_finalizers (λ fs. fs ++ l2sm_finalizer ∷ []) new_pod))
          (λ e. failed (api e))
    when (not (Dict.contains multus_annotation_key pod.annotations)) (report_error pod >> ret done)
    let l2sm_raw : Text = elim (Dict.lookup l2sm_network_annotation pod.annotations) [
      | none ↦ []
      | some t ↦ t
    ]
    let names = extract_networks d.json l2sm_raw d.switches_namespace
    networks ← try (get_l2networks d.cluster names) (λ e. failed (networks_error e))
    multus_raw ← or_return (Dict.lookup multus_annotation_key pod.annotations) done
    let attachments = extract_networks d.json multus_raw d.switches_namespace
    return_if (not (length attachments == length names)) done
    attach_ports pod networks attachments

  -- A pod that the webhook has not given its attachments.
  unfoldable pub wait_for_webhook : Pod → Act W Reconciled (Unit {0})
  wait_for_webhook pod = elim (Dict.lookup error_annotation pod.annotations) [
    | some msg ↦ do
      reported ← lift (create_error_event d.create_event pod msg (codes "NoInterfacesAvailable"))
      pure tt
    | none ↦ do r ← lift (d.cluster.update_pod pod); pure tt
  ]

  unfoldable pub reconcile_pod : ObjectKey → W → Outcome Reconciled × W
  unfolding wait_for_webhook release_pod attach_pod
  reconcile_pod key = run (do
    pod ← try (d.cluster.get_pod key) (λ e. finished (ignore_not_found e))
    when (not (Dict.contains l2sm_network_annotation pod.annotations)) (ret done)
    when (not (Dict.contains multus_annotation_key pod.annotations))
        (wait_for_webhook pod >> ret done)
    when pod.deleting (when (contains pod.finalizers l2sm_finalizer) (release_pod pod) >> ret done)
    when (not (contains pod.finalizers l2sm_finalizer)) (attach_pod pod)
    ret done)
