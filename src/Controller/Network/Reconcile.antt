-- ===== src/Controller/Network/Reconcile.antt =====
-- The reconciler of networks, block by block.
use l2s_m.Base.{not, List, [], ◌∷◌, ◌++◌, none, some, codes, get_elem?, if◌then◌else◌}
use l2s_m.Base.Effects.{
  Act, Outcome, run, try, ret, pure, when, or_return, unwrap, lift, deref, call, ◌>>=◌, ◌>>◌,
}
use l2s_m.Datapath.{of_port}
use l2s_m.Dns.{add_server_to_local_core_dns}
use l2s_m.Annotation.{generate_ipv6_address, multus_annotation_to_string, net_attach_label_prefix}
use l2s_m.Utils.Strings.{contains, remove_string, get_port_number_from_net_attach_def}
use l2s_m.Api.Meta.{ObjectKey, l2sm_finalizer}
use l2s_m.Api.Overlay.{overlay_provider}
use l2s_m.Api.L2Network.{L2Network, online, offline, IdsRules}
use l2s_m.Api.Resources.{Resource}
use l2s_m.Cluster.{api, sdn, message, Reconciled, done, failed, ignore_not_found, finished}
use l2s_m.Ids.{generate_external_resources}
use l2s_m.Monitoring.{payload}
use l2s_m.Controller.Networks.{get_free_net_attach_defs, set_label}
use l2s_m.Controller.Network.{
  NetworkDeps, get_network_edge_device, with_provider, set_network_finalizers, initialised,
  inter_domain_reconcile, update_controller_status, connect_internal_switch_to_ned,
  create_new_ned_connection,
}

module _ {W : Type 0} (d : NetworkDeps W) where
  -- The block for a network that is being deleted and has the finalizer.
  unfoldable pub delete_network : L2Network → Act W Reconciled (Unit {0})
  delete_network network = do
    deleted ← call (d.sdn.delete_network network.spec.type network.name)
    elim deleted [
      | some e ↦ ret (failed (sdn e))
      | none ↦ do
        updated ←
            try
              (d.cluster.update_network
                (set_network_finalizers (λ fs. remove_string fs l2sm_finalizer) network))
              (λ e. failed (api e))
        ret done
    ]

  -- The creation at the cluster's own SDN controller, with the finalizer written after it.
  unfoldable pub create_in_controller : L2Network → Act W Reconciled L2Network
  unfolding update_controller_status
  create_in_controller network = do
    created ← call (d.sdn.create_network network.spec.type (payload network.name []))
    elim created [
      | some e ↦ do n ← lift (update_controller_status d network offline); ret (failed (sdn e))
      | none ↦ do
        n ← lift (update_controller_status d network online)
        try (d.cluster.update_network (initialised n)) (λ e. failed (api e))
    ]

  -- The ports between the cluster's switch, the network edge device, and the provider.
  unfoldable pub connect_ned : L2Network → Act W Reconciled (Unit {0})
  connect_ned network = do
    provider ← deref network.spec.provider
    found ← call (get_network_edge_device d.cluster provider.name)
    ned ← unwrap found (λ e. ret done)
    node_config ← deref ned.spec.node_config
    ned_provider ← deref ned.spec.provider
    connected ←
        call (connect_internal_switch_to_ned d network.name node_config.node_name ned_provider.name)
    nad ← unwrap connected (λ e. ret done)
    bridge ←
        unwrap (get_port_number_from_net_attach_def nad.name)
          (λ e. ret (failed (message (codes "port number"))))
    e ← call (create_new_ned_connection d network (codes "br" ++ bridge) ned)
    elim e [ some _ ↦ ret done | none ↦ pure tt ]

  -- The block for a network with a provider: its creation there, its devices, and its DNS server.
  unfoldable pub join_provider : L2Network → Act W Reconciled L2Network
  unfolding connect_ned
  join_provider new_network = do
    result ← call (inter_domain_reconcile d new_network)
    network ←
        try (d.cluster.update_network_status (with_provider (result.0) new_network))
          (λ e. failed (api e))
    connect_ned network
    provider ← deref network.spec.provider
    domain ← deref (get_elem? provider.domain 0)
    added ← lift (
        add_server_to_local_core_dns d.add_server d.lookup_env network.name domain
          provider.dns_port)
    pure network

  -- The loop over the resources; an error of a creation is passed over.
  unfoldable pub create_owned : L2Network → List Resource → Act W Reconciled (Unit {0})
  create_owned network [] = pure tt
  create_owned network (r ∷ resources) = do
    owned ← or_return (d.cluster.set_controller_reference network.meta r) done
    e ← lift (d.cluster.create owned)
    create_owned network resources

  -- The block for a network with intrusion detection: a mirror port, and the pod behind it.
  unfoldable pub set_up_ids : L2Network → IdsRules → Act W Reconciled (Unit {0})
  unfolding create_owned get_free_net_attach_defs
  set_up_ids network rules = do
    let label = net_attach_label_prefix ++ rules.node
    nads ← lift (get_free_net_attach_defs d.cluster d.switches_namespace label)
    nad ← or_return (get_elem? nads 0) (failed (message (codes "no interfaces")))
    port_number ←
        unwrap (get_port_number_from_net_attach_def nad.name)
          (λ e. ret (failed (message (codes "port number"))))
    let mirror = of_port d.dp rules.node overlay_provider port_number
    e ← call (
        d.sdn.set_up_mirror_port network.spec.type
          (record { network_id = network.name; port = []; mirror_port = mirror }))
    elim e [
      | some er ↦ ret (failed (sdn er))
      | none ↦ do
        bits ← lift d.random_bits
        let attachment =
            generate_ipv6_address bits (record {
              name = nad.name;
              namespace = nad.namespace;
              ip_addresses = [];
              if_name = [];
            })
        resources ←
            unwrap
              (generate_external_resources network
                (multus_annotation_to_string d.json (attachment ∷ [])))
              (λ e. ret done)
        create_owned network resources
        updated ←
            try (d.cluster.update_net_attach_def (set_label label (codes "true") nad))
              (λ e. failed (api e))
        pure tt
    ]

  -- The block for a network that has no finalizer yet.
  unfoldable pub create_network : L2Network → Act W Reconciled (Unit {0})
  unfolding create_in_controller join_provider set_up_ids
  create_network new_network = do
    created ← create_in_controller new_network
    network ← elim created.spec.provider [ none ↦ pure created | some _ ↦ join_provider created ]
    elim network.spec.ids [
      | none ↦ pure tt
      | some rules ↦ if rules.enabled then set_up_ids network rules else pure tt
    ]

  unfoldable pub reconcile_network : ObjectKey → W → Outcome Reconciled × W
  unfolding delete_network create_network
  reconcile_network key = run (do
    network ← try (d.cluster.get_network key) (λ e. finished (ignore_not_found e))
    when network.deleting
        (when (contains network.finalizers l2sm_finalizer) (delete_network network) >> ret done)
    when (not (contains network.finalizers l2sm_finalizer)) (create_network network)
    ret done)
