-- ===== src/Controller/Overlay/Resources.antt =====
-- `createExternalResources` of overlays and all that it calls.
use l2s_m.Base.{List, [], ◌∷◌, ◌++◌, map, Option, none, some, Text, codes, Result, ok, err}
use l2s_m.Base.Effects.{
  Act, Outcome, run, ret, pure, or_return, lift, deref, unwrap, when_some, ◌>>=◌, ◌>>◌,
}
use l2s_m.Utils.Naming.{slice_packet_switch, generate_switch_pod_name, generate_service_name}
use l2s_m.Api.Monitor.{MonitorSpec, ExportMetricSpec}
use l2s_m.Api.Switch.{Container, SwitchPodSpec, SwitchTemplateSpec}
use l2s_m.Api.Overlay.{Overlay}
use l2s_m.Api.Resources.{
  Workload, Service, Resource, config_map_object, net_attach_def_object, replica_set_object,
  deployment_object, service_object,
}
use l2s_m.Lpm.{add_lpm_config_map_to_sps, attach_collector_config_to_replica_set}
use l2s_m.Lpm.Collector.{CollectorBuildOptions, option_or, build_monitoring_collector_resources}
use l2s_m.Lpm.Exporter.{Exporter, new_exporter, build_resources}
use l2s_m.Controller.Owned.{create_all}
use l2s_m.Controller.Overlay.{
  OverlayDeps, ResourcesError, not_marshalled, no_collector, not_all_created,
  build_topology_config_map, build_network_attachment_definitions, replica_set_of, service_of,
}
use l2s_m.Controller.SwitchPod.{generate_annotations}

-- The collector's file and container in a replica set, and the volume of the file.
unfoldable pub with_collector : Container → Workload → Workload
with_collector collector rs =
    let mounted = add_lpm_config_map_to_sps rs.template.spec.switch in
    let extended : SwitchPodSpec = record mounted {
      containers = mounted.containers ++ collector ∷ [];
    } in
    record rs {
      template = record rs.template {
        spec = record rs.template.spec {
          switch = option_or (attach_collector_config_to_replica_set extended rs.name) extended;
        };
      };
    }

abbrev pub exporter_objects : Exporter → List Resource
exporter_objects e =
    deployment_object e.deployment ∷ config_map_object e.config ∷ service_object e.service ∷ []

-- What the exporter asks: the services of the switches, at the collector's port.
unfoldable pub export_targets : Text → List Text → List Text
export_targets overlay nodes =
    map
      (λ (node : Text).
        generate_service_name (generate_switch_pod_name overlay node slice_packet_switch)
        ++ codes ":8090")
      nodes

abbrev pub overlay_collector_options : MonitorSpec → CollectorBuildOptions
overlay_collector_options monitor = record {
  network_cidr = monitor.network_cidr;
  ip_cidr = none;
  ip_start = none;
  spread_factor = some monitor.spread_factor;
  rtt_interval = none;
  throughput_interval = none;
  jitter_interval = none;
  collector_image = none;
  pull_policy = none;
  collector_name = none;
}

module _ {W F : Type 0} (d : OverlayDeps W F) where
  -- The loop over the nodes: a replica set and a service for each.
  unfoldable pub build_node_resources :
      Overlay → SwitchTemplateSpec → Text → List Text → W → List (Workload × Service) × W
  unfolding generate_annotations replica_set_of service_of
  build_node_resources overlay template config_map_name [] w = ([], w)
  build_node_resources overlay template config_map_name (node ∷ nodes) w =
      let (annotations, w1) =
        generate_annotations d.random d.dp overlay.name node overlay.spec.interface_number w in
      let (rest, w2) = build_node_resources overlay template config_map_name nodes w1 in
      (
        (replica_set_of overlay template config_map_name node annotations, service_of overlay node)
            ∷ rest,
        w2,
      )

  unfoldable pub exporters : Overlay → List Text → Option ExportMetricSpec → List Resource
  unfolding export_targets
  exporters overlay nodes none = []
  exporters overlay nodes (some export) = exporter_objects (
      build_resources d.marshal_targets (new_exporter export.method overlay.namespace export.config)
        export.service_account (export_targets overlay.name nodes))

  -- The replica sets with their collectors, and the objects of the monitoring.
  unfoldable pub monitor_resources :
      Overlay
      → List Text
      → List Workload
      → Option MonitorSpec
      → Result ResourcesError (List Workload × List Resource)
  unfolding exporters with_collector
  monitor_resources overlay nodes replica_sets none = ok (replica_sets, [])
  monitor_resources overlay nodes replica_sets (some monitor) =
      elim (build_monitoring_collector_resources d.lib d.dp d.v6 overlay.name overlay.namespace
        nodes (overlay_collector_options monitor)) [
          | err e ↦ err (no_collector e)
          | ok (collector, maps) ↦ ok (
            map (with_collector collector) replica_sets,
            exporters overlay nodes monitor.export_metrics ++ map config_map_object maps,
          )
        ]

  -- All objects, in the order in which they are created.
  unfoldable pub build_external_resources : Overlay → Act W (Option ResourcesError) (List Resource)
  unfolding build_topology_config_map build_network_attachment_definitions build_node_resources
      monitor_resources
  build_external_resources overlay = do
    topology ← deref overlay.spec.topology
    provider ← deref overlay.spec.provider
    config ←
        or_return (build_topology_config_map d.files overlay topology provider)
          (some not_marshalled)
    template ← deref overlay.spec.switch_template
    built ← lift (build_node_resources overlay template config.name topology.nodes)
    let replica_sets = map (λ (b : Workload × Service). b.0) built
    monitored ←
        unwrap (monitor_resources overlay topology.nodes replica_sets overlay.spec.monitor)
          (λ e. ret (some e))
    pure (
        config_map_object config
        ∷ (map net_attach_def_object (build_network_attachment_definitions overlay)
            ++ (map replica_set_object (monitored.0)
                ++ (map (λ (b : Workload × Service). service_object (b.1)) built
                    ++ (monitored.1)))))

  unfoldable pub create_external_resources : Overlay → W → Outcome (Option ResourcesError) × W
  unfolding build_external_resources
  create_external_resources overlay = run (do
    resources ← build_external_resources overlay
    created ← lift (create_all d.cluster overlay.meta resources)
    when_some created (λ e. some (not_all_created e))
    ret none)
