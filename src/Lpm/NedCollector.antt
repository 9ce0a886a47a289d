-- ===== src/Lpm/NedCollector.antt =====
-- `BuildNEDMonitoringResources`: the collector of a network edge device.
use l2s_m.Base.{List, [], ◌∷◌, Option, none, some, codes, is_empty, Result, ok, err, if◌then◌else◌}
use l2s_m.Datapath.{Datapath}
use l2s_m.Utils.Naming.{network_edge_device, generate_switch_pod_name}
use l2s_m.Api.Switch.{Container}
use l2s_m.Api.Resources.{ConfigMap}
use l2s_m.Base.Effects.{Outcome, returned, panicked}
use l2s_m.Api.Ned.{NeighborSpec, NetworkEdgeDevice}
use l2s_m.Controller.SwitchPod
use l2s_m.Lpm.Collector.{
  MetricConfiguration, NodeConfig, LpmLibrary, CollectorBuildOptions, CollectorError, no_ip,
  bad_spread_factor, not_marshalled, text_or, metric, collector_container, collector_config_map,
}

module _ {F : Type 0} (lib : LpmLibrary F) (dp : Datapath) where
  -- The measurements of a network edge device; `none` is the panic on a neighbour without an address.
  unfoldable pub ned_metrics :
      CollectorBuildOptions → List NeighborSpec → Option (List MetricConfiguration)
  unfolding metric
  ned_metrics opts [] = some []
  ned_metrics opts (n ∷ neighbors) =
      let rest = ned_metrics opts neighbors in
      elim n.lpm_ip [
        | none ↦ none
        | some ip ↦ elim rest [ none ↦ none | some ms ↦ some (metric opts n.node ip ∷ ms) ]
      ]

  -- The one config map of a network edge device. The node's configuration and the provider may be nil.
  unfoldable pub build_ned_monitoring_resources :
      NetworkEdgeDevice
      → CollectorBuildOptions
      → Outcome (Result CollectorError (Container × ConfigMap))
  unfolding collector_container ned_metrics collector_config_map text_or is_empty
  build_ned_monitoring_resources ned opts =
      if is_empty (text_or opts.ip_cidr [])
      then returned (err no_ip)
      else elim (lib.parse_float (text_or opts.spread_factor (codes "0.2"))) [
        | none ↦ returned (err bad_spread_factor)
        | some sf ↦ elim (ned_metrics opts ned.spec.neighbors) [
          | none ↦ panicked
          | some metrics ↦ elim ned.spec.node_config [
            | none ↦ panicked
            | some node ↦ elim ned.spec.provider [
              | none ↦ panicked
              | some provider ↦
                  let config : NodeConfig F = record {
                    node_name = node.node_name;
                    ip_address = text_or opts.ip_cidr [];
                    probe_interface = SwitchPod.probe_interface dp node.node_name provider.name;
                    neighbours = metrics;
                    spread_factor = sf;
                  } in
                  elim (lib.marshal config) [
                    | none ↦ returned (err not_marshalled)
                    | some text ↦
                        let pod_name =
                          generate_switch_pod_name ned.name node.node_name network_edge_device in
                        returned (
                          ok (
                            collector_container opts,
                            collector_config_map pod_name ned.namespace (codes "ned") ned.name text,
                          ))
                  ]
            ]
          ]
        ]
      ]
