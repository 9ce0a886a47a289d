-- ===== src/Controller/Ned/Resources.antt =====
-- `createExternalResources` and `reconcileNed` of network edge devices, and the network of the probes.
use l2s_m.Base.{List, [], ◌∷◌, Option, none, some}
use l2s_m.Base.Effects.{
  Act, Outcome, run, try, call, ret, pure, or_return, lift, deref, unwrap, when_some, ◌>>=◌, ◌>>◌,
}
use l2s_m.Api.Monitor.{MonitorSpec}
use l2s_m.Api.Ned.{NetworkEdgeDevice}
use l2s_m.Api.Resources.{Workload, Resource, config_map_object, replica_set_object}
use l2s_m.Lpm.NedCollector.{build_ned_monitoring_resources}
use l2s_m.Monitoring.{MonitoringError, ensure, delete, monitoring_client_factory}
use l2s_m.Controller.Owned.{create_all}
use l2s_m.Controller.Overlay.{
  ResourcesError, no_collector, no_monitoring, not_all_created, not_applied,
}
use l2s_m.Controller.Ned.{
  NedDeps, construct_config_map_for_ned, construct_replica_set_for_ned, with_ned_collector,
  ned_collector_options,
}

module _ {W F : Type 0} (d : NedDeps W F) where
  unfoldable pub create_monitoring_network :
      NetworkEdgeDevice → W → Outcome (Option MonitoringError) × W
  create_monitoring_network ned = run (do
    client ←
        try
          ((monitoring_client_factory d.factory d.http d.lookup_env).for_provider_of
            ned.spec.provider)
          (λ e. some e)
    provider ← deref ned.spec.provider
    node ← deref ned.spec.node_config
    e ← call (ensure d.dp (some client) ned.name provider.name (node.node_name ∷ []))
    ret e)

  unfoldable pub delete_monitoring_network :
      NetworkEdgeDevice → W → Outcome (Option MonitoringError) × W
  delete_monitoring_network ned = run (do
    client ←
        try
          ((monitoring_client_factory d.factory d.http d.lookup_env).for_provider_of
            ned.spec.provider)
          (λ e. some e)
    e ← call (delete (some client) ned.name)
    ret e)

  -- The replica set with its collector, the collector's config map, and the network of the probes.
  unfoldable pub monitor_ned :
      NetworkEdgeDevice
      → Workload
      → MonitorSpec
      → Act W (Option ResourcesError) (Workload × List Resource)
  unfolding create_monitoring_network with_ned_collector
  monitor_ned ned rs monitor = do
    built ← call (λ w. (
      build_ned_monitoring_resources d.lib d.dp ned
          (ned_collector_options monitor.ip_cidr (some monitor.spread_factor)),
      w,
    ))
    resources ← unwrap built (λ e. ret (some (no_collector e)))
    e ← call (create_monitoring_network ned)
    when_some e (λ x. some (no_monitoring x))
    pure (with_ned_collector (resources.0) rs, config_map_object (resources.1) ∷ [])

  unfoldable pub create_external_resources :
      NetworkEdgeDevice → W → Outcome (Option ResourcesError) × W
  unfolding construct_config_map_for_ned construct_replica_set_for_ned monitor_ned
  create_external_resources ned = run (do
    built ← call (λ w. (construct_config_map_for_ned d.dp d.files ned, w))
    config ← unwrap built (λ e. ret (some e))
    node ← deref ned.spec.node_config
    template ← deref ned.spec.switch_template
    let rs = construct_replica_set_for_ned ned node template config.name
    let unmonitored : Workload × List Resource = (rs, [])
    monitored ← elim ned.spec.monitor [
      | none ↦ pure unmonitored
      | some monitor ↦ monitor_ned ned rs monitor
    ]
    created ← lift (
        create_all d.cluster ned.meta
          (config_map_object config ∷ replica_set_object (monitored.0) ∷ (monitored.1)))
    when_some created (λ e. some (not_all_created e))
    ret none)

  -- The configuration of a running device is written again.
  unfoldable pub reconcile_ned : NetworkEdgeDevice → W → Outcome (Option ResourcesError) × W
  unfolding construct_config_map_for_ned
  reconcile_ned ned = run (do
    built ← call (λ w. (construct_config_map_for_ned d.dp d.files ned, w))
    config ← unwrap built (λ e. ret (some e))
    e ← lift (d.cluster.apply (config_map_object config))
    when_some e (λ x. some (not_applied x))
    monitor ← or_return ned.spec.monitor none
    rebuilt ← call (λ w. (
      build_ned_monitoring_resources d.lib d.dp ned (ned_collector_options monitor.ip_cidr none),
      w,
    ))
    resources ← unwrap rebuilt (λ x. ret (some (no_collector x)))
    again ← lift (d.cluster.apply (config_map_object (resources.1)))
    when_some again (λ x. some (not_applied x))
    ret none)
