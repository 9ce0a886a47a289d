-- ===== src/Controller/Overlay/Complete.antt =====
-- What an overlay is built of: a switch for every node of its topology.
use l2s_m.Base.{
  ◌≡◌, refl, ap, ◌∙◌, inl, inr, List, [], ◌∷◌, ◌++◌, map, append-nil, Option, none, some,
  Option-cases, Text, ok, arith,
}
use l2s_m.Base.Effects.{next}
use l2s_m.Cases.{result_cases}
use l2s_m.Utils.Naming.{slice_packet_switch, generate_switch_pod_name, generate_replica_set_name}
use l2s_m.Api.Monitor.{MonitorSpec, ExportMetricSpec}
use l2s_m.Api.Meta.{NetAttachDef}
use l2s_m.Api.Switch.{Container, SwitchTemplateSpec}
use l2s_m.Api.Overlay.{Overlay, TopologySpec}
use l2s_m.Api.Resources.{
  ConfigMap, Workload, Service, Resource, config_map_object, net_attach_def_object,
  replica_set_object, deployment_object, service_object,
}
use l2s_m.Lpm.Collector.{build_monitoring_collector_resources}
use l2s_m.Controller.Overlay.{
  OverlayDeps, build_topology_config_map, replica_set_of, build_network_attachment_definitions,
}
use l2s_m.Controller.Overlay.Resources.{
  build_node_resources, build_external_resources, monitor_resources, exporters, with_collector,
  overlay_collector_options,
}

-- The names of the replica sets among some objects.
abbrev pub switch_names : List Resource → List Text
switch_names [] = []
switch_names (replica_set_object rs ∷ resources) = rs.name ∷ switch_names resources
switch_names (config_map_object _ ∷ resources) = switch_names resources
switch_names (net_attach_def_object _ ∷ resources) = switch_names resources
switch_names (deployment_object _ ∷ resources) = switch_names resources
switch_names (service_object _ ∷ resources) = switch_names resources

switch_names-append :
    (xs ys : List Resource) → switch_names (xs ++ ys) ≡ switch_names xs ++ switch_names ys
switch_names-append [] ys = refl
switch_names-append (replica_set_object rs ∷ xs) ys =
    ap (λ (l : List Text). rs.name ∷ l) (switch_names-append xs ys)
switch_names-append (config_map_object _ ∷ xs) ys = switch_names-append xs ys
switch_names-append (net_attach_def_object _ ∷ xs) ys = switch_names-append xs ys
switch_names-append (deployment_object _ ∷ xs) ys = switch_names-append xs ys
switch_names-append (service_object _ ∷ xs) ys = switch_names-append xs ys

switch_names-config_maps : (xs : List ConfigMap) → switch_names (map config_map_object xs) ≡ []
switch_names-config_maps [] = refl
switch_names-config_maps (x ∷ xs) = switch_names-config_maps xs

switch_names-net_attach_defs :
    (xs : List NetAttachDef) → switch_names (map net_attach_def_object xs) ≡ []
switch_names-net_attach_defs [] = refl
switch_names-net_attach_defs (x ∷ xs) = switch_names-net_attach_defs xs

switch_names-services :
    (xs : List (Workload × Service))
    → switch_names (map (λ (b : Workload × Service). service_object (b.1)) xs) ≡ []
switch_names-services [] = refl
switch_names-services (x ∷ xs) = switch_names-services xs

abbrev pub names : List Workload → List Text
names = map (λ (rs : Workload). rs.name)

switch_names-replica_sets :
    (xs : List Workload) → switch_names (map replica_set_object xs) ≡ names xs
switch_names-replica_sets [] = refl
switch_names-replica_sets (x ∷ xs) =
    ap (λ (l : List Text). x.name ∷ l) (switch_names-replica_sets xs)

names-with_collector :
    (c : Container) (xs : List Workload) → names (map (with_collector c) xs) ≡ names xs
unfolding with_collector
names-with_collector c [] = refl
names-with_collector c (x ∷ xs) = ap (λ (l : List Text). x.name ∷ l) (names-with_collector c xs)

abbrev pub firsts : List (Workload × Service) → List Workload
firsts = map (λ (b : Workload × Service). b.0)

module _ {W F : Type 0} (d : OverlayDeps W F) (overlay : Overlay) where
  abbrev pub pod_names : List Text → List Text
  pod_names = map (λ (node : Text). generate_switch_pod_name overlay.name node slice_packet_switch)

  built_names :
      (template : SwitchTemplateSpec) (config : Text) (nodes : List Text) (w : W)
      → names (firsts ((build_node_resources d overlay template config nodes w).0))
        ≡ pod_names nodes
  unfolding build_node_resources replica_set_of generate_replica_set_name
  built_names template config [] w = refl
  built_names template config (node ∷ nodes) w =
      ap (λ (l : List Text). generate_switch_pod_name overlay.name node slice_packet_switch ∷ l)
        (built_names template config nodes _)

  exporters_names :
      (nodes : List Text) (e : Option ExportMetricSpec)
      → switch_names (exporters d overlay nodes e) ≡ []
  unfolding exporters
  exporters_names nodes none = refl
  exporters_names nodes (some e) = refl

  -- Monitoring changes no replica set's name, and adds no replica set.
  monitored_names :
      (nodes : List Text) (rss rss' : List Workload) (more : List Resource) (m : Option MonitorSpec)
      → monitor_resources d overlay nodes rss m ≡ ok (rss', more)
      → (names rss' ≡ names rss) × (switch_names more ≡ [])
  unfolding monitor_resources
  monitored_names nodes rss rss' more none h = ground arith
  monitored_names nodes rss rss' more (some m) h =
      elim (result_cases (
        build_monitoring_collector_resources d.lib d.dp d.v6 overlay.name overlay.namespace nodes
          (overlay_collector_options m))) [
            | inl (e, q) ↦ ground arith
            | inr ((c, maps), q) ↦
                let same : rss' ≡ map (with_collector c) rss = ground arith in
                let rest : more
                    ≡ exporters d overlay nodes m.export_metrics ++ map config_map_object maps =
                  ground arith in
                (
                  rw same (names-with_collector c rss),
                  rw (rest, switch_names-append, exporters_names, switch_names-config_maps) refl,
                )
          ]

  assembled :
      (config : ConfigMap) (built : List (Workload × Service)) (rss : List Workload)
      (more : List Resource)
      → switch_names more ≡ []
      → switch_names (
          config_map_object config
          ∷ (map net_attach_def_object (build_network_attachment_definitions overlay)
              ++ (map replica_set_object rss
                  ++ (map (λ (b : Workload × Service). service_object (b.1)) built ++ more))))
        ≡ names rss
  assembled config built rss more h =
      rw
        (
          switch_names-append, switch_names-append, switch_names-append,
          switch_names-net_attach_defs, switch_names-replica_sets, switch_names-services, h,
        )
        (append-nil (names rss))

  -- The replica sets among the resources are those of the nodes, in the order of the topology.
  pub build_external_resources-switches :
      (topology : TopologySpec) (resources : List Resource) (w w' : W)
      → overlay.spec.topology ≡ some topology
      → build_external_resources d overlay w ≡ (next resources, w')
      → switch_names resources ≡ pod_names topology.nodes
  unfolding build_external_resources
  build_external_resources-switches topology resources w w' t h =
      elim (Option-cases overlay.spec.provider) [
        | inl q ↦ ground arith
        | inr (provider, q) ↦
            elim (Option-cases (build_topology_config_map d.files overlay topology provider)) [
              | inl q1 ↦ ground arith
              | inr (config, q1) ↦ elim (Option-cases overlay.spec.switch_template) [
                | inl q2 ↦ ground arith
                | inr (template, q2) ↦
                    let built =
                      (build_node_resources d overlay template config.name topology.nodes w).0 in
                    elim (result_cases (
                      monitor_resources d overlay topology.nodes (firsts built)
                        overlay.spec.monitor)) [
                          | inl (e, q3) ↦ ground arith
                          | inr ((rss, more), q3) ↦
                              let whole : resources
                                  ≡ config_map_object config
                                    ∷ (map net_attach_def_object
                                          (build_network_attachment_definitions overlay)
                                        ++ (map replica_set_object rss
                                            ++ (map
                                                  (λ (b : Workload × Service). service_object (b.1))
                                                  built
                                                ++ more))) =
                                ground arith in
                              let kept =
                                monitored_names topology.nodes (firsts built) rss more
                                  overlay.spec.monitor q3 in
                              ap switch_names whole
                              ∙ assembled config built rss more kept.1
                              ∙ kept.0
                              ∙ built_names template config.name topology.nodes w
                        ]
              ]
            ]
      ]
