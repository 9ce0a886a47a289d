-- ===== src/Controller/Overlay/Created.antt =====
-- What a successful launch of an overlay has created.
use mathlib.Core.Path.{subst}
use l2s_m.Base.{
  ◌≡◌, refl, ◌∙◌, inl, inr, List, [], ◌∷◌, ◌++◌, Option, none, some, Option-cases, Text, arith,
  Bool, true, false,
}
use l2s_m.Base.Effects.{Flow, next, return, panic, returned}
use l2s_m.Cases.{result_cases}
use l2s_m.Trace.{Event, traced_cluster}
use l2s_m.Api.Switch.{SwitchTemplateSpec}
use l2s_m.Api.Overlay.{Overlay, TopologySpec}
use l2s_m.Api.Resources.{Resource}
use l2s_m.Controller.Owned.{CreateError, create_all}
use l2s_m.Controller.Owned
use l2s_m.Controller.Overlay.{OverlayDeps, ResourcesError, build_topology_config_map}
use l2s_m.Controller.SwitchPod.{annotations_of, generate_annotations, interfaces}
use l2s_m.Controller.Overlay.Resources.{
  build_node_resources, build_external_resources, create_external_resources, monitor_resources,
}
use l2s_m.Controller.Overlay.Complete.{
  switch_names, pod_names, firsts, build_external_resources-switches,
}
use l2s_m.Controller.Overlay.Releasing.{traced}

module _ {W F : Type 0} (d : OverlayDeps W F) (overlay : Overlay) where
  -- Building draws random numbers and calls nothing that is logged.
  annotations_quiet :
      (node : Text) (is : List _) (w : W) (log : List Event)
      → (annotations_of (traced d).random d.dp overlay.name node is (w, log)).1.1 ≡ log
  unfolding annotations_of
  annotations_quiet node [] w log = refl
  annotations_quiet node (i ∷ is) w log = annotations_quiet node is ((d.random w).1) log

  nodes_quiet :
      (template : SwitchTemplateSpec) (config : Text) (nodes : List Text) (w : W) (log : List Event)
      → (build_node_resources (traced d) overlay template config nodes (w, log)).1.1 ≡ log
  unfolding build_node_resources generate_annotations
  nodes_quiet template config [] w log = refl
  nodes_quiet template config (node ∷ nodes) w log =
      let v =
        (generate_annotations (traced d).random d.dp overlay.name node overlay.spec.interface_number
          (w, log)).1 in
      nodes_quiet template config nodes v.0 v.1
      ∙ annotations_quiet node (interfaces overlay.spec.interface_number) w log

  -- An early return of the building part is an error.
  abbrev refuses : Flow (Option ResourcesError) (List Resource) → Bool
  refuses (return none) = false
  refuses (return (some _)) = true
  refuses (next _) = true
  refuses panic = true

  build_quiet :
      (w : W) (log : List Event)
      → let x = build_external_resources (traced d) overlay (w, log) in
        (x.1.1 ≡ log) × (refuses x.0 ≡ true)
  unfolding build_external_resources
  build_quiet w log = elim (Option-cases overlay.spec.topology) [
    | inl q0 ↦ ground arith
    | inr (topology, q0) ↦ elim (Option-cases overlay.spec.provider) [
      | inl q ↦ ground arith
      | inr (provider, q) ↦
          elim (Option-cases (build_topology_config_map d.files overlay topology provider)) [
            | inl q1 ↦ ground arith
            | inr (config, q1) ↦ elim (Option-cases overlay.spec.switch_template) [
              | inl q2 ↦ ground arith
              | inr (template, q2) ↦
                  let quiet = nodes_quiet template config.name topology.nodes w log in
                  let built =
                    (build_node_resources (traced d) overlay template config.name topology.nodes
                      (w, log)).0 in
                  elim (result_cases (
                    monitor_resources (traced d) overlay topology.nodes (firsts built)
                      overlay.spec.monitor)) [
                        | inl (e, q3) ↦ ground (arith, quiet)
                        | inr (r, q3) ↦ ground (arith, quiet)
                      ]
            ]
          ]
    ]
  ]

  -- If createExternalResources of an overlay with a topology returns without an error, the calls
  -- that it has made since are the creations of all resources of a list, each with its owner set
  -- and in order, and the replica sets of this list have the names of the switch pods of the
  -- nodes, one for each node in the order of the topology.
  pub create_external_resources-Creating :
      (topology : TopologySpec) (w w' : W) (log log' : List Event)
      → overlay.spec.topology ≡ some topology
      → create_external_resources (traced d) overlay (w, log) ≡ (returned none, (w', log'))
      → (resources : List Resource) × (es : List Event) × (w1 : W) × (log' ≡ log ++ es)
        × Owned.Creating d.cluster overlay.meta w1 resources none es
        × (switch_names resources ≡ pod_names d overlay topology.nodes)
  unfolding create_external_resources
  create_external_resources-Creating topology w w' log log' t h =
      after (build_external_resources (traced d) overlay (w, log)) refl (build_quiet w log)
    where
      after :
          (x : Flow (Option ResourcesError) (List Resource) × (W × List Event))
          → build_external_resources (traced d) overlay (w, log) ≡ x
          → (x.1.1 ≡ log) × (refuses x.0 ≡ true)
          → (resources : List Resource) × (es : List Event) × (w1 : W) × (log' ≡ log ++ es)
            × Owned.Creating d.cluster overlay.meta w1 resources none es
            × (switch_names resources ≡ pod_names d overlay topology.nodes)
      after (return none, v) e (_, f) = ground arith
      after (return (some r), v) e _ = ground arith
      after (panic, v) e _ = ground arith
      after (next resources, (w1, log1)) e (same, _) =
          let ran : create_all (traced_cluster d.cluster) overlay.meta resources (w1, log1)
              ≡ (none, (w', log')) =
            ground arith in
          let (es, added, made) =
            subst
              (λ (y : Option CreateError × (W × List Event)).
                Owned.Creates d.cluster overlay.meta w1 resources log1 y)
              ran (Owned.create_all-Creating d.cluster overlay.meta resources w1 log1) in
          (
            resources,
            es,
            w1,
            subst (λ (l : List Event). log' ≡ l ++ es) same added,
            made,
            build_external_resources-switches (traced d) overlay topology resources (w, log)
                (w1, log1) t e,
          )
