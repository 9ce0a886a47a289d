-- ===== src/Controller/Overlay/Reconcile.antt =====
-- The overlay reconciler: `Reconcile`, and the network of the probes.
use l2s_m.Base.{◌==◌, List, length, Option, none, some, Text, codes, if◌then◌else◌}
use l2s_m.Base.Effects.{
  Act, Outcome, run, try, call, ret, pure, lift, deref, when, when_some, ◌>>=◌, ◌>>◌,
}
use l2s_m.Api.Meta.{ObjectKey, l2sm_finalizer}
use l2s_m.Api.Overlay.{Overlay, overlay_provider}
use l2s_m.Cluster.{
  ApiError, api, message, Reconciled, done, requeue_after, failed, ignore_not_found, finished,
}
use l2s_m.Monitoring.{MonitoringError, ensure, delete, monitoring_client_factory}
use l2s_m.Controller.Defaults.{apply_overlay_defaults}
use l2s_m.Controller.Owned.{OwnerReference, owner_index}
use l2s_m.Controller.Overlay.{OverlayDeps}
use l2s_m.Controller.Overlay.Resources.{create_external_resources}

-- The field index of replica sets, config maps, services and attachment definitions.
unfoldable pub overlay_owner_index : Option OwnerReference → List Text
unfolding owner_index
overlay_owner_index owner = owner_index (codes "Overlay") owner

module _ {W F : Type 0} (d : OverlayDeps W F) where
  -- `deleteExternalResources`; the answer is not looked at
  unfoldable pub delete_external_resources : Overlay → W → Option ApiError × W
  delete_external_resources overlay w =
      let (e, w') = d.cluster.delete_net_attach_defs overlay.namespace overlay.name w in (none, w')

  unfoldable pub create_monitoring_network : Overlay → W → Outcome (Option MonitoringError) × W
  create_monitoring_network overlay = run (do
    client ←
        try (monitoring_client_factory d.factory d.http d.lookup_env).internal_client_of
          (λ e. some e)
    topology ← deref overlay.spec.topology
    e ← call (ensure d.dp (some client) overlay.name overlay_provider topology.nodes)
    ret e)

  unfoldable pub delete_monitoring_network : Overlay → W → Outcome (Option MonitoringError) × W
  delete_monitoring_network overlay = run (do
    client ←
        try (monitoring_client_factory d.factory d.http d.lookup_env).internal_client_of
          (λ e. some e)
    e ← call (delete (some client) overlay.name)
    ret e)

  abbrev pub set_overlay_finalizers : (List Text → List Text) → Overlay → Overlay
  set_overlay_finalizers f o = record o { meta = record o.meta { finalizers = f (o.finalizers) } }

  -- An overlay without a finalizer is given its defaults and the finalizer.
  unfoldable pub register_overlay : Overlay → Act W Reconciled Overlay
  register_overlay overlay =
      if d.cluster.contains_finalizer overlay.finalizers l2sm_finalizer
      then pure overlay
      else (try
          (d.cluster.update_overlay (
            set_overlay_finalizers (λ fs. d.cluster.add_finalizer fs l2sm_finalizer)
              (apply_overlay_defaults overlay)))
          (λ e. failed (api e)))

  abbrev pub monitoring_failed : MonitoringError → Reconciled
  monitoring_failed e = failed (message (codes "monitoring network"))

  -- The block for an overlay that is being deleted and has the finalizer.
  unfoldable pub release_overlay : Overlay → Act W Reconciled (Unit {0})
  unfolding delete_external_resources delete_monitoring_network
  release_overlay overlay = do
    e ← lift (delete_external_resources overlay)
    when_some e (λ x. failed (api x))
    elim overlay.spec.monitor [
      | none ↦ pure tt
      | some _ ↦ do e ← call (delete_monitoring_network overlay); when_some e monitoring_failed
    ]
    updated ←
        try
          (d.cluster.update_overlay
            (set_overlay_finalizers (λ fs. d.cluster.remove_finalizer fs l2sm_finalizer) overlay))
          (λ e. failed (api e))
    pure tt

  -- The block for an overlay that has no replica sets yet.
  unfoldable pub launch_overlay : Overlay → Act W Reconciled (Unit {0})
  unfolding create_external_resources create_monitoring_network
  launch_overlay overlay = do
    created ← call (create_external_resources d overlay)
    when_some created (λ e. failed (message (codes "external resources")))
    elim overlay.spec.monitor [
      | none ↦ pure tt
      | some _ ↦ do e ← call (create_monitoring_network overlay); when_some e monitoring_failed
    ]
    ret (requeue_after 20)

  unfoldable pub reconcile_overlay : ObjectKey → W → Outcome Reconciled × W
  unfolding register_overlay release_overlay launch_overlay
  reconcile_overlay key = run (do
    new_overlay ← try (d.cluster.get_overlay key) (λ e. finished (ignore_not_found e))
    when new_overlay.deleting (
        when (d.cluster.contains_finalizer new_overlay.finalizers l2sm_finalizer)
          (release_overlay new_overlay)
        >> ret done)
    overlay ← register_overlay new_overlay
    replica_sets ← try (d.cluster.list_replica_sets key.namespace key.name) (λ e. failed (api e))
    when (length replica_sets == 0) (launch_overlay overlay)
    ret done)
