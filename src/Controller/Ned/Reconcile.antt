-- ===== src/Controller/Ned/Reconcile.antt =====
-- The reconciler of network edge devices.
use l2s_m.Base.{◌==◌, List, length, none, some, Text, codes, if◌then◌else◌}
use l2s_m.Base.Effects.{Act, Outcome, run, try, call, ret, pure, when, when_some, ◌>>=◌, ◌>>◌}
use l2s_m.Api.Meta.{ObjectKey, l2sm_finalizer}
use l2s_m.Api.Ned.{NetworkEdgeDevice}
use l2s_m.Cluster.{
  api, message, Reconciled, done, requeue_after, failed, ignore_not_found, finished,
}
use l2s_m.Controller.Defaults.{apply_network_edge_device_defaults}
use l2s_m.Controller.Ned.{NedDeps}
use l2s_m.Controller.Ned.Resources.{
  create_external_resources, reconcile_ned, delete_monitoring_network,
}

module _ {W F : Type 0} (d : NedDeps W F) where
  abbrev pub set_ned_finalizers : (List Text → List Text) → NetworkEdgeDevice → NetworkEdgeDevice
  set_ned_finalizers f n = record n { meta = record n.meta { finalizers = f (n.finalizers) } }

  -- A device without the finalizer is given it.
  unfoldable pub register_ned : NetworkEdgeDevice → Act W Reconciled NetworkEdgeDevice
  register_ned ned =
      if d.cluster.contains_finalizer ned.finalizers l2sm_finalizer
      then pure ned
      else (try
          (d.cluster.update_ned
            (set_ned_finalizers (λ fs. d.cluster.add_finalizer fs l2sm_finalizer) ned))
          (λ e. failed (api e)))

  -- The block for a device that is being deleted and has the finalizer.
  unfoldable pub release_ned : NetworkEdgeDevice → Act W Reconciled (Unit {0})
  unfolding delete_monitoring_network
  release_ned ned = do
    elim ned.spec.monitor [
      | none ↦ pure tt
      | some _ ↦ do
        e ← call (delete_monitoring_network d ned)
        when_some e (λ x. failed (message (codes "monitoring network")))
    ]
    updated ←
        try
          (d.cluster.update_ned
            (set_ned_finalizers (λ fs. d.cluster.remove_finalizer fs l2sm_finalizer) ned))
          (λ e. failed (api e))
    pure tt

  unfoldable pub launch_ned : NetworkEdgeDevice → Act W Reconciled Reconciled
  launch_ned ned = do
    e ← call (create_external_resources d ned)
    when_some e (λ x. failed (message (codes "external resources")))
    ret (requeue_after 20)

  unfoldable pub refresh_ned : NetworkEdgeDevice → Act W Reconciled Reconciled
  refresh_ned ned = do
    e ← call (reconcile_ned d ned)
    when_some e (λ x. failed (message (codes "configuration")))
    ret done

  unfoldable pub reconcile_network_edge_device : ObjectKey → W → Outcome Reconciled × W
  unfolding register_ned release_ned launch_ned refresh_ned
  reconcile_network_edge_device key = run (do
    found ← try (d.cluster.get_ned key) (λ e. finished (ignore_not_found e))
    completed ←
        try (apply_network_edge_device_defaults d.cluster found)
          (λ e. failed (message (codes "defaults")))
    updated ← try (d.cluster.update_ned completed) (λ e. failed (api e))
    when updated.deleting (
        when (d.cluster.contains_finalizer updated.finalizers l2sm_finalizer) (release_ned updated)
        >> ret done)
    ned ← register_ned updated
    replica_sets ← try (d.cluster.list_replica_sets key.namespace key.name) (λ e. failed (api e))
    if length replica_sets == 0 then launch_ned ned else refresh_ned ned)
