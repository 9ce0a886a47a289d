-- ===== src/Controller/Quarantine/Reconcile.antt =====
-- `resolveSourceNetwork`, `setQuarantineStatus` and `Reconcile` of the quarantine controller.
use l2s_m.Base.{
  ℕ, ◌+◌, Bool, true, false, not, List, [], ◌∷◌, Option, none, some, Text, text_eq, Result, ok, err,
  if◌then◌else◌,
}
use l2s_m.Base.Int.{ℤ, pos, int32}
use l2s_m.Base.Effects.{
  Act, Outcome, run, handle, try, ret, when, when_some, unwrap, lift, deref, call, ◌>>=◌, ◌>>◌,
}
use l2s_m.Api.Meta.{Pod, ObjectKey}
use l2s_m.Api.L2Network.{L2Network}
use l2s_m.Api.Quarantine.{
  QuarantinePodRequest, Reason, target_not_found, invalid_request, sdn_client_not_configured,
  target_check_failed, target_unavailable, invalid_pod_selector, pod_move_failed, pods_moved,
  invalid_network_selector, source_not_found, multiple_sources,
}
use l2s_m.Cluster.{
  ApiError, not_found, ControllerError, api, Reconciled, failed, ignore_not_found, finished,
}
use l2s_m.Controller.Quarantine.Move.{Deps, move_pod_to_target_network}

-- The request with its new status.
unfoldable pub with_status :
    QuarantinePodRequest → Bool → Reason → Text → Text → ℤ → ℤ → QuarantinePodRequest
with_status request available reason source target matched moved = record request {
  status = record {
    observed_generation = request.generation;
    source_l2_network_name = source;
    target_l2_network_name = target;
    matched_pod_count = matched;
    moved_pod_count = moved;
    conditions =
        record { available = available; observed_generation = request.generation; reason = reason }
        ∷ [];
  };
}

-- An error of the update, but not that the request is gone.
unfoldable pub update_error :
    {W : Type 0} → Result ApiError QuarantinePodRequest × W → Option ControllerError × W
update_error (ok _, w) = (none, w)
update_error (err e, w) = (ignore_not_found e, w)

module _ {W : Type 0} (d : Deps W) where
  unfoldable pub set_quarantine_status :
      QuarantinePodRequest → Bool → Reason → Text → Text → ℤ → ℤ → W → Option ControllerError × W
  unfolding update_error
  set_quarantine_status request available reason source target matched moved w = update_error (
      d.cluster.update_request_status
        (with_status request available reason source target matched moved) w)

  -- `resolveSourceNetwork`: the network, or nil with what the status update returned. The second of
  -- its three results is always empty.
  unfoldable pub pick_source :
      QuarantinePodRequest → List L2Network → W → (Option L2Network × Option ControllerError) × W
  unfolding set_quarantine_status
  pick_source request [] w =
      let (e, w') =
        set_quarantine_status request false source_not_found [] request.spec.target_l2_network
          (pos 0) (pos 0) w in
      ((none, e), w')
  pick_source request (n ∷ []) w = ((some n, none), w)
  pick_source request (n ∷ m ∷ ns) w =
      let (e, w') =
        set_quarantine_status request false multiple_sources [] request.spec.target_l2_network
          (pos 0) (pos 0) w in
      ((none, e), w')

  unfoldable pub resolve_source_network :
      QuarantinePodRequest → W → (Option L2Network × Option ControllerError) × W
  unfolding set_quarantine_status
  resolve_source_network request w =
      if d.cluster.is_selector request.spec.selector.l2_network_selector
      then (let (found, w') =
            d.cluster.list_networks_in request.namespace request.spec.selector.l2_network_selector
              w in
          elim found [ ok ns ↦ pick_source request ns w' | err e ↦ ((none, some (api e)), w') ])
      else (let (e, w') =
            set_quarantine_status request false invalid_network_selector []
              request.spec.target_l2_network (pos 0) (pos 0) w in
          ((none, e), w'))

  module _ (request : QuarantinePodRequest) where
    -- `return ctrl.Result{}, r.setQuarantineStatus(…)`
    unfoldable pub report : {A : Type 0} → Bool → Reason → Text → Text → ℤ → ℤ → Act W Reconciled A
    report available reason source target matched moved = do
      e ← lift (set_quarantine_status request available reason source target matched moved)
      ret (finished e)

    -- The loop over the listed pods; those that are being deleted are passed over.
    unfoldable pub move_pods :
        List Pod → L2Network → L2Network → ℕ → ℕ → Act W Reconciled Reconciled
    unfolding report
    move_pods [] source target matched moved =
        report true pods_moved source.name target.name (int32 matched) (int32 moved)
    move_pods (pod ∷ pods) source target matched moved = elim pod.deleting [
      | true ↦ move_pods pods source target matched moved
      | false ↦ do
        r ← call (move_pod_to_target_network d pod source target)
        elim r [
          | err e ↦
              report false pod_move_failed source.name target.name (int32 matched) (int32 moved)
          | ok m ↦
              let n = if m.moved then 1 else 0 in
              move_pods pods m.source m.target (matched + n) (moved + n)
        ]
    ]

  -- The target does not exist: its name is formatted beside the source's, which may be nil.
  unfoldable pub target_missing :
      QuarantinePodRequest → Option L2Network → ApiError → Act W Reconciled L2Network
  target_missing request source not_found = do
    s ← deref source
    report request false target_not_found s.name request.spec.target_l2_network (pos 0) (pos 0)
  target_missing request source ApiError.other = ret (failed (api ApiError.other))

  -- `configured` says that the SDN client is not nil; `namespace` is that of the reconciled key.
  unfoldable pub reconcile : Bool → ObjectKey → W → Outcome Reconciled × W
  reconcile configured key = run (do
    request ← try (d.cluster.get_request key) (λ e. finished (ignore_not_found e))
    resolved ← lift (resolve_source_network request)
    when_some (resolved.1) failed
    target ←
        handle
          (d.cluster.get_network
            (record { name = request.spec.target_l2_network; namespace = key.namespace }))
          (target_missing request (resolved.0))
    source ← deref (resolved.0)
    when (text_eq source.name target.name)
        (report request false invalid_request source.name target.name (pos 0) (pos 0))
    when (not (configured))
        (report request false sdn_client_not_configured source.name target.name (pos 0) (pos 0))
    checked ← call (d.sdn.check_network_exists target.spec.type target.name)
    exists ←
        unwrap checked
          (λ e. report request false target_check_failed source.name target.name (pos 0) (pos 0))
    when (not (exists))
        (report request false target_unavailable source.name target.name (pos 0) (pos 0))
    when (not (d.cluster.is_selector request.spec.selector.pod_label_selector))
        (report request false invalid_pod_selector source.name target.name (pos 0) (pos 0))
    pods ←
        try (d.cluster.list_pods_in key.namespace request.spec.selector.pod_label_selector)
          (λ e. failed (api e))
    move_pods request pods source target 0 0)
