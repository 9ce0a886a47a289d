-- ===== src/Controller/Quarantine/NilSource.antt =====
-- A request whose selector matches no network.
use l2s_m.Base.{◌≡◌, refl, ◌≢◌, Bool, true, false, [], Result, ok, err, arith}
use l2s_m.Base.Int.{pos}
use l2s_m.Base.Effects.{panicked}
use l2s_m.Api.Meta.{ObjectKey}
use l2s_m.Api.L2Network.{L2Network}
use l2s_m.Api.Quarantine.{QuarantinePodRequest, source_not_found}
use l2s_m.Cluster.{ApiError}
use l2s_m.Controller.Quarantine.Move.{Deps}
use l2s_m.Controller.Quarantine.Reconcile.{
  reconcile, resolve_source_network, pick_source, set_quarantine_status, update_error, with_status,
  target_missing,
}

-- If the network selector of a request is valid and matches no network, the status is written
-- without an error and the target is read or does not exist, Reconcile panics on the nil source
-- network.
pub reconcile_nil_source :
    {W : Type 0} (d : Deps W) (configured : Bool) (key : ObjectKey) (w w1 w2 w3 w4 : W)
    (request request' : QuarantinePodRequest) (target : Result ApiError L2Network)
    → d.cluster.get_request key w ≡ (ok request, w1)
    → d.cluster.is_selector request.spec.selector.l2_network_selector ≡ true
    → d.cluster.list_networks_in request.namespace request.spec.selector.l2_network_selector w1
      ≡ (ok [], w2)
    → d.cluster.update_request_status
        (with_status request false source_not_found [] request.spec.target_l2_network
          (pos 0)
          (pos 0))
        w2
      ≡ (ok request', w3)
    → d.cluster.get_network
        (record { name = request.spec.target_l2_network; namespace = key.namespace })
        w3
      ≡ (target, w4)
    → target ≢ err ApiError.other
    → reconcile d configured key w ≡ (panicked, w4)
unfolding reconcile resolve_source_network pick_source set_quarantine_status update_error
    target_missing
reconcile_nil_source d configured key w w1 w2 w3 w4 request request' (ok target) h1 h2 h3 h4 h5 h6 =
    ground arith
reconcile_nil_source d configured key w w1 w2 w3 w4 request request' (err ApiError.not_found) h1 h2
      h3 h4 h5 h6 =
    ground arith
reconcile_nil_source d configured key w w1 w2 w3 w4 request request' (err ApiError.other) h1 h2 h3
      h4 h5 h6 =
    elim (h6 refl) [ ]
