-- ===== src/Controller/Network/Silent.antt =====
-- Parts of the reconciler of networks that change nothing but what they ask over HTTP or of a device.
use l2s_m.Base.{◌≡◌, refl, inl, inr, List, ◌++◌, Option-cases, Text, codes, Result, ok, err, arith}
use l2s_m.Base.Effects.{Outcome, returned}
use l2s_m.Api.Ned.{NetworkEdgeDevice}
use l2s_m.Api.L2Network.{L2Network}
use l2s_m.Cluster.{ApiError}
use l2s_m.Trace.Plan.{Quiet}
use l2s_m.Sdn.Session.{session_get, session_post, new_session_client, ok_status}
use l2s_m.Sdn.Internal.{expect, expect_exists, begin_session_controller}
use l2s_m.Controller.Network.Provider.{session_of, answer_cases}
use l2s_m.Sdn.Internal
use l2s_m.Sdn.Create.{new_client, started}
use l2s_m.Controller.Network.Attach.{attach_interface}
use l2s_m.Controller.Network.{
  NetworkDeps, NedError, not_listed, get_network_edge_device, first_of_provider,
  inter_domain_reconcile, create_new_ned_connection,
}
use l2s_m.Controller.Network.Protocol.{traced}

module _ {W : Type 0} (d : NetworkDeps W) where
  pub get_network_edge_device-Quiet :
      (name : Text) → Quiet (get_network_edge_device (traced d).cluster name)
  unfolding get_network_edge_device
  get_network_edge_device-Quiet name w log = ends (d.cluster.list_neds w) refl
    where
      ends :
          (y : Result ApiError (List NetworkEdgeDevice) × W)
          → d.cluster.list_neds w ≡ y
          → (a : Outcome (Result NedError NetworkEdgeDevice)) × (w' : W) × (get_network_edge_device
                (traced d).cluster
                name
                (w, log)
              ≡ (a, (w', log)))
      ends (err e, v) q = (returned (err (not_listed e)), v, ground arith)
      ends (ok neds, v) q = (first_of_provider name neds, v, ground arith)

  pub inter_domain_reconcile-Quiet :
      (network : L2Network) → Quiet (inter_domain_reconcile (traced d) network)
  unfolding inter_domain_reconcile new_client started begin_session_controller session_get
      new_session_client Internal.internal_client Internal.check_network_exists
      Internal.create_network expect expect_exists session_post
  inter_domain_reconcile-Quiet network w log =
      let x = inter_domain_reconcile d network w in
      elim (Option-cases network.spec.provider) [
        | inl q ↦ (x.0, x.1, ground arith)
        | inr (provider, q) ↦
            let session = session_of d provider in
            elim (answer_cases ok_status
              (session_get d.http session (codes "/vnets/api/status") w)) [
                | inl (a, w1, e1, n1) ↦ (x.0, x.1, ground arith)
                | inr (w1, e1) ↦
                    elim (answer_cases ok_status
                      (session_get d.http session (codes "/vnets/api/" ++ network.name) w1)) [
                        | inr (w2, e2) ↦ (x.0, x.1, ground arith)
                        | inl (a, w2, e2, n2) ↦ (x.0, x.1, ground arith)
                      ]
              ]
      ]

  pub create_new_ned_connection-Quiet :
      (network : L2Network) (bridge : Text) (ned : NetworkEdgeDevice)
      → Quiet (create_new_ned_connection (traced d) network bridge ned)
  unfolding create_new_ned_connection new_client started begin_session_controller session_get
      new_session_client Internal.internal_client Internal.attach_pod_to_network expect session_post
      attach_interface
  create_new_ned_connection-Quiet network bridge ned w log =
      let x = create_new_ned_connection d network bridge ned w in
      elim (Option-cases network.spec.provider) [
        | inl q ↦ (x.0, x.1, ground arith)
        | inr (provider, q) ↦
            let session = session_of d provider in
            elim (answer_cases ok_status
              (session_get d.http session (codes "/vnets/api/status") w)) [
                | inl (a, w1, e1, n1) ↦ (x.0, x.1, ground arith)
                | inr (w1, e1) ↦ (x.0, x.1, ground arith)
              ]
      ]
