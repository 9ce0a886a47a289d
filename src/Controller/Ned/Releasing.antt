-- ===== src/Controller/Ned/Releasing.antt =====
-- The calls of the reconciler of network edge devices when a device is deleted.
use mathlib.Core.Path.{subst}
use l2s_m.Base.{
  ◌≡◌, sym, inl, inr, Bool, false, List, [], ◌∷◌, ◌++◌, Option, none, some, Option-cases, Result,
  ok, err, arith,
}
use l2s_m.Base.Effects.{Flow, Outcome, returned, panicked}
use l2s_m.Utils.Naming.{generate_lpm_network_name}
use l2s_m.Api.Meta.{l2sm_finalizer}
use l2s_m.Api.Monitor.{MonitorSpec}
use l2s_m.Api.L2Network.{vnet}
use l2s_m.Api.Ned.{NetworkEdgeDevice}
use l2s_m.Cluster.{ApiError, Reconciled}
use l2s_m.Cases.{sdn_cases, api_cases, call_cases}
use l2s_m.Sdn.{SdnError, Client}
use l2s_m.Trace.{noted, noted-append, Event, network_deleted, ned_updated, traced_cluster}
use l2s_m.Monitoring.{MonitoringError, monitoring_client_factory, delete}
use l2s_m.Controller.Ned.{NedDeps}
use l2s_m.Controller.Ned.Resources.{delete_monitoring_network}
use l2s_m.Controller.Ned.Reconcile.{release_ned, set_ned_finalizers}
use l2s_m.Controller.Overlay.Releasing.{is_ok, traced_http, traced_factory, went_on}

abbrev pub traced : {W F : Type 0} → NedDeps W F → NedDeps (W × List Event) F
traced d = record {
  cluster = traced_cluster d.cluster;
  factory = some (traced_factory (monitoring_client_factory d.factory d.http d.lookup_env));
  http = traced_http d.http;
  lookup_env = d.lookup_env;
  dp = d.dp;
  files = d.files;
  lib = d.lib;
}

module _ {W F : Type 0} (d : NedDeps W F) (ned : NetworkEdgeDevice) where
  abbrev pub leaving : Event
  leaving = network_deleted (generate_lpm_network_name ned.name)

  abbrev pub removing : Event
  removing =
      ned_updated (set_ned_finalizers d (λ fs. d.cluster.remove_finalizer fs l2sm_finalizer) ned)

  -- The client of the device's provider, and what it answers to the deletion of the network.
  abbrev pub client_at : W → Result MonitoringError (Client W) × W
  client_at w =
      (monitoring_client_factory d.factory d.http d.lookup_env).for_provider_of ned.spec.provider w

  -- What the server answers to the removal of the finalizer.
  abbrev pub removed_at : W → Result ApiError NetworkEdgeDevice × W
  removed_at w =
      d.cluster.update_ned
        (set_ned_finalizers d (λ fs. d.cluster.remove_finalizer fs l2sm_finalizer) ned) w

  abbrev pub deleted_by : Client W → W → Outcome (Option SdnError) × W
  deleted_by c w = c.delete_network vnet (generate_lpm_network_name ned.name) w

  -- A device with monitoring loses the network of its probes first; the finalizer is removed after that
  -- network was deleted. `true` if the block went
  -- through, which the answer to that removal decides.
  pub data Releasing (w : W) : Option MonitorSpec → Bool → List Event → Type 0 where
    no_client :
        (m : MonitorSpec) (e : MonitoringError) (w1 : W)
        → client_at w ≡ (err e, w1)
        → Releasing w (some m) false []
    deletion_panicked :
        (m : MonitorSpec) (c : Client W) (w1 w2 : W)
        → client_at w ≡ (ok c, w1)
        → deleted_by c w1 ≡ (panicked, w2)
        → Releasing w (some m) false (leaving ∷ [])
    deletion_failed :
        (m : MonitorSpec) (c : Client W) (e : SdnError) (w1 w2 : W)
        → client_at w ≡ (ok c, w1)
        → deleted_by c w1 ≡ (returned (some e), w2)
        → Releasing w (some m) false (leaving ∷ [])
    released_unmonitored :
        (x : Result ApiError NetworkEdgeDevice) (w1 : W)
        → removed_at (w) ≡ (x, w1)
        → Releasing w none (is_ok x) (removing ∷ [])
    released_monitored :
        (m : MonitorSpec) (c : Client W) (x : Result ApiError NetworkEdgeDevice) (w1 w2 w3 : W)
        → client_at w ≡ (ok c, w1)
        → deleted_by c w1 ≡ (returned none, w2)
        → removed_at w2 ≡ (x, w3)
        → Releasing w (some m) (is_ok x) (leaving ∷ removing ∷ [])

  abbrev pub Releases : W → List Event → Flow Reconciled (Unit {0}) × (W × List Event) → Type 0
  Releases w log (r, (w', log')) =
      (es : List Event) × (log' ≡ log ++ es) × Releasing w ned.spec.monitor (went_on r) es

  leaf :
      {m : Option MonitorSpec} {b : Bool} {es : List Event} {v : W}
      (x : Flow Reconciled (Unit {0}) × (W × List Event)) (log : List Event)
      (r : Flow Reconciled (Unit {0})) (w : W)
      → Releasing v m b es
      → ned.spec.monitor ≡ m
      → went_on r ≡ b
      → x ≡ (r, (w, noted log es))
      → Releases v log x
  leaf {m = m} {es = es} {v = v} x log r w p q t e =
      let monitor = subst (λ (o : Option MonitorSpec). Releasing v o (went_on r) es) (sym q) in
      rw e (es, noted-append es log, monitor (rw t p))

  unmonitored :
      (w : W) (log : List Event)
      → ned.spec.monitor ≡ none
      → Releases w log (release_ned (traced d) ned (w, log))
  unfolding release_ned
  unmonitored w log q =
      let x = release_ned (traced d) ned (w, log) in
      elim (api_cases (
        d.cluster.update_ned
          (set_ned_finalizers d (λ fs. d.cluster.remove_finalizer fs l2sm_finalizer) ned) w)) [
            | inl (e, w1, e1) ↦
                leaf x log (x.0) w1 (released_unmonitored (err e) w1 e1) q (ground arith)
                  (ground arith)
            | inr (n, w1, e1) ↦
                leaf x log (x.0) w1 (released_unmonitored (ok n) w1 e1) q (ground arith)
                  (ground arith)
          ]

  monitored :
      (m : MonitorSpec) (w : W) (log : List Event)
      → ned.spec.monitor ≡ some m
      → Releases w log (release_ned (traced d) ned (w, log))
  unfolding release_ned delete_monitoring_network monitoring_client_factory delete
  monitored m w log q =
      let x = release_ned (traced d) ned (w, log) in
      elim (call_cases (client_at w)) [
        | inl (e, w2, e2) ↦
            leaf x log (x.0) w2 (no_client m e w2 e2) q (ground arith) (ground arith)
        | inr (c, w2, e2) ↦ elim (sdn_cases (deleted_by c w2)) [
          | inl (w3, e3) ↦
              leaf x log (x.0) w3 (deletion_panicked m c w2 w3 e2 e3) q (ground arith)
                (ground arith)
          | inr (inl (e, w3, e3)) ↦
              leaf x log (x.0) w3 (deletion_failed m c e w2 w3 e2 e3) q (ground arith)
                (ground arith)
          | inr (inr (w3, e3)) ↦
              elim (api_cases (
                d.cluster.update_ned
                  (set_ned_finalizers d (λ fs. d.cluster.remove_finalizer fs l2sm_finalizer) ned)
                  w3)) [
                    | inl (e, w4, e4) ↦
                        leaf x log (x.0) w4 (released_monitored m c (err e) w2 w3 w4 e2 e3 e4) q
                          (ground arith) (ground arith)
                    | inr (n, w4, e4) ↦
                        leaf x log (x.0) w4 (released_monitored m c (ok n) w2 w3 w4 e2 e3 e4) q
                          (ground arith) (ground arith)
                  ]
        ]
      ]

  -- Whatever is answered, the block for a deleted network edge device with monitoring asks the
  -- controller of its provider to delete the network of the probes, and removes the finalizer
  -- only after that was done; without monitoring it only removes the finalizer.
  pub release_ned-Releasing :
      (w : W) (log : List Event) → Releases w log (release_ned (traced d) ned (w, log))
  release_ned-Releasing w log = elim (Option-cases ned.spec.monitor) [
    | inl q ↦ unmonitored w log q
    | inr (m, q) ↦ monitored m w log q
  ]
