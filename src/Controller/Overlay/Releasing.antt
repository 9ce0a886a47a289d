-- ===== src/Controller/Overlay/Releasing.antt =====
-- The calls of the overlay reconciler when an overlay is deleted, and what they are answered.
use mathlib.Core.Path.{subst}
use l2s_m.Base.{
  ◌≡◌, sym, inl, inr, Bool, true, false, List, [], ◌∷◌, ◌++◌, Option, none, some, Option-cases,
  Result, ok, err, arith,
}
use l2s_m.Base.Effects.{Flow, next, return, panic, Outcome, returned, panicked}
use l2s_m.Utils.Naming.{generate_lpm_network_name}
use l2s_m.Api.Meta.{l2sm_finalizer}
use l2s_m.Api.Monitor.{MonitorSpec}
use l2s_m.Api.L2Network.{vnet}
use l2s_m.Api.Overlay.{Overlay}
use l2s_m.Cluster.{ApiError, Reconciled}
use l2s_m.Cases.{sdn_cases, api_cases, call_cases}
use l2s_m.Sdn.{SdnError, Client}
use l2s_m.Sdn.Session.{Http}
use l2s_m.Trace.{
  noted, noted-append, Event, network_deleted, overlay_updated, net_attach_defs_deleted,
  traced_client, traced_cluster, silent,
}
use l2s_m.Monitoring.{MonitoringError, ClientFactory, monitoring_client_factory, delete}
use l2s_m.Controller.Overlay.{OverlayDeps}
use l2s_m.Controller.Overlay.Reconcile.{
  release_overlay, set_overlay_finalizers, delete_external_resources, delete_monitoring_network,
}

abbrev pub traced_http : {W : Type 0} → Http W → Http (W × List Event)
traced_http http = record {
  send = λ r. silent (http.send r);
  marshal = http.marshal;
  base64 = http.base64;
}

abbrev pub traced_answer :
    {W : Type 0}
    → Result MonitoringError (Client W) × W
    → List Event
    → Result MonitoringError (Client (W × List Event)) × (W × List Event)
traced_answer (ok c, w) log = (ok (traced_client c), (w, log))
traced_answer (err e, w) log = (err e, (w, log))

-- The clients that the factory makes write into the log too.
abbrev pub traced_factory : {W : Type 0} → ClientFactory W → ClientFactory (W × List Event)
traced_factory f = record {
  internal_client_of = λ (w, log). traced_answer (f.internal_client_of w) log;
  for_provider_of = λ p (w, log). traced_answer (f.for_provider_of p w) log;
}

abbrev pub traced : {W F : Type 0} → OverlayDeps W F → OverlayDeps (W × List Event) F
traced d = record {
  cluster = traced_cluster d.cluster;
  factory = some (traced_factory (monitoring_client_factory d.factory d.http d.lookup_env));
  http = traced_http d.http;
  lookup_env = d.lookup_env;
  dp = d.dp;
  v6 = d.v6;
  files = d.files;
  lib = d.lib;
  marshal_targets = d.marshal_targets;
  random = silent d.random;
}

abbrev pub is_ok : {E A : Type 0} → Result E A → Bool
is_ok (ok _) = true
is_ok (err _) = false

abbrev pub went_on : {A : Type 0} → Flow Reconciled A → Bool
went_on (next _) = true
went_on (return _) = false
went_on panic = false

module _ {W F : Type 0} (d : OverlayDeps W F) (overlay : Overlay) where
  abbrev pub clearing : Event
  clearing = net_attach_defs_deleted overlay.name

  abbrev pub leaving : Event
  leaving = network_deleted (generate_lpm_network_name overlay.name)

  abbrev pub removing : Event
  removing =
      overlay_updated
        (set_overlay_finalizers d (λ fs. d.cluster.remove_finalizer fs l2sm_finalizer) overlay)

  -- The client for the network of the probes, after the attachment definitions were deleted, and what
  -- it answers to the deletion of that network.
  abbrev pub client_at : W → Result MonitoringError (Client W) × W
  client_at w =
      (monitoring_client_factory d.factory d.http d.lookup_env).internal_client_of
        ((d.cluster.delete_net_attach_defs overlay.namespace overlay.name w).1)

  -- What the server answers to the removal of the finalizer.
  abbrev pub removed_at : W → Result ApiError Overlay × W
  removed_at w =
      d.cluster.update_overlay
        (set_overlay_finalizers d (λ fs. d.cluster.remove_finalizer fs l2sm_finalizer) overlay) w

  abbrev pub deleted_by : Client W → W → Outcome (Option SdnError) × W
  deleted_by c w = c.delete_network vnet (generate_lpm_network_name overlay.name) w

  -- The attachment definitions go first; an overlay with monitoring loses its network next; and the
  -- finalizer is removed last, after that network was deleted. `true` if the block went
  -- through, which the answer to that removal decides.
  pub data Releasing (w : W) : Option MonitorSpec → Bool → List Event → Type 0 where
    no_client :
        (m : MonitorSpec) (e : MonitoringError) (w1 : W)
        → client_at w ≡ (err e, w1)
        → Releasing w (some m) false (clearing ∷ [])
    deletion_panicked :
        (m : MonitorSpec) (c : Client W) (w1 w2 : W)
        → client_at w ≡ (ok c, w1)
        → deleted_by c w1 ≡ (panicked, w2)
        → Releasing w (some m) false (clearing ∷ leaving ∷ [])
    deletion_failed :
        (m : MonitorSpec) (c : Client W) (e : SdnError) (w1 w2 : W)
        → client_at w ≡ (ok c, w1)
        → deleted_by c w1 ≡ (returned (some e), w2)
        → Releasing w (some m) false (clearing ∷ leaving ∷ [])
    released_unmonitored :
        (x : Result ApiError Overlay) (w1 : W)
        → removed_at ((d.cluster.delete_net_attach_defs overlay.namespace overlay.name w).1)
          ≡ (x, w1)
        → Releasing w none (is_ok x) (clearing ∷ removing ∷ [])
    released_monitored :
        (m : MonitorSpec) (c : Client W) (x : Result ApiError Overlay) (w1 w2 w3 : W)
        → client_at w ≡ (ok c, w1)
        → deleted_by c w1 ≡ (returned none, w2)
        → removed_at w2 ≡ (x, w3)
        → Releasing w (some m) (is_ok x) (clearing ∷ leaving ∷ removing ∷ [])

  abbrev pub Releases : W → List Event → Flow Reconciled (Unit {0}) × (W × List Event) → Type 0
  Releases w log (r, (w', log')) =
      (es : List Event) × (log' ≡ log ++ es) × Releasing w overlay.spec.monitor (went_on r) es

  leaf :
      {m : Option MonitorSpec} {b : Bool} {es : List Event} {v : W}
      (x : Flow Reconciled (Unit {0}) × (W × List Event)) (log : List Event)
      (r : Flow Reconciled (Unit {0})) (w : W)
      → Releasing v m b es
      → overlay.spec.monitor ≡ m
      → went_on r ≡ b
      → x ≡ (r, (w, noted log es))
      → Releases v log x
  leaf {m = m} {es = es} {v = v} x log r w p q t e =
      let monitor = subst (λ (o : Option MonitorSpec). Releasing v o (went_on r) es) (sym q) in
      rw e (es, noted-append es log, monitor (rw t p))

  unmonitored :
      (w : W) (log : List Event)
      → overlay.spec.monitor ≡ none
      → Releases w log (release_overlay (traced d) overlay (w, log))
  unfolding release_overlay delete_external_resources
  unmonitored w log q =
      let x = release_overlay (traced d) overlay (w, log) in
      let w1 = (d.cluster.delete_net_attach_defs overlay.namespace overlay.name w).1 in
      elim (api_cases (
        d.cluster.update_overlay
          (set_overlay_finalizers d (λ fs. d.cluster.remove_finalizer fs l2sm_finalizer) overlay)
          w1)) [
            | inl (e, w2, e2) ↦
                leaf x log (x.0) w2 (released_unmonitored (err e) w2 e2) q (ground arith)
                  (ground arith)
            | inr (o, w2, e2) ↦
                leaf x log (x.0) w2 (released_unmonitored (ok o) w2 e2) q (ground arith)
                  (ground arith)
          ]

  monitored :
      (m : MonitorSpec) (w : W) (log : List Event)
      → overlay.spec.monitor ≡ some m
      → Releases w log (release_overlay (traced d) overlay (w, log))
  unfolding release_overlay delete_external_resources delete_monitoring_network
      monitoring_client_factory delete
  monitored m w log q =
      let x = release_overlay (traced d) overlay (w, log) in
      let w1 = (d.cluster.delete_net_attach_defs overlay.namespace overlay.name w).1 in
      elim (call_cases (client_at w)) [
        | inl (e, w2, e2) ↦
            leaf x log (x.0) w2 (no_client m e w2 e2) q (ground arith) (ground arith)
        | inr (c, w2, e2) ↦ elim (sdn_cases (deleted_by c w2)) [
          | inl (w3, e3) ↦
              leaf x log (x.0) w3 (deletion_panicked m c w2 w3 e2 e3) q (ground arith)
                (ground arith)
          | inr (inl (e, w3, e3)) ↦
              leaf x log (x.0) w3 (deletion_failed m c e w2 w3 e2 e3) q (ground arith)
                (ground arith)
          | inr (inr (w3, e3)) ↦
              elim (api_cases (
                d.cluster.update_overlay
                  (set_overlay_finalizers d (λ fs. d.cluster.remove_finalizer fs l2sm_finalizer)
                    overlay)
                  w3)) [
                    | inl (e, w4, e4) ↦
                        leaf x log (x.0) w4 (released_monitored m c (err e) w2 w3 w4 e2 e3 e4) q
                          (ground arith) (ground arith)
                    | inr (o, w4, e4) ↦
                        leaf x log (x.0) w4 (released_monitored m c (ok o) w2 w3 w4 e2 e3 e4) q
                          (ground arith) (ground arith)
                  ]
        ]
      ]

  -- Whatever is answered, the block for a deleted overlay deletes its attachment definitions
  -- first; then, with monitoring, it asks for the deletion of the network of the probes, and
  -- without a client for it, or if the deletion fails or panics, it ends there and keeps the
  -- finalizer. After a successful deletion, and without monitoring, it removes the finalizer
  -- last, and goes on only if that succeeded.
  pub release_overlay-Releasing :
      (w : W) (log : List Event) → Releases w log (release_overlay (traced d) overlay (w, log))
  release_overlay-Releasing w log = elim (Option-cases overlay.spec.monitor) [
    | inl q ↦ unmonitored w log q
    | inr (m, q) ↦ monitored m w log q
  ]
