-- ===== src/Controller/Network/Protocol.antt =====
-- The calls of the network reconciler: the deletion of a network, its creation at the SDN controller,
-- and the connection of a switch with a network edge device.
use l2s_m.Base.{
  Result, ok, err, ◌≡◌, refl, inl, inr, List, [], ◌∷◌, ◌++◌, Option, none, some, arith,
}
use l2s_m.Base.Effects.{Flow, next, return, panic, Outcome, returned, panicked}
use l2s_m.Utils.Strings.{remove_string}
use l2s_m.Api.Meta.{l2sm_finalizer}
use l2s_m.Api.L2Network.{L2Network, online, offline}
use l2s_m.Sdn.{SdnError}
use l2s_m.Cluster.{ApiError, Reconciled, done, failed, api, sdn}
use l2s_m.Cases.{sdn_cases, api_cases}
use l2s_m.Monitoring.{payload}
use l2s_m.Trace.{
  noted, noted-append, Event, network_created, network_deleted, network_updated,
  network_status_updated, traced_client, traced_cluster, silent,
}
use l2s_m.Controller.Network.{
  NetworkDeps, initialised, with_internal, set_network_finalizers, update_controller_status,
}
use l2s_m.Controller.Network.Reconcile.{delete_network, create_in_controller}

abbrev pub traced : {W : Type 0} → NetworkDeps W → NetworkDeps (W × List Event)
traced d = record {
  cluster = traced_cluster d.cluster;
  sdn = traced_client d.sdn;
  json = d.json;
  dp = d.dp;
  http = record {
    send = λ r. silent (d.http.send r);
    marshal = d.http.marshal;
    base64 = d.http.base64;
  };
  lookup_env = d.lookup_env;
  switches_namespace = d.switches_namespace;
  random_bits = silent d.random_bits;
  ned_service = record {
    accepts = d.ned_service.accepts;
    attach = λ a b. silent (d.ned_service.attach a b);
  };
  add_server = λ a b c e f. silent (d.add_server a b c e f);
}

-- A log and what a part of the reconciler ended with.
abbrev pub Ended : Type 0 → Type 0 → Type 0
Ended W A = Flow Reconciled A × (W × List Event)

module _ {W : Type 0} (d : NetworkDeps W) (network : L2Network) where
  abbrev pub deleting : Event
  deleting = network_deleted network.name

  abbrev pub removing : Event
  removing =
      network_updated (set_network_finalizers (λ fs. remove_string fs l2sm_finalizer) network)

  -- What the SDN controller answers to the deletion.
  abbrev pub deleted_from : W → Outcome (Option SdnError) × W
  deleted_from w = d.sdn.delete_network network.spec.type network.name w

  -- What the server answers to the removal of the finalizer.
  abbrev pub removed_from : W → Result ApiError L2Network × W
  removed_from w =
      d.cluster.update_network
        (set_network_finalizers (λ fs. remove_string fs l2sm_finalizer) network) w

  -- The finalizer is removed after the SDN controller has deleted the network, and only then.
  pub data Removing (w : W) : Flow Reconciled (Unit {0}) → List Event → Type 0 where
    delete_panicked : (w1 : W) → deleted_from w ≡ (panicked, w1) → Removing w panic (deleting ∷ [])
    delete_failed :
        (e : SdnError) (w1 : W)
        → deleted_from w ≡ (returned (some e), w1)
        → Removing w (return (failed (sdn e))) (deleting ∷ [])
    remove_failed :
        (e : ApiError) (w1 w2 : W)
        → deleted_from w ≡ (returned none, w1)
        → removed_from w1 ≡ (err e, w2)
        → Removing w (return (failed (api e))) (deleting ∷ removing ∷ [])
    removed :
        (stored : L2Network) (w1 w2 : W)
        → deleted_from w ≡ (returned none, w1)
        → removed_from w1 ≡ (ok stored, w2)
        → Removing w (return done) (deleting ∷ removing ∷ [])

  abbrev pub Removes : W → List Event → Ended W (Unit {0}) → Type 0
  Removes w log (r, (w', log')) = (es : List Event) × (log' ≡ log ++ es) × Removing w r es

  removes :
      {r : Flow Reconciled (Unit {0})} {es : List Event} {v : W} (x : Ended W (Unit {0}))
      (log : List Event) (w : W)
      → Removing v r es
      → x ≡ (r, (w, noted log es))
      → Removes v log x
  removes {es = es} x log w p e = rw e (es, noted-append es log, p)

  -- Whatever the SDN controller and the server answer, the block for a deleted network asks the
  -- SDN controller for the deletion first and removes the finalizer after that; it returns
  -- without an error only after both.
  pub delete_network-Removing :
      (w : W) (log : List Event) → Removes w log (delete_network (traced d) network (w, log))
  unfolding delete_network
  delete_network-Removing w log =
      let x = delete_network (traced d) network (w, log) in
      elim (sdn_cases (deleted_from w)) [
        | inl (w1, e1) ↦ removes x log w1 (delete_panicked w1 e1) (ground arith)
        | inr (inl (e, w1, e1)) ↦ removes x log w1 (delete_failed e w1 e1) (ground arith)
        | inr (inr (w1, e1)) ↦
            elim (api_cases (
              d.cluster.update_network
                (set_network_finalizers (λ fs. remove_string fs l2sm_finalizer) network) w1)) [
                  | inl (e, w2, e2) ↦ removes x log w2 (remove_failed e w1 w2 e1 e2) (ground arith)
                  | inr (n, w2, e2) ↦ removes x log w2 (removed n w1 w2 e1 e2) (ground arith)
                ]
      ]

  abbrev pub creating : Event
  creating = network_created (payload network.name [])

  -- What the SDN controller answers to the creation.
  abbrev pub created_at : W → Outcome (Option SdnError) × W
  created_at w = d.sdn.create_network network.spec.type (payload network.name []) w

  -- After a creation the status says online, and the finalizer and the empty map of addresses are
  -- written to the network as the server answered it, or to the one in memory if it answered an error;
  -- after a failed creation the status says offline and nothing else is written.
  pub data Creating (w : W) : Flow Reconciled L2Network → List Event → Type 0 where
    create_panicked : (w1 : W) → created_at w ≡ (panicked, w1) → Creating w panic (creating ∷ [])
    create_failed :
        (e : SdnError) (w1 : W)
        → created_at w ≡ (returned (some e), w1)
        → Creating w
            (return (failed (sdn e)))
            (creating ∷ network_status_updated (with_internal offline network) ∷ [])
    finalizer_failed :
        (n : L2Network) (e : ApiError) (w1 w2 w3 : W)
        → created_at w ≡ (returned none, w1)
        → update_controller_status d network online w1 ≡ (n, w2)
        → d.cluster.update_network (initialised n) w2 ≡ (err e, w3)
        → Creating w (return (failed (api e))) (
            creating
            ∷ network_status_updated (with_internal online network)
            ∷ network_updated (initialised n)
            ∷ [])
    created :
        (n stored : L2Network) (w1 w2 w3 : W)
        → created_at w ≡ (returned none, w1)
        → update_controller_status d network online w1 ≡ (n, w2)
        → d.cluster.update_network (initialised n) w2 ≡ (ok stored, w3)
        → Creating w (next stored) (
            creating
            ∷ network_status_updated (with_internal online network)
            ∷ network_updated (initialised n)
            ∷ [])

  abbrev pub Creates : W → List Event → Ended W L2Network → Type 0
  Creates w log (r, (w', log')) = (es : List Event) × (log' ≡ log ++ es) × Creating w r es

  creates :
      {r : Flow Reconciled L2Network} {es : List Event} {v : W} (x : Ended W L2Network)
      (log : List Event) (w : W)
      → Creating v r es
      → x ≡ (r, (w, noted log es))
      → Creates v log x
  creates {es = es} x log w p e = rw e (es, noted-append es log, p)

  -- The network is stored with its finalizer, or that fails.
  finalized :
      (w w1 w2 : W) (n : L2Network) (log : List Event)
      → created_at w ≡ (returned none, w1)
      → update_controller_status d network online w1 ≡ (n, w2)
      → Creates w log (create_in_controller (traced d) network (w, log))
  unfolding create_in_controller update_controller_status
  finalized w w1 w2 n log e1 e2 =
      let x = create_in_controller (traced d) network (w, log) in
      elim (api_cases (d.cluster.update_network (initialised n) w2)) [
        | inl (e, w3, e3) ↦ creates x log w3 (finalizer_failed n e w1 w2 w3 e1 e2 e3) (ground arith)
        | inr (m, w3, e3) ↦ creates x log w3 (created n m w1 w2 w3 e1 e2 e3) (ground arith)
      ]

  -- Whatever the SDN controller and the server answer, the reconciler first creates a new
  -- network at the SDN controller; after a failure it writes the status offline and returns an
  -- error; after a success it writes the status online and then the finalizer with the empty map
  -- of addresses; a panic of the client ends it after the creation.
  pub create_in_controller-Creating :
      (w : W) (log : List Event) → Creates w log (create_in_controller (traced d) network (w, log))
  unfolding create_in_controller update_controller_status
  create_in_controller-Creating w log =
      let x = create_in_controller (traced d) network (w, log) in
      elim (sdn_cases (created_at w)) [
        | inl (w1, e1) ↦ creates x log w1 (create_panicked w1 e1) (ground arith)
        | inr (inl (e, w1, e1)) ↦
            let y = d.cluster.update_network_status (with_internal offline network) w1 in
            creates x log (y.1) (create_failed e w1 e1) (ground arith)
        | inr (inr (w1, e1)) ↦
            let y = update_controller_status d network online w1 in
            finalized w w1 (y.1) (y.0) log e1 refl
      ]
