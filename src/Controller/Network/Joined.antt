-- ===== src/Controller/Network/Joined.antt =====
-- The calls by which the reconciler joins a network to its provider.
use l2s_m.Base.{
  ◌≡◌, refl, sym, ◌∙◌, append-nil, append_assoc, inl, inr, List, [], ◌∷◌, ◌++◌, Option,
  Option-cases, ok, get_elem?, arith,
}
use l2s_m.Cases.{api_cases}
use l2s_m.Base.Effects.{next, return, panic, Outcome, returned, panicked}
use l2s_m.Api.L2Network.{L2Network, ConnectivityStatus}
use l2s_m.Cluster.{ControllerError, api, failed}
use l2s_m.Dns.{add_server_to_local_core_dns}
use l2s_m.Trace.{Event, network_status_updated}
use l2s_m.Trace.Plan.{Ends-at, Step, writes_network_status, Any, Ends, through, stopped, crashed}
use l2s_m.Controller.Network.{NetworkDeps, inter_domain_reconcile, with_provider}
use l2s_m.Controller.Network.Reconcile.{connect_ned, join_provider}
use l2s_m.Controller.Network.Protocol.{traced, Ended}
use l2s_m.Controller.Network.Silent.{inter_domain_reconcile-Quiet}
use l2s_m.Controller.Network.Device.{ned_plan, connect_ned-Ends}

abbrev pub join_plan : List Step
join_plan = writes_network_status ∷ ned_plan

-- The network is stored with the same spec.
abbrev pub SpecOf : L2Network → L2Network → Type 0
SpecOf n m = m.spec ≡ n.spec

module _ {W : Type 0} (d : NetworkDeps W) where
  -- The spec of an object is not changed by an update of its status.
  abbrev pub KeepsSpec : Type 0
  KeepsSpec =
      (n m : L2Network) (w w' : W)
      → d.cluster.update_network_status n w ≡ (ok m, w')
      → m.spec ≡ n.spec

  with_status :
      (n m : L2Network) (r : ConnectivityStatus × Option ControllerError) (w w1 w2 : W)
      (log : List Event) (y : Ended W (Unit {0}))
      → inter_domain_reconcile (traced d) n (w, log) ≡ (returned r, (w1, log))
      → d.cluster.update_network_status (with_provider (r.0) n) w1 ≡ (ok m, w2)
      → m.spec ≡ n.spec
      → connect_ned (traced d) m (w2, log ++ network_status_updated (with_provider (r.0) n) ∷ [])
        ≡ y
      → Ends Any ned_plan (log ++ network_status_updated (with_provider (r.0) n) ∷ []) y
      → Ends (SpecOf n) join_plan log (join_provider (traced d) n (w, log))
  unfolding join_provider add_server_to_local_core_dns
  with_status n m r w w1 w2 log y e1 e2 k e3 (through u w3 {l} es holds s t) =
      let e = network_status_updated (with_provider (r.0) n) in
      let whole = t ∙ append_assoc log (e ∷ []) es in
      elim (Option-cases m.spec.provider) [
        | inl q ↦ Ends-at (panic, (w3, l)) (ground arith) (crashed w3 (e ∷ es) [] (rw s refl) whole)
        | inr (provider, q) ↦ elim (Option-cases (get_elem? provider.domain 0)) [
          | inl q2 ↦
              Ends-at (panic, (w3, l)) (ground arith) (crashed w3 (e ∷ es) [] (rw s refl) whole)
          | inr (domain, q2) ↦
              let w4 =
                (add_server_to_local_core_dns d.add_server d.lookup_env m.name domain
                  provider.dns_port w3).1 in
              Ends-at (next m, (w4, l)) (ground arith) (through m w4 (e ∷ es) k (rw s refl) whole)
        ]
      ]
  with_status n m r w w1 w2 log y e1 e2 k e3 (stopped u w3 {l} es rest s t) =
      let e = network_status_updated (with_provider (r.0) n) in
      Ends-at (return u, (w3, l)) (ground arith)
        (stopped u w3 (e ∷ es) rest (rw s refl) (t ∙ append_assoc log (e ∷ []) es))
  with_status n m r w w1 w2 log y e1 e2 k e3 (crashed w3 {l} es rest s t) =
      let e = network_status_updated (with_provider (r.0) n) in
      Ends-at (panic, (w3, l)) (ground arith)
        (crashed w3 (e ∷ es) rest (rw s refl) (t ∙ append_assoc log (e ∷ []) es))

  -- The network is joined by writing its status and then by the calls for its device, or less of them.
  pub join_provider-Ends :
      KeepsSpec
      → (n : L2Network) (w : W) (log : List Event)
      → Ends (SpecOf n) join_plan log (join_provider (traced d) n (w, log))
  unfolding join_provider
  join_provider-Ends keeps n w log =
      let (o, w1, e1) = inter_domain_reconcile-Quiet d n w log in asked o w1 e1
    where
      asked :
          (o : Outcome (ConnectivityStatus × Option ControllerError)) (w1 : W)
          → inter_domain_reconcile (traced d) n (w, log) ≡ (o, (w1, log))
          → Ends (SpecOf n) join_plan log (join_provider (traced d) n (w, log))
      asked panicked w1 e1 =
          Ends-at (panic, (w1, log)) (ground arith)
            (crashed w1 [] join_plan refl (sym (append-nil log)))
      asked (returned r) w1 e1 =
          let e = network_status_updated (with_provider (r.0) n) in
          elim (api_cases (d.cluster.update_network_status (with_provider (r.0) n) w1)) [
            | inl (x, w2, e2) ↦
                Ends-at (return (failed (api x)), (w2, log ++ e ∷ [])) (ground arith)
                  (stopped (failed (api x)) w2 (e ∷ []) ned_plan refl refl)
            | inr (m, w2, e2) ↦
                with_status n m r w w1 w2 log (connect_ned (traced d) m (w2, log ++ e ∷ [])) e1 e2
                  (keeps (with_provider (r.0) n) m w1 w2 e2) refl
                  (connect_ned-Ends d m w2 (log ++ e ∷ []))
          ]
