-- ===== src/Controller/Network/Opened.antt =====
-- The first calls of a reconciliation that creates a network.
use l2s_m.Base.{◌≡◌, refl, append_assoc, ◌∙◌, inl, inr, List, [], ◌∷◌, ◌++◌, arith, ok}
use l2s_m.Base.Effects.{next, return, panic}
use l2s_m.Cases.{sdn_cases, api_cases}
use l2s_m.Api.L2Network.{L2Network, online, offline}
use l2s_m.Cluster.{ControllerError, failed, sdn, api}
use l2s_m.Trace.{Event, noted, noted-append, network_updated, network_status_updated}
use l2s_m.Trace.Plan.{Step, writes_network_status, updates_network, steps}
use l2s_m.Controller.Network.{NetworkDeps, with_internal, initialised, update_controller_status}
use l2s_m.Controller.Network.Reconcile.{create_in_controller}
use l2s_m.Controller.Network.Protocol.{traced, Ended, creating, created_at}
use l2s_m.Controller.Network.Joined.{KeepsSpec}
use l2s_m.Controller.Network.Planned.{creation_plan}

module _ {W : Type 0} where
  -- The network is created and has its finalizer, or an error is returned or the client panics.
  pub data Opens (n : L2Network) (log : List Event) : Ended W L2Network → Type 0 where
    opened :
        (m : L2Network) (w : W) {l : List Event} (es : List Event)
        → m.spec ≡ n.spec
        → steps es ≡ creation_plan
        → l ≡ log ++ es
        → Opens n log (next m, (w, l))
    refused :
        (e : ControllerError) (w : W) {l : List Event} (es : List Event) (rest : List Step)
        → creation_plan ≡ steps es ++ rest
        → l ≡ log ++ es
        → Opens n log (return (failed e), (w, l))
    broken_off :
        (w : W) {l : List Event} (es : List Event) (rest : List Step)
        → creation_plan ≡ steps es ++ rest
        → l ≡ log ++ es
        → Opens n log (panic, (w, l))

  Opens-at :
      {n : L2Network} {x : Ended W L2Network} {log : List Event} (y : Ended W L2Network)
      → x ≡ y
      → Opens n log y
      → Opens n log x
  Opens-at y e p = rw e p

module _ {W : Type 0} (d : NetworkDeps W) (keeps : KeepsSpec d)
    (keeps_updated : (n m : L2Network) (w w' : W)
      → d.cluster.update_network n w ≡ (ok m, w')
      → m.spec ≡ n.spec) where
  kept_status :
      (n m : L2Network) (w w' : W)
      → update_controller_status d n online w ≡ (m, w')
      → m.spec ≡ n.spec
  unfolding update_controller_status
  kept_status n m w w' e =
      elim (api_cases (d.cluster.update_network_status (with_internal online n) w)) [
        | inl (x, w1, e1) ↦ ground arith
        | inr (a, w1, e1) ↦ ground (arith, keeps (with_internal online n) a w w1 e1)
      ]

  -- A new network is created at the SDN controller, its status is written, and then its finalizer.
  pub create_in_controller-Opens :
      (n : L2Network) (w : W) (log : List Event)
      → Opens n log (create_in_controller (traced d) n (w, log))
  unfolding create_in_controller update_controller_status
  create_in_controller-Opens n w log = elim (sdn_cases (created_at d n w)) [
    | inl (w1, e1) ↦
        Opens-at (panic, (w1, log ++ creating d n ∷ [])) (ground arith)
          (broken_off w1 (creating d n ∷ []) (writes_network_status ∷ updates_network ∷ []) refl
            refl)
    | inr (inl (e, w1, e1)) ↦
        let w2 = (d.cluster.update_network_status (with_internal offline n) w1).1 in
        Opens-at
          (
            return (failed (sdn e)),
            (
              w2,
              (log ++ creating d n ∷ []) ++ network_status_updated (with_internal offline n) ∷ [],
            ),
          )
          (ground arith)
          (refused (sdn e) w2 (creating d n ∷ network_status_updated (with_internal offline n) ∷ [])
            (updates_network ∷ []) refl
            (append_assoc log (creating d n ∷ [])
              (network_status_updated (with_internal offline n) ∷ [])))
    | inr (inr (w1, e1)) ↦
        let (m, w2) = update_controller_status d n online w1 in
        let es =
          creating d n
          ∷ network_status_updated (with_internal online n)
          ∷ network_updated (initialised m)
          ∷ [] in
        elim (api_cases (d.cluster.update_network (initialised m) w2)) [
          | inl (e, w3, e3) ↦
              Opens-at (return (failed (api e)), (w3, noted log es)) (ground arith)
                (refused (api e) w3 es [] refl (noted-append es log))
          | inr (a, w3, e3) ↦
              Opens-at (next a, (w3, noted log es)) (ground arith)
                (opened a w3 es
                  (keeps_updated (initialised m) a w2 w3 e3 ∙ kept_status n m w1 w2 refl) refl
                  (noted-append es log))
        ]
  ]
