-- ===== src/Monitoring/Ensured.antt =====
-- Which calls `Ensure` makes, and when it succeeds.
use l2s_m.Base.{inl, inr, ◌≡◌, List, [], ◌∷◌, ◌++◌, Option, none, some, Text, arith}
use l2s_m.Base.Effects.{Outcome, returned, panicked}
use l2s_m.Datapath.{Datapath}
use l2s_m.Utils.Naming.{generate_lpm_network_name}
use l2s_m.Api.L2Network.{vnet}
use l2s_m.Sdn.{Client, SdnError}
use l2s_m.Cases.{sdn_cases}
use l2s_m.Trace.{Event, network_created, attached, noted, noted-append, traced_client}
use l2s_m.Monitoring.{
  MonitoringError, not_created, not_attached, ensure, generate_lpm_ports, payload,
}

module _ {W : Type 0} (dp : Datapath) (c : Client W) (name provider : Text) where
  abbrev pub creating : Event
  creating = network_created (payload (generate_lpm_network_name name) [])

  abbrev pub ports : List Text → List Text
  ports nodes = generate_lpm_ports dp nodes provider

  abbrev pub attaching : List Text → Event
  attaching nodes = attached (payload (generate_lpm_network_name name) (ports nodes))

  -- What the SDN controller answers to the creation, and to the attachment of the ports.
  abbrev pub created_at : W → Outcome (Option SdnError) × W
  created_at w = c.create_network vnet (payload (generate_lpm_network_name name) []) w

  abbrev pub attached_at : List Text → W → Outcome (Option SdnError) × W
  attached_at nodes w =
      c.attach_pod_to_network vnet (payload (generate_lpm_network_name name) (ports nodes)) w

  -- The network is created first. Only after a success the ports of the probes are attached by one
  -- call, if there are any nodes, and the answer to it decides about the result.
  pub data Ensuring (w : W)
      : List Text → Outcome (Option MonitoringError) → List Event → Type 0 where
    create_panicked :
        (nodes : List Text) (w1 : W)
        → created_at w ≡ (panicked, w1)
        → Ensuring w nodes panicked (creating ∷ [])
    create_failed :
        (nodes : List Text) (e : SdnError) (w1 : W)
        → created_at w ≡ (returned (some e), w1)
        → Ensuring w nodes (returned (some (not_created e))) (creating ∷ [])
    no_nodes :
        (w1 : W)
        → created_at w ≡ (returned none, w1)
        → Ensuring w [] (returned none) (creating ∷ [])
    attach_panicked :
        (n : Text) (nodes : List Text) (w1 w2 : W)
        → created_at w ≡ (returned none, w1)
        → attached_at (n ∷ nodes) w1 ≡ (panicked, w2)
        → Ensuring w (n ∷ nodes) panicked (creating ∷ attaching (n ∷ nodes) ∷ [])
    attach_failed :
        (n : Text) (nodes : List Text) (e : SdnError) (w1 w2 : W)
        → created_at w ≡ (returned none, w1)
        → attached_at (n ∷ nodes) w1 ≡ (returned (some e), w2)
        → Ensuring w
            (n ∷ nodes)
            (returned (some (not_attached e)))
            (creating ∷ attaching (n ∷ nodes) ∷ [])
    ports_attached :
        (n : Text) (nodes : List Text) (w1 w2 : W)
        → created_at w ≡ (returned none, w1)
        → attached_at (n ∷ nodes) w1 ≡ (returned none, w2)
        → Ensuring w (n ∷ nodes) (returned none) (creating ∷ attaching (n ∷ nodes) ∷ [])

  abbrev pub Ensures :
      W → List Text → List Event → Outcome (Option MonitoringError) × (W × List Event) → Type 0
  Ensures w nodes log (r, (w', log')) =
      (es : List Event) × (log' ≡ log ++ es) × Ensuring w nodes r es

  leaf :
      {nodes : List Text} {r : Outcome (Option MonitoringError)} {es : List Event} {v : W}
      (x : Outcome (Option MonitoringError) × (W × List Event)) (log : List Event) (w : W)
      → Ensuring v nodes r es
      → x ≡ (r, (w, noted log es))
      → Ensures v nodes log x
  leaf {es = es} x log w p e = rw e (es, noted-append es log, p)

  created :
      (nodes : List Text) (w : W) (log : List Event) (w1 : W)
      → created_at w ≡ (returned none, w1)
      → Ensures w nodes log (ensure dp (some (traced_client c)) name provider nodes (w, log))
  unfolding ensure generate_lpm_ports
  created [] w log w1 e1 =
      leaf (ensure dp (some (traced_client c)) name provider [] (w, log)) log w1 (no_nodes w1 e1)
        (ground arith)
  created (n ∷ nodes) w log w1 e1 =
      let x = ensure dp (some (traced_client c)) name provider (n ∷ nodes) (w, log) in
      elim (sdn_cases (attached_at (n ∷ nodes) w1)) [
        | inl (w2, e2) ↦ leaf x log w2 (attach_panicked n nodes w1 w2 e1 e2) (ground arith)
        | inr (inl (e, w2, e2)) ↦ leaf x log w2 (attach_failed n nodes e w1 w2 e1 e2) (ground arith)
        | inr (inr (w2, e2)) ↦ leaf x log w2 (ports_attached n nodes w1 w2 e1 e2) (ground arith)
      ]

  -- Whatever the SDN controller answers, Ensure creates the network first; it stops with the
  -- failure or the panic of the creation, and only after a success it attaches the probe ports
  -- of all nodes by one call, whose answer decides about the result; without nodes it stops
  -- after the creation with success.
  pub ensure-Ensuring :
      (nodes : List Text) (w : W) (log : List Event)
      → Ensures w nodes log (ensure dp (some (traced_client c)) name provider nodes (w, log))
  unfolding ensure generate_lpm_ports
  ensure-Ensuring nodes w log =
      let x = ensure dp (some (traced_client c)) name provider nodes (w, log) in
      elim (sdn_cases (created_at w)) [
        | inl (w1, e1) ↦ leaf x log w1 (create_panicked nodes w1 e1) (ground arith)
        | inr (inl (e, w1, e1)) ↦ leaf x log w1 (create_failed nodes e w1 e1) (ground arith)
        | inr (inr (w1, e1)) ↦ created nodes w log w1 e1
      ]
