-- ===== src/Controller/Network/Device.antt =====
-- The calls by which the reconciler connects a network with the device of its provider.
use l2s_m.Base.{
  ◌≡◌, refl, sym, append-nil, inl, inr, List, [], ◌∷◌, ◌++◌, Option, none, some, Option-cases, Text,
  codes, Result, ok, err, arith,
}
use l2s_m.Cases.{result_cases}
use l2s_m.Utils.Strings.{get_port_number_from_net_attach_def}
use l2s_m.Base.Effects.{next, return, panic, Outcome, returned, panicked}
use l2s_m.Api.Meta.{NetAttachDef}
use l2s_m.Api.Ned.{NodeConfigSpec, NetworkEdgeDevice}
use l2s_m.Api.L2Network.{L2Network}
use l2s_m.Api.Provider.{ProviderSpec}
use l2s_m.Cluster.{api, Reconciled, done, ControllerError, sdn, failed, message}
use l2s_m.Trace.{Event}
use l2s_m.Trace.Plan.{
  Ends-at, Step, attaches_port, updates_definition, steps, Any, Ends, through, stopped, crashed,
}
use l2s_m.Controller.Network.{
  NetworkDeps, NedError, get_network_edge_device, create_new_ned_connection,
  connect_internal_switch_to_ned,
}
use l2s_m.Controller.Network.Reconcile.{connect_ned}
use l2s_m.Controller.Network.Protocol.{traced}
use l2s_m.Controller.Network.Switch.{
  Connecting, nothing_free, attach_panicked, attach_failed, unlabelled, mark_failed, connected,
  connect_internal_switch_to_ned-Connecting,
}
use l2s_m.Controller.Network.Silent.{get_network_edge_device-Quiet, create_new_ned_connection-Quiet}

-- The calls for the device of a provider.
abbrev pub ned_plan : List Step
ned_plan = attaches_port ∷ updates_definition ∷ []

module _ {W : Type 0} (d : NetworkDeps W) where
  -- The port is attached and the definition marked, or an error or a panic comes before.
  data Attached (log : List Event)
      : Outcome (Result ControllerError NetAttachDef) × (W × List Event) → Type 0 where
    both :
        (nad : NetAttachDef) (w : W) {l : List Event} (es : List Event)
        → steps es ≡ ned_plan
        → l ≡ log ++ es
        → Attached log (returned (ok nad), (w, l))
    not_both :
        (e : ControllerError) (w : W) {l : List Event} (es : List Event) (rest : List Step)
        → ned_plan ≡ steps es ++ rest
        → l ≡ log ++ es
        → Attached log (returned (err e), (w, l))
    no_labels :
        (w : W) {l : List Event} (es : List Event) (rest : List Step)
        → ned_plan ≡ steps es ++ rest
        → l ≡ log ++ es
        → Attached log (panicked, (w, l))

  Connecting-Attached :
      {network_name node provider : Text} {v : W} {nads : List NetAttachDef}
      {r : Outcome (Result ControllerError NetAttachDef)} {w : W} {log l es : List Event}
      → l ≡ log ++ es
      → Connecting d network_name node provider v nads r es
      → Attached log (r, (w, l))
  Connecting-Attached l (nothing_free e) = not_both e _ [] ned_plan refl l
  Connecting-Attached {es = es} l (attach_panicked nad nads w1 e1) =
      no_labels _ es (updates_definition ∷ []) refl l
  Connecting-Attached {es = es} l (attach_failed nad nads e w1 e1) =
      not_both (sdn e) _ es (updates_definition ∷ []) refl l
  Connecting-Attached {es = es} l (unlabelled nad nads q) =
      no_labels _ es (updates_definition ∷ []) refl l
  Connecting-Attached {es = es} l (mark_failed nad nads e w1 w2 e1 e2) =
      not_both (api e) _ es [] refl l
  Connecting-Attached {es = es} l (connected nad stored nads w1 w2 e1 e2) = both stored _ es refl l

  -- The call of ConnectInternalSwitchToNED, for a log.
  abbrev connecting :
      Text
      → Text
      → Text
      → W
      → List Event
      → Outcome (Result ControllerError NetAttachDef) × (W × List Event)
  connecting network_name node provider w log =
      connect_internal_switch_to_ned (traced d) network_name node provider (w, log)

  connecting-Attached :
      (network_name node provider : Text) (w : W) (log : List Event)
      → Attached log (connecting network_name node provider w log)
  connecting-Attached network_name node provider w log =
      let (es, l, p) =
        connect_internal_switch_to_ned-Connecting d network_name node provider w log in
      Connecting-Attached l p

  -- What the block has done is what its call of ConnectInternalSwitchToNED has done.
  with_device :
      (network : L2Network) (provider ned_provider : ProviderSpec) (ned : NetworkEdgeDevice)
      (node_config : NodeConfigSpec) (w w1 : W) (log : List Event)
      (y : Outcome (Result ControllerError NetAttachDef) × (W × List Event))
      → network.spec.provider ≡ some provider
      → get_network_edge_device (traced d).cluster provider.name (w, log)
        ≡ (returned (ok ned), (w1, log))
      → ned.spec.node_config ≡ some node_config
      → ned.spec.provider ≡ some ned_provider
      → connecting network.name node_config.node_name ned_provider.name w1 log ≡ y
      → Attached log y
      → Ends Any ned_plan log (connect_ned (traced d) network (w, log))
  unfolding connect_ned
  with_device network provider ned_provider ned node_config w w1 log y q e1 q1 q2 e2
        (both nad w2 {l} es s t) =
      elim (result_cases (get_port_number_from_net_attach_def nad.name)) [
        | inl (e, q3) ↦
            Ends-at (return (failed (message (codes "port number"))), (w2, l)) (ground arith)
              (stopped (failed (message (codes "port number"))) w2 es [] (rw s refl) t)
        | inr (port, q3) ↦
            let (o, w3, e3) =
              create_new_ned_connection-Quiet d network (codes "br" ++ port) ned w2 l in
            from port q3 o w3 e3
      ]
    where
      from :
          (port : Text)
          → get_port_number_from_net_attach_def nad.name ≡ ok port
          → (o : Outcome (Option ControllerError)) (w3 : W)
          → create_new_ned_connection (traced d) network (codes "br" ++ port) ned (w2, l)
            ≡ (o, (w3, l))
          → Ends Any ned_plan log (connect_ned (traced d) network (w, log))
      from port q3 panicked w3 e3 =
          Ends-at (panic, (w3, l)) (ground arith) (crashed w3 es [] (rw s refl) t)
      from port q3 (returned (some e)) w3 e3 =
          Ends-at (return done, (w3, l)) (ground arith) (stopped done w3 es [] (rw s refl) t)
      from port q3 (returned none) w3 e3 =
          Ends-at (next tt, (w3, l)) (ground arith) (through tt w3 es tt s t)
  with_device network provider ned_provider ned node_config w w1 log y q e1 q1 q2 e2
        (not_both e w2 {l} es rest s t) =
      Ends-at (return done, (w2, l)) (ground arith) (stopped done w2 es rest s t)
  with_device network provider ned_provider ned node_config w w1 log y q e1 q1 q2 e2
        (no_labels w2 {l} es rest s t) =
      Ends-at (panic, (w2, l)) (ground arith) (crashed w2 es rest s t)

  -- Nothing was called yet.
  early_return :
      (w : W) (log : List Event) → Ends {A = Unit {0}} Any ned_plan log (return done, (w, log))
  early_return w log = stopped done w [] ned_plan refl (sym (append-nil log))

  early_panic :
      (w : W) (log : List Event)
      → Ends {R = Reconciled} {A = Unit {0}} Any ned_plan log (panic, (w, log))
  early_panic w log = crashed w [] ned_plan refl (sym (append-nil log))

  -- The block for the device attaches a port at the cluster's switch and then marks its definition,
  -- or ends before.
  pub connect_ned-Ends :
      (network : L2Network) (w : W) (log : List Event)
      → Ends Any ned_plan log (connect_ned (traced d) network (w, log))
  unfolding connect_ned
  connect_ned-Ends network w log = elim (Option-cases network.spec.provider) [
    | inl q ↦ Ends-at (panic, (w, log)) (ground arith) (early_panic w log)
    | inr (provider, q) ↦
        let (o, w1, e1) = get_network_edge_device-Quiet d provider.name w log in
        found provider q o w1 e1
  ]
    where
      found :
          (provider : ProviderSpec)
          → network.spec.provider ≡ some provider
          → (o : Outcome (Result NedError NetworkEdgeDevice)) (w1 : W)
          → get_network_edge_device (traced d).cluster provider.name (w, log) ≡ (o, (w1, log))
          → Ends Any ned_plan log (connect_ned (traced d) network (w, log))
      found provider q panicked w1 e1 =
          Ends-at (panic, (w1, log)) (ground arith) (early_panic w1 log)
      found provider q (returned (err e)) w1 e1 =
          Ends-at (return done, (w1, log)) (ground arith) (early_return w1 log)
      found provider q (returned (ok ned)) w1 e1 = elim (Option-cases ned.spec.node_config) [
        | inl q1 ↦ Ends-at (panic, (w1, log)) (ground arith) (early_panic w1 log)
        | inr (node_config, q1) ↦ elim (Option-cases ned.spec.provider) [
          | inl q2 ↦ Ends-at (panic, (w1, log)) (ground arith) (early_panic w1 log)
          | inr (ned_provider, q2) ↦
              with_device network provider ned_provider ned node_config w w1 log
                (connecting network.name node_config.node_name ned_provider.name w1 log) q e1 q1 q2
                refl
                (connecting-Attached network.name node_config.node_name ned_provider.name w1 log)
        ]
      ]
