-- ===== src/Controller/Network/Switch.antt =====
-- The connection of a switch with a network edge device.
use l2s_m.Base.{
  ◌≡◌, ◌⊎◌, refl, inl, inr, List, [], ◌∷◌, ◌++◌, Option, none, some, Text, codes, Result, ok, err,
  arith,
}
use l2s_m.Base.Effects.{Outcome, returned, panicked}
use l2s_m.Annotation.{net_attach_label_prefix}
use l2s_m.Api.Meta.{NetAttachDef}
use l2s_m.Api.Overlay.{overlay_provider}
use l2s_m.Api.L2Network.{raw}
use l2s_m.Sdn.{SdnError}
use l2s_m.Cluster.{ApiError, ControllerError, api, sdn, message}
use l2s_m.Cases.{sdn_cases, api_cases}
use l2s_m.Datapath.{of_port}
use l2s_m.Controller.Pod.{port_of}
use l2s_m.Trace.{noted, noted-append, Event, attached, net_attach_def_updated}
use l2s_m.Controller.Networks.{set_label, mark_taken, get_free_net_attach_defs}
use l2s_m.Controller.Network.{NetworkDeps, connect_internal_switch_to_ned, port_or_empty}
use l2s_m.Controller.Network.Protocol.{traced}

label_cases :
    (nad : NetAttachDef)
    → (nad.labels ≡ []) ⊎ ((l : Text × Text) × (ls : List (Text × Text)) × (nad.labels ≡ l ∷ ls))
label_cases nad = cases nad.labels
  where
    cases :
        (x : List (Text × Text))
        → (x ≡ []) ⊎ ((l : Text × Text) × (ls : List (Text × Text)) × (x ≡ l ∷ ls))
    cases [] = inl refl
    cases (l ∷ ls) = inr (l, ls, refl)

module _ {W : Type 0} (d : NetworkDeps W) (network_name node provider : Text) where
  abbrev pub label : Text
  label = net_attach_label_prefix ++ node

  -- The free attachment definitions of the node, and the world after they were listed.
  abbrev pub listed : W → List NetAttachDef × W
  listed w = get_free_net_attach_defs d.cluster d.switches_namespace label w

  abbrev pub attaching : NetAttachDef → Event
  attaching nad =
      attached (port_of network_name (of_port d.dp node overlay_provider (port_or_empty d nad)))

  abbrev pub taking : NetAttachDef → Event
  taking nad = net_attach_def_updated (set_label label (codes "true") nad)

  abbrev pub Answer : Type 0
  Answer = Outcome (Result ControllerError NetAttachDef)

  -- What the SDN controller answers to the attachment of the first one's port.
  abbrev pub attached_at : NetAttachDef → W → Outcome (Option SdnError) × W
  attached_at nad w =
      d.sdn.attach_pod_to_network (raw (codes "vnets"))
        (port_of network_name (of_port d.dp node overlay_provider (port_or_empty d nad))) w

  -- What the server answers to the mark on it.
  abbrev pub marked_at : NetAttachDef → W → Result ApiError NetAttachDef × W
  marked_at nad w = d.cluster.update_net_attach_def (set_label label (codes "true") nad) w

  -- The first free attachment definition of the node is the one whose port is attached and that is
  -- marked after a success; without labels it cannot be marked. `w` is the world after the listing.
  pub data Connecting (w : W) : List NetAttachDef → Answer → List Event → Type 0 where
    nothing_free : (e : ControllerError) → Connecting w [] (returned (err e)) []
    attach_panicked :
        (nad : NetAttachDef) (nads : List NetAttachDef) (w1 : W)
        → attached_at nad w ≡ (panicked, w1)
        → Connecting w (nad ∷ nads) panicked (attaching nad ∷ [])
    attach_failed :
        (nad : NetAttachDef) (nads : List NetAttachDef) (e : SdnError) (w1 : W)
        → attached_at nad w ≡ (returned (some e), w1)
        → Connecting w (nad ∷ nads) (returned (err (sdn e))) (attaching nad ∷ [])
    unlabelled :
        (nad : NetAttachDef) (nads : List NetAttachDef)
        → nad.labels ≡ []
        → Connecting w (nad ∷ nads) panicked (attaching nad ∷ [])
    mark_failed :
        (nad : NetAttachDef) (nads : List NetAttachDef) (e : ApiError) (w1 w2 : W)
        → attached_at nad w ≡ (returned none, w1)
        → marked_at nad w1 ≡ (err e, w2)
        → Connecting w (nad ∷ nads) (returned (err (api e))) (attaching nad ∷ taking nad ∷ [])
    connected :
        (nad stored : NetAttachDef) (nads : List NetAttachDef) (w1 w2 : W)
        → attached_at nad w ≡ (returned none, w1)
        → marked_at nad w1 ≡ (ok stored, w2)
        → Connecting w (nad ∷ nads) (returned (ok stored)) (attaching nad ∷ taking nad ∷ [])

  abbrev pub Connects : W → List NetAttachDef → List Event → Answer × (W × List Event) → Type 0
  Connects w nads log (r, (w', log')) =
      (es : List Event) × (log' ≡ log ++ es) × Connecting w nads r es

  leaf :
      {nads : List NetAttachDef} {r : Answer} {es : List Event} {v : W}
      (x : Answer × (W × List Event)) (log : List Event) (w : W)
      → Connecting v nads r es
      → x ≡ (r, (w, noted log es))
      → Connects v nads log x
  leaf {es = es} x log w p e = rw e (es, noted-append es log, p)

  no_definition :
      (w w1 : W) (log : List Event)
      → listed w ≡ ([], w1)
      → Connects w1 [] log
          (connect_internal_switch_to_ned (traced d) network_name node provider (w, log))
  unfolding connect_internal_switch_to_ned get_free_net_attach_defs
  no_definition w w1 log e1 =
      leaf (connect_internal_switch_to_ned (traced d) network_name node provider (w, log)) log w1
        (nothing_free (message (codes "no interfaces"))) (ground arith)

  first_definition :
      (w w1 : W) (log : List Event) (nad : NetAttachDef) (nads : List NetAttachDef)
      → listed w ≡ (nad ∷ nads, w1)
      → Connects w1
          (nad ∷ nads)
          log
          (connect_internal_switch_to_ned (traced d) network_name node provider (w, log))
  unfolding connect_internal_switch_to_ned get_free_net_attach_defs mark_taken
  first_definition w w1 log nad nads e1 =
      let x = connect_internal_switch_to_ned (traced d) network_name node provider (w, log) in
      elim (sdn_cases (attached_at nad w1)) [
        | inl (w2, e2) ↦ leaf x log w2 (attach_panicked nad nads w2 e2) (ground arith)
        | inr (inl (e, w2, e2)) ↦ leaf x log w2 (attach_failed nad nads e w2 e2) (ground arith)
        | inr (inr (w2, e2)) ↦ elim (label_cases nad) [
          | inl q ↦ leaf x log w2 (unlabelled nad nads q) (ground arith)
          | inr (l, ls, q) ↦
              elim (api_cases
                (d.cluster.update_net_attach_def (set_label label (codes "true") nad) w2)) [
                  | inl (e, w3, e3) ↦
                      leaf x log w3 (mark_failed nad nads e w2 w3 e2 e3) (ground arith)
                  | inr (m, w3, e3) ↦
                      leaf x log w3 (connected nad m nads w2 w3 e2 e3) (ground arith)
                ]
        ]
      ]

  -- Whatever is answered, ConnectInternalSwitchToNED calls nothing if the node has no free
  -- attachment definition; otherwise it attaches the port of the first one, and only after a
  -- success marks that one as used; it returns a definition only after both.
  pub connect_internal_switch_to_ned-Connecting :
      (w : W) (log : List Event)
      → Connects
          ((listed w).1)
          ((listed w).0)
          log
          (connect_internal_switch_to_ned (traced d) network_name node provider (w, log))
  connect_internal_switch_to_ned-Connecting w log = from (listed w) refl
    where
      from :
          (y : List NetAttachDef × W)
          → listed w ≡ y
          → Connects
              (y.1)
              (y.0)
              log
              (connect_internal_switch_to_ned (traced d) network_name node provider (w, log))
      from ([], w1) e = no_definition w w1 log e
      from (nad ∷ nads, w1) e = first_definition w w1 log nad nads e
