-- ===== src/Controller/Network/Mirror.antt =====
-- The calls of the block that sets up the intrusion detection of a network.
use l2s_m.Base.{
  Result, ◌≡◌, ◌∙◌, refl, sym, inl, inr, List, [], ◌∷◌, ◌++◌, append_assoc, Option, none, some,
  Option-cases, Text, codes, ok, err, arith, ℕ,
}
use l2s_m.Base.Effects.{Flow, next, return, panic, Outcome, returned, panicked}
use l2s_m.Annotation.{generate_ipv6_address, multus_annotation_to_string, net_attach_label_prefix}
use l2s_m.Utils.Strings.{PortError, get_port_number_from_net_attach_def}
use l2s_m.Api.Meta.{NetAttachDef}
use l2s_m.Api.Overlay.{overlay_provider}
use l2s_m.Api.L2Network.{L2Network, IdsRules}
use l2s_m.Api.Resources.{Resource}
use l2s_m.Sdn.{SdnError, VnetPayload}
use l2s_m.Cluster.{ApiError, Reconciled, done, failed, ControllerError, api, sdn, message}
use l2s_m.Cases.{sdn_cases, api_cases, result_cases, flow_cases}
use l2s_m.Datapath.{of_port}
use l2s_m.Ids.{IdsError, generate_external_resources}
use l2s_m.Trace.{noted, noted-append, Event, mirrored, net_attach_def_updated}
use l2s_m.Controller.Networks.{set_label, get_free_net_attach_defs}
use l2s_m.Controller.Network.{NetworkDeps}
use l2s_m.Controller.Network.Reconcile.{create_owned, set_up_ids}
use l2s_m.Controller.Network.Protocol.{traced, Ended}
use l2s_m.Controller.Network.Owning.{Owning, Owns, create_owned-Owning, Owning-return, Owning-panic}

joined :
    (log4 log es : List Event) (first last : Event)
    → log4 ≡ (log ++ first ∷ []) ++ es
    → log4 ++ last ∷ [] ≡ log ++ (first ∷ (es ++ last ∷ []))
joined log4 log es first last l =
    rw (l, append_assoc log (first ∷ []) es) (append_assoc log (first ∷ es) (last ∷ []))

module _ {W : Type 0} (d : NetworkDeps W) (network : L2Network) (rules : IdsRules) where
  abbrev pub mirror_label : Text
  mirror_label = net_attach_label_prefix ++ rules.node

  -- The free attachment definitions of the node of the detection, and the world after they were
  -- listed.
  abbrev pub mirrors : W → List NetAttachDef × W
  mirrors w = get_free_net_attach_defs d.cluster d.switches_namespace mirror_label w

  abbrev pub mirror_payload : Text → VnetPayload
  mirror_payload port = record {
    network_id = network.name;
    port = [];
    mirror_port = of_port d.dp rules.node overlay_provider port;
  }

  abbrev pub mirrored_at : Text → W → Outcome (Option SdnError) × W
  mirrored_at port w = d.sdn.set_up_mirror_port network.spec.type (mirror_payload port) w

  abbrev pub mirroring : Text → Event
  mirroring port = mirrored (mirror_payload port)

  abbrev pub keeping : NetAttachDef → Event
  keeping nad = net_attach_def_updated (set_label mirror_label (codes "true") nad)

  abbrev pub Port : NetAttachDef → Text → Type 0
  Port nad port = get_port_number_from_net_attach_def nad.name ≡ ok port

  -- The annotation of the pod behind the mirror port.
  abbrev pub mirror_annotation : NetAttachDef → ℕ → Text
  mirror_annotation nad bits = multus_annotation_to_string d.json (
      generate_ipv6_address bits
        (record { name = nad.name; namespace = nad.namespace; ip_addresses = []; if_name = [] })
      ∷ [])

  -- What the server answers to the mark on the definition.
  abbrev pub kept_at : NetAttachDef → W → Result ApiError NetAttachDef × W
  kept_at nad w = d.cluster.update_net_attach_def (set_label mirror_label (codes "true") nad) w

  -- `w` is the world after the listing. The port of the first free definition becomes the mirror
  -- port; only after a success the resources are created, and the definition is marked as used
  -- behind them.
  pub data Mirroring (w : W)
      : List NetAttachDef → Flow Reconciled (Unit {0}) → List Event → Type 0 where
    nothing_free : (e : ControllerError) → Mirroring w [] (return (failed e)) []
    no_number :
        (nad : NetAttachDef) (nads : List NetAttachDef) (p : PortError) (e : ControllerError)
        → get_port_number_from_net_attach_def nad.name ≡ err p
        → Mirroring w (nad ∷ nads) (return (failed e)) []
    mirror_panicked :
        (nad : NetAttachDef) (nads : List NetAttachDef) (port : Text) (w1 : W)
        → Port nad port
        → mirrored_at port w ≡ (panicked, w1)
        → Mirroring w (nad ∷ nads) panic (mirroring port ∷ [])
    mirror_failed :
        (nad : NetAttachDef) (nads : List NetAttachDef) (port : Text) (e : SdnError) (w1 : W)
        → Port nad port
        → mirrored_at port w ≡ (returned (some e), w1)
        → Mirroring w (nad ∷ nads) (return (failed (sdn e))) (mirroring port ∷ [])
    not_built :
        (nad : NetAttachDef) (nads : List NetAttachDef) (port : Text) (w1 : W)
        → Port nad port
        → mirrored_at port w ≡ (returned none, w1)
        → network.spec.ids ≡ none
        → Mirroring w (nad ∷ nads) (return done) (mirroring port ∷ [])
    not_owned :
        (nad : NetAttachDef) (nads : List NetAttachDef) (port : Text) (bits : ℕ) (w1 w2 : W)
        (resources : List Resource) (es : List Event) (r : Reconciled)
        → Port nad port
        → mirrored_at port w ≡ (returned none, w1)
        → d.random_bits w1 ≡ (bits, w2)
        → generate_external_resources network (mirror_annotation nad bits) ≡ ok resources
        → r ≡ done
        → Owning d network resources (return r) es
        → Mirroring w (nad ∷ nads) (return r) (mirroring port ∷ es)
    keep_failed :
        (nad : NetAttachDef) (nads : List NetAttachDef) (port : Text) (bits : ℕ) (w1 w2 : W)
        (resources : List Resource) (es : List Event) (e : ApiError) (w3 w4 : W)
        → Port nad port
        → mirrored_at port w ≡ (returned none, w1)
        → d.random_bits w1 ≡ (bits, w2)
        → generate_external_resources network (mirror_annotation nad bits) ≡ ok resources
        → Owning d network resources (next tt) es
        → kept_at nad w3 ≡ (err e, w4)
        → Mirroring w
            (nad ∷ nads)
            (return (failed (api e)))
            (mirroring port ∷ (es ++ keeping nad ∷ []))
    kept :
        (nad : NetAttachDef) (nads : List NetAttachDef) (port : Text) (bits : ℕ) (w1 w2 : W)
        (resources : List Resource) (es : List Event) (stored : NetAttachDef) (w3 w4 : W)
        → Port nad port
        → mirrored_at port w ≡ (returned none, w1)
        → d.random_bits w1 ≡ (bits, w2)
        → generate_external_resources network (mirror_annotation nad bits) ≡ ok resources
        → Owning d network resources (next tt) es
        → kept_at nad w3 ≡ (ok stored, w4)
        → Mirroring w (nad ∷ nads) (next tt) (mirroring port ∷ (es ++ keeping nad ∷ []))

  abbrev pub Mirrors : W → List NetAttachDef → List Event → Ended W (Unit {0}) → Type 0
  Mirrors w nads log (r, (w', log')) =
      (es : List Event) × (log' ≡ log ++ es) × Mirroring w nads r es

  Mirrors-noted :
      {nads : List NetAttachDef} {r : Flow Reconciled (Unit {0})} {es : List Event} {v : W}
      (x : Ended W (Unit {0})) (log : List Event) (w : W)
      → Mirroring v nads r es
      → x ≡ (r, (w, noted log es))
      → Mirrors v nads log x
  Mirrors-noted {es = es} x log w p e = rw e (es, noted-append es log, p)

  Mirrors-logged :
      {nads : List NetAttachDef} {r : Flow Reconciled (Unit {0})} {es log' : List Event} {v : W}
      (x : Ended W (Unit {0})) (log : List Event) (w : W)
      → Mirroring v nads r es
      → log' ≡ log ++ es
      → x ≡ (r, (w, log'))
      → Mirrors v nads log x
  Mirrors-logged {es = es} x log w p q e = rw e (es, q, p)

  owned_from :
      {y : Ended W (Unit {0})} (resources : List Resource) (w : W) (log : List Event)
      → create_owned (traced d) network resources (w, log) ≡ y
      → Owns d network resources log y
  owned_from resources w log e = rw (sym e) (create_owned-Owning d network resources w log)

  not_generated :
      (annotation : Text) (e : IdsError)
      → generate_external_resources network annotation ≡ err e
      → network.spec.ids ≡ none
  unfolding generate_external_resources
  not_generated annotation e q = elim (Option-cases network.spec.ids) [
    | inl n ↦ n
    | inr (r, n) ↦ ground arith
  ]

  with_resources :
      (w w1 w2 w3 : W) (log : List Event) (nad : NetAttachDef) (nads : List NetAttachDef)
      (port : Text) (bits : ℕ) (resources : List Resource)
      → mirrors w ≡ (nad ∷ nads, w1)
      → Port nad port
      → mirrored_at port w1 ≡ (returned none, w2)
      → d.random_bits w2 ≡ (bits, w3)
      → generate_external_resources network (mirror_annotation nad bits) ≡ ok resources
      → Mirrors w1 (nad ∷ nads) log (set_up_ids (traced d) network rules (w, log))
  unfolding set_up_ids get_free_net_attach_defs
  with_resources w w1 w2 w3 log nad nads port bits resources e1 p e2 e3 q =
      let x = set_up_ids (traced d) network rules (w, log) in
      let log1 = log ++ mirroring port ∷ [] in
      let a = mirror_annotation nad bits in
      elim (flow_cases (create_owned (traced d) network resources (w3, log1))) [
        | inl (u, (w4, log4), e4) ↦
            let (es, l, own) = owned_from resources w3 log1 e4 in
            elim (api_cases
              (d.cluster.update_net_attach_def (set_label mirror_label (codes "true") nad) w4)) [
                | inl (e, w5, e5) ↦
                    Mirrors-logged x log w5
                      (keep_failed nad nads port bits w2 w3 resources es e w4 w5 p e2 e3 q own e5)
                      (joined log4 log es (mirroring port) (keeping nad) l) (ground arith)
                | inr (m, w5, e5) ↦
                    Mirrors-logged x log w5
                      (kept nad nads port bits w2 w3 resources es m w4 w5 p e2 e3 q own e5)
                      (joined log4 log es (mirroring port) (keeping nad) l) (ground arith)
              ]
        | inr (inl (r, (w4, log4), e4)) ↦
            let (es, l, own) = owned_from resources w3 log1 e4 in
            Mirrors-logged x log w4
              (not_owned nad nads port bits w2 w3 resources es r p e2 e3 q
                (Owning-return d network own) own)
              (l ∙ append_assoc log (mirroring port ∷ []) es) (ground arith)
        | inr (inr ((w4, log4), e4)) ↦
            let (es, l, own) = owned_from resources w3 log1 e4 in
            elim (Owning-panic d network own) [ ]
      ]

  set_up_ids-from :
      (w w1 : W) (log : List Event) (nad : NetAttachDef) (nads : List NetAttachDef)
      → mirrors w ≡ (nad ∷ nads, w1)
      → Mirrors w1 (nad ∷ nads) log (set_up_ids (traced d) network rules (w, log))
  unfolding set_up_ids get_free_net_attach_defs
  set_up_ids-from w w1 log nad nads e1 =
      let x = set_up_ids (traced d) network rules (w, log) in
      elim (result_cases (get_port_number_from_net_attach_def nad.name)) [
        | inl (e, q) ↦
            Mirrors-noted x log w1 (no_number nad nads e (message (codes "port number")) q)
              (ground arith)
        | inr (port, q) ↦ elim (sdn_cases (mirrored_at port w1)) [
          | inl (w2, e2) ↦
              Mirrors-noted x log w2 (mirror_panicked nad nads port w2 q e2) (ground arith)
          | inr (inl (e, w2, e2)) ↦
              Mirrors-noted x log w2 (mirror_failed nad nads port e w2 q e2) (ground arith)
          | inr (inr (w2, e2)) ↦
              elim (result_cases (
                generate_external_resources network
                  (mirror_annotation nad ((d.random_bits w2).0)))) [
                    | inl (e, n) ↦
                        Mirrors-noted x log ((d.random_bits w2).1)
                          (not_built nad nads port w2 q e2
                            (not_generated (mirror_annotation nad ((d.random_bits w2).0)) e n))
                          (ground arith)
                    | inr (resources, n) ↦
                        with_resources w w1 w2 ((d.random_bits w2).1) log nad nads port
                          ((d.random_bits w2).0) resources e1 q e2 refl n
                  ]
        ]
      ]

  nothing_to_mirror :
      (w w1 : W) (log : List Event)
      → mirrors w ≡ ([], w1)
      → Mirrors w1 [] log (set_up_ids (traced d) network rules (w, log))
  unfolding set_up_ids get_free_net_attach_defs
  nothing_to_mirror w w1 log e1 =
      Mirrors-noted (set_up_ids (traced d) network rules (w, log)) log w1
        (nothing_free (message (codes "no interfaces"))) (ground arith)

  -- Whatever is answered, the block for intrusion detection calls nothing and fails if its node
  -- has no free attachment definition or the name of the first one has no port number; otherwise
  -- the port of the first one is made the mirror port. Only after a success the resources are
  -- built for the pod behind that port and created in their order, each with its owner set; a
  -- failure to set it up is returned, and resources that cannot be built, or one that gets no
  -- owner, end the reconciliation without an error. The definition is marked as used last, and
  -- the block goes on only after a mark that succeeded.
  pub set_up_ids-Mirroring :
      (w : W) (log : List Event)
      → Mirrors ((mirrors w).1) ((mirrors w).0) log (set_up_ids (traced d) network rules (w, log))
  set_up_ids-Mirroring w log = from (mirrors w) refl
    where
      from :
          (y : List NetAttachDef × W)
          → mirrors w ≡ y
          → Mirrors (y.1) (y.0) log (set_up_ids (traced d) network rules (w, log))
      from ([], w1) e = nothing_to_mirror w w1 log e
      from (nad ∷ nads, w1) e = set_up_ids-from w w1 log nad nads e
