-- ===== src/Controller/Pod/Attaching.antt =====
-- The calls of the loop over the networks of a new pod.
use l2s_m.Base.{
  ◌≡◌, refl, sym, ap, ◌∙◌, inl, inr, Bool, true, false, List, [], ◌∷◌, ◌++◌, map, append-nil,
  append_assoc, Text, ok, err, arith, codes, Option-cases, get_elem?,
}
use l2s_m.Base.Effects.{Flow, next, return, panic}
use l2s_m.Annotation.{NetworkAnnotation}
use l2s_m.Utils.Strings.{PortError, get_port_number_from_net_attach_def}
use l2s_m.Api.Meta.{Pod}
use l2s_m.Api.L2Network.{L2Network}
use l2s_m.Cluster.{Reconciled, done, failed, message}
use l2s_m.Cases.{result_cases, sdn_cases, flow_cases}
use l2s_m.Trace.{noted, noted-append, Event, attached}
use l2s_m.Net.Parse.{parse_cidr}
use l2s_m.Dns.{add_dns_entry}
use l2s_m.Controller.Pod.{
  create_dns_entry, PodDeps, vnets, port_of, switch_port, register_pod, attach_ports,
}
use l2s_m.Controller.Pod.Detaching.{traced, went_through}

module _ {W : Type 0} (d : PodDeps W) (pod : Pod) where
  -- The calls of the loop, for the names of networks and attachments: for each network the port is
  -- attached whose number the attachment at the same place has. `true` if it went through all.
  pub data Attaching : List Text → List Text → Bool → List Event → Type 0 where
    finished : (nads : List Text) → Attaching [] nads true []
    no_attachment : (n : Text) (ns : List Text) → Attaching (n ∷ ns) [] false []
    no_port :
        (n a : Text) (ns nads : List Text) (e : PortError)
        → get_port_number_from_net_attach_def a ≡ err e
        → Attaching (n ∷ ns) (a ∷ nads) false []
    attach_stopped :
        (n a t : Text) (ns nads : List Text)
        → get_port_number_from_net_attach_def a ≡ ok t
        → Attaching (n ∷ ns) (a ∷ nads) false (attached (port_of n (switch_port d pod t)) ∷ [])
    attached_port :
        (n a t : Text) {ns nads : List Text} {b : Bool} {es : List Event}
        → get_port_number_from_net_attach_def a ≡ ok t
        → Attaching ns nads b es
        → Attaching (n ∷ ns) (a ∷ nads) b (attached (port_of n (switch_port d pod t)) ∷ es)

  abbrev pub Attached :
      List Text → List Text → List Event → Flow Reconciled (Unit {0}) × (W × List Event) → Type 0
  Attached ns nads log (r, (w', log')) =
      (es : List Event) × (log' ≡ log ++ es) × Attaching ns nads (went_through r) es

  leaf :
      {ns nads : List Text} {es : List Event} {b : Bool}
      (x : Flow Reconciled (Unit {0}) × (W × List Event)) (log : List Event)
      (r : Flow Reconciled (Unit {0})) (w : W)
      → Attaching ns nads b es
      → went_through r ≡ b
      → x ≡ (r, (w, noted log es))
      → Attached ns nads log x
  leaf {ns = ns} {nads = nads} {es = es} x log r w p t e = rw e (es, noted-append es log, rw t p)

  go_on :
      (n a t : Text) (ns nads : List Text) (x y : Flow Reconciled (Unit {0}) × (W × List Event))
      (log : List Event)
      → get_port_number_from_net_attach_def a ≡ ok t
      → Attached ns nads (log ++ attached (port_of n (switch_port d pod t)) ∷ []) y
      → x ≡ y
      → Attached (n ∷ ns) (a ∷ nads) log x
  go_on n a t ns nads x y log q (later, e, p) same = rw same (
    attached (port_of n (switch_port d pod t)) ∷ later,
    e ∙ append_assoc log (attached (port_of n (switch_port d pod t)) ∷ []) later,
    attached_port n a t q p,
  )

  register_pod-log :
      (n : L2Network) (a : NetworkAnnotation) (w : W) (log : List Event)
      → (register_pod (traced d) pod n a (w, log)).1.1 ≡ log
  unfolding register_pod create_dns_entry add_dns_entry
  register_pod-log n a w log = elim (Option-cases n.spec.provider) [
    | inl q ↦ rw (q, register_pod)
    | inr (provider, q) ↦ elim (Option-cases (get_elem? a.ip_addresses 0)) [
      | inl q2 ↦ ground arith
      | inr (cidr, q2) ↦ elim (Option-cases (parse_cidr d.v6 cidr)) [
        | inl q3 ↦ ground arith
        | inr (ip, q3) ↦ ground arith
      ]
    ]
  ]

  register_pod-quiet :
      (n : L2Network) (a : NetworkAnnotation) (w : W) (log : List Event)
      (r : Flow Reconciled (Unit {0})) (w' : W) (log' : List Event)
      → register_pod (traced d) pod n a (w, log) ≡ (r, (w', log'))
      → log' ≡ log
  register_pod-quiet n a w log r w' log' e =
      ap (λ (y : Flow Reconciled (Unit {0}) × (W × List Event)). y.1.1) (sym e)
      ∙ register_pod-log n a w log

  pub attach_ports-Attaching :
      (networks : List L2Network) (attachments : List NetworkAnnotation) (w : W) (log : List Event)
      → Attached
          (map (λ (n : L2Network). n.name) networks)
          (map (λ (a : NetworkAnnotation). a.name) attachments)
          log
          (attach_ports (traced d) pod networks attachments (w, log))
  unfolding attach_ports
  attach_ports-Attaching [] attachments w log =
      ([], sym (append-nil log), finished (map (λ (a : NetworkAnnotation). a.name) attachments))
  attach_ports-Attaching (n ∷ networks) [] w log =
      ([], sym (append-nil log), no_attachment n.name (map (λ (x : L2Network). x.name) networks))
  attach_ports-Attaching (n ∷ networks) (a ∷ attachments) w log =
      let x = attach_ports (traced d) pod (n ∷ networks) (a ∷ attachments) (w, log) in
      let ns = map (λ (x : L2Network). x.name) networks in
      let nads = map (λ (x : NetworkAnnotation). x.name) attachments in
      elim (result_cases (get_port_number_from_net_attach_def a.name)) [
        | inl (e, q) ↦
            leaf x log (return (failed (message (codes "port number")))) w
              (no_port n.name a.name ns nads e q) refl (ground arith)
        | inr (t, q) ↦
            let port = port_of n.name (switch_port d pod t) in
            let log1 = log ++ attached port ∷ [] in
            elim (sdn_cases (d.sdn.attach_pod_to_network (vnets d) port w)) [
              | inl (w1, e1) ↦
                  leaf x log panic w1 (attach_stopped n.name a.name t ns nads q) refl (ground arith)
              | inr (inl (e, w1, e1)) ↦
                  leaf x log (return done) w1 (attach_stopped n.name a.name t ns nads q) refl
                    (ground arith)
              | inr (inr (w1, e1)) ↦
                  let registered = register_pod (traced d) pod n a (w1, log1) in
                  elim (flow_cases registered) [
                    | inl (u, (w2, l2), e2) ↦
                        let quiet = register_pod-quiet n a w1 log1 (next u) w2 l2 e2 in
                        go_on n.name a.name t ns nads x
                          (attach_ports (traced d) pod networks attachments (w2, log1)) log q
                          (attach_ports-Attaching networks attachments w2 log1) (ground arith)
                    | inr (inl (r, (w2, l2), e2)) ↦
                        let quiet = register_pod-quiet n a w1 log1 (return r) w2 l2 e2 in
                        leaf x log (return r) w2 (attach_stopped n.name a.name t ns nads q) refl
                          (ground arith)
                    | inr (inr ((w2, l2), e2)) ↦
                        let quiet = register_pod-quiet n a w1 log1 panic w2 l2 e2 in
                        leaf x log panic w2 (attach_stopped n.name a.name t ns nads q) refl
                          (ground arith)
                  ]
            ]
      ]
