-- ===== src/Controller/Pod/Detaching.antt =====
-- The calls of the loop over the networks of a pod that is being deleted.
use l2s_m.Base.{
  Bool, true, false, Option, Result, ok, err, ◌≡◌, sym, ap, ◌∙◌, inl, inr, List, [], ◌∷◌, ◌++◌,
  append-nil, append_assoc, Text, codes, arith,
}
use l2s_m.Base.Effects.{Flow, next, return, panic, Outcome, returned, panicked}
use l2s_m.Sdn.{SdnError}
use l2s_m.Annotation.{NetworkAnnotation}
use l2s_m.Utils.Strings.{PortError, get_port_number_from_net_attach_def}
use l2s_m.Api.Meta.{Pod, NetAttachDef}
use l2s_m.Cluster.{ApiError, Reconciled, done}
use l2s_m.Cases.{result_cases, outcome_cases, found_cases, api_cases}
use l2s_m.Trace.{
  noted, noted-append, Event, detached, net_attach_def_updated, traced_client, traced_cluster,
  silent,
}
use l2s_m.Controller.Pod.{
  PodDeps, vnets, port_of, switch_port, in_use_label, free_net_attach_def, detach_ports,
}
use l2s_m.Controller.Networks.{set_label}

abbrev pub traced : {W : Type 0} → PodDeps W → PodDeps (W × List Event)
traced d = record {
  cluster = traced_cluster d.cluster;
  sdn = traced_client d.sdn;
  json = d.json;
  dp = d.dp;
  v6 = d.v6;
  switches_namespace = d.switches_namespace;
  create_event = λ e (w, log). (d.create_event e w, log);
  send_dns_entry = λ s e. silent (d.send_dns_entry s e);
}

-- A loop went through all networks.
abbrev pub went_through : {A : Type 0} → Flow Reconciled A → Bool
went_through (next _) = true
went_through (return _) = false
went_through panic = false

module _ {W : Type 0} (d : PodDeps W) (pod : Pod) where
  -- The label of the attachment definition says that it is free.
  abbrev pub freeing : NetAttachDef → Event
  freeing nad = net_attach_def_updated (set_label (in_use_label d pod) (codes "false") nad)

  abbrev pub detaching : NetworkAnnotation → Text → Event
  detaching n t = detached (port_of n.name (switch_port d pod t))

  -- What the SDN controller and the server answer to the calls for one network.
  abbrev pub detached_at : NetworkAnnotation → Text → W → Outcome (Option SdnError) × W
  detached_at n t w =
      d.sdn.detach_pod_from_network (vnets d) (port_of n.name (switch_port d pod t)) w

  abbrev pub found_at : NetworkAnnotation → W → Result ApiError NetAttachDef × W
  found_at a w =
      d.cluster.get_net_attach_def (record { name = a.name; namespace = d.switches_namespace }) w

  abbrev pub freed_at : NetAttachDef → W → Result ApiError NetAttachDef × W
  freed_at nad w =
      d.cluster.update_net_attach_def (set_label (in_use_label d pod) (codes "false") nad) w

  abbrev pub Number : NetworkAnnotation → Text → Type 0
  Number a t = get_port_number_from_net_attach_def a.name ≡ ok t

  -- The calls of the loop over the networks and their attachments, and how it ends. For each network
  -- the port of its attachment is detached, whatever the answer is; then its attachment definition is
  -- read, and marked as free if it exists. The world is that before the calls.
  pub data Detaching
      : W
        → List NetworkAnnotation
        → List NetworkAnnotation
        → Flow Reconciled (Unit {0})
        → List Event
        → Type 0 where
    finished :
        (w : W) (attachments : List NetworkAnnotation) → Detaching w [] attachments (next tt) []
    no_attachment :
        (w : W) (n : NetworkAnnotation) (networks : List NetworkAnnotation)
        → Detaching w (n ∷ networks) [] panic []
    no_number :
        (w : W) (n a : NetworkAnnotation) (networks attachments : List NetworkAnnotation)
        (e : PortError)
        → get_port_number_from_net_attach_def a.name ≡ err e
        → Detaching w (n ∷ networks) (a ∷ attachments) (return done) []
    detach_panicked :
        (w w1 : W) (n a : NetworkAnnotation) (networks attachments : List NetworkAnnotation)
        (t : Text)
        → Number a t
        → detached_at n t w ≡ (panicked, w1)
        → Detaching w (n ∷ networks) (a ∷ attachments) panic (detaching n t ∷ [])
    not_read :
        (w w1 w2 : W) (n a : NetworkAnnotation) (networks attachments : List NetworkAnnotation)
        (t : Text) (o : Option SdnError)
        → Number a t
        → detached_at n t w ≡ (returned o, w1)
        → found_at a w1 ≡ (err ApiError.other, w2)
        → Detaching w (n ∷ networks) (a ∷ attachments) (return done) (detaching n t ∷ [])
    not_freed :
        (w w1 w2 w3 : W) (n a : NetworkAnnotation) (networks attachments : List NetworkAnnotation)
        (t : Text) (o : Option SdnError) (nad : NetAttachDef) (e : ApiError)
        → Number a t
        → detached_at n t w ≡ (returned o, w1)
        → found_at a w1 ≡ (ok nad, w2)
        → freed_at nad w2 ≡ (err e, w3)
        → Detaching w
            (n ∷ networks)
            (a ∷ attachments)
            (return done)
            (detaching n t ∷ freeing nad ∷ [])
    gone :
        (w w1 w2 : W) (n a : NetworkAnnotation) {networks attachments : List NetworkAnnotation}
        {r : Flow Reconciled (Unit {0})} {es : List Event} (t : Text) (o : Option SdnError)
        → Number a t
        → detached_at n t w ≡ (returned o, w1)
        → found_at a w1 ≡ (err ApiError.not_found, w2)
        → Detaching w2 networks attachments r es
        → Detaching w (n ∷ networks) (a ∷ attachments) r (detaching n t ∷ es)
    freed :
        (w w1 w2 w3 : W) (n a : NetworkAnnotation) {networks attachments : List NetworkAnnotation}
        {r : Flow Reconciled (Unit {0})} {es : List Event} (t : Text) (o : Option SdnError)
        (nad stored : NetAttachDef)
        → Number a t
        → detached_at n t w ≡ (returned o, w1)
        → found_at a w1 ≡ (ok nad, w2)
        → freed_at nad w2 ≡ (ok stored, w3)
        → Detaching w3 networks attachments r es
        → Detaching w (n ∷ networks) (a ∷ attachments) r (detaching n t ∷ freeing nad ∷ es)

  abbrev pub Looped : Type 0
  Looped = Flow Reconciled (Unit {0}) × (W × List Event)

  abbrev pub Detached :
      W → List NetworkAnnotation → List NetworkAnnotation → List Event → Looped → Type 0
  Detached w networks attachments log (r, (w', log')) =
      (es : List Event) × (log' ≡ log ++ es) × Detaching w networks attachments r es

  leaf :
      {networks attachments : List NetworkAnnotation} {es : List Event}
      {r : Flow Reconciled (Unit {0})} {v : W} (x : Looped) (log : List Event) (w : W)
      → Detaching v networks attachments r es
      → x ≡ (r, (w, noted log es))
      → Detached v networks attachments log x
  leaf {es = es} x log w p e = rw e (es, noted-append es log, p)

  go_on :
      (v v' : W) (n a : NetworkAnnotation) (networks attachments : List NetworkAnnotation)
      (es : List Event) (x y : Looped) (log : List Event)
      → ((r : Flow Reconciled (Unit {0})) (later : List Event)
          → Detaching v' networks attachments r later
          → Detaching v (n ∷ networks) (a ∷ attachments) r (es ++ later))
      → Detached v' networks attachments (noted log es) y
      → x ≡ y
      → Detached v (n ∷ networks) (a ∷ attachments) log x
  go_on v v' n a networks attachments es x y log more (later, e, p) same = rw same (
    es ++ later,
    e ∙ ap (λ (l : List Event). l ++ later) (noted-append es log) ∙ append_assoc log es later,
    more _ later p,
  )

  pub detach_ports-Detaching :
      (networks attachments : List NetworkAnnotation) (w : W) (log : List Event)
      → Detached w networks attachments log
          (detach_ports (traced d) pod networks attachments (w, log))
  unfolding detach_ports free_net_attach_def
  detach_ports-Detaching [] attachments w log = ([], sym (append-nil log), finished w attachments)
  detach_ports-Detaching (n ∷ networks) [] w log =
      ([], sym (append-nil log), no_attachment w n networks)
  detach_ports-Detaching (n ∷ networks) (a ∷ attachments) w log =
      let x = detach_ports (traced d) pod (n ∷ networks) (a ∷ attachments) (w, log) in
      elim (result_cases (get_port_number_from_net_attach_def a.name)) [
        | inl (e, q) ↦ leaf x log w (no_number w n a networks attachments e q) (ground arith)
        | inr (t, q) ↦ elim (outcome_cases (detached_at n t w)) [
          | inl (w1, e1) ↦
              leaf x log w1 (detach_panicked w w1 n a networks attachments t q e1) (ground arith)
          | inr (o, w1, e1) ↦ elim (found_cases (found_at a w1)) [
            | inl (w2, e2) ↦
                let log1 = log ++ detaching n t ∷ [] in
                go_on w w2 n a networks attachments (detaching n t ∷ []) x
                  (detach_ports (traced d) pod networks attachments (w2, log1)) log
                  (λ r later p. gone w w1 w2 n a t o q e1 e2 p)
                  (detach_ports-Detaching networks attachments w2 log1) (ground arith)
            | inr (inl (w2, e2)) ↦
                leaf x log w2 (not_read w w1 w2 n a networks attachments t o q e1 e2) (ground arith)
            | inr (inr (nad, w2, e2)) ↦ elim (api_cases (freed_at nad w2)) [
              | inl (e, w3, e3) ↦
                  leaf x log w3 (not_freed w w1 w2 w3 n a networks attachments t o nad e q e1 e2 e3)
                    (ground arith)
              | inr (u, w3, e3) ↦
                  let log3 = (log ++ detaching n t ∷ []) ++ freeing nad ∷ [] in
                  go_on w w3 n a networks attachments (detaching n t ∷ freeing nad ∷ []) x
                    (detach_ports (traced d) pod networks attachments (w3, log3)) log
                    (λ r later p. freed w w1 w2 w3 n a t o nad u q e1 e2 e3 p)
                    (detach_ports-Detaching networks attachments w3 log3) (ground arith)
            ]
          ]
        ]
      ]
