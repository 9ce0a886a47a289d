-- ===== src/Controller/Pod/Released.antt =====
-- In which order the deletion of a pod calls the SDN controller and the server.
use l2s_m.Base.{
  Text, ◌≡◌, sym, ap, ◌∙◌, inl, inr, true, false, Bool-cases, Option-cases, length, ◌==◌, List, [],
  ◌∷◌, ◌++◌, append-nil, append_assoc, none, some, arith,
}
use l2s_m.Base.Dict
use l2s_m.Base.Effects
use l2s_m.Base.Effects.{Act, Flow, next, return, panic, Outcome, returned, panicked}
use l2s_m.Annotation.{
  NetworkAnnotation, extract_networks, l2sm_network_annotation, multus_annotation_key,
}
use l2s_m.Utils.Strings.{remove_string}
use l2s_m.Api.Meta.{Pod, l2sm_finalizer}
use l2s_m.Cluster.{Reconciled, done}
use l2s_m.Cases.{api_cases}
use l2s_m.Trace.{Event, pod_updated}
use l2s_m.Controller.Pod.{detach_ports, release_pod, set_finalizers, PodDeps}
use l2s_m.Controller.Pod.Detaching.{Looped, traced, Detaching, Detached, detach_ports-Detaching}

module _ {W : Type 0} (d : PodDeps W) (pod : Pod) where
  -- The networks and the attachments that the annotations of the pod name.
  abbrev pub networks_of : List NetworkAnnotation
  networks_of =
      extract_networks d.json
        (elim (Dict.lookup l2sm_network_annotation pod.annotations) [ none ↦ [] | some t ↦ t ])
        d.switches_namespace

  abbrev pub attachments_of : Text → List NetworkAnnotation
  attachments_of raw = extract_networks d.json raw d.switches_namespace

  abbrev pub releasing : Event
  releasing = pod_updated (set_finalizers (λ fs. remove_string fs l2sm_finalizer) pod)

  abbrev pub Multus : Text → Type 0
  Multus raw = Dict.lookup multus_annotation_key pod.annotations ≡ some raw

  -- The calls of the whole block and its result: the pod loses its finalizer last, and only after the
  -- loop went through all networks.
  pub data Releasing (w : W) : Flow Reconciled (Unit {0}) → List Event → Type 0 where
    not_attached :
        Dict.lookup multus_annotation_key pod.annotations ≡ none → Releasing w (return done) []
    mismatched :
        (raw : Text)
        → Multus raw
        → (length (attachments_of raw) == length networks_of) ≡ false
        → Releasing w (return done) []
    stopped :
        (raw : Text) (r : Reconciled) {es : List Event}
        → Multus raw
        → (length (attachments_of raw) == length networks_of) ≡ true
        → Detaching d pod w networks_of (attachments_of raw) (return r) es
        → Releasing w (return r) es
    crashed :
        (raw : Text) {es : List Event}
        → Multus raw
        → (length (attachments_of raw) == length networks_of) ≡ true
        → Detaching d pod w networks_of (attachments_of raw) panic es
        → Releasing w panic es
    released :
        (raw : Text) {es : List Event}
        → Multus raw
        → (length (attachments_of raw) == length networks_of) ≡ true
        → Detaching d pod w networks_of (attachments_of raw) (next tt) es
        → Releasing w (return done) (es ++ releasing ∷ [])

  abbrev pub Follows : W → List Event → Looped d pod → Type 0
  Follows w log (r, (w', log')) = (es : List Event) × (log' ≡ log ++ es) × Releasing w r es

  abbrev last_part : Act (W × List Event) Reconciled (Unit {0})
  last_part =
      Effects.◌>>=◌
        (Effects.try
          ((traced d).cluster.update_pod
            (set_finalizers (λ fs. remove_string fs l2sm_finalizer) pod))
          (λ e. done))
        (λ u. Effects.ret done)

  last_part_log :
      (w : W) (log : List Event)
      → (w' : W) × (last_part (w, log) ≡ (return done, (w', log ++ releasing ∷ [])))
  last_part_log w log =
      elim (api_cases
        (d.cluster.update_pod (set_finalizers (λ fs. remove_string fs l2sm_finalizer) pod) w)) [
          | inl (e, w1, q) ↦ (w1, ground arith)
          | inr (u, w1, q) ↦ (w1, ground arith)
        ]

  after_loop :
      (w : W) (log : List Event) (raw : Text) (x : Looped d pod)
      → Multus raw
      → (length (attachments_of raw) == length networks_of) ≡ true
      → Detached d pod w networks_of (attachments_of raw) log x
      → Follows w log (Effects.◌>>◌ (λ _. x) last_part x.1)
  after_loop w log raw (next u, (w1, log1)) m c (es, e, p) =
      let (w2, q) = last_part_log w1 log1 in
      rw q (
        es ++ releasing ∷ [],
        ap (λ (l : List Event). l ++ releasing ∷ []) e ∙ append_assoc log es (releasing ∷ []),
        released raw m c p,
      )
  after_loop w log raw (return r, (w1, log1)) m c (es, e, p) = (es, e, stopped raw r m c p)
  after_loop w log raw (panic, (w1, log1)) m c (es, e, p) = (es, e, crashed raw m c p)

  idle :
      (w : W) (log : List Event) (x : Looped d pod)
      → x ≡ (return done, (w, log))
      → Releasing w (return done) []
      → Follows w log x
  idle w log x e p = rw e ([], sym (append-nil log), p)

  -- Whatever the SDN controller and the server answer, the deletion block of the pod reconciler
  -- calls nothing if the pod has no attachments or not as many as networks. Otherwise, network
  -- by network in the order of the annotation, it detaches the port with the number in the name
  -- of the attachment at the same place, reads the definition of this attachment and, if it
  -- exists, marks it as free; it goes on to the next network after any answer to the detachment,
  -- and only if the definition is not there or was marked. The finalizer is removed last, and
  -- only after the loop went through all networks.
  pub release_pod-Releasing :
      (w : W) (log : List Event) → Follows w log (release_pod (traced d) pod (w, log))
  unfolding release_pod
  release_pod-Releasing w log =
      let x = release_pod (traced d) pod (w, log) in
      elim (Option-cases (Dict.lookup multus_annotation_key pod.annotations)) [
        | inl q ↦ idle w log x (ground arith) (not_attached q)
        | inr (raw, q) ↦ elim (Bool-cases (length (attachments_of raw) == length networks_of)) [
          | inr c ↦ idle w log x (ground arith) (mismatched raw q c)
          | inl c ↦
              let loop = detach_ports (traced d) pod networks_of (attachments_of raw) (w, log) in
              let same : x ≡ Effects.◌>>◌ (λ _. loop) last_part loop.1 = ground arith in
              rw same (
                after_loop w log raw loop q c
                  (detach_ports-Detaching d pod networks_of (attachments_of raw) w log))
        ]
      ]
