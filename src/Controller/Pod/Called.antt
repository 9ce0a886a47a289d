-- ===== src/Controller/Pod/Called.antt =====
-- The calls of the pod controller for a new pod whose attachments are known.
use l2s_m.Base.{
  ◌≡◌, ap, ◌∙◌, inl, inr, Bool, true, List, [], ◌∷◌, ◌++◌, map, append_assoc, some, Text, length,
  Result, ok, err, arith,
}
use l2s_m.Base.Dict
use l2s_m.Base.Effects.{Flow}
use l2s_m.Cases.{call_cases, api_cases}
use l2s_m.Annotation.{
  NetworkAnnotation, extract_networks, l2sm_network_annotation, multus_annotation_key,
}
use l2s_m.Api.Meta.{Pod, l2sm_finalizer}
use l2s_m.Api.L2Network.{L2Network}
use l2s_m.Cluster.{Cluster, ApiError, Reconciled}
use l2s_m.Trace.{Event, pod_updated, traced_cluster}
use l2s_m.Controller.Networks.{NetworksError, get_l2networks}
use l2s_m.Controller.Networks.Laws.{get_l2networks_names}
use l2s_m.Controller.Pod.{PodDeps, set_finalizers, attach_ports, attach_pod}
use l2s_m.Controller.Pod.Detaching.{traced, went_through}
use l2s_m.Controller.Pod.Attaching.{
  Attaching, finished, no_attachment, no_port, attach_stopped, attached_port,
  attach_ports-Attaching,
}

get_l2networks-traced :
    {W : Type 0} (c : Cluster W) (ns : List NetworkAnnotation) (w : W) (log : List Event)
    → get_l2networks (traced_cluster c) ns (w, log)
      ≡ ((get_l2networks c ns w).0, ((get_l2networks c ns w).1, log))
unfolding get_l2networks
get_l2networks-traced c ns w log = elim (api_cases (c.list_networks w)) [
  | inl (e, w1, q) ↦ ground arith
  | inr (all, w1, q) ↦ ground arith
]

-- Only the node of the pod plays a part.
Attaching-node :
    {W : Type 0} (d : PodDeps W) (p q : Pod) {ns nads : List Text} {b : Bool} {es : List Event}
    → p.node_name ≡ q.node_name
    → Attaching d p ns nads b es
    → Attaching d q ns nads b es
Attaching-node d p q h (finished nads) = finished nads
Attaching-node d p q h (no_attachment n ns) = no_attachment n ns
Attaching-node d p q h (no_port n a ns nads e x) = no_port n a ns nads e x
Attaching-node d p q h (attach_stopped n a t ns nads x) = rw h (attach_stopped n a t ns nads x)
Attaching-node d p q h (attached_port n a t x more) =
    rw h (attached_port n a t x (Attaching-node d p q h more))

module _ {W : Type 0} (d : PodDeps W) (pod : Pod) where
  abbrev pub adding : Event
  adding = pod_updated (set_finalizers (λ fs. fs ++ l2sm_finalizer ∷ []) pod)

  abbrev pub updated_at : W → Result ApiError Pod × W
  updated_at w = d.cluster.update_pod (set_finalizers (λ fs. fs ++ l2sm_finalizer ∷ []) pod) w

  -- The calls behind the update of the pod: the ports are attached one by one, or nothing is called where
  -- the pod was not updated or a network was not found.
  pub data Attaches (w : W) (asked : List NetworkAnnotation) (nads : List Text)
      : List Event → Type 0 where
    not_updated : (e : ApiError) (w1 : W) → updated_at w ≡ (err e, w1) → Attaches w asked nads []
    not_found :
        (pod1 : Pod) (e : NetworksError) (w1 w2 : W)
        → updated_at w ≡ (ok pod1, w1)
        → get_l2networks d.cluster asked w1 ≡ (err e, w2)
        → Attaches w asked nads []
    attaching :
        (pod1 : Pod) (found : List L2Network) (w1 w2 : W) (b : Bool) {es : List Event}
        → updated_at w ≡ (ok pod1, w1)
        → get_l2networks d.cluster asked w1 ≡ (ok found, w2)
        → Attaching d pod (map (λ (n : NetworkAnnotation). n.name) asked) nads b es
        → Attaches w asked nads es

  -- What is known of the pod: the networks that it asks for, and its attachments.
  pub record Annotated (text : Text) (asked : List NetworkAnnotation) (nads : List Text)
      : Type 0 where
    pub raw : Text
    pub attachments : List NetworkAnnotation
    pub asks : Dict.lookup l2sm_network_annotation pod.annotations ≡ some text
    pub asked_is : extract_networks d.json text d.switches_namespace ≡ asked
    pub has : Dict.lookup multus_annotation_key pod.annotations ≡ some raw
    pub contained : Dict.contains multus_annotation_key pod.annotations ≡ true
    pub read : extract_networks d.json raw d.switches_namespace ≡ attachments
    pub named : map (λ (a : NetworkAnnotation). a.name) attachments ≡ nads
    pub as_many : length attachments ≡ length asked

  -- The server answers an update with a pod of the same annotations and the same node.
  abbrev pub Keeps : Type 0
  Keeps =
      (p q : Pod) (w w' : W)
      → d.cluster.update_pod p w ≡ (ok q, w')
      → (q.annotations ≡ p.annotations) × (q.node_name ≡ p.node_name)

  pub attach_pod-Attaches :
      (text : Text) (asked : List NetworkAnnotation) (nads : List Text) (w : W) (log : List Event)
      → Keeps
      → Annotated text asked nads
      → (es : List Event) × ((attach_pod (traced d) pod (w, log)).1.1 ≡ log ++ adding ∷ es)
        × Attaches w asked nads es
  unfolding attach_pod
  attach_pod-Attaches text asked nads w log keeps a = elim (api_cases (updated_at w)) [
    | inl (e, w1, q) ↦ ([], ground arith, not_updated e w1 q)
    | inr (pod1, w1, q) ↦
        let (same, node) =
          keeps (set_finalizers (λ fs. fs ++ l2sm_finalizer ∷ []) pod) pod1 w w1 q in
        let log1 = log ++ adding ∷ [] in
        let asks1 : Dict.lookup l2sm_network_annotation pod1.annotations ≡ some text =
          rw same a.asks in
        let has1 : Dict.lookup multus_annotation_key pod1.annotations ≡ some a.raw =
          rw same a.has in
        let contained1 : Dict.contains multus_annotation_key pod1.annotations ≡ true =
          rw same a.contained in
        let listed = get_l2networks-traced d.cluster asked w1 log1 in
        let asked_is = a.asked_is in
        let read = a.read in
        elim (call_cases (get_l2networks d.cluster asked w1)) [
          | inl (e, w2, q2) ↦
              let got : get_l2networks (traced_cluster d.cluster) asked (w1, log1)
                  ≡ (err e, (w2, log1)) =
                rw q2 at listed in
              ([], ground arith, not_found pod1 e w1 w2 q q2)
          | inr (found, w2, q2) ↦
              let got : get_l2networks (traced_cluster d.cluster) asked (w1, log1)
                  ≡ (ok found, (w2, log1)) =
                rw q2 at listed in
              let as_many = a.as_many in
              let loop = attach_ports (traced d) pod1 found a.attachments (w2, log1) in
              let (es, e, p) = attach_ports-Attaching d pod1 found a.attachments w2 log1 in
              let same_loop : attach_pod (traced d) pod (w, log) ≡ loop = ground arith in
              (
                es,
                ap (λ (y : Flow Reconciled (Unit {0}) × (W × List Event)). y.1.1) same_loop
                    ∙ e
                    ∙ append_assoc log (adding ∷ []) es,
                attaching pod1 found w1 w2 (went_through loop.0) q q2 (
                    rw (← a.named) (
                      rw (← get_l2networks_names d.cluster asked w1 w2 found q2)
                        (Attaching-node d pod1 pod node p))),
              )
        ]
  ]
