-- ===== src/Controller/Admission.antt =====
-- The webhook and the pod controller together: the ports of a pod that the webhook has patched.
mod Codec
mod Tests
use l2s_m.Base.{
  ℕ, zero, suc, ◌≡◌, refl, sym, ap, ◌∙◌, inl, inr, Bool, Bool-cases, true, false, not, ltb, ◌==◌,
  List, [], ◌∷◌, ◌++◌, map, append_assoc, none, some, Text, text_eq, text_eq_refl, length,
  length-map, Result, ok, err, arith,
}
use l2s_m.Base.Dict
use l2s_m.Base.Effects.{Flow, Outcome, returned}
use l2s_m.Cases.{call_cases, api_cases}
use l2s_m.Annotation.{
  NetworkAnnotation, Json, extract_networks, in_namespace, multus_annotation_to_string,
  l2sm_network_annotation, multus_annotation_key, net_attach_label_prefix,
}
use l2s_m.Annotation.Laws.{extract_networks-marshal}
use l2s_m.Api.Meta.{Pod, NetAttachDef, l2sm_finalizer}
use l2s_m.Api.L2Network.{L2Network}
use l2s_m.Cluster.{Cluster, ApiError, Reconciled}
use l2s_m.Trace.{Event, pod_updated, attached, traced_cluster}
use l2s_m.Controller.Networks.{NetworksError, get_l2networks, get_free_net_attach_defs}
use l2s_m.Controller.Networks.Laws.{get_l2networks_names}
use l2s_m.Controller.Quarantine.Move.{annotate}
use l2s_m.Controller.Pod.{PodDeps, set_finalizers, switch_port, port_of, attach_ports, attach_pod}
use l2s_m.Controller.Pod.Detaching.{traced, went_through}
use l2s_m.Controller.Pod.Attaching.{
  Attaching, finished, no_attachment, no_port, attach_stopped, attached_port, Attached,
  attach_ports-Attaching,
}
use l2s_m.Controller.Webhook.{WebhookDeps, patched, handle}
use l2s_m.Controller.Webhook.InOrder.{first_names, attach_networks_in_order}
use l2s_m.Controller.Webhook.Patched.{Patch, handle-Patch}
use l2s_m.Controller.Pod.Called.{adding, Attaches, Annotated, Keeps, attach_pod-Attaches}

names_in_namespace :
    (ns : Text) (ms : List NetworkAnnotation)
    → map (λ (m : NetworkAnnotation). m.name) (map (in_namespace ns) ms)
      ≡ map (λ (m : NetworkAnnotation). m.name) ms
unfolding in_namespace
names_in_namespace ns [] = refl
names_in_namespace ns (m ∷ ms) = ap (λ (ts : List Text). m.name ∷ ts) (names_in_namespace ns ms)

length-first_names :
    (n : ℕ) (nads : List NetAttachDef)
    → ltb (length nads) n ≡ false
    → length (first_names n nads) ≡ n
length-first_names zero nads h = refl
length-first_names (suc n) [] h = ground arith
length-first_names (suc n) (nad ∷ nads) h = ground (arith, length-first_names n nads)

-- The pod controller's first calls for a pod that the webhook has patched.
module _ {V W : Type 0} (wd : WebhookDeps V) (given : PodDeps W) where
  -- Both read annotations alike, and in one namespace.
  abbrev pub d : PodDeps W
  d = record given { json = wd.json; switches_namespace = wd.switches_namespace }

  -- The networks that an annotation asks for.
  abbrev pub asked_in : Text → List NetworkAnnotation
  asked_in text = extract_networks wd.json text wd.switches_namespace

  -- The networks that the pod asks for, the definitions that were free on its node, and the calls.
  pub record Admits (pod : Pod) (w : W) (log : List Event) : Type 0 where
    pub text : Text
    pub nads : List NetAttachDef
    pub v1 : V
    pub v2 : V
    pub es : List Event
    pub asks : Dict.lookup l2sm_network_annotation pod.annotations ≡ some text
    pub free :
        get_free_net_attach_defs wd.cluster wd.switches_namespace
          (net_attach_label_prefix ++ pod.node_name)
          v1
        ≡ (nads, v2)
    pub enough : ltb (length nads) (length (asked_in text)) ≡ false
    pub calls : (attach_pod (traced d) pod (w, log)).1.1 ≡ log ++ adding d pod ∷ es
    pub attaches : Attaches d pod w (asked_in text) (first_names (length (asked_in text)) nads) es

  Patch-Annotated :
      (pod : Pod)
      → ((ms : List NetworkAnnotation) → wd.json.unmarshal (wd.json.marshal ms) ≡ (ms, true))
      → (p : Patch wd pod)
      → Annotated d pod p.text (asked_in p.text) (first_names (length (asked_in p.text)) p.nads)
  unfolding annotate text_eq
  Patch-Annotated pod decodes p =
      let raw = multus_annotation_to_string wd.json p.multus in
      let named : map (λ (m : NetworkAnnotation). m.name) p.multus
          ≡ first_names (length (asked_in p.text)) p.nads =
        (attach_networks_in_order wd p.pod (net_attach_label_prefix ++ p.pod.node_name)
          (asked_in p.text) p.nads p.networks p.multus p.w2 p.w3 p.looped).1 in
      record {
        raw = raw;
        attachments = map (in_namespace wd.switches_namespace) p.multus;
        asks = rw p.result (
            Dict.lookup-insert multus_annotation_key l2sm_network_annotation raw p.pod.annotations
            ∙ p.asks);
        asked_is = refl;
        has =
            rw p.result (
              Dict.lookup-insert multus_annotation_key multus_annotation_key raw p.pod.annotations);
        contained = rw p.result (
            Dict.contains-insert multus_annotation_key multus_annotation_key raw p.pod.annotations);
        read = extract_networks-marshal wd.json p.multus wd.switches_namespace (decodes p.multus);
        named = names_in_namespace wd.switches_namespace p.multus ∙ named;
        as_many =
            length-map p.multus (in_namespace wd.switches_namespace)
            ∙ (sym (length-map p.multus (λ (m : NetworkAnnotation). m.name))
                ∙ (ap length named
                    ∙ length-first_names (length (asked_in p.text)) p.nads p.enough));
      }

  -- For a pod that the webhook has patched with attachments, where webhook and pod controller
  -- read annotations in one namespace, by a JSON that decodes what it encoded, and the server
  -- keeps annotations and node of the pods that it updates: the block of the pod controller for
  -- a new pod first updates the pod, and behind that it only attaches ports, one by one in the
  -- order of the networks that the pod asks for; the port of a network has the number that is
  -- read from the name of the definition at the same place among those that were free on the
  -- node of the pod, and these were enough. Without a port only if the pod was not updated, a
  -- network was not found, it asks for none, or a name has no number.
  pub handle-Admits :
      (new pod : Pod) (v v' : V) (w : W) (log : List Event)
      → ((ms : List NetworkAnnotation) → wd.json.unmarshal (wd.json.marshal ms) ≡ (ms, true))
      → Keeps d pod
      → handle wd (some new) v ≡ (returned (patched pod), v')
      → Dict.contains multus_annotation_key pod.annotations ≡ true
      → Admits pod w log
  unfolding annotate
  handle-Admits new pod v v' w log decodes keeps h has =
      let p = handle-Patch wd new pod v v' h has in
      let known = Patch-Annotated pod decodes p in
      let (es, calls, attaches) =
        attach_pod-Attaches d pod p.text (asked_in p.text)
          (first_names (length (asked_in p.text)) p.nads) w log keeps known in
      let node : pod.node_name ≡ p.pod.node_name = ap (λ (x : Pod). x.node_name) p.result in
      record {
        text = p.text;
        nads = p.nads;
        v1 = p.w0;
        v2 = p.w1;
        es = es;
        asks = known.asks;
        free = rw node p.free;
        enough = p.enough;
        calls = calls;
        attaches = attaches;
      }
