-- ===== src/Controller/Webhook/Admitted.antt =====
-- What the webhook writes in one round of its loop, read from the log of its calls.
use l2s_m.Base.{◌≡◌, refl, sym, ap, ◌∙◌, inl, inr, List, [], ◌∷◌, ◌++◌, Text, arith}
use l2s_m.Base.Dict.{Dict}
use l2s_m.Base.Effects.{next}
use l2s_m.Cases.{flow_cases}
use l2s_m.Annotation.{NetworkAnnotation}
use l2s_m.Api.Meta.{Pod, NetAttachDef}
use l2s_m.Api.L2Network.{L2Network}
use l2s_m.Trace.{Event, net_attach_def_updated, network_status_updated, silent, traced_cluster}
use l2s_m.Controller.Networks.{mark_taken}
use l2s_m.Controller.Quarantine.Status.{increment, set_count}
use l2s_m.Controller.Webhook.{
  WebhookDeps, choose_addresses, with_addresses, attach_network, find_network, Response,
}

abbrev pub traced : {W : Type 0} → WebhookDeps W → WebhookDeps (W × List Event)
traced d = record {
  cluster = traced_cluster d.cluster;
  json = d.json;
  v6 = d.v6;
  switches_namespace = d.switches_namespace;
  fuel = d.fuel;
  random = λ n. silent (d.random n);
  random_bits = silent d.random_bits;
}

-- The last event, or the given one.
last_of : Event → List Event → Event
last_of e [] = e
last_of e (f ∷ es) = last_of f es

last_of-append : (d e : Event) (es : List Event) → last_of d (es ++ e ∷ []) ≡ e
unfolding last_of
last_of-append d e [] = refl
last_of-append d e (f ∷ es) = last_of-append f e es

-- The attachment without its addresses.
abbrev pub unaddressed : {W : Type 0} → WebhookDeps W → NetAttachDef → NetworkAnnotation
unaddressed d nad = record {
  name = nad.name;
  namespace = d.switches_namespace;
  ip_addresses = [];
  if_name = [];
}

module _ {W : Type 0} (d : WebhookDeps W) where
  -- What a round of the loop has chosen, and the network that it has written.
  pub record Round (pod : Pod) (annotation : NetworkAnnotation) (nad : NetAttachDef)
      (n n' : L2Network) (m : NetworkAnnotation) : Type 0 where
    pub cidrs : List Text
    pub chosen_network : L2Network
    pub placed : L2Network
    pub w0 : W × List Event
    pub w1 : W × List Event
    pub w2 : W × List Event
    pub chosen : choose_addresses (traced d) n annotation w0 ≡ (next (cidrs, chosen_network), w1)
    pub addressed :
        with_addresses (traced d) pod.name (unaddressed d nad) cidrs chosen_network w1
        ≡ (next (m, placed), w2)
    pub counted : n' ≡ set_count increment placed

  pub attach_network-Round :
      (pod : Pod) (label : Text) (annotation : NetworkAnnotation) (nad taken : NetAttachDef)
      (networks networks' : Dict L2Network) (n' : L2Network) (m : NetworkAnnotation) (w w' : W)
      → attach_network (traced d) pod label annotation nad networks (w, [])
        ≡ (next (m, networks'), (w', net_attach_def_updated taken ∷ network_status_updated n' ∷ []))
      → Round pod annotation nad (find_network networks annotation.name) n' m
  unfolding attach_network last_of
  attach_network-Round pod label annotation nad taken networks networks' n' m w w' h =
      let n = find_network networks annotation.name in
      elim (flow_cases (choose_addresses (traced d) n annotation (w, []))) [
        | inl ((cidrs, network), (w1, l1), e1) ↦
            elim (flow_cases
              (with_addresses (traced d) pod.name (unaddressed d nad) cidrs network (w1, l1))) [
                | inl ((m2, n2), (w2, l2), e2) ↦
                    elim (flow_cases
                      (mark_taken {W = W × List Event} {R = Response} label nad (w2, l2))) [
                        | inl (t, (w3, l3), e3) ↦
                            let written = network_status_updated (set_count increment n2) in
                            let log : List Event =
                              (l3 ++ net_attach_def_updated t ∷ []) ++ written ∷ [] in
                            let same : log
                                ≡ net_attach_def_updated taken ∷ network_status_updated n' ∷ [] =
                              ground arith in
                            let counted : written ≡ network_status_updated n' =
                              sym (
                                last_of-append written written
                                  (l3 ++ net_attach_def_updated t ∷ []))
                              ∙ ap (last_of written) same in
                            record {
                              cidrs = cidrs;
                              chosen_network = network;
                              placed = n2;
                              w0 = (w, []);
                              w1 = (w1, l1);
                              w2 = (w2, l2);
                              chosen = e1;
                              addressed = ground arith;
                              counted = ground arith;
                            }
                        | inr (inl (r, w3, e3)) ↦ ground arith
                        | inr (inr (w3, e3)) ↦ ground arith
                      ]
                | inr (inl (r, w2, e2)) ↦ ground arith
                | inr (inr (w2, e2)) ↦ ground arith
              ]
        | inr (inl (r, w1, e1)) ↦ ground arith
        | inr (inr (w1, e1)) ↦ ground arith
      ]
