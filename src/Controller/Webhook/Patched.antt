-- ===== src/Controller/Webhook/Patched.antt =====
-- What has happened where the webhook answers with a pod that has attachments.
use l2s_m.Base.{
  ◌≡◌, refl, sym, ap, ◌∙◌, inl, inr, Bool-cases, Option-cases, true, false, ltb, List, [], ◌∷◌,
  ◌++◌, some, Text, codes, text_eq, length, is_empty, get_elem?, ◌==◌, arith,
}
use l2s_m.Base.Dict
use l2s_m.Base.Dict.{Dict}
use l2s_m.Base.Effects.{next, return, returned}
use l2s_m.Cases.{flow_cases, api_cases}
use l2s_m.Annotation.{
  NetworkAnnotation, extract_networks, multus_annotation_to_string, l2sm_network_annotation,
  multus_annotation_key, net_attach_label_prefix,
}
use l2s_m.Api.Meta.{Pod, NetAttachDef}
use l2s_m.Api.L2Network.{L2Network}
use l2s_m.Controller.Networks.{mark_taken, get_l2networks_map, get_free_net_attach_defs}
use l2s_m.Controller.ErrorEvent.{error_annotation}
use l2s_m.Controller.Quarantine.Move.{annotate}
use l2s_m.Controller.Webhook.{
  WebhookDeps, Response, errored, hangs, patched, choose_node, choose_addresses, with_addresses,
  attach_network, find_network, attach_networks, handle,
}

multus-annotate_error :
    (t : Text) (pod : Pod)
    → Dict.contains multus_annotation_key (annotate error_annotation t pod).annotations
      ≡ Dict.contains multus_annotation_key pod.annotations
unfolding annotate text_eq
multus-annotate_error t pod =
    Dict.contains-insert error_annotation multus_annotation_key t pod.annotations

module _ {W : Type 0} (d : WebhookDeps W) where
  -- The pod on its node, the networks that it asks for, the free attachment definitions of the node, and
  -- the attachments that the loop has made.
  pub record Patch (pod' : Pod) : Type 0 where
    pub pod : Pod
    pub text : Text
    pub nads : List NetAttachDef
    pub networks : Dict L2Network
    pub multus : List NetworkAnnotation
    pub w0 : W
    pub w1 : W
    pub w2 : W
    pub w3 : W
    pub asks : Dict.lookup l2sm_network_annotation pod.annotations ≡ some text
    pub free :
        get_free_net_attach_defs d.cluster d.switches_namespace
          (net_attach_label_prefix ++ pod.node_name)
          w0
        ≡ (nads, w1)
    pub enough :
        ltb (length nads) (length (extract_networks d.json text d.switches_namespace)) ≡ false
    pub looped :
        attach_networks d pod
          (net_attach_label_prefix ++ pod.node_name)
          (extract_networks d.json text d.switches_namespace)
          nads
          networks
          w2
        ≡ (next multus, w3)
    pub result :
        pod' ≡ annotate multus_annotation_key (multus_annotation_to_string d.json multus) pod

  -- A node is chosen, or the answer is an error.
  choose_node-return :
      (new : Pod) (w w' : W) (r : Response) → choose_node d new w ≡ (return r, w') → r ≡ errored
  unfolding choose_node
  choose_node-return new w w' r h = elim (Bool-cases (is_empty new.node_name)) [
    | inr q ↦ ground arith
    | inl q ↦ elim (api_cases (d.cluster.list_nodes w)) [
      | inl (e, w1, e1) ↦ ground arith
      | inr (nodes, w1, e1) ↦ elim (Bool-cases (length nodes == 0)) [
        | inl q2 ↦ ground arith
        | inr q2 ↦ elim (Option-cases (get_elem? nodes (d.random (length nodes) w1).0)) [
          | inl q3 ↦ ground arith
          | inr (node, q3) ↦ ground arith
        ]
      ]
    ]
  ]

  choose_addresses-return :
      (n : L2Network) (annotation : NetworkAnnotation) (w w' : W) (r : Response)
      → choose_addresses d n annotation w ≡ (return r, w')
      → r ≡ hangs
  unfolding choose_addresses
  choose_addresses-return n annotation w w' r h = ground arith

  with_addresses-return :
      (pod_name : Text) (m : NetworkAnnotation) (cidrs : List Text) (n : L2Network) (w w' : W)
      (r : Response)
      → with_addresses d pod_name m cidrs n w ≡ (return r, w')
      → r ≡ hangs
  unfolding with_addresses
  with_addresses-return pod_name m [] n w w' r h = ground arith
  with_addresses-return pod_name m (a ∷ rest) n w w' r h = ground arith

  attach_network-return :
      (pod : Pod) (label : Text) (annotation : NetworkAnnotation) (nad : NetAttachDef)
      (networks : Dict L2Network) (w w' : W) (r : Response)
      → attach_network d pod label annotation nad networks w ≡ (return r, w')
      → r ≡ hangs
  unfolding attach_network mark_taken
  attach_network-return pod label annotation nad networks w w' r h =
      let n = find_network networks annotation.name in
      let unaddressed : NetworkAnnotation = record {
        name = nad.name;
        namespace = d.switches_namespace;
        ip_addresses = [];
        if_name = [];
      } in
      elim (flow_cases (choose_addresses d n annotation w)) [
        | inl ((cidrs, network), w1, e1) ↦
            elim (flow_cases (with_addresses d pod.name unaddressed cidrs network w1)) [
              | inl (x, w2, e2) ↦ ground arith
              | inr (inl (r2, w2, e2)) ↦
                  ground
                    (arith, with_addresses-return pod.name unaddressed cidrs network w1 w2 r2 e2)
              | inr (inr (w2, e2)) ↦ ground arith
            ]
        | inr (inl (r1, w1, e1)) ↦ ground (arith, choose_addresses-return n annotation w w1 r1 e1)
        | inr (inr (w1, e1)) ↦ ground arith
      ]

  -- The loop stops only where the search for an address does not end.
  attach_networks-return :
      (pod : Pod) (label : Text) (ns : List NetworkAnnotation) (nads : List NetAttachDef)
      (networks : Dict L2Network) (w w' : W) (r : Response)
      → attach_networks d pod label ns nads networks w ≡ (return r, w')
      → r ≡ hangs
  unfolding attach_networks
  attach_networks-return pod label [] nads networks w w' r h = ground arith
  attach_networks-return pod label (n ∷ ns) [] networks w w' r h = ground arith
  attach_networks-return pod label (n ∷ ns) (nad ∷ nads) networks w w' r h =
      elim (flow_cases (attach_network d pod label n nad networks w)) [
        | inl ((m, networks1), w1, e1) ↦
            elim (flow_cases (attach_networks d pod label ns nads networks1 w1)) [
              | inl (ms, w2, e2) ↦ ground arith
              | inr (inl (r2, w2, e2)) ↦
                  ground (arith, attach_networks-return pod label ns nads networks1 w1 w2 r2 e2)
              | inr (inr (w2, e2)) ↦ ground arith
            ]
        | inr (inl (r1, w1, e1)) ↦
            ground (arith, attach_network-return pod label n nad networks w w1 r1 e1)
        | inr (inr (w1, e1)) ↦ ground arith
      ]

  pub handle-Patch :
      (new pod' : Pod) (w w' : W)
      → handle d (some new) w ≡ (returned (patched pod'), w')
      → Dict.contains multus_annotation_key pod'.annotations ≡ true
      → Patch pod'
  unfolding handle
  handle-Patch new pod' w w' h has = elim (Bool-cases new.deleting) [
    | inl q ↦ ground arith
    | inr q ↦ elim (flow_cases (choose_node d new w)) [
      | inl (pod, w1, e1) ↦ elim (Bool-cases (Dict.contains error_annotation pod.annotations)) [
        | inl q2 ↦ ground arith
        | inr q2 ↦ elim (Option-cases (Dict.lookup l2sm_network_annotation pod.annotations)) [
          | inl q3 ↦ ground arith
          | inr (text, q3) ↦
              elim (Bool-cases (Dict.contains multus_annotation_key pod.annotations)) [
                | inl q4 ↦ ground arith
                | inr q4 ↦
                    let label = net_attach_label_prefix ++ pod.node_name in
                    let asked = extract_networks d.json text d.switches_namespace in
                    let (found, w2) = get_l2networks_map d.cluster asked w1 in
                    let (nads, w3) =
                      get_free_net_attach_defs d.cluster d.switches_namespace label w2 in
                    elim (Bool-cases (ltb (length nads) (length asked))) [
                      | inl few ↦
                          let message =
                            codes "No interfaces available for node " ++ pod.node_name in
                          let same : pod' ≡ annotate error_annotation message pod = ground arith in
                          let kept = multus-annotate_error message pod in
                          let clash : Dict.contains multus_annotation_key pod.annotations ≡ true =
                            sym kept
                            ∙ ap (λ (x : Pod). Dict.contains multus_annotation_key x.annotations)
                                (sym same)
                            ∙ has in
                          cc
                      | inr many ↦
                          elim (flow_cases (attach_networks d pod label asked nads found.0 w3)) [
                            | inl (multus, w4, e4) ↦ record {
                              pod = pod;
                              text = text;
                              nads = nads;
                              networks = found.0;
                              multus = multus;
                              w0 = w2;
                              w1 = w3;
                              w2 = w3;
                              w3 = w4;
                              asks = q3;
                              free = refl;
                              enough = many;
                              looped = e4;
                              result = ground arith;
                            }
                            | inr (inl (r, w4, e4)) ↦
                                let hung =
                                  attach_networks-return pod label asked nads found.0 w3 w4 r e4 in
                                ground arith
                            | inr (inr (w4, e4)) ↦ ground arith
                          ]
                    ]
              ]
        ]
      ]
      | inr (inl (r, w1, e1)) ↦ let refused = choose_node-return new w w1 r e1 in ground arith
      | inr (inr (w1, e1)) ↦ ground arith
    ]
  ]
