-- ===== src/Controller/Quarantine/Planning.antt =====
-- What a move is to do: the port and the annotations, or why the pod is not moved.
use l2s_m.Base.{
  ℕ, ◌≡◌, refl, inl, inr, Bool-cases, true, false, ◌==◌, List, none, some, Option-cases, Text,
  length, get_elem?, Result, ok, err, arith,
}
use l2s_m.Base.Dict
use l2s_m.Base.Effects.{Flow, next, return, panic, Outcome, returned, panicked}
use l2s_m.Cases.{result_cases}
use l2s_m.Datapath.{of_port}
use l2s_m.Annotation.{
  NetworkAnnotation, extract_networks, l2sm_network_annotation, multus_annotation_key,
}
use l2s_m.Utils.Strings.{PortError, get_port_number_from_net_attach_def}
use l2s_m.Api.Meta.{Pod}
use l2s_m.Api.Overlay.{overlay_provider}
use l2s_m.Api.L2Network.{L2Network}
use l2s_m.Trace.{Event, traced_client, traced_cluster}
use l2s_m.Controller.Quarantine.{
  MoveError, mismatched_counts, bad_port, Moved, network_annotation_index,
}
use l2s_m.Controller.Quarantine.Move.{plan_move, Deps, Plan}

abbrev pub traced : {W : Type 0} → Deps W → Deps (W × List Event)
traced d = record {
  cluster = traced_cluster d.cluster;
  sdn = traced_client d.sdn;
  json = d.json;
  dp = d.dp;
  v6 = d.v6;
}

module _ {W : Type 0} (d : Deps W) (pod : Pod) (source : L2Network) where
  -- The networks of one of the annotations of the pod.
  abbrev pub Annotated : Text → Text → Type 0
  Annotated key raw = Dict.lookup key pod.annotations ≡ some raw

  abbrev pub listed : Text → List NetworkAnnotation
  listed raw = extract_networks d.json raw pod.namespace

  -- Where the source network stands in the annotation of the pod, which has as many attachments as
  -- networks.
  pub record IsPlace (raw multus : Text) (i : ℕ) : Type 0 where
    pub has_networks : Annotated l2sm_network_annotation raw
    pub has_attachments : Annotated multus_annotation_key multus
    pub placed : network_annotation_index (listed raw) source.name ≡ some i
    pub matched : (length (listed multus) == length (listed raw)) ≡ true

  -- The port is that of the attachment at the place of the source network, on the switch of the node of
  -- the pod.
  pub record IsPlan (plan : Plan) : Type 0 where
    pub raw : Text
    pub multus : Text
    pub number : Text
    pub place : IsPlace raw multus plan.index
    pub networks_is : plan.networks ≡ listed raw
    pub annotation_at : get_elem? (listed raw) plan.index ≡ some plan.annotation
    pub attachment_at : get_elem? (listed multus) plan.index ≡ some plan.attachment
    pub number_is : get_port_number_from_net_attach_def plan.attachment.name ≡ ok number
    pub port_is : plan.port ≡ of_port d.dp pod.node_name overlay_provider number

  module _ (target : L2Network) where
    abbrev pub unmoved : Result MoveError Moved
    unmoved = ok (record { moved = false; source = source; target = target })

    -- Why nothing is called, and what is answered then.
    pub data Refusing : Outcome (Result MoveError Moved) → Type 0 where
      no_networks :
          Dict.lookup l2sm_network_annotation pod.annotations ≡ none → Refusing (returned unmoved)
      no_attachments :
          Dict.lookup multus_annotation_key pod.annotations ≡ none → Refusing (returned unmoved)
      not_in_source :
          (raw : Text)
          → Annotated l2sm_network_annotation raw
          → network_annotation_index (listed raw) source.name ≡ none
          → Refusing (returned unmoved)
      mismatched :
          (raw multus : Text) (i : ℕ)
          → Annotated l2sm_network_annotation raw
          → Annotated multus_annotation_key multus
          → network_annotation_index (listed raw) source.name ≡ some i
          → (length (listed multus) == length (listed raw)) ≡ false
          → Refusing
              (returned (err (mismatched_counts (length (listed raw)) (length (listed multus)))))
      no_attachment :
          (raw multus : Text) (i : ℕ)
          → IsPlace raw multus i
          → get_elem? (listed multus) i ≡ none
          → Refusing panicked
      no_annotation :
          (raw multus : Text) (i : ℕ)
          → IsPlace raw multus i
          → get_elem? (listed raw) i ≡ none
          → Refusing panicked
      no_number :
          (raw multus : Text) (i : ℕ) (a : NetworkAnnotation) (e : PortError)
          → IsPlace raw multus i
          → get_elem? (listed multus) i ≡ some a
          → get_port_number_from_net_attach_def a.name ≡ err e
          → Refusing (returned (err (bad_port e)))

    -- The first part of a move calls nothing, and ends with a plan or a refusal.
    pub data Planned (v : W × List Event)
        : Flow (Result MoveError Moved) Plan × (W × List Event) → Type 0 where
      planned :
          (plan : Plan) {v' : W × List Event} → IsPlan plan → v' ≡ v → Planned v (next plan, v')
      not_planned :
          (r : Result MoveError Moved) {v' : W × List Event}
          → Refusing (returned r)
          → v' ≡ v
          → Planned v (return r, v')
      out_of_range : {v' : W × List Event} → Refusing panicked → v' ≡ v → Planned v (panic, v')

    abbrev Start : Type 0
    Start = Flow (Result MoveError Moved) Plan × (W × List Event)

    Planned-at : {v : W × List Event} {x : Start} (y : Start) → x ≡ y → Planned v y → Planned v x
    Planned-at y e p = rw e p

    at_place :
        (w : W) (log : List Event) (raw multus : Text) (i : ℕ)
        → IsPlace raw multus i
        → Planned (w, log) (plan_move (traced d) pod source target (w, log))
    unfolding plan_move
    at_place w log raw multus i place =
        let e1 = place.has_networks in
        let e2 = place.has_attachments in
        let e3 = place.placed in
        let e4 = place.matched in
        elim (Option-cases (get_elem? (listed multus) i)) [
          | inl q ↦
              Planned-at (panic, (w, log)) (ground arith)
                (out_of_range (no_attachment raw multus i place q) refl)
          | inr (a, q) ↦ elim (Option-cases (get_elem? (listed raw) i)) [
            | inl q2 ↦
                Planned-at (panic, (w, log)) (ground arith)
                  (out_of_range (no_annotation raw multus i place q2) refl)
            | inr (n, q2) ↦ elim (result_cases (get_port_number_from_net_attach_def a.name)) [
              | inl (e, q3) ↦
                  Planned-at (return (err (bad_port e)), (w, log)) (ground arith)
                    (not_planned (err (bad_port e)) (no_number raw multus i a e place q q3) refl)
              | inr (t, q3) ↦
                  let plan : Plan = record {
                    networks = listed raw;
                    index = i;
                    annotation = n;
                    attachment = a;
                    port = of_port d.dp pod.node_name overlay_provider t;
                  } in
                  Planned-at (next plan, (w, log)) (ground arith)
                    (planned plan
                      (record {
                        raw = raw;
                        multus = multus;
                        number = t;
                        place = place;
                        networks_is = refl;
                        annotation_at = q2;
                        attachment_at = q;
                        number_is = q3;
                        port_is = refl;
                      })
                      refl)
            ]
          ]
        ]

    pub plan_move-Planned :
        (w : W) (log : List Event)
        → Planned (w, log) (plan_move (traced d) pod source target (w, log))
    unfolding plan_move
    plan_move-Planned w log =
        let stays : Start = (return unmoved, (w, log)) in
        elim (Option-cases (Dict.lookup l2sm_network_annotation pod.annotations)) [
          | inl q ↦ Planned-at stays (ground arith) (not_planned unmoved (no_networks q) refl)
          | inr (raw, q) ↦ elim (Option-cases (Dict.lookup multus_annotation_key pod.annotations)) [
            | inl q2 ↦
                Planned-at stays (ground arith) (not_planned unmoved (no_attachments q2) refl)
            | inr (multus, q2) ↦
                elim (Option-cases (network_annotation_index (listed raw) source.name)) [
                  | inl q3 ↦
                      Planned-at stays (ground arith)
                        (not_planned unmoved (not_in_source raw q q3) refl)
                  | inr (i, q3) ↦
                      elim (Bool-cases (length (listed multus) == length (listed raw))) [
                        | inl q4 ↦ at_place w log raw multus i (record {
                          has_networks = q;
                          has_attachments = q2;
                          placed = q3;
                          matched = q4;
                        })
                        | inr q4 ↦
                            let r : Result MoveError Moved =
                              err (
                                mismatched_counts (length (listed raw)) (length (listed multus))) in
                            Planned-at (return r, (w, log)) (ground arith)
                              (not_planned r (mismatched raw multus i q q2 q3 q4) refl)
                      ]
                ]
          ]
        ]
