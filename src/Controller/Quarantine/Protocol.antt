-- ===== src/Controller/Quarantine/Protocol.antt =====
-- In which order a move calls the SDN controller and the server, whatever they answer.
use l2s_m.Base.{
  ◌≡◌, ap, Option, none, some, inl, inr, true, List, [], ◌∷◌, ◌++◌, Result, ok, err, arith,
}
use l2s_m.Base.Effects
use l2s_m.Base.Effects.{Flow, next, return, panic, Outcome, returned, panicked}
use l2s_m.Api.Meta.{Pod}
use l2s_m.Api.L2Network.{L2Network}
use l2s_m.Cluster.{ApiError}
use l2s_m.Sdn.{SdnError}
use l2s_m.Cases.{sdn_cases, api_cases}
use l2s_m.Trace.{
  noted, noted-append, Event, detached, attached, pod_updated, network_status_updated,
}
use l2s_m.Controller.Quarantine.{
  MoveError, not_detached, not_attached, pod_not_updated, source_status_not_updated,
  target_status_not_updated, Moved,
}
use l2s_m.Controller.Quarantine.Status.{moved_statuses, update_network_statuses}
use l2s_m.Controller.Quarantine.Move.{
  plan_move, move_pod_to_target_network, Deps, Plan, carry_out, port_payload, renamed_pod,
  sdn_result,
}
use l2s_m.Controller.Quarantine.Planning.{
  traced, IsPlan, Refusing, Planned, planned, not_planned, out_of_range, plan_move-Planned,
}

module _ {W : Type 0} (d : Deps W) (pod : Pod) (source target : L2Network) where
  abbrev pub detaching : Plan → Event
  detaching plan = detached (port_payload source.name plan.port)

  abbrev pub attaching : Plan → Event
  attaching plan = attached (port_payload target.name plan.port)

  abbrev pub renaming : Plan → Event
  renaming plan = pod_updated (renamed_pod d.json pod plan target.name)

  -- The statuses are computed with the name of the pod as the server answered it.
  abbrev pub leaving : Plan → Pod → Event
  leaving plan p =
      network_status_updated
        (moved_statuses d.v6 p.name source target plan.attachment.ip_addresses).0

  abbrev pub entering : Plan → Pod → Event
  entering plan p =
      network_status_updated
        (moved_statuses d.v6 p.name source target plan.attachment.ip_addresses).1

  -- What the SDN controller and the server answer to the calls of a plan.
  abbrev pub detached_at : Plan → W → Outcome (Option SdnError) × W
  detached_at plan w =
      d.sdn.detach_pod_from_network source.spec.type (port_payload source.name plan.port) w

  abbrev pub attached_at : Plan → W → Outcome (Option SdnError) × W
  attached_at plan w =
      d.sdn.attach_pod_to_network target.spec.type (port_payload target.name plan.port) w

  abbrev pub renamed_at : Plan → W → Result ApiError Pod × W
  renamed_at plan w = d.cluster.update_pod (renamed_pod d.json pod plan target.name) w

  abbrev pub left_at : Plan → Pod → W → Result ApiError L2Network × W
  left_at plan p w =
      d.cluster.update_network_status
        (moved_statuses d.v6 p.name source target plan.attachment.ip_addresses).0 w

  abbrev pub entered_at : Plan → Pod → W → Result ApiError L2Network × W
  entered_at plan p w =
      d.cluster.update_network_status
        (moved_statuses d.v6 p.name source target plan.attachment.ip_addresses).1 w

  -- How far a plan was carried out without a failure, from the world `w` on.
  abbrev pub IsDetached : Plan → W → W → Type 0
  IsDetached plan w w1 = IsPlan d pod source plan × (detached_at plan w ≡ (returned none, w1))

  abbrev pub IsAttached : Plan → W → W → Type 0
  IsAttached plan w w2 =
      (w1 : W) × IsDetached plan w w1 × (attached_at plan w1 ≡ (returned none, w2))

  abbrev pub IsRenamed : Plan → W → Pod → W → Type 0
  IsRenamed plan w p w3 = (w2 : W) × IsAttached plan w w2 × (renamed_at plan w2 ≡ (ok p, w3))

  abbrev pub IsLeft : Plan → W → Pod → W → Type 0
  IsLeft plan w p w4 =
      (w3 : W) × (s : L2Network) × IsRenamed plan w p w3 × (left_at plan p w3 ≡ (ok s, w4))

  -- The calls of a move and its result: nothing is called after a refusal, and a result is a move only
  -- after all five calls of the plan in this order.
  pub data Protocol (w : W) : Outcome (Result MoveError Moved) → List Event → Type 0 where
    refused :
        (r : Outcome (Result MoveError Moved)) → Refusing d pod source target r → Protocol w r []
    detach_panicked :
        (plan : Plan) (w1 : W)
        → IsPlan d pod source plan
        → detached_at plan w ≡ (panicked, w1)
        → Protocol w panicked (detaching plan ∷ [])
    detach_failed :
        (plan : Plan) (e : SdnError) (w1 : W)
        → IsPlan d pod source plan
        → detached_at plan w ≡ (returned (some e), w1)
        → Protocol w (returned (err (not_detached e))) (detaching plan ∷ [])
    attach_panicked :
        (plan : Plan) (w1 w2 : W)
        → IsDetached plan w w1
        → attached_at plan w1 ≡ (panicked, w2)
        → Protocol w panicked (detaching plan ∷ attaching plan ∷ [])
    attach_failed :
        (plan : Plan) (e : SdnError) (w1 w2 : W)
        → IsDetached plan w w1
        → attached_at plan w1 ≡ (returned (some e), w2)
        → Protocol w (returned (err (not_attached e))) (detaching plan ∷ attaching plan ∷ [])
    pod_stopped :
        (plan : Plan) (e : ApiError) (w2 w3 : W)
        → IsAttached plan w w2
        → renamed_at plan w2 ≡ (err e, w3)
        → Protocol w
            (returned (err (pod_not_updated e)))
            (detaching plan ∷ attaching plan ∷ renaming plan ∷ [])
    source_stopped :
        (plan : Plan) (p : Pod) (e : ApiError) (w3 w4 : W)
        → IsRenamed plan w p w3
        → left_at plan p w3 ≡ (err e, w4)
        → Protocol w
            (returned (err (source_status_not_updated e)))
            (detaching plan ∷ attaching plan ∷ renaming plan ∷ leaving plan p ∷ [])
    target_stopped :
        (plan : Plan) (p : Pod) (e : ApiError) (w4 w5 : W)
        → IsLeft plan w p w4
        → entered_at plan p w4 ≡ (err e, w5)
        → Protocol w (returned (err (target_status_not_updated e))) (
            detaching plan ∷ attaching plan ∷ renaming plan ∷ leaving plan p ∷ entering plan p ∷ [])
    completed :
        (plan : Plan) (p : Pod) (s t : L2Network) (w3 w4 w5 : W)
        → IsRenamed plan w p w3
        → left_at plan p w3 ≡ (ok s, w4)
        → entered_at plan p w4 ≡ (ok t, w5)
        → Protocol w (returned (ok (record { moved = true; source = s; target = t }))) (
            detaching plan ∷ attaching plan ∷ renaming plan ∷ leaving plan p ∷ entering plan p ∷ [])

  -- Whatever was called since `log` follows the protocol for the result.
  abbrev pub Follows : W → List Event → Outcome (Result MoveError Moved) × (W × List Event) → Type 0
  Follows w log (r, (w', log')) = (es : List Event) × (log' ≡ log ++ es) × Protocol w r es

  leaf :
      {r : Outcome (Result MoveError Moved)} {es : List Event} {v : W}
      (x : Outcome (Result MoveError Moved) × (W × List Event)) (log : List Event) (w : W)
      → Protocol v r es
      → x ≡ (r, (w, noted log es))
      → Follows v log x
  leaf {es = es} x log w p e = rw e (es, noted-append es log, p)

  -- The calls behind the attachment.
  behind_attachment :
      (plan : Plan) (w w1 w2 : W) (log : List Event)
      → IsPlan d pod source plan
      → detached_at plan w ≡ (returned none, w1)
      → attached_at plan w1 ≡ (returned none, w2)
      → Follows w log (Effects.run (carry_out (traced d) pod source target plan) (w, log))
  unfolding carry_out sdn_result update_network_statuses
  behind_attachment plan w w1 w2 log k e1 e2 =
      let x = Effects.run (carry_out (traced d) pod source target plan) (w, log) in
      let attached : IsAttached plan w w2 = (w1, (k, e1), e2) in
      elim (api_cases (renamed_at plan w2)) [
        | inl (e, w3, e3) ↦ leaf x log w3 (pod_stopped plan e w2 w3 attached e3) (ground arith)
        | inr (p, w3, e3) ↦
            let renamed : IsRenamed plan w p w3 = (w2, attached, e3) in
            elim (api_cases (left_at plan p w3)) [
              | inl (e, w4, e4) ↦
                  leaf x log w4 (source_stopped plan p e w3 w4 renamed e4) (ground arith)
              | inr (s, w4, e4) ↦ elim (api_cases (entered_at plan p w4)) [
                | inl (e, w5, e5) ↦
                    leaf x log w5 (target_stopped plan p e w4 w5 (w3, s, renamed, e4) e5)
                      (ground arith)
                | inr (t, w5, e5) ↦
                    leaf x log w5 (completed plan p s t w3 w4 w5 renamed e4 e5) (ground arith)
              ]
            ]
      ]

  carry_out-Protocol :
      (plan : Plan) (w : W) (log : List Event)
      → IsPlan d pod source plan
      → Follows w log (Effects.run (carry_out (traced d) pod source target plan) (w, log))
  unfolding carry_out sdn_result
  carry_out-Protocol plan w log k =
      let x = Effects.run (carry_out (traced d) pod source target plan) (w, log) in
      elim (sdn_cases (detached_at plan w)) [
        | inl (w1, e1) ↦ leaf x log w1 (detach_panicked plan w1 k e1) (ground arith)
        | inr (inl (e, w1, e1)) ↦ leaf x log w1 (detach_failed plan e w1 k e1) (ground arith)
        | inr (inr (w1, e1)) ↦ elim (sdn_cases (attached_at plan w1)) [
          | inl (w2, e2) ↦ leaf x log w2 (attach_panicked plan w1 w2 (k, e1) e2) (ground arith)
          | inr (inl (e, w2, e2)) ↦
              leaf x log w2 (attach_failed plan e w1 w2 (k, e1) e2) (ground arith)
          | inr (inr (w2, e2)) ↦ behind_attachment plan w w1 w2 log k e1 e2
        ]
      ]

  -- Whatever the SDN controller and the server answer, a move either calls nothing and answers
  -- the refusal for which there is a reason in the annotations of the pod, or it has a plan: the
  -- place of the source network in the annotation, which has as many attachments as networks,
  -- and the port with the number in the name of the attachment at that place, on the switch of
  -- the node of the pod. Of detach, attach, pod update, source status and target status for this
  -- plan, in this order, it then makes those up to the first one that fails, and answers what
  -- that call was answered; "moved" is answered only after all five.
  pub move_pod_to_target_network-Protocol :
      (w : W) (log : List Event)
      → Follows w log (move_pod_to_target_network (traced d) pod source target (w, log))
  unfolding move_pod_to_target_network
  move_pod_to_target_network-Protocol w log =
      let x = plan_move (traced d) pod source target (w, log) in
      from x (plan_move-Planned d pod source target w log)
    where
      from :
          (x : Flow (Result MoveError Moved) Plan × (W × List Event))
          → Planned d pod source target (w, log) x
          → Follows w log (
              Effects.run
                (Effects.◌>>=◌ (λ _. x) (carry_out (traced d) pod source target))
                (w, log))
      from (next _, v) (planned plan k e) = rw e (carry_out-Protocol plan w log k)
      from (return _, v) (not_planned r k e) =
          leaf (returned r, v) log w (refused (returned r) k) (ap (λ z. (returned r, z)) e)
      from (panic, v) (out_of_range k e) =
          leaf (panicked, v) log w (refused panicked k) (ap (λ z. (panicked, z)) e)
