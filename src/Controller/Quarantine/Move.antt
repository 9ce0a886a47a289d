-- ===== src/Controller/Quarantine/Move.antt =====
-- `movePodToTargetNetwork`
use l2s_m.Base.{
  ℕ, true, false, not, ◌==◌, List, [], ◌∷◌, Option, none, some, Text, length, get_elem?, set,
  Result, ok, err,
}
use l2s_m.Base.Dict
use l2s_m.Base.Effects.{
  Act, Outcome, run, try, ret, pure, return_if, or_return, unwrap, deref, call, ◌>>=◌, ◌>>◌,
}
use l2s_m.Net.{Ipv6}
use l2s_m.Datapath.{Datapath, of_port}
use l2s_m.Annotation.{
  NetworkAnnotation, Json, extract_networks, multus_annotation_to_string, l2sm_network_annotation,
  multus_annotation_key,
}
use l2s_m.Utils.Strings.{get_port_number_from_net_attach_def}
use l2s_m.Api.Meta.{Pod}
use l2s_m.Api.Overlay.{overlay_provider}
use l2s_m.Api.L2Network.{L2Network}
use l2s_m.Cluster.{Cluster}
use l2s_m.Sdn.{SdnError, VnetPayload, Client}
use l2s_m.Controller.Quarantine.{
  MoveError, mismatched_counts, bad_port, not_detached, not_attached, pod_not_updated, Moved,
  network_annotation_index,
}
use l2s_m.Controller.Quarantine.Status.{update_network_statuses}

-- What the functions of the controllers share: the server, the SDN controller, and the libraries.
pub record Deps (W : Type 0) : Type 0 where
  pub cluster : Cluster W
  pub sdn : Client W
  pub json : Json
  pub dp : Datapath
  pub v6 : Ipv6

-- A method of the SDN client that returns only an error.
unfoldable pub sdn_result :
    {W : Type 0} → Outcome (Option SdnError) × W → Outcome (Result SdnError (Unit {0})) × W
sdn_result (Outcome.returned none, w) = (Outcome.returned (ok tt), w)
sdn_result (Outcome.returned (some e), w) = (Outcome.returned (err e), w)
sdn_result (Outcome.panicked, w) = (Outcome.panicked, w)

-- `annotations[key] = value` on a pod
unfoldable pub annotate : Text → Text → Pod → Pod
annotate key value pod = record pod {
  meta = record pod.meta { annotations = Dict.insert key value pod.annotations };
}

-- The annotations with another network name at one index.
unfoldable pub rename_at :
    List NetworkAnnotation → ℕ → NetworkAnnotation → Text → List NetworkAnnotation
rename_at networks i n name = set networks i (record n { name = name })

-- `sdnclient.VnetPayload` with one port
unfoldable pub port_payload : Text → Text → VnetPayload
port_payload network port = record { network_id = network; port = port ∷ []; mirror_port = [] }

-- What the first part of the function finds out: the pod's networks, the one to be replaced, its
-- attachment, and the port of the switch.
pub record Plan : Type 0 where
  pub networks : List NetworkAnnotation
  pub index : ℕ
  pub annotation : NetworkAnnotation
  pub attachment : NetworkAnnotation
  pub port : Text

-- The pod with the network's name replaced in its annotation.
unfoldable pub renamed_pod : Json → Pod → Plan → Text → Pod
unfolding annotate rename_at
renamed_pod json pod plan name =
    annotate l2sm_network_annotation
      (multus_annotation_to_string json (rename_at plan.networks plan.index plan.annotation name))
      pod

module _ {W : Type 0} (d : Deps W) where
  -- Up to the first call.
  unfoldable pub plan_move : Pod → L2Network → L2Network → Act W (Result MoveError Moved) Plan
  plan_move pod source target = do
    let unmoved : Result MoveError Moved =
        ok (record { moved = false; source = source; target = target })
    l2sm_raw ← or_return (Dict.lookup l2sm_network_annotation pod.annotations) unmoved
    multus_raw ← or_return (Dict.lookup multus_annotation_key pod.annotations) unmoved
    let l2sm_networks = extract_networks d.json l2sm_raw pod.namespace
    i ← or_return (network_annotation_index l2sm_networks source.name) unmoved
    let multus_networks = extract_networks d.json multus_raw pod.namespace
    return_if (not (length multus_networks == length l2sm_networks))
        (err (mismatched_counts (length l2sm_networks) (length multus_networks)))
    attachment ← deref (get_elem? multus_networks i)
    annotation ← deref (get_elem? l2sm_networks i)
    port_number ←
        unwrap (get_port_number_from_net_attach_def attachment.name) (λ e. ret (err (bad_port e)))
    pure (record {
      networks = l2sm_networks;
      index = i;
      annotation = annotation;
      attachment = attachment;
      port = of_port d.dp pod.node_name overlay_provider port_number;
    })

  -- From the first call on.
  unfoldable pub carry_out :
      Pod → L2Network → L2Network → Plan → Act W (Result MoveError Moved) (Result MoveError Moved)
  carry_out pod source target plan = do
    detached ← call (λ w.
        sdn_result
          (d.sdn.detach_pod_from_network source.spec.type (port_payload source.name plan.port) w))
    unwrap detached (λ e. ret (err (not_detached e)))
    attached ← call (λ w.
        sdn_result
          (d.sdn.attach_pod_to_network target.spec.type (port_payload target.name plan.port) w))
    unwrap attached (λ e. ret (err (not_attached e)))
    pod' ←
        try (d.cluster.update_pod (renamed_pod d.json pod plan target.name))
          (λ e. err (pod_not_updated e))
    updated ← call (
        update_network_statuses d.v6 pod'.name d.cluster source target plan.attachment.ip_addresses)
    networks ← unwrap updated (λ e. ret (err e))
    ret (ok (record { moved = true; source = networks.0; target = networks.1 }))

  unfoldable pub move_pod_to_target_network :
      Pod → L2Network → L2Network → W → Outcome (Result MoveError Moved) × W
  unfolding plan_move carry_out
  move_pod_to_target_network pod source target =
      run (do plan ← plan_move pod source target; carry_out pod source target plan)
