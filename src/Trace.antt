-- ===== src/Trace.antt =====
-- The calls that change something outside, written into a log beside the world: theorems about the log
-- say what a controller does in which order, whatever the server and the SDN controller answer.
pub mod Plan
use l2s_m.Base.{◌≡◌, ◌∙◌, sym, append-nil, append_assoc, List, [], ◌∷◌, ◌++◌, Text}
use l2s_m.Api.Meta.{Pod, NetAttachDef}
use l2s_m.Api.L2Network.{L2Network}
use l2s_m.Api.Quarantine.{QuarantinePodRequest}
use l2s_m.Api.Overlay.{Overlay}
use l2s_m.Api.Ned.{NetworkEdgeDevice}
use l2s_m.Api.Resources.{Resource}
use l2s_m.Sdn.{Client, VnetPayload}
use l2s_m.Cluster.{Cluster}

pub data Event : Type 0 where
  network_created : VnetPayload → Event
  network_deleted : Text → Event
  attached detached mirrored : VnetPayload → Event
  pod_updated : Pod → Event
  network_updated network_status_updated : L2Network → Event
  net_attach_def_updated : NetAttachDef → Event
  request_status_updated : QuarantinePodRequest → Event
  overlay_updated : Overlay → Event
  ned_updated : NetworkEdgeDevice → Event
  created applied : Resource → Event
  net_attach_defs_deleted : Text → Event

-- A call that was made, with whatever answer.
abbrev pub note : {W A : Type 0} → Event → (W → A × W) → W × List Event → A × (W × List Event)
note e m (w, log) = let (a, w') = m w in (a, (w', log ++ e ∷ []))

abbrev pub silent : {W A : Type 0} → (W → A × W) → W × List Event → A × (W × List Event)
silent m (w, log) = let (a, w') = m w in (a, (w', log))

abbrev pub traced_client : {W : Type 0} → Client W → Client (W × List Event)
traced_client c = record {
  create_network = λ t p. note (network_created p) (c.create_network t p);
  delete_network = λ t n. note (network_deleted n) (c.delete_network t n);
  check_network_exists = λ t n. silent (c.check_network_exists t n);
  attach_pod_to_network = λ t p. note (attached p) (c.attach_pod_to_network t p);
  detach_pod_from_network = λ t p. note (detached p) (c.detach_pod_from_network t p);
  set_up_mirror_port = λ t p. note (mirrored p) (c.set_up_mirror_port t p);
}

abbrev pub traced_cluster : {W : Type 0} → Cluster W → Cluster (W × List Event)
traced_cluster c = record {
  get_pod = λ k. silent (c.get_pod k);
  get_network = λ k. silent (c.get_network k);
  get_net_attach_def = λ k. silent (c.get_net_attach_def k);
  get_request = λ k. silent (c.get_request k);
  update_pod = λ p. note (pod_updated p) (c.update_pod p);
  update_network = λ n. note (network_updated n) (c.update_network n);
  update_net_attach_def = λ n. note (net_attach_def_updated n) (c.update_net_attach_def n);
  update_network_status = λ n. note (network_status_updated n) (c.update_network_status n);
  update_request_status = λ q. note (request_status_updated q) (c.update_request_status q);
  list_networks = silent c.list_networks;
  list_networks_in = λ ns s. silent (c.list_networks_in ns s);
  list_pods_in = λ ns s. silent (c.list_pods_in ns s);
  list_nodes = silent c.list_nodes;
  list_free_net_attach_defs = λ ns l. silent (c.list_free_net_attach_defs ns l);
  is_selector = c.is_selector;
  get_overlay = λ k. silent (c.get_overlay k);
  update_overlay = λ o. note (overlay_updated o) (c.update_overlay o);
  get_ned = λ k. silent (c.get_ned k);
  update_ned = λ n. note (ned_updated n) (c.update_ned n);
  list_neds = silent c.list_neds;
  list_replica_sets = λ ns n. silent (c.list_replica_sets ns n);
  create = λ r. note (created r) (c.create r);
  apply = λ r. note (applied r) (c.apply r);
  delete_net_attach_defs = λ ns n. note (net_attach_defs_deleted n) (c.delete_net_attach_defs ns n);
  set_controller_reference = c.set_controller_reference;
  contains_finalizer = c.contains_finalizer;
  add_finalizer = c.add_finalizer;
  remove_finalizer = c.remove_finalizer;
}

-- The log is what it was, with the events `es` added one after the other.
abbrev pub noted : List Event → List Event → List Event
noted log [] = log
noted log (e ∷ es) = noted (log ++ e ∷ []) es

pub noted-append : (es log : List Event) → noted log es ≡ log ++ es
noted-append [] log = sym (append-nil log)
noted-append (e ∷ es) log = noted-append es (log ++ e ∷ []) ∙ append_assoc log (e ∷ []) es
