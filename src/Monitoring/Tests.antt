-- ===== src/Monitoring/Tests.antt =====
-- Instances on an SDN controller that answers always alike.
use l2s_m.Base.{[], ◌∷◌, codes, none, some, true}
use l2s_m.Base.Effects.{returned}
use l2s_m.Datapath.{Datapath}
use l2s_m.Sdn.{Client}
use l2s_m.Base.{ok}
use l2s_m.Trace.{traced_client}
use l2s_m.Monitoring.{ensure}
use l2s_m.Monitoring.Ensured.{Ensures, ensure-Ensuring}

abbrev client : Client (Unit {0})
client = record {
  create_network = λ t p w. (returned none, w);
  delete_network = λ t n w. (returned none, w);
  check_network_exists = λ t n w. (returned (ok true), w);
  attach_pod_to_network = λ t p w. (returned none, w);
  detach_pod_from_network = λ t p w. (returned none, w);
  set_up_mirror_port = λ t p w. (returned none, w);
}

abbrev datapath : Datapath
datapath = record {
  switch_id = λ node provider. node;
  switch_name = λ node provider. node;
  port_name = λ node provider n. node;
  probe_name = λ node provider. node;
  reserved_probe_id = 9;
}

ensure-Ensuring_example :
    Ensures datapath client
      (codes "overlay")
      (codes "controller")
      tt
      (codes "a" ∷ codes "b" ∷ [])
      []
      (ensure datapath
        (some (traced_client client))
        (codes "overlay")
        (codes "controller")
        (codes "a" ∷ codes "b" ∷ [])
        (tt, []))
ensure-Ensuring_example =
    ensure-Ensuring datapath client (codes "overlay") (codes "controller")
      (codes "a" ∷ codes "b" ∷ []) tt []
