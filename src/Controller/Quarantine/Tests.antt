-- ===== src/Controller/Quarantine/Tests.antt =====
-- Instances on a cluster and an SDN controller that answer always alike.
use l2s_m.Base.{
  Bool, Result, ◌≡◌, arith, ◌≢◌, refl, [], ◌∷◌, List, true, false, some, none, ok, err, codes,
  text_eq, has_prefix, if◌then◌else◌,
}
use l2s_m.Base.Int.{pos}
use l2s_m.Base.Dict
use l2s_m.Base.Dict.{Dict}
use l2s_m.Base.Effects.{Outcome, returned, panicked}
use l2s_m.Net.Parse.{no_v6}
use l2s_m.Annotation.{extract_networks}
use l2s_m.Api.Meta.{ObjectKey}
use l2s_m.Api.L2Network.{L2Network}
use l2s_m.Api.Quarantine.{source_not_found}
use l2s_m.Cluster.{ApiError}
use l2s_m.Controller.Quarantine.Move.{Deps, sdn_result, move_pod_to_target_network}
use l2s_m.Controller.Quarantine.Status.{moved_statuses, update_network_statuses}
use l2s_m.Controller.Quarantine.{MoveError, Moved, network_annotation_index}
use l2s_m.Utils.Strings.{get_port_number_from_net_attach_def}
use l2s_m.Controller.Quarantine.Moving.{find, is_moved, moved_statuses_lem}
use l2s_m.Controller.Quarantine.Planning.{traced}
use l2s_m.Controller.Quarantine.Protocol.{Follows, move_pod_to_target_network-Protocol}
use l2s_m.Controller.Quarantine.NilSource.{reconcile_nil_source}
use l2s_m.Controller.Quarantine.Reconcile.{reconcile, with_status}
use l2s_m.Controller.Fixtures.{
  source_network, target_network, text_json, web, request, cluster_of, client, datapath,
}

abbrev deps_of : List L2Network → Deps (Unit {0})
deps_of sources = record {
  cluster = cluster_of sources;
  sdn = client;
  json = text_json;
  dp = datapath;
  v6 = no_v6;
}

move_pod_to_target_network-Protocol_example :
    Follows
      (deps_of [])
      web
      source_network
      target_network
      tt
      []
      (move_pod_to_target_network (traced (deps_of [])) web source_network target_network (tt, []))
move_pod_to_target_network-Protocol_example =
    move_pod_to_target_network-Protocol (deps_of []) web source_network target_network tt []

abbrev pod_moved : Outcome (Result MoveError Moved) → Bool
pod_moved (returned (ok m)) = m.moved
pod_moved (returned (err _)) = false
pod_moved panicked = false

-- The pod of this cluster is moved.
moved_test :
    pod_moved (move_pod_to_target_network (deps_of []) web source_network target_network tt).0
    ≡ true
unfolding move_pod_to_target_network Dict.lookup text_eq network_annotation_index extract_networks
    get_port_number_from_net_attach_def has_prefix sdn_result update_network_statuses
moved_test = refl

abbrev moved_pair : L2Network × L2Network
moved_pair =
    moved_statuses no_v6 (codes "web") source_network target_network (codes "10.0.0.5/24" ∷ [])

moved_statuses_lem_example :
    (find (codes "10.0.0.5") (moved_pair.0).status.assigned_ips ≡ (
      if is_moved no_v6 (codes "10.0.0.5") (codes "10.0.0.5/24" ∷ [])
      then none
      else find (codes "10.0.0.5") source_network.status.assigned_ips))
    × (find (codes "10.0.0.5") (moved_pair.1).status.assigned_ips ≡ (
        if is_moved no_v6 (codes "10.0.0.5") (codes "10.0.0.5/24" ∷ [])
        then some (codes "web")
        else find (codes "10.0.0.5") target_network.status.assigned_ips))
    × ((moved_pair.0).status.connected_pod_count ≡ pos 0)
    × ((moved_pair.1).status.connected_pod_count ≡ pos 1)
moved_statuses_lem_example =
    moved_statuses_lem no_v6 (codes "web") (codes "10.0.0.5") source_network target_network
      (codes "10.0.0.5/24" ∷ []) 1 0 refl refl (omega arith)

abbrev key : ObjectKey
key = record { name = codes "request"; namespace = codes "ns" }

found_test : ◌≢◌ {A = Result ApiError L2Network} (ok target_network) (err ApiError.other)
found_test e = cc

reconcile_nil_source_example : reconcile (deps_of []) true key tt ≡ (panicked, tt)
reconcile_nil_source_example =
    reconcile_nil_source (deps_of []) true key tt tt tt tt tt request
      (with_status request false source_not_found [] (codes "jail") (pos 0) (pos 0))
      (ok target_network) refl refl refl refl refl found_test
