-- ===== src/Controller/Quarantine/Status.antt =====
-- `updateNetworkStatuses`: the counters and the assigned addresses of the two networks.
use l2s_m.Base.{ℕ, suc, ◌+◌, ◌-◌, List, [], ◌∷◌, Option, none, some, Text, Result, ok, err}
use l2s_m.Base.Int.{ℤ, pos, negsuc, int64}
use l2s_m.Base.Dict
use l2s_m.Base.Dict.{Dict}
use l2s_m.Base.Effects.{Outcome, run, try, ret, ◌>>=◌}
use l2s_m.Net.{Ipv6}
use l2s_m.Net.Parse.{parse_cidr, print_ip}
use l2s_m.Api.L2Network.{L2Network}
use l2s_m.Cluster.{Cluster}
use l2s_m.Controller.Quarantine.{MoveError, source_status_not_updated, target_status_not_updated}

unfoldable pub increment : ℤ → ℤ
increment (pos n) = int64 (n + 1)
increment (negsuc ℕ.zero) = pos 0
increment (negsuc (suc n)) = negsuc n

-- `if count > 0 { count-- }`
unfoldable pub decrement_positive : ℤ → ℤ
decrement_positive (pos n) = pos (n - 1)
decrement_positive (negsuc n) = negsuc n

unfoldable pub set_count : (ℤ → ℤ) → L2Network → L2Network
set_count f n = record n {
  status = record n.status { connected_pod_count = f (n.status.connected_pod_count) };
}

unfoldable pub set_ips : Option (Dict Text) → L2Network → L2Network
set_ips ips n = record n { status = record n.status { assigned_ips = ips } }

-- `delete` on a map that may be nil
unfoldable pub erase_ip : Text → Option (Dict Text) → Option (Dict Text)
erase_ip ip none = none
erase_ip ip (some d) = some (Dict.erase ip d)

-- The map is made first if it is nil.
unfoldable pub assign_ip : Text → Text → Option (Dict Text) → Option (Dict Text)
assign_ip ip pod none = some (Dict.insert ip pod [])
assign_ip ip pod (some d) = some (Dict.insert ip pod d)

module _ (v6 : Ipv6) (pod_name : Text) where
  -- The loop over the pod's addresses; one that is no CIDR is passed over.
  unfoldable pub move_ips :
      List Text → Option (Dict Text) → Option (Dict Text) → Option (Dict Text) × Option (Dict Text)
  move_ips [] source target = (source, target)
  move_ips (cidr ∷ cidrs) source target = elim (parse_cidr v6 cidr) [
    | none ↦ move_ips cidrs source target
    | some (ip, _) ↦
        move_ips cidrs (erase_ip (print_ip v6 ip) source)
          (assign_ip (print_ip v6 ip) pod_name target)
  ]

  -- The two networks after the changes in memory.
  unfoldable pub moved_statuses : L2Network → L2Network → List Text → L2Network × L2Network
  moved_statuses source target cidrs =
      let (s, t) = move_ips cidrs source.status.assigned_ips target.status.assigned_ips in
      (set_ips s (set_count decrement_positive source), set_ips t (set_count increment target))

  module _ {W : Type 0} (c : Cluster W) where
    unfoldable pub update_network_statuses :
        L2Network
        → L2Network
        → List Text
        → W
        → Outcome (Result MoveError (L2Network × L2Network)) × W
    update_network_statuses source target cidrs = run (do
      let changed = moved_statuses source target cidrs
      source' ← try (c.update_network_status (changed.0)) (λ e. err (source_status_not_updated e))
      target' ← try (c.update_network_status (changed.1)) (λ e. err (target_status_not_updated e))
      ret (ok (source', target')))
