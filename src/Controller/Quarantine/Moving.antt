-- ===== src/Controller/Quarantine/Moving.antt =====
-- What moving a pod does, on every branch.
use l2s_m.Base.{
  ℕ, ◌+◌, ◌-◌, ◌^◌, ◌<◌, ◌≡◌, refl, Bool, false, ◌||◌, List, [], ◌∷◌, Option, none, some, Text,
  text_eq, if◌then◌else◌, arith, Option-cases, inl, inr,
}
use l2s_m.Base.Int.{pos}
use l2s_m.Base.Dict
use l2s_m.Base.Dict.{Dict, lookup-insert, lookup-erase}
use l2s_m.Net.{Ipv6}
use l2s_m.Net.Parse.{parse_cidr, print_ip}
use l2s_m.Api.L2Network.{L2Network}
use l2s_m.Controller.Quarantine.Status.{
  move_ips, moved_statuses, erase_ip, assign_ip, set_count, set_ips, increment, decrement_positive,
}

-- A lookup in a map that may be nil.
abbrev pub find : Text → Option (Dict Text) → Option Text
find k none = none
find k (some d) = Dict.lookup k d

-- The address is one of the pod's.
abbrev pub is_moved : Ipv6 → Text → List Text → Bool
is_moved v6 k [] = false
is_moved v6 k (cidr ∷ cidrs) =
    elim (parse_cidr v6 cidr) [ none ↦ false | some (ip, _) ↦ text_eq (print_ip v6 ip) k ]
    || is_moved v6 k cidrs

find-erase_ip :
    (ip k : Text) (m : Option (Dict Text))
    → find k (erase_ip ip m) ≡ (if text_eq ip k then none else find k m)
unfolding erase_ip
find-erase_ip ip k none = ground arith
find-erase_ip ip k (some d) = lookup-erase ip k d

find_single :
    (ip pod k : Text)
    → Dict.lookup k (Dict.insert ip pod []) ≡ (if text_eq ip k then some pod else none)
unfolding Dict.insert Dict.lookup
find_single ip pod k = refl

find-assign_ip :
    (ip pod k : Text) (m : Option (Dict Text))
    → find k (assign_ip ip pod m) ≡ (if text_eq ip k then some pod else find k m)
unfolding assign_ip
find-assign_ip ip pod k none = find_single ip pod k
find-assign_ip ip pod k (some d) = lookup-insert ip k pod d

module _ (v6 : Ipv6) (pod k : Text) where
  find-move_ips_source :
      (cidrs : List Text) (s t : Option (Dict Text))
      → find k (move_ips v6 pod cidrs s t).0 ≡ (if is_moved v6 k cidrs then none else find k s)
  unfolding move_ips
  find-move_ips_source [] s t = refl
  find-move_ips_source (cidr ∷ cidrs) s t = elim (Option-cases (parse_cidr v6 cidr)) [
    | inl e ↦ rw (e, move_ips) (find-move_ips_source cidrs s t)
    | inr ((ip0, net), e) ↦
        let ip = print_ip v6 ip0 in
        rw (e, move_ips)
          (ground (
            arith,
            find-move_ips_source cidrs (erase_ip ip s) (assign_ip ip pod t),
            find-erase_ip ip k s,
          ))
  ]

  find-move_ips_target :
      (cidrs : List Text) (s t : Option (Dict Text))
      → find k (move_ips v6 pod cidrs s t).1 ≡ (if is_moved v6 k cidrs then some pod else find k t)
  unfolding move_ips
  find-move_ips_target [] s t = refl
  find-move_ips_target (cidr ∷ cidrs) s t = elim (Option-cases (parse_cidr v6 cidr)) [
    | inl e ↦ rw (e, move_ips) (find-move_ips_target cidrs s t)
    | inr ((ip0, net), e) ↦
        let ip = print_ip v6 ip0 in
        rw (e, move_ips)
          (ground (
            arith,
            find-move_ips_target cidrs (erase_ip ip s) (assign_ip ip pod t),
            find-assign_ip ip pod k t,
          ))
  ]

-- After a move the addresses of the pod are gone from the status of the source and stand under
-- the name of the pod in that of the target, every other address is as before in both; the
-- target counts one pod more, and the source one less, down to zero; both counts were not
-- negative, and the one of the target stays below the greatest int.
pub moved_statuses_lem :
    (v6 : Ipv6) (pod k : Text) (source target : L2Network) (cidrs : List Text) (n m : ℕ)
    → source.status.connected_pod_count ≡ pos n
    → target.status.connected_pod_count ≡ pos m
    → m + 1 < 2 ^ 63
    → let (s, t) = moved_statuses v6 pod source target cidrs in
      (find k s.status.assigned_ips
        ≡ (if is_moved v6 k cidrs then none else find k source.status.assigned_ips))
      × (find k t.status.assigned_ips
          ≡ (if is_moved v6 k cidrs then some pod else find k target.status.assigned_ips))
      × (s.status.connected_pod_count ≡ pos (n - 1))
      × (t.status.connected_pod_count ≡ pos (m + 1))
unfolding moved_statuses set_count set_ips increment decrement_positive
moved_statuses_lem v6 pod k source target cidrs n m hn hm small = (
  find-move_ips_source v6 pod k cidrs source.status.assigned_ips target.status.assigned_ips,
  find-move_ips_target v6 pod k cidrs source.status.assigned_ips target.status.assigned_ips,
  rw hn refl,
  rw hm (ground arith),
)
