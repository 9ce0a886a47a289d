-- ===== src/Controller/NextIp.antt =====
-- `GetNextAvailableIP` of internal/controller/pod_utils.go. A `net.IP` is a slice: where the search
-- starts from `ipNet.IP`, the loop's variable and the network share their bytes, and every `++` on
-- the last byte changes both. The `for` loop takes fuel; `none` means that it ran out.
pub mod Search
pub mod Results
pub mod Dotted
mod Tests
use l2s_m.Base.{
  ℕ, zero, suc, ◌+◌, ◌%◌, ◌++◌, Bool, true, false, ◌&&◌, ◌||◌, [], ◌∷◌, Option, none, some,
  if◌then◌else◌, Text, is_empty, decimal, Result, ok, err,
}
use l2s_m.Base.Dict
use l2s_m.Base.Dict.{Dict}
use l2s_m.Net.{Ip, IpNet, Ipv6, contains}
use l2s_m.Net.Parse.{parse_cidr, parse_ip, print_ip}

pub data NextIpError : Type 0 where
  invalid_cidr no_available_ips : NextIpError

-- `ip[len(ip)-1]++` on a byte
unfoldable pub bump : Ip → Ip
bump [] = []
bump (b ∷ []) = (b + 1) % 256 ∷ []
bump (b ∷ c ∷ bs) = b ∷ bump (c ∷ bs)

-- The network that `Contains` sees while the loop stands at `ip`.
unfoldable pub seen_net : Bool → IpNet → Ip → IpNet
seen_net shared net ip = if shared then record net { ip = ip } else net

module _ (v6 : Ipv6) where
  -- What the function returns for what the loop found.
  unfoldable pub found :
      ℕ → Option (Result NextIpError Ip) → Option (Result NextIpError (Text × Text))
  found ones none = none
  found ones (some (err e)) = some (err e)
  found ones (some (ok ip)) = some (ok (print_ip v6 ip, b'/' ∷ decimal ones))

  -- The last assigned address, if there is one that parses.
  unfoldable pub last_ip : Text → Option Ip
  last_ip last_assigned_ip =
      if is_empty last_assigned_ip then none else parse_ip v6 last_assigned_ip

module _ (v6 : Ipv6) (assigned : Dict Text) where
  -- The loop; `shared` says that `startIP` is `ipNet.IP`.
  unfoldable pub search : Bool → IpNet → ℕ → Ip → Option (Result NextIpError Ip)
  search shared net zero ip = none
  search shared net (suc fuel) ip =
      let rest = search shared net fuel (bump ip) in
      if contains (seen_net shared net ip) ip
      then if Dict.contains (print_ip v6 ip) assigned then rest else some (ok ip)
      else some (err no_available_ips)

  -- The choice of the start: the network's own bytes, or the last assigned address, one further.
  unfoldable pub search_from : ℕ → IpNet → Option Ip → Option (Result NextIpError Ip)
  search_from fuel net none = search true net fuel (bump net.ip)
  search_from fuel net (some last) = search false net fuel (bump last)

  unfoldable pub get_next_available_ip : ℕ → Text → Text → Option (Result NextIpError (Text × Text))
  unfolding found
  get_next_available_ip fuel network_cidr last_assigned_ip = elim (parse_cidr v6 network_cidr) [
    | none ↦ some (err invalid_cidr)
    | some (_, net) ↦ found v6 net.ones (search_from fuel net (last_ip v6 last_assigned_ip))
  ]
