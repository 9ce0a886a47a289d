-- ===== src/Controller/NextIp/Results.antt =====
-- What `GetNextAvailableIP` returns, when it ends, and two ways in which it goes wrong.
use l2s_m.Base.{
  ℕ, ◌+◌, ◌-◌, ◌/◌, ◌%◌, ◌^◌, ◌≤◌, ◌<◌, ◌≡◌, ◌≢◌, refl, sym, ap, ◌∙◌, true, false, [], ◌∷◌, Option,
  none, some, Text, Result, ok, err, arith, decimal,
}
use native.Mathlib.Nat.{one-le-pow, add-div_right}
use l2s_m.Base.Dict
use l2s_m.Base.Dict.{Dict}
use l2s_m.Net.{Ip, IpNet, Ipv6, contains, to4, shorter, agree}
use l2s_m.Net.Parse.{parse_cidr, print_ip}
use l2s_m.Controller.NextIp.{
  NextIpError, bump, search, found, search_from, last_ip, get_next_available_ip, seen_net,
}
use l2s_m.Controller.NextIp.Search.{
  with_last, search_ends_ring, is_assigned, search_sound, search_hangs, search_reaches,
}

pub found-ok :
    (v6 : Ipv6) (ones : ℕ) (r : Option (Result NextIpError Ip)) (t mask : Text)
    → found v6 ones r ≡ some (ok (t, mask))
    → (ip : Ip) × (r ≡ some (ok ip)) × (t ≡ print_ip v6 ip) × (mask ≡ b'/' ∷ decimal ones)
unfolding found
found-ok v6 ones none t mask h = cc
found-ok v6 ones (some (err e)) t mask h = cc
found-ok v6 ones (some (ok ip)) t mask h = (ip, refl, cc, cc)

found-none :
    (v6 : Ipv6) (ones : ℕ) (r : Option (Result NextIpError Ip)) → found v6 ones r ≡ none → r ≡ none
unfolding found
found-none v6 ones none h = refl
found-none v6 ones (some (err e)) h = cc
found-none v6 ones (some (ok ip)) h = cc

-- One block further the last byte differs under the mask.
outside :
    (net : IpNet) (a b c d : ℕ)
    → net.ip ≡ a ∷ b ∷ c ∷ d ∷ []
    → 24 < net.ones
    → net.ones ≤ 32
    → contains net (a ∷ b ∷ c ∷ (d + 2 ^ (32 - net.ones)) ∷ []) ≡ false
unfolding contains shorter to4 agree
outside net a b c d same lo hi =
    let e : 8 - (net.ones - 8 - 8 - 8) ≡ 32 - net.ones = omega arith in
    let pos = one-le-pow (32 - net.ones) 2 (omega arith) in
    let next : (d + 2 ^ (32 - net.ones)) / 2 ^ (32 - net.ones) ≡ d / 2 ^ (32 - net.ones) + 1 =
      add-div_right d pos in
    rw (same, e, next) (ground arith)

module _ (v6 : Ipv6) (assigned : Dict Text) (cidr : Text) (a : Ip) (net : IpNet)
    (parsed : parse_cidr v6 cidr ≡ some (a, net)) where
  pub next_eq :
      (fuel : ℕ) (last : Text) (l : Option Ip)
      → last_ip v6 last ≡ l
      → get_next_available_ip v6 assigned fuel cidr last
        ≡ found v6 net.ones (search_from v6 assigned fuel net l)
  unfolding get_next_available_ip
  next_eq fuel last l e = rw (parsed, get_next_available_ip) (rw e refl)

  -- With an earlier assignment that parses, an address that the function returns is not assigned
  -- and lies in the network, and comes with the prefix length of the network.
  pub get_next_available_ip_free :
      (fuel : ℕ) (last mask : Text) (prev : Ip) (t : Text)
      → last_ip v6 last ≡ some prev
      → get_next_available_ip v6 assigned fuel cidr last ≡ some (ok (t, mask))
      → (ip : Ip) × (t ≡ print_ip v6 ip)
        × (Dict.contains t assigned ≡ false)
        × (contains net ip ≡ true)
        × (mask ≡ b'/' ∷ decimal net.ones)
  unfolding search_from seen_net
  get_next_available_ip_free fuel last mask prev t e h =
      let (ip, r, same, m) =
        found-ok v6 net.ones (search_from v6 assigned fuel net (some prev)) t mask
          (sym (next_eq fuel last (some prev) e) ∙ h) in
      let (free, inside) = search_sound v6 assigned false net fuel (bump prev) ip r in
      (ip, same, rw same free, inside, m)

  -- With an earlier assignment that parses, 256 rounds of the loop are enough if one of the 256
  -- addresses that differ from the last one at most in the last byte is not assigned.
  pub get_next_available_ip_ends :
      (last : Text) (prev : Ip) (x : ℕ)
      → last_ip v6 last ≡ some prev
      → x < 256
      → is_assigned v6 assigned (with_last x prev) ≡ false
      → get_next_available_ip v6 assigned 256 cidr last ≢ none
  unfolding search_from
  get_next_available_ip_ends last prev x e lt free h =
      search_ends_ring v6 assigned false net x prev lt free (
        found-none v6 net.ones (search_from v6 assigned 256 net (some prev))
          (sym (next_eq 256 last (some prev) e) ∙ h))

  -- With an earlier assignment that parses, no number of rounds ends the loop where all 256
  -- addresses that differ from the last one at most in the last byte are assigned and in the
  -- network.
  pub get_next_available_ip_hangs :
      (fuel : ℕ) (last : Text) (prev : Ip)
      → last_ip v6 last ≡ some prev
      → ((x : ℕ) → x < 256 → is_assigned v6 assigned (with_last x prev) ≡ true)
      → ((x : ℕ) → x < 256 → contains net (with_last x prev) ≡ true)
      → get_next_available_ip v6 assigned fuel cidr last ≡ none
  unfolding search_from found seen_net
  get_next_available_ip_hangs fuel last prev e full inside =
      next_eq fuel last (some prev) e
      ∙ ap (found v6 net.ones) (search_hangs v6 assigned false net fuel prev full inside)

  -- Without an earlier assignment, in an IPv4 network of fewer than 256 addresses in one last
  -- byte, of which all behind the network address are assigned, the function returns the first
  -- address behind the network, if that is not assigned.
  pub get_next_available_ip_escapes :
      (b c d e size : ℕ) (fuel : ℕ) (last : Text)
      → last_ip v6 last ≡ none
      → net.ip ≡ b ∷ c ∷ d ∷ e ∷ []
      → (24 < net.ones) × (net.ones ≤ 32) × (size ≡ 2 ^ (32 - net.ones))
      → e + size < 256
      → size ≤ fuel
      → ((i : ℕ) → i < size - 1 → is_assigned v6 assigned (b ∷ c ∷ d ∷ (e + 1 + i) ∷ []) ≡ true)
      → is_assigned v6 assigned (b ∷ c ∷ d ∷ (e + size) ∷ []) ≡ false
      → (get_next_available_ip v6 assigned fuel cidr last
          ≡ some (ok (print_ip v6 (b ∷ c ∷ d ∷ (e + size) ∷ []), b'/' ∷ decimal net.ones)))
        × (contains net (b ∷ c ∷ d ∷ (e + size) ∷ []) ≡ false)
  unfolding search_from found bump
  get_next_available_ip_escapes b c d e size fuel last h same (lo, hi, is_size) room enough full
        free =
      let pos = one-le-pow (32 - net.ones) 2 (omega arith) in
      let back : e + 1 + (size - 1) ≡ e + size = omega arith in
      let wrap : (e + 1) % 256 ≡ e + 1 = omega arith in
      let reached =
        search_reaches v6 assigned net b c d (size - 1) (e + 1) fuel (omega arith) (omega arith)
          full (rw back free) in
      let hit : search v6 assigned true net fuel (bump net.ip)
          ≡ some (ok (b ∷ c ∷ d ∷ (e + size) ∷ [])) =
        ap (λ (t : Ip). search v6 assigned true net fuel (bump t)) same
        ∙ rw wrap (rw back at reached) in
      (
        next_eq fuel last none h ∙ ap (found v6 net.ones) hit,
        rw is_size (outside net b c d e same lo hi),
      )
