-- ===== src/Controller/NextIp/Dotted.antt =====
-- After an IPv4 address only addresses of the same first three bytes are tried.
use l2s_m.Base.{
  ℕ, zero, suc, ◌+◌, ◌%◌, ◌<◌, ◌≡◌, sym, ap, ◌∙◌, inl, inr, Bool-cases, false, [], ◌∷◌, some, Text,
  ok, arith,
}
use l2s_m.Base.Dict
use l2s_m.Base.Dict.{Dict}
use l2s_m.Net.{Ip, IpNet, Ipv6, contains, in_v6}
use l2s_m.Net.Parse.{parse_cidr, print_ip, print_dotted}
use l2s_m.Net.Printed.{print_ip-in_v6}
use l2s_m.Controller.NextIp.{bump, search, search_from, last_ip, get_next_available_ip, seen_net}
use l2s_m.Controller.NextIp.Search.{search_sound}
use l2s_m.Controller.NextIp.Results.{found-ok, next_eq}

search_stays :
    (v6 : Ipv6) (assigned : Dict Text) (net : IpNet) (fuel a b c e : ℕ) (ip : Ip)
    → e < 256
    → search v6 assigned false net fuel (in_v6 (a ∷ b ∷ c ∷ e ∷ [])) ≡ some (ok ip)
    → (k : ℕ) × (k < 256) × (ip ≡ in_v6 (a ∷ b ∷ c ∷ k ∷ []))
unfolding search bump in_v6 seen_net
search_stays v6 assigned net zero a b c e ip h r = absurd (ground arith)
search_stays v6 assigned net (suc fuel) a b c e ip h r =
    elim (Bool-cases (contains net (in_v6 (a ∷ b ∷ c ∷ e ∷ [])))) [
      | inr q ↦ absurd (ground arith)
      | inl q ↦
          elim (Bool-cases (Dict.contains (print_ip v6 (in_v6 (a ∷ b ∷ c ∷ e ∷ []))) assigned)) [
            | inl q2 ↦
                search_stays v6 assigned net fuel a b c ((e + 1) % 256) ip (omega arith)
                  (ground arith)
            | inr q2 ↦ (e, h, ground arith)
          ]
    ]

-- An address found behind an earlier IPv4 address is not assigned, and differs from the earlier one at
-- most in its last byte.
pub get_next_available_ip_dotted :
    (v6 : Ipv6) (assigned : Dict Text) (cidr : Text) (m : Ip) (net : IpNet) (fuel : ℕ)
    (last mask t : Text) (a b c d : ℕ)
    → (a < 256) × (b < 256) × (c < 256)
    → parse_cidr v6 cidr ≡ some (m, net)
    → last_ip v6 last ≡ some (in_v6 (a ∷ b ∷ c ∷ d ∷ []))
    → get_next_available_ip v6 assigned fuel cidr last ≡ some (ok (t, mask))
    → (k : ℕ) × (k < 256)
      × (t ≡ print_dotted (a ∷ b ∷ c ∷ k ∷ []))
      × (Dict.contains t assigned ≡ false)
unfolding search_from bump in_v6 seen_net
get_next_available_ip_dotted v6 assigned cidr m net fuel last mask t a b c d (ha, hb, hc) p l h =
    let prev = in_v6 (a ∷ b ∷ c ∷ d ∷ []) in
    let (ip, r, printed, _) =
      found-ok v6 net.ones (search_from v6 assigned fuel net (some prev)) t mask
        (sym (next_eq v6 assigned cidr m net p fuel last (some prev) l) ∙ h) in
    let (free, _) = search_sound v6 assigned false net fuel (bump prev) ip r in
    let (k, small, same) =
      search_stays v6 assigned net fuel a b c ((d + 1) % 256) ip (omega arith) r in
    (
      k,
      small,
      printed ∙ ap (print_ip v6) same ∙ print_ip-in_v6 a b c k (ha, hb, hc, small) v6,
      rw printed free,
    )
