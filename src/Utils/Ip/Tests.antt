-- ===== src/Utils/Ip/Tests.antt =====
-- Runs and instances.
use l2s_m.Base.{
  ◌≡◌, ◌≢◌, ◌↔◌, ◌<◌, ◌≤◌, refl, [], ◌∷◌, List, Text, codes, some, ok, ◌+◌, ◌*◌, ◌^◌, length,
  get_elem?, arith,
}
use l2s_m.Base.Int.{pos}
use l2s_m.Net.{Ip, IpNet, in_v6, to4}
use l2s_m.Net.Parse.{parse_cidr, print_ip, no_v6}
use l2s_m.Utils.Ip.{allocate_ipv4s, ipv4_to_uint32, uint32_to_ipv4, big_endian, hosts}
use l2s_m.Utils.Ip.Allocate.{
  Accepts, allocate_ipv4s-ok_iff, allocate_ipv4s_usable, allocate_ipv4s_distinct,
  allocate_ipv4s_escapes,
}

abbrev ten : Text
ten = codes "10.0.0.0/29"

abbrev ten_ip : Ip
ten_ip = in_v6 (10 ∷ 0 ∷ 0 ∷ 0 ∷ [])

abbrev ten_net : IpNet
ten_net = record { ip = 10 ∷ 0 ∷ 0 ∷ 0 ∷ []; ones = 29 }

ten_parsed : parse_cidr no_v6 ten ≡ some (ten_ip, ten_net)
unfolding parse_cidr
ten_parsed = refl

ten_v4 : to4 ten_ip ≡ some (10 ∷ 0 ∷ 0 ∷ 0 ∷ [])
unfolding to4 in_v6
ten_v4 = refl

abbrev two_hosts : List Text × Text
two_hosts = (codes "10.0.0.2" ∷ codes "10.0.0.3" ∷ [], codes "/29")

ten_run : allocate_ipv4s no_v6 ten (pos 2) (pos 2) ≡ ok two_hosts
unfolding allocate_ipv4s parse_cidr in_v6 print_ip uint32_to_ipv4 ipv4_to_uint32 hosts
ten_run = refl

allocate_ipv4s-ok_iff_example :
    ((r : List Text × Text) × (allocate_ipv4s no_v6 ten (pos 2) (pos 2) ≡ ok r))
    ↔ Accepts (pos 2) (pos 2) ten_net
allocate_ipv4s-ok_iff_example =
    allocate_ipv4s-ok_iff no_v6 ten (pos 2) (pos 2) ten_ip ten_net 10 0 0 0 ten_parsed ten_v4
      (omega arith)

allocate_ipv4s_usable_example :
    (length two_hosts.0 ≡ 2)
    × (get_elem? two_hosts.0 1 ≡ some (print_ip no_v6 (uint32_to_ipv4 (10 * 2 ^ 24 + 2 + 1))))
    × (10 * 2 ^ 24 < 10 * 2 ^ 24 + 2 + 1)
    × (10 * 2 ^ 24 + 2 + 1 + 1 < 10 * 2 ^ 24 + 2 ^ 3)
allocate_ipv4s_usable_example =
    allocate_ipv4s_usable no_v6 ten (pos 2) (pos 2) ten_ip ten_net 10 0 0 0 ten_parsed ten_v4
      (omega arith) (omega arith, omega arith, omega arith, omega arith) two_hosts 1 ten_run refl
      (omega arith)

allocate_ipv4s_distinct_example : get_elem? two_hosts.0 0 ≢ get_elem? two_hosts.0 1
allocate_ipv4s_distinct_example =
    allocate_ipv4s_distinct no_v6 ten (pos 2) (pos 2) ten_ip ten_net 10 0 0 0 ten_parsed ten_v4
      (omega arith) (omega arith, omega arith, omega arith, omega arith) two_hosts ten_run refl 0 1
      (omega arith) (omega arith) (omega arith)

-- A CIDR text with host bits: the base is 10.0.0.5, and the last address of 10.0.0.0/29 is 10.0.0.7.
abbrev five : Text
five = codes "10.0.0.5/29"

abbrev five_ip : Ip
five_ip = in_v6 (10 ∷ 0 ∷ 0 ∷ 5 ∷ [])

five_parsed : parse_cidr no_v6 five ≡ some (five_ip, ten_net)
unfolding parse_cidr
five_parsed = refl

five_v4 : to4 five_ip ≡ some (10 ∷ 0 ∷ 0 ∷ 5 ∷ [])
unfolding to4 in_v6
five_v4 = refl

abbrev outside : List Text × Text
outside = (codes "10.0.0.6" ∷ codes "10.0.0.7" ∷ codes "10.0.0.8" ∷ [], codes "/29")

five_run : allocate_ipv4s no_v6 five (pos 1) (pos 3) ≡ ok outside
unfolding allocate_ipv4s parse_cidr in_v6 print_ip uint32_to_ipv4 ipv4_to_uint32 hosts
five_run = refl

allocate_ipv4s_escapes_example :
    (get_elem? outside.0 2 ≡ some (print_ip no_v6 (uint32_to_ipv4 (10 * 2 ^ 24 + 5 + 1 + 2))))
    × (10 * 2 ^ 24 + 8 ≤ 10 * 2 ^ 24 + 5 + 1 + 3)
allocate_ipv4s_escapes_example =
    allocate_ipv4s_escapes no_v6 five (pos 1) (pos 3) five_ip ten_net 10 0 0 5 five_parsed five_v4
      (omega arith) (omega arith, omega arith, omega arith, omega arith) outside five_run
      (omega arith) (omega arith)

number_test : ipv4_to_uint32 (192 ∷ 168 ∷ 1 ∷ 1 ∷ []) ≡ ok 3232235777
unfolding ipv4_to_uint32 to4 big_endian
number_test = refl
