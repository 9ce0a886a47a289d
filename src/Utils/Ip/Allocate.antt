-- ===== src/Utils/Ip/Allocate.antt =====
-- What `AllocateIPv4s` returns: which calls succeed, how many addresses come back and which.
use l2s_m.Base.{
  ℕ, zero, suc, ◌+◌, ◌-◌, ◌*◌, ◌/◌, ◌%◌, ◌^◌, ◌≤◌, ◌<◌, ◌≡◌, ◌≢◌, ◌↔◌, refl, sym, ap, ◌∙◌, ◌∷◌, [],
  List, some, ok, arith, Text, length, get_elem?, decimal,
}
use mathlib.Core.Option.{some-injective}
use native.Mathlib.Nat.{
  add-zero, pow-suc, one-le-pow, div-add-mod, mul-le-mul_left, mul-suc, zero-add, suc-add,
}
use l2s_m.Base.Int.{ℤ, pos_part}
use l2s_m.Net.{Ip, Ipv6, IpNet, to4}
use l2s_m.Net.Parse.{parse_cidr, print_ip}
use l2s_m.Utils.Ip.{big_endian, ipv4_to_uint32, uint32_to_ipv4, hosts, allocate_ipv4s}
use l2s_m.Utils.Ip.Convert.{print_ip-injective}

shift : (n i : ℕ) → n + suc i ≡ n + 1 + i
shift n i = omega arith

module _ (v6 : Ipv6) where
  length-hosts : (base offset rounds : ℕ) → length (hosts v6 base offset rounds) ≡ rounds
  unfolding hosts
  length-hosts base offset zero = refl
  length-hosts base offset (suc rounds) = ap suc (length-hosts base (offset + 1) rounds)

  get_elem?-hosts :
      (base offset rounds i : ℕ)
      → i < rounds
      → get_elem? (hosts v6 base offset rounds) i
        ≡ some (print_ip v6 (uint32_to_ipv4 ((base + (offset + i) % 2 ^ 32) % 2 ^ 32)))
  unfolding hosts
  get_elem?-hosts base offset zero i h = elim h [ ]
  get_elem?-hosts base offset (suc rounds) zero h = rw add-zero refl
  get_elem?-hosts base offset (suc rounds) (suc i) h =
      rw (get_elem?-hosts base (offset + 1) rounds i (omega arith)) (rw (shift offset i) refl)

four-le-pow : (k : ℕ) → (4 ≤ 2 ^ k) ↔ (2 ≤ k)
four-le-pow zero = ground arith
four-le-pow (suc zero) = ground arith
four-le-pow (suc (suc k)) = (
  λ _. omega arith,
  λ _. omega (arith, pow-suc 2 (suc k), pow-suc 2 k, one-le-pow k 2 (omega arith)),
)

pow-mul : (k j : ℕ) → 2 ^ k * 2 ^ j ≡ 2 ^ (k + j)
pow-mul zero j = rw zero-add (omega arith)
pow-mul (suc k) j =
    rw suc-add
      (omega (arith, ap (λ (t : ℕ). t * 2 ^ j) (pow-suc 2 k), pow-suc 2 (k + j), pow-mul k j))

-- A multiple of `p` below `p * q` has a whole block of `p` above it.
block : (u p q : ℕ) → u % p ≡ 0 → u < p * q → u + p ≤ p * q
block u p q e h =
    let below : u / p < q = omega (arith, below_all) in
    omega (arith, mul-le-mul_left p below, div-add-mod u p, mul-suc p (u / p))
  where
    below_all : q ≤ u / p → ⊥
    below_all g = omega (arith, mul-le-mul_left p g, div-add-mod u p)

in_block :
    (u ones : ℕ) → ones ≤ 32 → u < 2 ^ 32 → u % 2 ^ (32 - ones) ≡ 0 → u + 2 ^ (32 - ones) ≤ 2 ^ 32
in_block u ones h lt e =
    let whole = pow-mul (32 - ones) (32 - (32 - ones)) in
    let sum : 32 - ones + (32 - (32 - ones)) ≡ 32 = omega arith in
    let split : 2 ^ (32 - ones) * 2 ^ (32 - (32 - ones)) ≡ 2 ^ 32 =
      whole ∙ ap (λ (t : ℕ). 2 ^ t) sum in
    omega
      (arith, split, block u (2 ^ (32 - ones)) (2 ^ (32 - (32 - ones))) e (omega (arith, split)))

-- The inputs that the function accepts, stated with no code: both numbers positive, and an IPv4
-- prefix of at most 30 bits whose usable host numbers hold the whole range.
pub record Accepts (ip_start count : ℤ) (net : IpNet) : Type 0 where
  pub start_positive : 0 < pos_part ip_start
  pub count_positive : 0 < pos_part count
  pub is_v4 : length net.ip ≡ 4
  pub short : net.ones ≤ 30
  pub fits : pos_part ip_start + pos_part count - 1 ≤ 2 ^ (32 - net.ones) - 2

module _ (v6 : Ipv6) (cidr : Text) (ip_start count : ℤ) (ip : Ip) (net : IpNet) (a b c d : ℕ)
    (parsed : parse_cidr v6 cidr ≡ some (ip, net)) (v4 : to4 ip ≡ some (a ∷ b ∷ c ∷ d ∷ []))
    (small : pos_part ip_start + pos_part count ≤ 2 ^ 63) where
  allocate_ipv4s-Accepts :
      Accepts ip_start count net
      → allocate_ipv4s v6 cidr ip_start count
        ≡ ok (
          hosts v6 (a * 2 ^ 24 + b * 2 ^ 16 + c * 2 ^ 8 + d) (pos_part ip_start) (pos_part count),
          b'/' ∷ decimal net.ones,
        )
  unfolding allocate_ipv4s ipv4_to_uint32 to4 big_endian
  allocate_ipv4s-Accepts h = ground (arith, four-le-pow (32 - net.ones))

  ok-Accepts :
      (r : List Text × Text)
      → allocate_ipv4s v6 cidr ip_start count ≡ ok r
      → Accepts ip_start count net
  unfolding allocate_ipv4s ipv4_to_uint32 to4 big_endian
  ok-Accepts r h = ground (arith, four-le-pow (32 - net.ones))

  -- For a CIDR text that parses to an IPv4 address, and a range whose sum fits an int,
  -- AllocateIPv4s succeeds exactly if both numbers are positive, the prefix is an IPv4 prefix of
  -- at most 30 bits and the usable host numbers hold the whole range.
  pub allocate_ipv4s-ok_iff :
      ((r : List Text × Text) × (allocate_ipv4s v6 cidr ip_start count ≡ ok r))
      ↔ Accepts ip_start count net
  allocate_ipv4s-ok_iff = (λ h. ok-Accepts h.0 h.1, λ h. (_, allocate_ipv4s-Accepts h))

  -- The address of the CIDR text, as a number.
  abbrev base_u : ℕ
  base_u = a * 2 ^ 24 + b * 2 ^ 16 + c * 2 ^ 8 + d

  result_of_ok :
      (r : List Text × Text)
      → allocate_ipv4s v6 cidr ip_start count ≡ ok r
      → r ≡ (hosts v6 base_u (pos_part ip_start) (pos_part count), b'/' ∷ decimal net.ones)
  result_of_ok r h = cc (allocate_ipv4s-Accepts (ok-Accepts r h))

  -- Without wrap-around, the address at index `i` is base, start and `i` together.
  elem_of_ok :
      (r : List Text × Text)
      → allocate_ipv4s v6 cidr ip_start count ≡ ok r
      → (i : ℕ) → i < pos_part count
      → base_u + pos_part ip_start + i < 2 ^ 32
      → get_elem? r.0 i ≡ some (print_ip v6 (uint32_to_ipv4 (base_u + pos_part ip_start + i)))
  elem_of_ok r h i lt fits =
      let e : (base_u + (pos_part ip_start + i) % 2 ^ 32) % 2 ^ 32
          ≡ base_u + pos_part ip_start + i =
        omega arith in
      rw (result_of_ok r h) (
        rw (get_elem?-hosts v6 base_u _ _ i lt)
          (ap (λ (n : ℕ). some (print_ip v6 (uint32_to_ipv4 n))) e))

  module _ (bytes : (a < 256) × (b < 256) × (c < 256) × (d < 256)) where
    -- If AllocateIPv4s succeeds on a CIDR text that parses to an IPv4 address and holds the
    -- network address, with numbers whose sum fits an int, it returns as many addresses as were
    -- asked for, and the one at an index i is the network address plus start plus i, above the
    -- network address and below the broadcast address.
    pub allocate_ipv4s_usable :
        (r : List Text × Text) (i : ℕ)
        → allocate_ipv4s v6 cidr ip_start count ≡ ok r
        → base_u % 2 ^ (32 - net.ones) ≡ 0
        → i < pos_part count
        → (length r.0 ≡ pos_part count)
          × (get_elem? r.0 i ≡ some (print_ip v6 (uint32_to_ipv4 (base_u + pos_part ip_start + i))))
          × (base_u < base_u + pos_part ip_start + i)
          × (base_u + pos_part ip_start + i + 1 < base_u + 2 ^ (32 - net.ones))
    allocate_ipv4s_usable r i h network lt =
        let acc = ok-Accepts r h in
        let top = in_block base_u net.ones (omega arith) (omega arith) network in
        (
          rw (result_of_ok r h) (length-hosts v6 _ _ _),
          elem_of_ok r h i lt (omega arith),
          omega arith,
          omega arith,
        )

    -- If AllocateIPv4s succeeds on a CIDR text that parses to an IPv4 address and holds the
    -- network address, with numbers whose sum fits an int, the texts at two different indices
    -- differ.
    pub allocate_ipv4s_distinct :
        (r : List Text × Text)
        → allocate_ipv4s v6 cidr ip_start count ≡ ok r
        → base_u % 2 ^ (32 - net.ones) ≡ 0
        → (i j : ℕ) → i < pos_part count
        → j < pos_part count
        → i ≢ j
        → get_elem? r.0 i ≢ get_elem? r.0 j
    allocate_ipv4s_distinct r h network i j hi hj ne e =
        let acc = ok-Accepts r h in
        let top = in_block base_u net.ones (omega arith) (omega arith) network in
        let (_, ei, _, bi) = allocate_ipv4s_usable r i h network hi in
        let (_, ej, _, bj) = allocate_ipv4s_usable r j h network hj in
        let same =
          print_ip-injective v6 (base_u + pos_part ip_start + i) (base_u + pos_part ip_start + j)
            (omega (arith, bi)) (omega (arith, bj)) (some-injective _ _ (sym ei ∙ e ∙ ej)) in
        ne (omega (arith, same))

    -- If AllocateIPv4s succeeds on a CIDR text that parses to an IPv4 address, the range ends
    -- below the greatest address, and the host bits of the text together with the range reach
    -- past the block, the last address returned is the broadcast address or lies behind the
    -- block.
    pub allocate_ipv4s_escapes :
        (r : List Text × Text)
        → allocate_ipv4s v6 cidr ip_start count ≡ ok r
        → base_u + pos_part ip_start + pos_part count ≤ 2 ^ 32
        → 2 ^ (32 - net.ones) ≤ base_u % 2 ^ (32 - net.ones) + pos_part ip_start + pos_part count
        → (get_elem? r.0 (pos_part count - 1)
            ≡ some
                (print_ip v6 (uint32_to_ipv4 (base_u + pos_part ip_start + (pos_part count - 1)))))
          × (base_u - base_u % 2 ^ (32 - net.ones) + 2 ^ (32 - net.ones)
              ≤ base_u + pos_part ip_start + pos_part count)
    allocate_ipv4s_escapes r h room past =
        let acc = ok-Accepts r h in (elem_of_ok r h _ (omega arith) (omega arith), omega arith)
