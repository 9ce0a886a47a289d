-- ===== src/Net.antt =====
-- What the program uses of Go's package net: addresses as 4 or 16 bytes, prefixes, `To4`,
-- `Contains`, `ParseIP`, `ParseCIDR` and `IP.String`. The dotted form is computed here; the
-- colon form of IPv6 is a parameter (`Ipv6`).
pub mod Parse
pub mod Laws
pub mod Printed
use l2s_m.Base.{
  ℕ, zero, suc, ◌+◌, ◌-◌, ◌*◌, ◌/◌, ◌%◌, ◌^◌, Bool, true, false, ◌&&◌, List, [], ◌∷◌, ◌++◌, Option,
  none, some, ltb, leb, ◌==◌, if◌then◌else◌, Text, length,
}

abbrev pub Ip : Type 0
Ip = List ℕ

-- `net.IPNet` with a canonical mask of `ones` leading ones over all the bytes of `ip`.
pub record IpNet : Type 0 where
  pub ip : Ip
  pub ones : ℕ

-- The colon form of an IPv6 address, read and printed by the net package.
pub record Ipv6 : Type 0 where
  pub parse_addr : Text → Option Ip
  pub print_addr : Ip → Text

-- `v4InV6Prefix` and the four bytes
unfoldable pub in_v6 : Ip → Ip
in_v6 a = 0 ∷ 0 ∷ 0 ∷ 0 ∷ 0 ∷ 0 ∷ 0 ∷ 0 ∷ 0 ∷ 0 ∷ 255 ∷ 255 ∷ a

-- The last four bytes of an address that is IPv4 in IPv6.
unfoldable pub strip_v6 : ℕ → Ip → Option Ip
strip_v6 zero (a ∷ b ∷ bs) = if a == 255 && b == 255 then some bs else none
strip_v6 zero _ = none
strip_v6 (suc n) [] = none
strip_v6 (suc n) (b ∷ bs) = let rest = strip_v6 n bs in if b == 0 then rest else none

-- `IP.To4`
unfoldable pub to4 : Ip → Option Ip
unfolding strip_v6
to4 (a ∷ b ∷ c ∷ d ∷ []) = some (a ∷ b ∷ c ∷ d ∷ [])
to4 ip = if length ip == 16 then strip_v6 10 ip else none

-- The shorter form, as `Contains` compares it.
unfoldable pub shorter : Ip → Ip
unfolding to4
shorter ip = elim (to4 ip) [ none ↦ ip | some v4 ↦ v4 ]

-- `IP.Mask` with `CIDRMask(ones, …)`
unfoldable pub mask : ℕ → Ip → Ip
mask ones [] = []
mask ones (b ∷ bs) = (b / 2 ^ (8 - ones) * 2 ^ (8 - ones)) ∷ mask (ones - 8) bs

-- The bytes agree under the mask.
unfoldable pub agree : ℕ → Ip → Ip → Bool
agree ones [] [] = true
agree ones (a ∷ as') (b ∷ bs) =
    (a / 2 ^ (8 - ones) == b / 2 ^ (8 - ones)) && agree (ones - 8) as' bs
agree ones _ _ = false

-- The ones of the mask over the bytes that `Contains` compares: of a mask of 16 bytes over an address
-- that is IPv4 in IPv6, only the last four bytes count (`networkNumberAndMask`).
unfoldable pub compared_ones : IpNet → ℕ
unfolding shorter
compared_ones n = if length n.ip == 16 && length (shorter n.ip) == 4 then n.ones - 96 else n.ones

-- `IPNet.Contains`
unfoldable pub contains : IpNet → Ip → Bool
unfolding compared_ones agree
contains n ip = agree (compared_ones n) (shorter n.ip) (shorter ip)
