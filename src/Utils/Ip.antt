-- ===== src/Utils/Ip.antt =====
-- internal/utils/ip.go: `AllocateIPv4s` and the two conversions it uses. `int` is ℤ: the two
-- arguments may have any sign, and their sum wraps at 64 bits.
pub mod Convert
pub mod Allocate
mod Tests
use l2s_m.Base.{
  ℕ, zero, suc, ◌+◌, ◌-◌, ◌*◌, ◌/◌, ◌%◌, ◌^◌, Bool, true, false, ◌&&◌, not, List, [], ◌∷◌, Option,
  none, some, leb, ◌==◌, if◌then◌else◌, Text, decimal, length, Result, ok, err, ◌>>=◌, ◌>>◌, guard,
  or_err,
}
use l2s_m.Base.Int.{ℤ, pos, pos_part, ltb_ℤ, int64}
use l2s_m.Net.{Ip, Ipv6, to4}
use l2s_m.Net.Parse.{parse_cidr, print_ip}

pub data IpError : Type 0 where
  count_not_positive start_too_small invalid_cidr not_ipv4 bad_mask_size cidr_too_small : IpError
  out_of_range : ℤ → ℕ → IpError

-- `binary.BigEndian.Uint32` of the four bytes
unfoldable pub big_endian : Ip → Option ℕ
big_endian (a ∷ b ∷ c ∷ d ∷ []) = some (a * 2 ^ 24 + b * 2 ^ 16 + c * 2 ^ 8 + d)
big_endian _ = none

unfoldable pub ipv4_to_uint32 : Ip → Result IpError ℕ
unfolding to4 big_endian
ipv4_to_uint32 ip = do v4 ← or_err (to4 ip) not_ipv4; or_err (big_endian v4) not_ipv4

unfoldable pub uint32_to_ipv4 : ℕ → Ip
uint32_to_ipv4 n = (n / 2 ^ 24 % 256) ∷ (n / 2 ^ 16 % 256) ∷ (n / 2 ^ 8 % 256) ∷ (n % 256) ∷ []

module _ (v6 : Ipv6) where
  -- The loop: `rounds` addresses from host offset `offset` on.
  unfoldable pub hosts : ℕ → ℕ → ℕ → List Text
  hosts base offset zero = []
  hosts base offset (suc rounds) =
      print_ip v6 (uint32_to_ipv4 ((base + offset % 2 ^ 32) % 2 ^ 32))
      ∷ hosts base (offset + 1) rounds

  unfoldable pub allocate_ipv4s : Text → ℤ → ℤ → Result IpError (List Text × Text)
  allocate_ipv4s cidr ip_start count = do
    guard (ltb_ℤ (pos 0) count) count_not_positive
    guard (ltb_ℤ (pos 0) ip_start) start_too_small
    parsed ← or_err (parse_cidr v6 cidr) invalid_cidr
    base ← or_err (to4 (parsed.0)) not_ipv4
    let ones = parsed.1.ones
    guard (8 * length (parsed.1.ip) == 32) bad_mask_size
    let total = 2 ^ (32 - ones)
    guard (leb 4 total) cidr_too_small
    let max_host = total - 2
    let last_host = int64 (pos_part ip_start + pos_part count - 1)
    guard (not (ltb_ℤ ip_start (pos 1)) && not (ltb_ℤ (pos max_host) last_host))
        (out_of_range ip_start max_host)
    base_u ← ipv4_to_uint32 base
    ok (hosts base_u (pos_part ip_start) (pos_part count), b'/' ∷ decimal ones)
