-- ===== src/Net/Parse.antt =====
-- Reading and printing addresses and prefixes.
use l2s_m.Base.{
  ℕ, ◌≡◌, refl, Bool, true, ◌&&◌, [], ◌∷◌, ◌++◌, Option, none, some, ltb, leb, ◌==◌, if◌then◌else◌,
  Text, codes, length, decimal, value, is_empty,
}
use l2s_m.Net.{Ip, IpNet, Ipv6, in_v6, to4, mask}

infixl 5 ◌>>=◌
abbrev ◌>>=◌ : {A B : Type 0} → Option A → (A → Option B) → Option B
none >>= f = none
some a >>= f = f a

-- The text before the first `sep` and the text behind it.
unfoldable pub cut : ℕ → Text → Text → Option (Text × Text)
cut sep before [] = none
cut sep before (c ∷ s) =
    let rest = cut sep (before ++ c ∷ []) s in if c == sep then some (before, s) else rest

unfoldable pub all_digits : Text → Bool
all_digits [] = true
all_digits (c ∷ s) = leb b'0' c && leb c b'9' && all_digits s

-- One field of a dotted address: no empty field, no leading zero, at most 255.
unfoldable pub parse_octet : Text → Option ℕ
unfolding all_digits value
parse_octet [] = none
parse_octet (c ∷ s) =
    if all_digits (c ∷ s) && leb (length (c ∷ s)) 3 && leb (value 0 (c ∷ s)) 255
    then if c == b'0' && ltb 0 (length s) then none else some (value 0 (c ∷ s))
    else none

unfoldable pub parse_dotted : Text → Option Ip
unfolding cut parse_octet
parse_dotted s = do
  (t0, s1) ← cut b'.' [] s
  (t1, s2) ← cut b'.' [] s1
  (t2, t3) ← cut b'.' [] s2
  a ← parse_octet t0
  b ← parse_octet t1
  c ← parse_octet t2
  d ← parse_octet t3
  some (a ∷ b ∷ c ∷ d ∷ [])

-- The prefix length behind the slash.
unfoldable pub parse_bits : ℕ → Text → Option ℕ
unfolding all_digits value is_empty
parse_bits most s =
    if is_empty s
    then none
    else if all_digits s && leb (value 0 s) most
    then some (value 0 s)
    else none

unfoldable pub print_dotted : Ip → Text
unfolding decimal
print_dotted [] = []
print_dotted (b ∷ []) = decimal b
print_dotted (b ∷ c ∷ bs) = decimal b ++ b'.' ∷ print_dotted (c ∷ bs)

module _ (v6 : Ipv6) where
  -- `net.ParseIP`: 16 bytes in either case
  unfoldable pub parse_ip : Text → Option Ip
  unfolding parse_dotted in_v6
  parse_ip s = elim (parse_dotted s) [ some a ↦ some (in_v6 a) | none ↦ v6.parse_addr s ]

  -- `net.ParseCIDR`
  unfoldable pub parse_cidr : Text → Option (Ip × IpNet)
  unfolding cut parse_dotted parse_bits in_v6 mask
  parse_cidr s = do
    (addr, bits) ← cut b'/' [] s
    elim (parse_dotted addr) [
      | some a ↦ do
        ones ← parse_bits 32 bits
        some (in_v6 a, record { ip = mask ones a; ones = ones })
      | none ↦ do
        a ← v6.parse_addr addr
        ones ← parse_bits 128 bits
        some (a, record { ip = mask ones a; ones = ones })
    ]

  -- `IP.String`
  unfoldable pub print_ip : Ip → Text
  unfolding to4 print_dotted
  print_ip ip = elim (to4 ip) [ some a ↦ print_dotted a | none ↦ v6.print_addr ip ]

abbrev pub no_v6 : Ipv6
no_v6 = record { parse_addr = λ s. none; print_addr = λ a. [] }

cidr_test :
    parse_cidr no_v6 (codes "10.101.2.9/20")
    ≡ some (in_v6 (10 ∷ 101 ∷ 2 ∷ 9 ∷ []), record { ip = 10 ∷ 101 ∷ 0 ∷ 0 ∷ []; ones = 20 })
unfolding parse_cidr in_v6
cidr_test = refl

print_test : print_ip no_v6 (in_v6 (10 ∷ 0 ∷ 0 ∷ 255 ∷ [])) ≡ codes "10.0.0.255"
unfolding print_ip in_v6
print_test = refl
