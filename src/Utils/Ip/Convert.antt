-- ===== src/Utils/Ip/Convert.antt =====
-- The two conversions are inverse to each other, and printed addresses differ.
use l2s_m.Base.{
  ℕ, ◌/◌, ◌%◌, ◌^◌, ◌<◌, ◌≡◌, ◌∷◌, [], ◌++◌, ok, arith, Text, All, decimal, decimal-injective,
  decimal-IsDigit, IsDigit,
}
use l2s_m.Net.{Ipv6, to4}
use l2s_m.Net.Parse.{print_dotted, print_ip}
use l2s_m.Utils.Ip.{ipv4_to_uint32, uint32_to_ipv4}

-- Four bytes, each below 256, come back from the number that ipv4ToUint32 makes of them.
pub uint32_to_ipv4-ipv4_to_uint32 :
    (a b c d : ℕ) {n : ℕ}
    → a < 256
    → b < 256
    → c < 256
    → d < 256
    → ipv4_to_uint32 (a ∷ b ∷ c ∷ d ∷ []) ≡ ok n
    → uint32_to_ipv4 n ≡ a ∷ b ∷ c ∷ d ∷ []
unfolding ipv4_to_uint32 uint32_to_ipv4
uint32_to_ipv4-ipv4_to_uint32 a b c d ha hb hc hd e = ground arith

-- A 32-bit number comes back from the address that uint32ToIPv4 makes of it.
pub ipv4_to_uint32-uint32_to_ipv4 : (n : ℕ) → n < 2 ^ 32 → ipv4_to_uint32 (uint32_to_ipv4 n) ≡ ok n
unfolding ipv4_to_uint32 uint32_to_ipv4
ipv4_to_uint32-uint32_to_ipv4 n h = ground arith

-- Digits end at the first dot.
dot_split :
    (p q s t : Text)
    → All IsDigit p
    → All IsDigit q
    → p ++ b'.' ∷ s ≡ q ++ b'.' ∷ t
    → (p ≡ q) × (s ≡ t)
dot_split [] [] s t hp hq e = ground arith
dot_split [] (d ∷ q) s t hp hq e = ground arith
dot_split (c ∷ p) [] s t hp hq e = ground arith
dot_split (c ∷ p) (d ∷ q) s t hp hq e = ground (arith, dot_split p q s t hp.1 hq.1)

field : (a b : ℕ) (s t : Text) → decimal a ++ b'.' ∷ s ≡ decimal b ++ b'.' ∷ t → (a ≡ b) × (s ≡ t)
field a b s t e =
    let (p, q) = dot_split (decimal a) (decimal b) s t (decimal-IsDigit a) (decimal-IsDigit b) e in
    (decimal-injective a b p, q)

print_dotted-injective :
    (a b c d a' b' c' d' : ℕ)
    → print_dotted (a ∷ b ∷ c ∷ d ∷ []) ≡ print_dotted (a' ∷ b' ∷ c' ∷ d' ∷ [])
    → (a ≡ a') × (b ≡ b') × (c ≡ c') × (d ≡ d')
unfolding print_dotted
print_dotted-injective a b c d a' b' c' d' e =
    let (p, e1) = field a a' _ _ e in
    let (q, e2) = field b b' _ _ e1 in
    let (r, e3) = field c c' _ _ e2 in (p, q, r, decimal-injective d d' e3)

-- Two IPv4 addresses with the same text are the same address.
pub print_ip-injective :
    (v6 : Ipv6) (m n : ℕ)
    → m < 2 ^ 32
    → n < 2 ^ 32
    → print_ip v6 (uint32_to_ipv4 m) ≡ print_ip v6 (uint32_to_ipv4 n)
    → m ≡ n
unfolding print_ip to4 uint32_to_ipv4
print_ip-injective v6 m n hm hn e =
    let (p, q, r, s) =
      print_dotted-injective (m / 2 ^ 24 % 256) (m / 2 ^ 16 % 256) (m / 2 ^ 8 % 256) (m % 256)
        (n / 2 ^ 24 % 256) (n / 2 ^ 16 % 256) (n / 2 ^ 8 % 256) (n % 256) e in
    omega arith
