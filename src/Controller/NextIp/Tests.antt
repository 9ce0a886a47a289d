-- ===== src/Controller/NextIp/Tests.antt =====
-- Runs of the address search.
use l2s_m.Base.{
  ℕ, zero, suc, ◌+◌, ◌<◌, ◌≡◌, ◌≢◌, refl, [], ◌∷◌, ◌&&◌, Bool, true, false, Text, codes, text_eq,
  is_empty, Bool-cases, inl, inr, ◌==◌, ==_iff, some, none, ok, decimal, arith,
}
use l2s_m.Base.Dict
use l2s_m.Base.Dict.{Dict}
use l2s_m.Net.{Ip, IpNet, in_v6, contains}
use l2s_m.Net.Parse.{parse_cidr, print_ip, parse_ip, no_v6}
use l2s_m.Controller.NextIp.{last_ip, search, search_from, seen_net, bump, get_next_available_ip}
use l2s_m.Controller.NextIp.Search.{with_last, is_assigned}
use l2s_m.Controller.NextIp.Results.{
  get_next_available_ip_free, get_next_available_ip_ends, get_next_available_ip_hangs,
  get_next_available_ip_escapes,
}

abbrev cidr24 : Text
cidr24 = codes "10.0.0.0/24"

abbrev net24 : IpNet
net24 = record { ip = 10 ∷ 0 ∷ 0 ∷ 0 ∷ []; ones = 24 }

abbrev zero24 : Ip
zero24 = in_v6 (10 ∷ 0 ∷ 0 ∷ 0 ∷ [])

parsed24 : parse_cidr no_v6 cidr24 ≡ some (zero24, net24)
unfolding parse_cidr in_v6
parsed24 = refl

abbrev last24 : Text
last24 = codes "10.0.0.1"

abbrev prev24 : Ip
prev24 = in_v6 (10 ∷ 0 ∷ 0 ∷ 1 ∷ [])

last24_test : last_ip no_v6 last24 ≡ some prev24
unfolding last_ip parse_ip is_empty in_v6
last24_test = refl

abbrev one_assigned : Dict Text
one_assigned = (codes "10.0.0.2", codes "p") ∷ []

run24 :
    get_next_available_ip no_v6 one_assigned 256 cidr24 last24
    ≡ some (ok (codes "10.0.0.3", codes "/24"))
unfolding get_next_available_ip parse_cidr parse_ip search_from last_ip search contains seen_net
    bump Dict.contains text_eq print_ip
run24 = refl

get_next_available_ip_free_example :
    (ip : Ip) × (codes "10.0.0.3" ≡ print_ip no_v6 ip)
    × (Dict.contains (codes "10.0.0.3") one_assigned ≡ false)
    × (contains net24 ip ≡ true)
    × (codes "/24" ≡ b'/' ∷ decimal 24)
get_next_available_ip_free_example =
    get_next_available_ip_free no_v6 one_assigned cidr24 zero24 net24 parsed24 256 last24
      (codes "/24") prev24 (codes "10.0.0.3") last24_test run24

free24_test : is_assigned no_v6 one_assigned (with_last 9 prev24) ≡ false
unfolding with_last in_v6 print_ip Dict.contains text_eq
free24_test = refl

get_next_available_ip_ends_example :
    get_next_available_ip no_v6 one_assigned 256 cidr24 last24 ≢ none
get_next_available_ip_ends_example =
    get_next_available_ip_ends no_v6 one_assigned cidr24 zero24 net24 parsed24 last24 prev24 9
      last24_test (omega arith) free24_test

-- All 256 addresses of 10.0.0.0/24.
unfoldable every : ℕ → Dict Text
every zero = []
every (suc n) = (print_ip no_v6 (10 ∷ 0 ∷ 0 ∷ n ∷ []), codes "p") ∷ every n

unfoldable all_below : ℕ → (ℕ → Bool) → Bool
all_below zero f = true
all_below (suc n) f = f n && all_below n f

all_below_lem : (n : ℕ) (f : ℕ → Bool) → all_below n f ≡ true → (x : ℕ) → x < n → f x ≡ true
unfolding all_below
all_below_lem zero f h x lt = elim lt [ ]
all_below_lem (suc n) f h x lt = elim (Bool-cases (x == n)) [
  | inl e ↦ let same : x ≡ n = omega (arith, (==_iff x n).0 e) in rw same (ground arith)
  | inr e ↦ all_below_lem n f (ground arith) x (grind arith)
]

full_test : all_below 256 (λ x. is_assigned no_v6 (every 256) (with_last x prev24)) ≡ true
unfolding all_below every with_last in_v6 print_ip Dict.contains text_eq
full_test = refl

inside_test : all_below 256 (λ x. contains net24 (with_last x prev24)) ≡ true
unfolding all_below with_last in_v6 contains
inside_test = refl

get_next_available_ip_hangs_example :
    get_next_available_ip no_v6 (every 256) 100000 cidr24 last24 ≡ none
get_next_available_ip_hangs_example =
    get_next_available_ip_hangs no_v6 (every 256) cidr24 zero24 net24 parsed24 100000 last24 prev24
      last24_test
      (all_below_lem 256 (λ x. is_assigned no_v6 (every 256) (with_last x prev24)) full_test)
      (all_below_lem 256 (λ x. contains net24 (with_last x prev24)) inside_test)

abbrev cidr30 : Text
cidr30 = codes "10.0.0.0/30"

abbrev net30 : IpNet
net30 = record { ip = 10 ∷ 0 ∷ 0 ∷ 0 ∷ []; ones = 30 }

parsed30 : parse_cidr no_v6 cidr30 ≡ some (zero24, net30)
unfolding parse_cidr in_v6
parsed30 = refl

empty_test : last_ip no_v6 [] ≡ none
unfolding last_ip is_empty
empty_test = refl

three_test : all_below 3 (λ i. is_assigned no_v6 (every 4) (10 ∷ 0 ∷ 0 ∷ (0 + 1 + i) ∷ [])) ≡ true
unfolding all_below every print_ip Dict.contains text_eq
three_test = refl

behind_test : (i : ℕ) → i < 3 → is_assigned no_v6 (every 4) (10 ∷ 0 ∷ 0 ∷ (0 + 1 + i) ∷ []) ≡ true
behind_test =
    all_below_lem 3 (λ i. is_assigned no_v6 (every 4) (10 ∷ 0 ∷ 0 ∷ (0 + 1 + i) ∷ [])) three_test

free30_test : is_assigned no_v6 (every 4) (10 ∷ 0 ∷ 0 ∷ (0 + 4) ∷ []) ≡ false
unfolding every print_ip Dict.contains text_eq
free30_test = refl

get_next_available_ip_escapes_example :
    (get_next_available_ip no_v6 (every 4) 10 cidr30 []
      ≡ some (ok (print_ip no_v6 (10 ∷ 0 ∷ 0 ∷ (0 + 4) ∷ []), b'/' ∷ decimal 30)))
    × (contains net30 (10 ∷ 0 ∷ 0 ∷ (0 + 4) ∷ []) ≡ false)
get_next_available_ip_escapes_example =
    get_next_available_ip_escapes no_v6 (every 4) cidr30 zero24 net30 parsed30 10 0 0 0 4 10 []
      empty_test refl (omega arith, omega arith, refl) (omega arith) (omega arith) behind_test
      free30_test
