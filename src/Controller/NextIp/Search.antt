-- ===== src/Controller/NextIp/Search.antt =====
-- The search loop: it walks round the 256 values of the last byte.
use l2s_m.Base.{
  ℕ, zero, suc, ◌+◌, ◌-◌, ◌%◌, ◌<◌, ◌≡◌, ◌≢◌, refl, ap, ◌∙◌, Bool, true, false, [], ◌∷◌, none, some,
  Text, ok, arith, ◌&&◌,
}
use l2s_m.Base.Dict
use l2s_m.Base.Dict.{Dict}
use l2s_m.Net.{Ip, IpNet, Ipv6, contains, compared_ones, agree, shorter}
use l2s_m.Net.Parse.{print_ip}
use l2s_m.Controller.NextIp.{bump, seen_net, search}

-- `ip` after `n` rounds.
pub bumped : ℕ → Ip → Ip
bumped zero ip = ip
bumped (suc n) ip = bumped n (bump ip)

-- The address with another last byte.
unfoldable pub with_last : ℕ → Ip → Ip
with_last x [] = []
with_last x (b ∷ []) = x ∷ []
with_last x (b ∷ c ∷ bs) = b ∷ with_last x (c ∷ bs)

pub last_byte : Ip → ℕ
last_byte [] = 0
last_byte (b ∷ []) = b
last_byte (b ∷ c ∷ bs) = last_byte (c ∷ bs)

with_last-bump : (x : ℕ) (ip : Ip) → with_last x (bump ip) ≡ with_last x ip
unfolding with_last bump
with_last-bump x [] = refl
with_last-bump x (b ∷ []) = refl
with_last-bump x (b ∷ c ∷ []) = refl
with_last-bump x (b ∷ c ∷ d ∷ bs) = ap (λ (t : Ip). b ∷ t) (with_last-bump x (c ∷ d ∷ bs))

bump-with_last : (ip : Ip) → bump ip ≡ with_last ((last_byte ip + 1) % 256) ip
unfolding with_last bump last_byte
bump-with_last [] = refl
bump-with_last (b ∷ []) = refl
bump-with_last (b ∷ c ∷ bs) = ap (λ (t : Ip). b ∷ t) (bump-with_last (c ∷ bs))

last_byte-bump : (b : ℕ) (bs : Ip) → last_byte (bump (b ∷ bs)) ≡ (last_byte (b ∷ bs) + 1) % 256
unfolding last_byte bump
last_byte-bump b [] = refl
last_byte-bump b (c ∷ []) = refl
last_byte-bump b (c ∷ d ∷ bs) = last_byte-bump c (d ∷ bs)

one_more :
    (n : ℕ) (ip : Ip)
    → with_last ((last_byte (bump ip) + 1 + n) % 256) ip
      ≡ with_last ((last_byte ip + 1 + suc n) % 256) ip
unfolding with_last
one_more n [] = refl
one_more n (b ∷ bs) = ap (λ (x : ℕ). with_last x (b ∷ bs)) (omega (arith, last_byte-bump b bs))

bumped-bump : (n : ℕ) (ip : Ip) → bumped n (bump ip) ≡ with_last ((last_byte ip + 1 + n) % 256) ip
unfolding bumped
bumped-bump zero ip =
    let e : last_byte ip + 1 + 0 ≡ last_byte ip + 1 = omega arith in rw e (bump-with_last ip)
bumped-bump (suc n) ip = bumped-bump n (bump ip) ∙ with_last-bump _ ip ∙ one_more n ip

-- Every value of the last byte comes up within 256 rounds.
ring : (x : ℕ) (ip : Ip) → x < 256 → (n : ℕ) × (n < 256) × (bumped n (bump ip) ≡ with_last x ip)
ring x ip lt =
    let m = last_byte ip + 1 in
    let n = (x + 256 - m % 256) % 256 in
    let e : (m + n) % 256 ≡ x = omega arith in
    (n, omega arith, bumped-bump n ip ∙ ap (λ (y : ℕ). with_last y ip) e)

agree_self : (ones : ℕ) (ip : Ip) → agree ones ip ip ≡ true
unfolding agree
agree_self ones [] = refl
agree_self ones (b ∷ bs) = ground (arith, agree_self (ones - 8) bs)

-- On shared bytes the test always passes.
pub contains_shared : (net : IpNet) (ip : Ip) → contains (seen_net true net ip) ip ≡ true
unfolding contains seen_net
contains_shared net ip = agree_self (compared_ones (seen_net true net ip)) (shorter ip)

module _ (v6 : Ipv6) (assigned : Dict Text) where
  abbrev pub is_assigned : Ip → Bool
  is_assigned ip = Dict.contains (print_ip v6 ip) assigned

  -- What is found is free, and passed the test.
  pub search_sound :
      (shared : Bool) (net : IpNet) (fuel : ℕ) (ip r : Ip)
      → search v6 assigned shared net fuel ip ≡ some (ok r)
      → (is_assigned r ≡ false) × (contains (seen_net shared net r) r ≡ true)
  unfolding search
  search_sound shared net zero ip r h = cc
  search_sound shared net (suc fuel) ip r h =
      ground (arith, search_sound shared net fuel (bump ip) r)

  -- The loop ends by round `n` if it meets a free address, or leaves the network, there.
  pub search_ends :
      (shared : Bool) (net : IpNet) (n fuel : ℕ) (ip : Ip)
      → n < fuel
      → is_assigned (bumped n ip) && contains (seen_net shared net (bumped n ip)) (bumped n ip)
        ≡ false
      → search v6 assigned shared net fuel ip ≢ none
  unfolding search bumped
  search_ends shared net n zero ip lt h = elim lt [ ]
  search_ends shared net zero (suc fuel) ip lt h = ground arith
  search_ends shared net (suc n) (suc fuel) ip lt h =
      ground (arith, search_ends shared net n fuel (bump ip) (omega arith) h)

  -- 256 rounds are enough if one of the 256 addresses that differ in the last byte is free.
  pub search_ends_ring :
      (shared : Bool) (net : IpNet) (x : ℕ) (ip : Ip)
      → x < 256
      → is_assigned (with_last x ip) ≡ false
      → search v6 assigned shared net 256 (bump ip) ≢ none
  search_ends_ring shared net x ip lt free =
      let (n, below, e) = ring x ip lt in
      let there : is_assigned (bumped n (bump ip)) ≡ false = rw e free in
      search_ends shared net n 256 (bump ip) below (rw there refl)

  -- With every address assigned and inside, no fuel is enough.
  pub search_hangs :
      (shared : Bool) (net : IpNet) (fuel : ℕ) (ip : Ip)
      → ((x : ℕ) → x < 256 → is_assigned (with_last x ip) ≡ true)
      → ((x : ℕ)
          → x < 256
          → contains (seen_net shared net (with_last x ip)) (with_last x ip) ≡ true)
      → search v6 assigned shared net fuel (bump ip) ≡ none
  unfolding search
  search_hangs shared net zero ip h k = refl
  search_hangs shared net (suc fuel) ip h k =
      let y = (last_byte ip + 1) % 256 in
      let e = bump-with_last ip in
      let here : is_assigned (bump ip) ≡ true = rw e (h y (omega arith)) in
      let inside : contains (seen_net shared net (bump ip)) (bump ip) ≡ true =
        rw e (k y (omega arith)) in
      let rest =
        search_hangs shared net fuel (bump ip) (λ x lt. rw (with_last-bump x ip) (h x lt))
          (λ x lt. rw (with_last-bump x ip) (k x lt)) in
      rw (inside, here) rest

  -- On shared bytes the loop returns the first free address, wherever it lies.
  pub search_reaches :
      (net : IpNet) (a b c n d fuel : ℕ)
      → n < fuel
      → d + n < 256
      → ((i : ℕ) → i < n → is_assigned (a ∷ b ∷ c ∷ (d + i) ∷ []) ≡ true)
      → is_assigned (a ∷ b ∷ c ∷ (d + n) ∷ []) ≡ false
      → search v6 assigned true net fuel (a ∷ b ∷ c ∷ d ∷ []) ≡ some (ok (a ∷ b ∷ c ∷ (d + n) ∷ []))
  unfolding search bump
  search_reaches net a b c n d zero lt room full free = elim lt [ ]
  search_reaches net a b c zero d (suc fuel) lt room full free =
      let e : d + 0 ≡ d = omega arith in
      rw e (rw (contains_shared net (a ∷ b ∷ c ∷ d ∷ []), (rw e at free)) refl)
  search_reaches net a b c (suc n) d (suc fuel) lt room full free =
      let e : d + 0 ≡ d = omega arith in
      let wrap : (d + 1) % 256 ≡ d + 1 = omega arith in
      let shift : (i : ℕ) → d + 1 + i ≡ d + suc i = λ i. omega arith in
      let rest =
        search_reaches net a b c n (d + 1) fuel (omega arith) (omega arith)
          (λ i h. rw (shift i) (full (suc i) (omega arith))) (rw (shift n) free) in
      rw (contains_shared net (a ∷ b ∷ c ∷ d ∷ []), (rw e at (full 0 (omega arith))), wrap)
        (rest ∙ ap (λ (x : ℕ). some (ok (a ∷ b ∷ c ∷ x ∷ []))) (shift n))
