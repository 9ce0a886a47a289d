-- ===== src/Net/Printed.antt =====
-- A printed IPv4 prefix is read back.
use l2s_m.Base.{
  ℕ, zero, suc, ◌<◌, ◌≤◌, ◌≡◌, ◌≢◌, refl, inl, inr, Bool, Bool-cases, true, false, ◌&&◌, [], ◌∷◌,
  ◌++◌, append-nil, append_assoc, Option, none, some, ◌==◌, Text, All, All-append, IsDigit, decimal,
  decimal-IsDigit, decimal-ne-nil, value-decimal, is_empty_of_ne, arith,
}
use l2s_m.Net.{Ipv6, in_v6, mask}
use l2s_m.Net.Laws.{to4-in_v6}
use l2s_m.Net.Parse.{
  cut, all_digits, parse_octet, parse_dotted, parse_bits, print_dotted, parse_cidr, parse_ip,
  print_ip,
}

pub cut-append :
    (sep : ℕ) (before s t : Text)
    → All (λ c. c ≢ sep) s
    → cut sep before (s ++ sep ∷ t) ≡ some (before ++ s, t)
unfolding cut
cut-append sep before [] t h = ground (arith, append-nil before)
cut-append sep before (c ∷ s) t (n, h) =
    ground (arith, cut-append sep (before ++ c ∷ []) s t h, append_assoc before (c ∷ []) s)

digits_avoid : (sep : ℕ) (s : Text) → sep < b'0' → All IsDigit s → All (λ c. c ≢ sep) s
digits_avoid sep [] h ds = tt
digits_avoid sep (c ∷ s) h (d, ds) = (omega arith, digits_avoid sep s h ds)

all_digits-IsDigit : (s : Text) → All IsDigit s → all_digits s ≡ true
unfolding all_digits
all_digits-IsDigit [] h = refl
all_digits-IsDigit (c ∷ s) h = ground (arith, all_digits-IsDigit s h.1)

-- The 256 octets, one by one.
abbrev reads : ℕ → Bool
reads n = elim (parse_octet (decimal n)) [ none ↦ false | some m ↦ m == n ]

abbrev all_below : ℕ → (ℕ → Bool) → Bool
all_below zero p = true
all_below (suc n) p = p n && all_below n p

both : (x y : Bool) → (x && y) ≡ true → (x ≡ true) × (y ≡ true)
both true y h = (refl, h)
both false y h = ground arith

all_below-lt : (n i : ℕ) (p : ℕ → Bool) → all_below n p ≡ true → i < n → p i ≡ true
all_below-lt zero i p h b = absurd (omega arith)
all_below-lt (suc n) i p h b =
    let (first, rest) = both (p n) (all_below n p) h in
    elim (Bool-cases (i == n)) [
      | inl e ↦ let same : i ≡ n = ground arith in rw same first
      | inr e ↦ all_below-lt n i p rest (ground arith)
    ]

octets_test : all_below 256 reads ≡ true
unfolding parse_octet decimal
octets_test = refl

parse_octet-decimal : (n : ℕ) → n < 256 → parse_octet (decimal n) ≡ some n
parse_octet-decimal n h =
    octet (parse_octet (decimal n)) refl (all_below-lt 256 n reads octets_test h)
  where
    octet :
        (x : Option ℕ)
        → parse_octet (decimal n) ≡ x
        → reads n ≡ true
        → parse_octet (decimal n) ≡ some n
    octet none e r = ground arith
    octet (some m) e r = ground arith

append-ne-nil : (s t : Text) → s ≢ [] → s ++ t ≢ []
append-ne-nil [] t h = absurd (h refl)
append-ne-nil (c ∷ s) t h = λ e. cc

field_avoids : (sep n : ℕ) → sep < b'0' → All (λ c. c ≢ sep) (decimal n)
field_avoids sep n h = digits_avoid sep (decimal n) h (decimal-IsDigit n)

module _ (a b c d : ℕ) (bytes : (a < 256) × (b < 256) × (c < 256) × (d < 256)) where
  parse_dotted-print_dotted :
      parse_dotted (print_dotted (a ∷ b ∷ c ∷ d ∷ [])) ≡ some (a ∷ b ∷ c ∷ d ∷ [])
  unfolding parse_dotted print_dotted
  parse_dotted-print_dotted =
      rw
        (
          cut-append b'.' [] (decimal a) (decimal b ++ b'.' ∷ (decimal c ++ b'.' ∷ decimal d))
              (field_avoids b'.' a (omega arith)),
          cut-append b'.' [] (decimal b) (decimal c ++ b'.' ∷ decimal d)
              (field_avoids b'.' b (omega arith)),
          cut-append b'.' [] (decimal c) (decimal d) (field_avoids b'.' c (omega arith)),
          parse_octet-decimal a bytes.0,
          parse_octet-decimal b bytes.1,
          parse_octet-decimal c bytes.2,
          parse_octet-decimal d bytes.3,
        )
        refl

  slash_free : All (λ c. c ≢ b'/') (print_dotted (a ∷ b ∷ c ∷ d ∷ []))
  unfolding print_dotted
  slash_free =
      All-append (λ k. k ≢ b'/') (decimal a) _ (field_avoids b'/' a (omega arith))
        (
          omega arith,
          All-append (λ k. k ≢ b'/') (decimal b) _ (field_avoids b'/' b (omega arith))
              (
                omega arith,
                All-append (λ k. k ≢ b'/') (decimal c) _ (field_avoids b'/' c (omega arith))
                    (omega arith, field_avoids b'/' d (omega arith)),
              ),
        )

  parse_bits-decimal : (n : ℕ) → n ≤ 32 → parse_bits 32 (decimal n) ≡ some n
  unfolding parse_bits
  parse_bits-decimal n h =
      rw
        (
          is_empty_of_ne (decimal n) (decimal-ne-nil n),
          all_digits-IsDigit (decimal n) (decimal-IsDigit n),
          value-decimal n,
        )
        (ground arith)

  -- The address and the prefix length come back.
  pub parse_cidr-print_dotted :
      (v6 : Ipv6) (ones : ℕ)
      → ones ≤ 32
      → parse_cidr v6 (print_dotted (a ∷ b ∷ c ∷ d ∷ []) ++ b'/' ∷ decimal ones)
        ≡ some (
          in_v6 (a ∷ b ∷ c ∷ d ∷ []),
          record { ip = mask ones (a ∷ b ∷ c ∷ d ∷ []); ones = ones },
        )
  unfolding parse_cidr
  parse_cidr-print_dotted v6 ones h = ground (
    arith,
    cut-append b'/' [] (print_dotted (a ∷ b ∷ c ∷ d ∷ [])) (decimal ones) slash_free,
    parse_dotted-print_dotted,
    parse_bits-decimal ones h,
  )

  pub print_ip-in_v6 :
      (v6 : Ipv6) → print_ip v6 (in_v6 (a ∷ b ∷ c ∷ d ∷ [])) ≡ print_dotted (a ∷ b ∷ c ∷ d ∷ [])
  unfolding print_ip
  print_ip-in_v6 v6 = rw (print_ip, to4-in_v6 a b c d) refl

  pub parse_ip-print_dotted :
      (v6 : Ipv6)
      → parse_ip v6 (print_dotted (a ∷ b ∷ c ∷ d ∷ [])) ≡ some (in_v6 (a ∷ b ∷ c ∷ d ∷ []))
  unfolding parse_ip
  parse_ip-print_dotted v6 = rw (parse_dotted-print_dotted, parse_ip)

  pub print_dotted-ne-nil : print_dotted (a ∷ b ∷ c ∷ d ∷ []) ≢ []
  unfolding print_dotted
  print_dotted-ne-nil =
      append-ne-nil (decimal a) (b'.' ∷ (decimal b ++ b'.' ∷ (decimal c ++ b'.' ∷ decimal d)))
        (decimal-ne-nil a)
