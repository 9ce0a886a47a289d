-- ===== src/Base/Digits.antt =====
-- The verbs `%d`, `%x` and `%0Nx` of fmt on natural numbers.
use Prim.Native.Nat.{ℕ, zero, suc, ◌+◌, ◌-◌, ◌*◌, ◌/◌, ◌%◌, ◌<◌, ◌≤◌}
use mathlib.Core.Path.{◌≡◌, refl, sym, ap, ◌∙◌}
use mathlib.Core.Logic.{◌≢◌}
use mathlib.Core.List.{[], ◌∷◌}
use native.Mathlib.Omega.{arith}
use l2s_m.Base.Tests.{ltb, if◌then◌else◌}
use l2s_m.Base.Lists.{length, All}
use l2s_m.Base.Bytes.{Text, codes}

unfoldable pub digit : ℕ → ℕ
digit d = if ltb d 10 then b'0' + d else b'a' + (d - 10)

-- The digits of `n` in front of `acc`; `n < fuel` is enough for any base above 1.
unfoldable pub digits : ℕ → ℕ → ℕ → Text → Text
unfolding digit
digits base zero n acc = acc
digits base (suc f) n acc =
    let rest = digits base f (n / base) (digit (n % base) ∷ acc) in
    if ltb n base then digit n ∷ acc else rest

-- `%d` of a number that is not negative
unfoldable pub decimal : ℕ → Text
unfolding digits
decimal n = digits 10 (suc n) n []

unfoldable pub pad : ℕ → Text → Text
pad zero s = s
pad (suc n) s = b'0' ∷ pad n s

-- `%0Wx`
unfoldable pub hex_padded : ℕ → ℕ → Text
unfolding digits pad
hex_padded w n = let s = digits 16 (suc n) n [] in pad (w - length s) s

decimal_test : decimal 30818 ≡ codes "30818"
unfolding decimal
decimal_test = refl

hex_test : hex_padded 4 0xbe ≡ codes "00be"
unfolding hex_padded
hex_test = refl

-- The number that decimal digits spell behind `v`.
unfoldable pub value : ℕ → Text → ℕ
value v [] = v
value v (c ∷ s) = value (v * 10 + (c - b'0')) s

value-digits : (f n : ℕ) (acc : Text) → n < f → value 0 (digits 10 f n acc) ≡ value n acc
unfolding digits value
value-digits zero n acc h = elim h [ ]
value-digits (suc f) n acc h = ground (arith, value-digits f (n / 10) (digit (n % 10) ∷ acc))

-- Reading the decimal print gives the number back.
pub value-decimal : (n : ℕ) → value 0 (decimal n) ≡ n
unfolding decimal value
value-decimal n = value-digits (suc n) n [] (omega arith)

pub decimal-injective : (m n : ℕ) → decimal m ≡ decimal n → m ≡ n
decimal-injective m n e = sym (value-decimal m) ∙ ap (value 0) e ∙ value-decimal n

-- A byte that fmt writes for a digit.
abbrev pub IsDigit : ℕ → Type 0
IsDigit c = (b'0' ≤ c) × (c ≤ b'9')

digits-IsDigit : (f n : ℕ) (acc : Text) → All IsDigit acc → All IsDigit (digits 10 f n acc)
unfolding digits digit
digits-IsDigit zero n acc h = h
digits-IsDigit (suc f) n acc h = ground (arith, digits-IsDigit f (n / 10) (digit (n % 10) ∷ acc))

pub decimal-IsDigit : (n : ℕ) → All IsDigit (decimal n)
unfolding decimal
decimal-IsDigit n = digits-IsDigit (suc n) n [] tt

digits-ne-nil : (f n c : ℕ) (acc : Text) → digits 10 f n (c ∷ acc) ≢ []
unfolding digits
digits-ne-nil zero n c acc = λ e. cc
digits-ne-nil (suc f) n c acc = ground (arith, digits-ne-nil f (n / 10) (digit (n % 10)) (c ∷ acc))

pub decimal-ne-nil : (n : ℕ) → decimal n ≢ []
unfolding decimal digits
decimal-ne-nil n = ground (arith, digits-ne-nil n (n / 10) (digit (n % 10)) [])
