-- ===== src/Base/Effects.antt =====
-- Actions on a world `W` of which the program sees only what its calls answer. A body of a Go function
-- that returns `R` goes on, returns early, or panics.
use mathlib.Core.Bool.{Bool, true, false}
use mathlib.Core.Option.{Option, none, some}
use l2s_m.Base.Errors.{Result, ok, err}

pub data Flow (R A : Type 0) : Type 0 where
  next : A → Flow R A
  return : R → Flow R A
  panic : Flow R A

abbrev pub Act : Type 0 → Type 0 → Type 0 → Type 0
Act W R A = W → Flow R A × W

-- A whole function: what it returns, or a panic.
pub data Outcome (R : Type 0) : Type 0 where
  returned : R → Outcome R
  panicked : Outcome R

infixl 5 ◌>>=◌ ◌>>◌
abbrev pub ◌>>=◌ : {W R A B : Type 0} → Act W R A → (A → Act W R B) → Act W R B
◌>>=◌ m f w =
    let (x, w') = m w in
    elim x [ next a ↦ f a w' | return r ↦ (return r, w') | panic ↦ (panic, w') ]

abbrev pub ◌>>◌ : {W R B : Type 0} → Act W R (Unit {0}) → Act W R B → Act W R B
m >> k = m >>= λ _. k

abbrev pub pure : {W R A : Type 0} → A → Act W R A
pure a w = (next a, w)

-- `return r`
abbrev pub ret : {W R A : Type 0} → R → Act W R A
ret r w = (return r, w)

abbrev pub fault : {W R A : Type 0} → Act W R A
fault w = (panic, w)

-- A call that cannot fail, or whose error is a value.
abbrev pub lift : {W R A : Type 0} → (W → A × W) → Act W R A
lift m w = let (a, w') = m w in (next a, w')

-- `if test { return r }`
abbrev pub return_if : {W R : Type 0} → Bool → R → Act W R (Unit {0})
return_if true r w = (return r, w)
return_if false r w = (next tt, w)

-- `if test { … }`, where the block returns
abbrev pub when : {W R : Type 0} → Bool → Act W R (Unit {0}) → Act W R (Unit {0})
when true m w = m w
when false m w = (next tt, w)

-- `if err != nil { return f(err) }`
abbrev pub when_some : {W R E : Type 0} → Option E → (E → R) → Act W R (Unit {0})
when_some none f w = (next tt, w)
when_some (some e) f w = (return (f e), w)

abbrev pub unwrap : {W R A : Type 0} {E : Type 0} → Result E A → (E → Act W R A) → Act W R A
unwrap (ok a) f = pure a
unwrap (err e) f = f e

-- `x, err := call(); if err != nil { … }`, where the block returns.
abbrev pub handle :
    {W R A : Type 0} {E : Type 0} → (W → Result E A × W) → (E → Act W R A) → Act W R A
handle m f w = let (r, w') = m w in unwrap r f w'

-- `x, err := call(); if err != nil { return f(err) }`
abbrev pub try : {W R A : Type 0} {E : Type 0} → (W → Result E A × W) → (E → R) → Act W R A
try m f = handle m (λ e. ret (f e))

-- A pointer's target; nil panics.
abbrev pub deref : {W R A : Type 0} → Option A → Act W R A
deref none = fault
deref (some a) = pure a

abbrev pub or_return : {W R A : Type 0} → Option A → R → Act W R A
or_return none r = ret r
or_return (some a) r = pure a

-- Another function of the program is called; its panic goes up.
abbrev pub call : {W R A : Type 0} → (W → Outcome A × W) → Act W R A
call m w = let (x, w') = m w in elim x [ returned a ↦ (next a, w') | panicked ↦ (panic, w') ]

-- The function with the body `m`, which returns on every way.
abbrev pub run : {W R : Type 0} → Act W R R → W → Outcome R × W
run m w =
    let (x, w') = m w in
    elim x [ next r ↦ (returned r, w') | return r ↦ (returned r, w') | panic ↦ (panicked, w') ]
