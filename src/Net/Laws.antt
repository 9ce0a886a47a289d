-- ===== src/Net/Laws.antt =====
-- Laws of addresses.
use l2s_m.Base.{ℕ, ◌≡◌, refl, ◌∷◌, [], some}
use l2s_m.Net.{in_v6, to4}

pub to4-in_v6 : (a b c d : ℕ) → to4 (in_v6 (a ∷ b ∷ c ∷ d ∷ [])) ≡ some (a ∷ b ∷ c ∷ d ∷ [])
unfolding to4 in_v6
to4-in_v6 a b c d = refl
