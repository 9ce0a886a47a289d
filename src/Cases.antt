-- ===== src/Cases.antt =====
-- The ways in which a call can end, for proofs that follow each of them.
use l2s_m.Base.{◌≡◌, refl, ◌⊎◌, inl, inr, Option, some, none, Result, ok, err}
use l2s_m.Base.Effects.{Outcome, returned, panicked, Flow, next, return, panic}
use l2s_m.Cluster.{ApiError}
use l2s_m.Sdn.{SdnError}

pub sdn_cases :
    {W : Type 0} (x : Outcome (Option SdnError) × W)
    → ((w : W) × (x ≡ (panicked, w)))
      ⊎ (((e : SdnError) × (w : W) × (x ≡ (returned (some e), w)))
          ⊎ ((w : W) × (x ≡ (returned none, w))))
sdn_cases (panicked, w) = inl (w, refl)
sdn_cases (returned (some e), w) = inr (inl (e, w, refl))
sdn_cases (returned none, w) = inr (inr (w, refl))

pub api_cases :
    {W A : Type 0} (x : Result ApiError A × W)
    → ((e : ApiError) × (w : W) × (x ≡ (err e, w))) ⊎ ((a : A) × (w : W) × (x ≡ (ok a, w)))
api_cases (err e, w) = inl (e, w, refl)
api_cases (ok a, w) = inr (a, w, refl)

pub result_cases :
    {E A : Type 0} (x : Result E A) → ((e : E) × (x ≡ err e)) ⊎ ((a : A) × (x ≡ ok a))
result_cases (err e) = inl (e, refl)
result_cases (ok a) = inr (a, refl)

pub outcome_cases :
    {W A : Type 0} (x : Outcome A × W)
    → ((w : W) × (x ≡ (panicked, w))) ⊎ ((a : A) × (w : W) × (x ≡ (returned a, w)))
outcome_cases (panicked, w) = inl (w, refl)
outcome_cases (returned a, w) = inr (a, w, refl)

pub found_cases :
    {W A : Type 0} (x : Result ApiError A × W)
    → ((w : W) × (x ≡ (err ApiError.not_found, w)))
      ⊎ (((w : W) × (x ≡ (err ApiError.other, w))) ⊎ ((a : A) × (w : W) × (x ≡ (ok a, w))))
found_cases (err ApiError.not_found, w) = inl (w, refl)
found_cases (err ApiError.other, w) = inr (inl (w, refl))
found_cases (ok a, w) = inr (inr (a, w, refl))

pub call_cases :
    {W E A : Type 0} (x : Result E A × W)
    → ((e : E) × (w : W) × (x ≡ (err e, w))) ⊎ ((a : A) × (w : W) × (x ≡ (ok a, w)))
call_cases (err e, w) = inl (e, w, refl)
call_cases (ok a, w) = inr (a, w, refl)

pub flow_cases :
    {W R A : Type 0} (x : Flow R A × W)
    → ((a : A) × (w : W) × (x ≡ (next a, w)))
      ⊎ (((r : R) × (w : W) × (x ≡ (return r, w))) ⊎ ((w : W) × (x ≡ (panic, w))))
flow_cases (next a, w) = inl (a, w, refl)
flow_cases (return r, w) = inr (inl (r, w, refl))
flow_cases (panic, w) = inr (inr (w, refl))
