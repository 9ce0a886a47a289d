-- ===== src/Startup/Stages.antt =====
-- Parts of the start of the program that go through the calls of the manager one by one, or stop at
-- one of them with an error.
use l2s_m.Base.{
  ◌≡◌, refl, sym, ◌⊎◌, inl, inr, Bool, true, false, List, [], ◌∷◌, ◌++◌, append-nil, append_assoc,
  Option, some, Text,
}
use l2s_m.Base.Effects.{Act, Flow, next, return, ◌>>=◌, ◌>>◌}
use l2s_m.Sdn.Session.{Http}
use l2s_m.Startup.{Kind, Watch, Manager, Failure, check}

-- The calls of the manager.
pub data Stage : Type 0 where
  manager_made : Stage
  indexed : Kind → Text → Stage
  controller_made : Watch → Stage
  webhook_registered : Text → Stage
  session_asked health_checked ready_checked manager_started : Stage

abbrev pub stage : {W A : Type 0} → Stage → (W → A × W) → W × List Stage → A × (W × List Stage)
stage s m (w, log) = let (a, w') = m w in (a, (w', log ++ s ∷ []))

abbrev pub quiet : {W A : Type 0} → (W → A × W) → W × List Stage → A × (W × List Stage)
quiet m (w, log) = let (a, w') = m w in (a, (w', log))

module _ {W : Type 0} where
  abbrev pub staged_manager : Manager W (W × List Stage) → Manager (W × List Stage) (W × List Stage)
  staged_manager m = record {
    get_config = quiet m.get_config;
    new_manager = λ o. stage manager_made (m.new_manager o);
    index_field = λ k key f. stage (indexed k key) (m.index_field k key f);
    complete = λ c r. stage (controller_made c) (m.complete c r);
    register_webhook = λ path ns. stage (webhook_registered path) (m.register_webhook path ns);
    add_healthz_check = λ n. stage health_checked (m.add_healthz_check n);
    add_readyz_check = λ n. stage ready_checked (m.add_readyz_check n);
    start = stage manager_started m.start;
  }

  abbrev pub staged_http : Http W → Http (W × List Stage)
  staged_http http = record {
    send = λ r. stage session_asked (http.send r);
    marshal = http.marshal;
    base64 = http.base64;
  }

  -- A part goes through all of its stages, or stops with an error after some of the first of them.
  pub data Ends {A : Type 0} (plan log : List Stage)
      : Flow (Option Failure) A × (W × List Stage) → Type 0 where
    through : (a : A) (w : W) {l : List Stage} → l ≡ log ++ plan → Ends plan log (next a, (w, l))
    stopped :
        (f : Failure) (w : W) {l : List Stage} (es rest : List Stage)
        → plan ≡ es ++ rest
        → l ≡ log ++ es
        → Ends plan log (return (some f), (w, l))

  abbrev pub Runs : {A : Type 0} → List Stage → Act (W × List Stage) (Option Failure) A → Type 0
  Runs plan m = (w : W) (log : List Stage) → Ends plan log (m (w, log))

  pub answer_cases : (x : Bool × W) → ((w : W) × (x ≡ (true, w))) ⊎ ((w : W) × (x ≡ (false, w)))
  answer_cases (true, w) = inl (w, refl)
  answer_cases (false, w) = inr (w, refl)

  pub Runs-check :
      (s : Stage) (m : W → Bool × W) (f : Failure) → Runs (s ∷ []) (check (stage s m) f)
  Runs-check s m f w log = elim (answer_cases (m w)) [
    | inl (w1, e) ↦ rw e (through tt w1 refl)
    | inr (w1, e) ↦ rw e (stopped f w1 (s ∷ []) [] refl refl)
  ]

  pub Runs-check-quiet : (m : W → Bool × W) (f : Failure) → Runs [] (check (quiet m) f)
  Runs-check-quiet m f w log = elim (answer_cases (m w)) [
    | inl (w1, e) ↦ rw e (through tt w1 (sym (append-nil log)))
    | inr (w1, e) ↦ rw e (stopped f w1 [] [] refl (sym (append-nil log)))
  ]

  later :
      {A : Type 0} {plan log l : List Stage} (before : List Stage)
      {x : Flow (Option Failure) A × (W × List Stage)}
      → l ≡ log ++ before
      → Ends plan l x
      → Ends (before ++ plan) log x
  later {plan = plan} {log = log} before p (through a w q) =
      through a w (rw q (rw p (append_assoc log before plan)))
  later {log = log} before p (stopped f w es rest q r) =
      stopped f w (before ++ es) rest (rw q (sym (append_assoc before es rest)))
        (rw r (rw p (append_assoc log before es)))

  bind_ends :
      {A B : Type 0} {p log : List Stage} (q : List Stage)
      {x : Flow (Option Failure) A × (W × List Stage)} (w : W)
      (k : A → Act (W × List Stage) (Option Failure) B)
      → Ends p log x
      → ((a : A) → Runs q (k a))
      → Ends (p ++ q) log (((λ _. x) >>= k) (w, log))
  bind_ends {p = p} q w k (through a w1 {l} e) rest = later p e (rest a w1 l)
  bind_ends {p = p} q w k (stopped f w1 es rest e r) more =
      stopped f w1 es (rest ++ q) (rw e (append_assoc es rest q)) r

  pub Runs-bind :
      {A B : Type 0} (p q : List Stage) (m : Act (W × List Stage) (Option Failure) A)
      (k : A → Act (W × List Stage) (Option Failure) B)
      → Runs p m
      → ((a : A) → Runs q (k a))
      → Runs (p ++ q) (m >>= k)
  Runs-bind p q m k run_m run_k w log = bind_ends q w k (run_m w log) run_k

-- A part with its stages.
pub record Part (W : Type 0) : Type 0 where
  pub plan : List Stage
  pub action : Act (W × List Stage) (Option Failure) (Unit {0})
  pub runs : Runs plan action

module _ {W : Type 0} where
  abbrev pub checked : Stage → (W → Bool × W) → Failure → Part W
  checked s m f = record { plan = s ∷ []; action = check (stage s m) f; runs = Runs-check s m f }

  -- Parts one after the other.
  abbrev pub plans : Part W → List (Part W) → List Stage
  plans p [] = p.plan
  plans p (q ∷ parts) = p.plan ++ plans q parts

  abbrev pub all_of : Part W → List (Part W) → Act (W × List Stage) (Option Failure) (Unit {0})
  all_of p [] = p.action
  all_of p (q ∷ parts) = p.action >> all_of q parts

  pub Runs-all_of : (p : Part W) (parts : List (Part W)) → Runs (plans p parts) (all_of p parts)
  Runs-all_of p [] = p.runs
  Runs-all_of p (q ∷ parts) =
      Runs-bind p.plan (plans q parts) p.action (λ _. all_of q parts) p.runs
        (λ _. Runs-all_of q parts)
