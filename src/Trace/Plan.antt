-- ===== src/Trace/Plan.antt =====
-- Parts of a controller that make the calls of a plan one after the other, or stop after some of the
-- first of them: what the parts that they are built of do carries over to the whole.
use l2s_m.Base.{◌≡◌, refl, sym, ◌∙◌, ap, List, [], ◌∷◌, ◌++◌, map, append-nil, append_assoc}
use l2s_m.Base.Effects.{Act, Flow, next, return, panic, ◌>>=◌, pure}
use l2s_m.Trace.{
  Event, network_created, network_deleted, attached, detached, mirrored, pod_updated,
  network_updated, network_status_updated, net_attach_def_updated, request_status_updated,
  overlay_updated, ned_updated, created, applied, net_attach_defs_deleted,
}

-- What an event is, without what it carries.
pub data Step : Type 0 where
  creates_network deletes_network attaches_port detaches_port mirrors_port updates_pod : Step
  updates_network writes_network_status updates_definition writes_request_status : Step
  updates_overlay updates_ned creates_object applies_object deletes_definitions : Step

abbrev pub step_of : Event → Step
step_of (network_created p) = creates_network
step_of (network_deleted n) = deletes_network
step_of (attached p) = attaches_port
step_of (detached p) = detaches_port
step_of (mirrored p) = mirrors_port
step_of (pod_updated p) = updates_pod
step_of (network_updated n) = updates_network
step_of (network_status_updated n) = writes_network_status
step_of (net_attach_def_updated n) = updates_definition
step_of (request_status_updated q) = writes_request_status
step_of (overlay_updated o) = updates_overlay
step_of (ned_updated n) = updates_ned
step_of (created r) = creates_object
step_of (applied r) = applies_object
step_of (net_attach_defs_deleted n) = deletes_definitions

abbrev pub steps : List Event → List Step
steps es = map step_of es

pub steps-append : (es fs : List Event) → steps (es ++ fs) ≡ steps es ++ steps fs
steps-append [] fs = refl
steps-append (e ∷ es) fs = ap (λ x. step_of e ∷ x) (steps-append es fs)

module _ {W R : Type 0} where
  -- A part goes through its whole plan, with a value for which `P` holds, or it returns or panics
  -- after some of the first calls of the plan.
  pub data Ends {A : Type 0} (P : A → Type 0) (plan : List Step) (log : List Event)
      : Flow R A × (W × List Event) → Type 0 where
    through :
        (a : A) (w : W) {l : List Event} (es : List Event)
        → P a
        → steps es ≡ plan
        → l ≡ log ++ es
        → Ends P plan log (next a, (w, l))
    stopped :
        (r : R) (w : W) {l : List Event} (es : List Event) (rest : List Step)
        → plan ≡ steps es ++ rest
        → l ≡ log ++ es
        → Ends P plan log (return r, (w, l))
    crashed :
        (w : W) {l : List Event} (es : List Event) (rest : List Step)
        → plan ≡ steps es ++ rest
        → l ≡ log ++ es
        → Ends P plan log (panic, (w, l))

  pub Ends-at :
      {A : Type 0} {P : A → Type 0} {plan : List Step} {log : List Event}
      {x : Flow R A × (W × List Event)} (y : Flow R A × (W × List Event))
      → x ≡ y
      → Ends P plan log y
      → Ends P plan log x
  Ends-at y e p = rw e p

  pub record Runs {A : Type 0} (P : A → Type 0) (plan : List Step) (m : Act (W × List Event) R A)
      : Type 0 where
    pub at : (w : W) (log : List Event) → Ends P plan log (m (w, log))

  later :
      {B : Type 0} {Q : B → Type 0} {p q : List Step} {log l : List Event} (es : List Event)
      {x : Flow R B × (W × List Event)}
      → steps es ≡ p
      → l ≡ log ++ es
      → Ends Q q l x
      → Ends Q (p ++ q) log x
  later {log = log} es s t (through a w fs holds e l) =
      through a w (es ++ fs) holds (rw (sym s) (steps-append es fs ∙ ap (λ z. steps es ++ z) e))
        (rw (l, t) (append_assoc log es fs))
  later {log = log} es s t (stopped r w fs rest e l) =
      stopped r w (es ++ fs) rest
        (rw (sym s, e, steps-append es fs) (sym (append_assoc (steps es) (steps fs) rest)))
        (rw (l, t) (append_assoc log es fs))
  later {log = log} es s t (crashed w fs rest e l) =
      crashed w (es ++ fs) rest
        (rw (sym s, e, steps-append es fs) (sym (append_assoc (steps es) (steps fs) rest)))
        (rw (l, t) (append_assoc log es fs))

  bind_ends :
      {A B : Type 0} {P : A → Type 0} {Q : B → Type 0} {p : List Step} {log : List Event}
      (q : List Step) {x : Flow R A × (W × List Event)} (v : W × List Event)
      (k : A → Act (W × List Event) R B)
      → Ends P p log x
      → ((a : A) → P a → Runs Q q (k a))
      → Ends Q (p ++ q) log (((λ _. x) >>= k) v)
  bind_ends q v k (through a w {l} es holds s e) f = later es s e ((f a holds).at w l)
  bind_ends q v k (stopped r w es rest s l) f =
      stopped r w es (rest ++ q) (rw s (append_assoc (steps es) rest q)) l
  bind_ends q v k (crashed w es rest s l) f =
      crashed w es (rest ++ q) (rw s (append_assoc (steps es) rest q)) l

  -- One part, and behind it another one for each of its values.
  pub Runs-bind :
      {A B : Type 0} {P : A → Type 0} {Q : B → Type 0} (p q : List Step)
      (m : Act (W × List Event) R A) (k : A → Act (W × List Event) R B)
      → Runs P p m
      → ((a : A) → P a → Runs Q q (k a))
      → Runs Q (p ++ q) (m >>= k)
  Runs-bind p q m k r f = record { at = λ w log. bind_ends q (w, log) k (r.at w log) f }

  pub Runs-pure : {A : Type 0} (P : A → Type 0) (a : A) → P a → Runs P [] (pure a)
  Runs-pure P a holds = record { at = λ w log. through a w [] holds refl (sym (append-nil log)) }

-- Any value will do.
abbrev pub Any : {A : Type 0} → A → Type 0
Any a = Unit {0}

-- A call that adds nothing to the log.
abbrev pub Quiet : {W A : Type 0} → (W × List Event → A × (W × List Event)) → Type 0
Quiet {W} {A} m = (w : W) (log : List Event) → (a : A) × (w' : W) × (m (w, log) ≡ (a, (w', log)))
