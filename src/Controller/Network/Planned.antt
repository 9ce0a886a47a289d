-- ===== src/Controller/Network/Planned.antt =====
-- The plan of the block that creates a network, and the part of it for the intrusion detection.
use l2s_m.Base.{
  ◌≡◌, refl, sym, append-nil, append_assoc, ◌∙◌, inl, inr, List, [], ◌∷◌, ◌++◌, Option, none, some,
  Option-cases, if◌then◌else◌, arith, ap, map, Text, ok,
}
use l2s_m.Base.Effects.{Flow, next, return}
use l2s_m.Api.Meta.{NetAttachDef}
use l2s_m.Api.L2Network.{L2Network, IdsRules}
use l2s_m.Api.Provider.{ProviderSpec}
use l2s_m.Api.Resources.{Resource}
use l2s_m.Cluster.{api, Reconciled, done, failed, sdn}
use l2s_m.Ids.{generate_external_resources}
use l2s_m.Trace.{Event}
use l2s_m.Trace.Plan.{
  Step, creates_network, writes_network_status, updates_network, mirrors_port, creates_object,
  updates_definition, steps, steps-append, Any, Ends, through, stopped, crashed,
}
use l2s_m.Controller.Network.{NetworkDeps}
use l2s_m.Controller.Network.Joined.{join_plan}
use l2s_m.Controller.Network.Owning.{Owning, all_owned, owner_refused, one_created}
use l2s_m.Controller.Network.Mirror.{
  mirror_annotation, mirroring, keeping, Mirroring, nothing_free, no_number, mirror_panicked,
  mirror_failed, not_built, not_owned, keep_failed, kept,
}

abbrev pub creation_plan : List Step
creation_plan = creates_network ∷ writes_network_status ∷ updates_network ∷ []

abbrev pub ids_plan : List Step
ids_plan = mirrors_port ∷ creates_object ∷ creates_object ∷ updates_definition ∷ []

-- The calls for a network with a provider or without, and with intrusion detection or without.
abbrev pub provider_part : Option ProviderSpec → List Step
provider_part none = []
provider_part (some provider) = join_plan

abbrev pub ids_part : Option IdsRules → List Step
ids_part none = []
ids_part (some rules) = if rules.enabled then ids_plan else []

abbrev pub plan_of : L2Network → List Step
plan_of network =
    creation_plan ++ (provider_part network.spec.provider ++ ids_part network.spec.ids)

module _ {W : Type 0} (d : NetworkDeps W) where
  abbrev creations : List Resource → List Step
  creations resources = map (λ _. creates_object) resources

  owned_steps :
      {n : L2Network} {resources : List Resource} {es : List Event}
      → Owning d n resources (next tt) es
      → steps es ≡ creations resources
  owned_steps all_owned = refl
  owned_steps (one_created r o q p) = ap (λ z. creates_object ∷ z) (owned_steps p)

  refused_steps :
      {n : L2Network} {resources : List Resource} {r : Reconciled} {es : List Event}
      → Owning d n resources (return r) es
      → (rest : List Step) × (creations resources ≡ steps es ++ rest)
  refused_steps (owner_refused x xs q) = (creates_object ∷ creations xs, refl)
  refused_steps (one_created x o q p) =
      let (rest, e) = refused_steps p in (rest, ap (λ z. creates_object ∷ z) e)

  two_resources :
      (n : L2Network) (annotation : Text) (resources : List Resource)
      → generate_external_resources n annotation ≡ ok resources
      → creations resources ≡ creates_object ∷ creates_object ∷ []
  unfolding generate_external_resources
  two_resources n annotation resources q = elim (Option-cases n.spec.ids) [
    | inl e ↦ ground arith
    | inr (rules, e) ↦ ground arith
  ]

  kept_steps :
      (n : L2Network) (rules : IdsRules) (nad : NetAttachDef) (port annotation : Text)
      (resources : List Resource) (es : List Event)
      → generate_external_resources n annotation ≡ ok resources
      → Owning d n resources (next tt) es
      → steps (mirroring d n rules port ∷ (es ++ keeping d n rules nad ∷ [])) ≡ ids_plan
  kept_steps n rules nad port annotation resources es q own =
      let e = owned_steps own ∙ two_resources n annotation resources q in
      ap (λ z. mirrors_port ∷ z)
        (steps-append es (keeping d n rules nad ∷ []) ∙ ap (λ z. z ++ updates_definition ∷ []) e)

  -- The block for intrusion detection makes the calls of its part of the plan in order.
  pub Mirroring-Ends :
      {n : L2Network} {rules : IdsRules} {v w : W} {nads : List NetAttachDef}
      {log l es : List Event} {r : Flow Reconciled (Unit {0})}
      → l ≡ log ++ es
      → Mirroring d n rules v nads r es
      → Ends Any ids_plan log (r, (w, l))
  Mirroring-Ends l (nothing_free e) = stopped (failed e) _ [] ids_plan refl l
  Mirroring-Ends l (no_number nad nads x e q) = stopped (failed e) _ [] ids_plan refl l
  Mirroring-Ends {es = es} l (mirror_panicked nad nads port w1 q e1) =
      crashed _ es (creates_object ∷ creates_object ∷ updates_definition ∷ []) refl l
  Mirroring-Ends {es = es} l (mirror_failed nad nads port e w1 q e1) =
      stopped (failed (sdn e)) _ es (creates_object ∷ creates_object ∷ updates_definition ∷ []) refl
        l
  Mirroring-Ends {es = es} l (not_built nad nads port w1 q e1 x) =
      stopped done _ es (creates_object ∷ creates_object ∷ updates_definition ∷ []) refl l
  Mirroring-Ends {n = n} {rules = rules} l
        (not_owned nad nads port bits w1 w2 resources es r q e1 e2 g x own) =
      let (rest, e) = refused_steps own in
      let two = two_resources n (mirror_annotation d n rules nad bits) resources g in
      stopped r _ (mirroring d n rules port ∷ es) (rest ++ updates_definition ∷ [])
        (ap (λ z. mirrors_port ∷ z)
          (ap (λ z. z ++ updates_definition ∷ []) (sym two ∙ e)
            ∙ append_assoc (steps es) rest (updates_definition ∷ [])))
        l
  Mirroring-Ends {n = n} {rules = rules} l
        (keep_failed nad nads port bits w1 w2 resources es e w3 w4 q e1 e2 g own k) =
      let all = mirroring d n rules port ∷ (es ++ keeping d n rules nad ∷ []) in
      stopped (failed (api e)) _ all []
        (sym (
          append-nil (steps all)
          ∙ kept_steps n rules nad port (mirror_annotation d n rules nad bits) resources es g own))
        l
  Mirroring-Ends {n = n} {rules = rules} l
        (kept nad nads port bits w1 w2 resources es m w3 w4 q e1 e2 g own k) =
      through tt _ (mirroring d n rules port ∷ (es ++ keeping d n rules nad ∷ [])) tt
        (kept_steps n rules nad port (mirror_annotation d n rules nad bits) resources es g own) l
