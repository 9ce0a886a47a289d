-- ===== src/Ids/Mounted.antt =====
-- The rules that the deployment finds in its directory.
use l2s_m.Base.{
  ◌≡◌, refl, sym, ap, ◌∙◌, List, [], ◌∷◌, ◌++◌, append_assoc, none, some, Text, codes, is_empty, ok,
  if◌then◌else◌, arith, Option-cases, inl, inr,
}
use l2s_m.Api.L2Network.{IdsRuleSource, IdsRules, L2Network}
use l2s_m.Api.Switch.{projected}
use l2s_m.Api.Resources.{ConfigMap, Workload, config_map_object, deployment_object}
use l2s_m.Ids.{
  home_net_line, inline_rules, rules_file, referenced, construct_config_map,
  generate_suricata_deployment, generate_external_resources,
}

inline_rules-append :
    (xs ys : List IdsRuleSource) → inline_rules (xs ++ ys) ≡ inline_rules xs ++ inline_rules ys
unfolding inline_rules
inline_rules-append [] ys = refl
inline_rules-append (x ∷ xs) ys = ground (
  arith,
  inline_rules-append xs ys,
  append_assoc (codes "\n# Source: ")
      (x.name ++ (codes "\n" ++ (x.inline ++ (codes "\n" ++ inline_rules xs)))) (inline_rules ys),
  append_assoc x.name (codes "\n" ++ (x.inline ++ (codes "\n" ++ inline_rules xs)))
      (inline_rules ys),
  append_assoc (codes "\n") (x.inline ++ (codes "\n" ++ inline_rules xs)) (inline_rules ys),
  append_assoc x.inline (codes "\n" ++ inline_rules xs) (inline_rules ys),
  append_assoc (codes "\n") (inline_rules xs) (inline_rules ys),
)

referenced-append :
    (xs ys : List IdsRuleSource) → referenced (xs ++ ys) ≡ referenced xs ++ referenced ys
unfolding referenced
referenced-append [] ys = refl
referenced-append (x ∷ xs) ys = elim (Option-cases x.config_map_ref) [
  | inl e ↦ rw (e, referenced) (referenced-append xs ys)
  | inr (name, e) ↦ rw (e, referenced) (ap (λ (l : List Text). name ∷ l) (referenced-append xs ys))
]

-- What one source adds to the file of rules, and to the directory.
abbrev pub section_of : IdsRuleSource → Text
section_of s =
    if is_empty s.inline
    then []
    else codes "\n# Source: " ++ (s.name ++ (codes "\n" ++ (s.inline ++ codes "\n")))

abbrev pub refs_of : IdsRuleSource → List Text
refs_of s = elim s.config_map_ref [ none ↦ [] | some name ↦ name ∷ [] ]

inline_rules-cons :
    (s : IdsRuleSource) (after : List IdsRuleSource)
    → inline_rules (s ∷ after) ≡ section_of s ++ inline_rules after
unfolding inline_rules
inline_rules-cons s after = ground (
  arith,
  append_assoc (codes "\n# Source: ") (s.name ++ (codes "\n" ++ (s.inline ++ codes "\n")))
      (inline_rules after),
  append_assoc s.name (codes "\n" ++ (s.inline ++ codes "\n")) (inline_rules after),
  append_assoc (codes "\n") (s.inline ++ codes "\n") (inline_rules after),
  append_assoc s.inline (codes "\n") (inline_rules after),
)

referenced-cons :
    (s : IdsRuleSource) (after : List IdsRuleSource)
    → referenced (s ∷ after) ≡ refs_of s ++ referenced after
unfolding referenced
referenced-cons s after = elim (Option-cases s.config_map_ref) [
  | inl e ↦ rw (e, referenced) refl
  | inr (name, e) ↦ rw (e, referenced) refl
]

rules_file-append :
    (rules : IdsRules) (before after : List IdsRuleSource)
    → rules.custom_rule_sources ≡ before ++ after
    → rules_file rules
      ≡ (home_net_line rules.home_net_cidr
          ++ (codes "var EXTERNAL_NET !$HOME_NET\n" ++ inline_rules before))
        ++ inline_rules after
unfolding rules_file
rules_file-append rules before after split =
    let head = home_net_line rules.home_net_cidr in
    let net = codes "var EXTERNAL_NET !$HOME_NET\n" in
    rw (split, inline_rules-append before after)
      (sym (
        append_assoc head (net ++ inline_rules before) (inline_rules after)
        ∙ ap (λ (t : Text). head ++ t)
            (append_assoc net (inline_rules before) (inline_rules after))))

-- For a network with intrusion detection, and any one of its sources of rules with those before
-- and after it, the config map and the deployment stand in one namespace; the file of rules
-- holds the inline rules of the source at its place, and the directory of the deployment is made
-- of that config map and, at its place, the one the source refers to.
pub generate_external_resources_rules :
    (network : L2Network) (rules : IdsRules) (before after : List IdsRuleSource) (s : IdsRuleSource)
    (annotation : Text)
    → network.spec.ids ≡ some rules
    → rules.custom_rule_sources ≡ before ++ s ∷ after
    → (cm : ConfigMap) × (d : Workload) × (generate_external_resources network annotation
        ≡ ok (config_map_object cm ∷ deployment_object d ∷ []))
      × (cm.namespace ≡ d.namespace)
      × (cm.contents
          ≡ (
            codes "suricata.rules",
            (home_net_line rules.home_net_cidr
                  ++ (codes "var EXTERNAL_NET !$HOME_NET\n" ++ inline_rules before))
                ++ (section_of s ++ inline_rules after),
          )
            ∷ [])
      × (d.template.spec.volumes
          ≡ record {
            name = codes "rules-volume";
            source = projected (cm.name ∷ referenced before ++ (refs_of s ++ referenced after));
          }
            ∷ [])
unfolding generate_external_resources construct_config_map generate_suricata_deployment
generate_external_resources_rules network rules before after s annotation e split =
    let namespace = if is_empty rules.namespace then network.namespace else rules.namespace in
    (
      construct_config_map network.name rules namespace,
      generate_suricata_deployment rules network.name annotation namespace,
      rw e refl,
      refl,
      ap (λ (t : Text). (codes "suricata.rules", t) ∷ [])
          (rules_file-append rules before (s ∷ after) split
            ∙ ap
                (λ (t : Text).
                  (home_net_line rules.home_net_cidr
                    ++ (codes "var EXTERNAL_NET !$HOME_NET\n" ++ inline_rules before))
                  ++ t)
                (inline_rules-cons s after)),
      rw (split, referenced-append before (s ∷ after), referenced-cons s after) refl,
    )
