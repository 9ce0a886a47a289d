-- ===== src/Ids/Tests.antt =====
-- An instance with three sources of rules.
use l2s_m.Base.{◌≡◌, refl, [], ◌∷◌, ◌++◌, true, some, none, Text, codes, ok}
use l2s_m.Api.L2Network.{IdsRuleSource, IdsRules, L2Network}
use l2s_m.Api.Switch.{projected}
use l2s_m.Api.Resources.{ConfigMap, Workload, config_map_object, deployment_object}
use l2s_m.Ids.{home_net_line, inline_rules, referenced, generate_external_resources}
use l2s_m.Ids.Mounted.{section_of, refs_of, generate_external_resources_rules}
use l2s_m.Controller.Fixtures.{source_network}

abbrev inline_source : Text → IdsRuleSource
inline_source name = record {
  name = name;
  url = [];
  inline = codes "alert tcp any any -> any any";
  config_map_ref = none;
}

abbrev referring : IdsRuleSource
referring = record {
  name = codes "b";
  url = [];
  inline = [];
  config_map_ref = some (codes "my-rules");
}

abbrev rules : IdsRules
rules = record {
  enabled = true;
  home_net_cidr = codes "10.0.0.0/24" ∷ codes "10.1.0.0/24" ∷ [];
  use_emerging_threats_open = true;
  custom_rule_sources = inline_source (codes "a") ∷ referring ∷ inline_source (codes "c") ∷ [];
  ignore_ports = [];
  node = codes "node";
  profile = [];
  namespace = codes "ids";
}

abbrev network : L2Network
network = record source_network { spec = record source_network.spec { ids = some rules } }

home_net_test : home_net_line (codes "a" ∷ codes "b" ∷ []) ≡ codes "var HOME_NET [a,b]\n"
unfolding home_net_line
home_net_test = refl

generate_external_resources_rules_example :
    (cm : ConfigMap) × (d : Workload) × (generate_external_resources network (codes "net1")
      ≡ ok (config_map_object cm ∷ deployment_object d ∷ []))
    × (cm.namespace ≡ d.namespace)
    × (cm.contents
        ≡ (
          codes "suricata.rules",
          (home_net_line rules.home_net_cidr
                ++ (codes "var EXTERNAL_NET !$HOME_NET\n"
                    ++ inline_rules (inline_source (codes "a") ∷ [])))
              ++ (section_of referring ++ inline_rules (inline_source (codes "c") ∷ [])),
        )
          ∷ [])
    × (d.template.spec.volumes
        ≡ record {
          name = codes "rules-volume";
          source = projected (
              cm.name ∷ referenced (inline_source (codes "a") ∷ [])
              ++ (refs_of referring ++ referenced (inline_source (codes "c") ∷ [])));
        }
          ∷ [])
generate_external_resources_rules_example =
    generate_external_resources_rules network rules (inline_source (codes "a") ∷ [])
      (inline_source (codes "c") ∷ []) referring (codes "net1") refl refl
