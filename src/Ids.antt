-- ===== src/Ids.antt =====
-- internal/ids: the rules and the deployment of the intrusion detection of a network.
pub mod Mounted
mod Tests
use l2s_m.Base.{
  join_comma, Bool, true, false, List, [], ◌∷◌, ◌++◌, map, Option, none, some, Text, codes,
  is_empty, Result, ok, err, if◌then◌else◌,
}
use l2s_m.Utils.Naming.{generate_ids_cm_name, generate_ids_deployname}
use l2s_m.Annotation.{multus_annotation_key}
use l2s_m.Api.L2Network.{IdsRuleSource, IdsRules, L2Network}
use l2s_m.Api.Switch.{Container, unset, projected}
use l2s_m.Api.Resources.{ConfigMap, Workload, Resource, config_map_object, deployment_object}

pub data IdsError : Type 0 where
  no_configuration : IdsError

unfoldable pub home_net_line : List Text → Text
unfolding join_comma
home_net_line [] = codes "var HOME_NET any\n"
home_net_line (c ∷ cs) = codes "var HOME_NET [" ++ (join_comma (c ∷ cs) ++ codes "]\n")

-- The inline rules, each below the name of its source; references are mounted instead.
unfoldable pub inline_rules : List IdsRuleSource → Text
inline_rules [] = []
inline_rules (s ∷ sources) =
    let rest = inline_rules sources in
    if is_empty s.inline
    then rest
    else codes "\n# Source: " ++ (s.name ++ (codes "\n" ++ (s.inline ++ (codes "\n" ++ rest))))

unfoldable pub rules_file : IdsRules → Text
unfolding home_net_line inline_rules
rules_file rules =
    home_net_line rules.home_net_cidr
    ++ (codes "var EXTERNAL_NET !$HOME_NET\n" ++ inline_rules rules.custom_rule_sources)

unfoldable pub construct_config_map : Text → IdsRules → Text → ConfigMap
unfolding rules_file
construct_config_map network_name rules namespace = record {
  name = generate_ids_cm_name network_name;
  namespace = namespace;
  labels = [];
  contents = (codes "suricata.rules", rules_file rules) ∷ [];
}

-- The config maps that the sources refer to.
unfoldable pub referenced : List IdsRuleSource → List Text
referenced [] = []
referenced (s ∷ sources) =
    let rest = referenced sources in elim s.config_map_ref [ none ↦ rest | some name ↦ name ∷ rest ]

abbrev pub suricata : Container
suricata = record {
  name = codes "suricata";
  image = codes "jasonish/suricata:latest";
  pull_policy = unset;
  command = codes "/bin/bash" ∷ codes "-c" ∷ [];
  args =
      codes
        "suricata -D -i net1 && touch /var/log/suricata/fast.log && tail -f /var/log/suricata/fast.log -s 1"
      ∷ [];
  env = [];
  ports = [];
  volume_mounts =
      record {
        name = codes "rules-volume";
        mount_path = codes "/var/lib/suricata/rules";
        sub_path = [];
        read_only = true;
      }
      ∷ [];
  capabilities = codes "NET_ADMIN" ∷ codes "NET_RAW" ∷ codes "IPC_LOCK" ∷ [];
  privileged = true;
}

abbrev pub ids_labels : List (Text × Text)
ids_labels = (codes "app", codes "suricata-ids") ∷ (codes "l2sm/component", codes "ids") ∷ []

unfoldable pub generate_suricata_deployment : IdsRules → Text → Text → Text → Workload
unfolding referenced
generate_suricata_deployment rules network_name net_attach_annotation namespace = record {
  name = generate_ids_deployname network_name;
  namespace = namespace;
  labels = [];
  annotations = [];
  replicas = none;
  selector = ids_labels;
  template = record {
    labels = ids_labels;
    annotations = (multus_annotation_key, net_attach_annotation) ∷ [];
    spec = record {
      switch = record {
        volumes =
            record {
              name = codes "rules-volume";
              source =
                  projected
                    (generate_ids_cm_name network_name ∷ referenced rules.custom_rule_sources);
            }
            ∷ [];
        init_containers = [];
        containers = suricata ∷ [];
        host_network = false;
      };
      node_selector = [];
      tolerate_all = false;
      service_account = [];
      node_name = rules.node;
    };
  };
}

-- The network that is given is not nil; its own namespace stands in for a missing one.
unfoldable pub generate_external_resources : L2Network → Text → Result IdsError (List Resource)
generate_external_resources network net_attach_string = elim network.spec.ids [
  | none ↦ err no_configuration
  | some rules ↦
      let namespace = if is_empty rules.namespace then network.namespace else rules.namespace in
      ok (
        config_map_object (construct_config_map network.name rules namespace)
        ∷ deployment_object
            (generate_suricata_deployment rules network.name net_attach_string namespace)
        ∷ [])
]
