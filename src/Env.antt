-- ===== src/Env.antt =====
-- internal/env: settings from environment variables; looking one up is a parameter.
use l2s_m.Base.{[], Option, none, some, Text, codes}

abbrev pub Lookup : Type 0
Lookup = Text → Option Text

unfoldable pub get_env : Lookup → Text → Text → Text
get_env lookup_env key default_value = elim (lookup_env key) [
  | none ↦ default_value
  | some value ↦ value
]

module _ (lookup_env : Lookup) where
  unfoldable pub get_dns_port_number : Text
  get_dns_port_number = get_env lookup_env (codes "DNS_PORT_NUMBER") (codes "30053")

  unfoldable pub get_dns_grpc_port_number : Text
  get_dns_grpc_port_number = get_env lookup_env (codes "GRPC_DNS_PORT_NUMBER") (codes "30818")

  unfoldable pub get_switches_namespace : Text
  get_switches_namespace = get_env lookup_env (codes "SWITCHES_NAMESPACE") []

  unfoldable pub get_controller_ip : Text
  get_controller_ip =
      get_env lookup_env (codes "CONTROLLER_IP")
        (codes "l2sm-controller-service.l2sm-system.svc.cluster.local")

  unfoldable pub get_controller_port : Text
  get_controller_port = get_env lookup_env (codes "CONTROLLER_PORT") (codes "8181")

  unfoldable pub get_intra_configmap_namespace : Text
  get_intra_configmap_namespace =
      get_env lookup_env (codes "INTRA_CONFIGMAP_NAMESPACE") (codes "kube-system")

  unfoldable pub get_intra_configmap_name : Text
  get_intra_configmap_name = get_env lookup_env (codes "INTRA_CONFIGMAP_NAME") (codes "coredns")
