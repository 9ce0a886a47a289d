-- ===== src/Api/Resources.antt =====
-- The objects that the controllers create: config maps, workloads (replica sets and deployments),
-- services and attachment definitions, with the fields that the program fills in.
use l2s_m.Base.{ℕ, Bool, Option, Text, codes, ◌∷◌, []}
use l2s_m.Base.Dict.{Dict}
use l2s_m.Api.Meta.{NetAttachDef}
use l2s_m.Api.Switch.{SwitchPodSpec}

pub record ConfigMap : Type 0 where
  pub name : Text
  pub namespace : Text
  pub labels : Dict Text
  pub contents : Dict Text

-- `corev1.PodSpec`: the part that a switch template has too, and the rest. `tolerate_all` is the one
-- toleration that the program writes, of every taint.
pub record PodSpec : Type 0 where
  pub switch : SwitchPodSpec
  pub open switch use *
  pub node_selector : Dict Text
  pub tolerate_all : Bool
  pub service_account : Text
  pub node_name : Text

pub record PodTemplate : Type 0 where
  pub labels : Dict Text
  pub annotations : Dict Text
  pub spec : PodSpec

-- A replica set or a deployment; no number of replicas is the server's default.
pub record Workload : Type 0 where
  pub name : Text
  pub namespace : Text
  pub labels : Dict Text
  pub annotations : Dict Text
  pub replicas : Option ℕ
  pub selector : Dict Text
  pub template : PodTemplate

-- `headless` is the cluster address "None".
pub record Service : Type 0 where
  pub name : Text
  pub namespace : Text
  pub labels : Dict Text
  pub selector : Dict Text
  pub headless : Bool
  pub port_name : Text
  pub port : ℕ

pub data Resource : Type 0 where
  config_map_object : ConfigMap → Resource
  net_attach_def_object : NetAttachDef → Resource
  replica_set_object deployment_object : Workload → Resource
  service_object : Service → Resource

-- A map with one entry
abbrev pub one_label : Text → Text → Dict Text
one_label key value = (key, value) ∷ []

-- `corev1.LabelHostname`
abbrev pub hostname_label : Text
hostname_label = codes "kubernetes.io/hostname"
