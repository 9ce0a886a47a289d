-- ===== src/Api/Switch.antt =====
-- The switch templates of api/v1/networkedgedevice_types.go, over the parts of a pod's
-- specification that the program fills in.
use l2s_m.Base.{ℕ, Bool, List, Option, Text}
use l2s_m.Base.Dict.{Dict}

pub record VolumeMount : Type 0 where
  pub name : Text
  pub mount_path : Text
  pub sub_path : Text
  pub read_only : Bool

-- An item of a volume made from a config map: the key and the file's path.
pub record KeyToPath : Type 0 where
  pub key : Text
  pub path : Text

pub data VolumeSource : Type 0 where
  config_map : Text → List KeyToPath → VolumeSource
  empty_dir : VolumeSource
  projected : List Text → VolumeSource  -- the names of the config maps
  other : VolumeSource

pub record Volume : Type 0 where
  pub name : Text
  pub source : VolumeSource

-- A variable with a value, or taken from a field of the pod.
pub record EnvVar : Type 0 where
  pub name : Text
  pub value : Text
  pub field_path : Option Text

pub data PullPolicy : Type 0 where
  always if_not_present unset : PullPolicy

pub record ContainerPort : Type 0 where
  pub name : Text
  pub port : ℕ

pub record Container : Type 0 where
  pub name : Text
  pub image : Text
  pub pull_policy : PullPolicy
  pub command : List Text
  pub args : List Text
  pub env : List EnvVar
  pub ports : List ContainerPort
  pub volume_mounts : List VolumeMount
  pub capabilities : List Text
  pub privileged : Bool

pub record SwitchPodSpec : Type 0 where
  pub volumes : List Volume
  pub init_containers : List Container
  pub containers : List Container
  pub host_network : Bool

pub record SwitchTemplateSpec : Type 0 where
  pub labels : Dict Text
  pub annotations : Dict Text
  pub spec : SwitchPodSpec
