-- ===== src/Lpm.antt =====
-- internal/lpminterface: the changes of a switch pod for link performance monitoring,
-- `AddLPMConfigMapToSps` and `AttachCollectorConfigToReplicaSet`.
pub mod Collector
pub mod Exporter
pub mod NedCollector
pub mod Neighbours
pub mod Upsert
mod Tests
use l2s_m.Base.{
  Bool, true, false, ◌||◌, List, [], ◌∷◌, ◌++◌, Option, none, some, Text, codes, text_eq, is_empty,
  if◌then◌else◌,
}
use l2s_m.Api.Switch.{VolumeMount, KeyToPath, config_map, Volume, Container, SwitchPodSpec}

abbrev pub collector_volume_name : Text
collector_volume_name = codes "lpm-collector-config"

abbrev pub collector_mount_path : Text
collector_mount_path = codes "/etc/lpm/lpm-config.json"

abbrev pub collector_config_key : Text
collector_config_key = codes "config.json"

abbrev pub collector_mounted_cfg_name : Text
collector_mounted_cfg_name = codes "lpm-config.json"

unfoldable pub generate_configmap_name : Text → Text
generate_configmap_name rs_name = rs_name ++ codes "-config"

unfoldable pub has_mount : Text → List VolumeMount → Bool
has_mount path [] = false
has_mount path (m ∷ mounts) = text_eq m.mount_path path || has_mount path mounts

-- The container of the switch with the file mounted.
unfoldable pub add_mount : Container → Container
add_mount c = record c {
  args = c.args ++ codes "--monitor_file" ∷ collector_mount_path ∷ [];
  volume_mounts =
      c.volume_mounts
      ++ record {
        name = collector_volume_name;
        mount_path = collector_mount_path;
        sub_path = collector_mounted_cfg_name;
        read_only = false;
      }
        ∷ [];
}

-- The loop ends at the first container with the switch's name.
unfoldable pub add_to_containers : List Container → List Container
unfolding has_mount add_mount
add_to_containers [] = []
add_to_containers (c ∷ cs) =
    let rest = add_to_containers cs in
    if text_eq c.name (codes "l2sm-switch")
    then if has_mount collector_mount_path c.volume_mounts then c ∷ cs else add_mount c ∷ cs
    else c ∷ rest

unfoldable pub add_lpm_config_map_to_sps : SwitchPodSpec → SwitchPodSpec
unfolding add_to_containers
add_lpm_config_map_to_sps ps = record ps { containers = add_to_containers (ps.containers) }

unfoldable pub collector_volume : Text → Volume
unfolding generate_configmap_name
collector_volume rs_name = record {
  name = collector_volume_name;
  source =
      config_map (generate_configmap_name rs_name)
        (record { key = collector_config_key; path = collector_mounted_cfg_name } ∷ []);
}

-- The first volume of that name is replaced, or the volume is added.
unfoldable pub upsert_volume : Volume → List Volume → List Volume
upsert_volume vol [] = vol ∷ []
upsert_volume vol (v ∷ vs) =
    let rest = upsert_volume vol vs in
    if text_eq v.name collector_volume_name then vol ∷ vs else v ∷ rest

-- `none` is the error; the pod's specification is not nil where it is called.
unfoldable pub attach_collector_config_to_replica_set : SwitchPodSpec → Text → Option SwitchPodSpec
unfolding collector_volume upsert_volume is_empty
attach_collector_config_to_replica_set ps rs_name =
    if is_empty rs_name
    then none
    else some (record ps { volumes = upsert_volume (collector_volume rs_name) (ps.volumes) })
