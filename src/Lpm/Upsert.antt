-- ===== src/Lpm/Upsert.antt =====
-- Reconciling again does not change a switch pod further.
use l2s_m.Base.{◌≡◌, refl, ap, true, List, [], ◌∷◌, ◌++◌, some, Text, text_eq, text_eq_refl, arith}
use l2s_m.Api.Switch.{VolumeMount, Volume, Container, SwitchPodSpec}
use l2s_m.Lpm.{
  has_mount, add_mount, add_to_containers, add_lpm_config_map_to_sps, collector_mount_path,
  collector_volume_name, collector_volume, upsert_volume, attach_collector_config_to_replica_set,
}

same_text : (s t : Text) → s ≡ t → text_eq s t ≡ true
same_text s t h = rw h (text_eq_refl t)

has_mount-append :
    (ms : List VolumeMount) (m : VolumeMount)
    → m.mount_path ≡ collector_mount_path
    → has_mount collector_mount_path (ms ++ m ∷ []) ≡ true
unfolding has_mount
has_mount-append [] m h = ground (arith, same_text m.mount_path collector_mount_path h)
has_mount-append (n ∷ ms) m h = ground (arith, has_mount-append ms m h)

has_mount-add_mount :
    (c : Container) → has_mount collector_mount_path (add_mount c).volume_mounts ≡ true
unfolding add_mount
has_mount-add_mount c = has_mount-append c.volume_mounts _ refl

add_mount-name : (c : Container) → (add_mount c).name ≡ c.name
unfolding add_mount
add_mount-name c = refl

add_to_containers-idempotent :
    (cs : List Container) → add_to_containers (add_to_containers cs) ≡ add_to_containers cs
unfolding add_to_containers
add_to_containers-idempotent [] = refl
add_to_containers-idempotent (c ∷ cs) =
    ground (arith, add_to_containers-idempotent cs, has_mount-add_mount c, add_mount-name c)

upsert_volume-twice :
    (u v : Volume) (vs : List Volume)
    → u.name ≡ collector_volume_name
    → upsert_volume v (upsert_volume u vs) ≡ upsert_volume v vs
unfolding upsert_volume
upsert_volume-twice u v [] h = ground (arith, same_text u.name collector_volume_name h)
upsert_volume-twice u v (x ∷ vs) h =
    ground (arith, same_text u.name collector_volume_name h, upsert_volume-twice u v vs h)

-- Adding the monitoring file to a switch pod twice gives what adding it once gives.
pub add_lpm_config_map_to_sps-idempotent :
    (ps : SwitchPodSpec)
    → add_lpm_config_map_to_sps (add_lpm_config_map_to_sps ps) ≡ add_lpm_config_map_to_sps ps
unfolding add_lpm_config_map_to_sps
add_lpm_config_map_to_sps-idempotent ps =
    ap (λ (cs : List Container). record ps { containers = cs })
      (add_to_containers-idempotent (ps.containers))

named : (rs_name : Text) → (collector_volume rs_name).name ≡ collector_volume_name
unfolding collector_volume
named rs_name = refl

-- If the configuration of one replica set was attached to a pod template, attaching one again,
-- under the same or another name, gives what attaching it to the original template gives.
pub attach_collector_config_to_replica_set-again :
    (ps ps' : SwitchPodSpec) (first second : Text)
    → attach_collector_config_to_replica_set ps first ≡ some ps'
    → attach_collector_config_to_replica_set ps' second
      ≡ attach_collector_config_to_replica_set ps second
unfolding attach_collector_config_to_replica_set
attach_collector_config_to_replica_set-again ps ps' first second e = ground (
  arith,
  upsert_volume-twice (collector_volume first) (collector_volume second) ps.volumes (named first),
)
