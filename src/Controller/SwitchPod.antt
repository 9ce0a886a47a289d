-- ===== src/Controller/SwitchPod.antt =====
-- What the switches of overlays and network edge devices share: the pod made from a template, the
-- numbers and names of the interfaces, and `GenerateAnnotations` of pod_utils.go with `GetIfName` and
-- `ProbeInterface` of internal/talpainterface/ifname.go.
use l2s_m.Base.{
  true, ℕ, zero, suc, ◌+◌, ◌%◌, ◌^◌, List, [], ◌∷◌, ◌++◌, map, Text, codes, join_comma, decimal,
  hex_padded, ltb, if◌then◌else◌,
}
use l2s_m.Base.Int.{ℤ, pos_part}
use l2s_m.Datapath.{Datapath}
use l2s_m.Api.Switch.{Container, Volume, config_map, SwitchPodSpec, SwitchTemplateSpec}
use l2s_m.Api.Overlay.{overlay_provider}

-- The numbers of a loop that starts at `i` and runs `n` times.
unfoldable pub numbered : ℕ → ℕ → List ℕ
numbered i zero = []
numbered i (suc n) = i ∷ numbered (i + 1) n

-- `for i := 1; i <= InterfaceNumber; i++`
unfoldable pub interfaces : ℤ → List ℕ
interfaces n = numbered 1 (pos_part n)

-- `%s-veth%d`
unfoldable pub interface_name : Text → ℕ → Text
interface_name overlay i = overlay ++ (codes "-veth" ++ decimal i)

unfoldable pub get_if_name : Datapath → Text → Text → ℕ → Text
get_if_name dp node provider index = dp.port_name node provider index

-- `dp.probe_name` has the reserved probe's number in it.
unfoldable pub probe_interface : Datapath → Text → Text → Text
probe_interface dp node provider = dp.probe_name node provider

-- `%02d`
unfoldable pub two_digits : ℕ → Text
two_digits n = if ltb n 10 then b'0' ∷ decimal n else decimal n

-- `Generate4byteChunk`, from 64 random bits
unfoldable pub generate_4byte_chunk : ℕ → Text
unfolding hex_padded
generate_4byte_chunk bits = hex_padded 4 (bits % 2 ^ 16)

unfoldable pub annotation_of : Datapath → Text → Text → ℕ → Text → Text
unfolding interface_name get_if_name two_digits
annotation_of dp overlay node i chunk =
    codes "{\"name\": \""
    ++ (interface_name overlay i
        ++ (codes "\", \"ips\": [\"fe80::58d0:b8ff:fe"
            ++ (two_digits i
                ++ (b':'
                    ∷ (chunk
                        ++ (codes "/64\"], \"interface\":\""
                            ++ (get_if_name dp node overlay_provider i ++ codes "\"}")))))))

module _ {W : Type 0} (random : W → ℕ × W) (dp : Datapath) where
  unfoldable pub annotations_of : Text → Text → List ℕ → W → List Text × W
  unfolding annotation_of generate_4byte_chunk
  annotations_of overlay node [] w = ([], w)
  annotations_of overlay node (i ∷ is) w =
      let (bits, w1) = random w in
      let (rest, w2) = annotations_of overlay node is w1 in
      (annotation_of dp overlay node i (generate_4byte_chunk bits) ∷ rest, w2)

  unfoldable pub generate_annotations : Text → Text → ℤ → W → Text × W
  unfolding annotations_of interfaces join_comma
  generate_annotations overlay node amount w =
      let (annotations, w') = annotations_of overlay node (interfaces amount) w in
      (b'[' ∷ (join_comma annotations ++ b']' ∷ []), w')

-- A container of the template with one more file mounted.
abbrev pub with_mount : Text → Container → Container
with_mount name c = record c {
  volume_mounts =
      c.volume_mounts
      ++ record { name = name; mount_path = codes "/etc/l2sm/"; sub_path = []; read_only = true }
        ∷ [];
}

-- The volume of two files of a config map.
abbrev pub config_volume : Text → Text → Text → Text → Volume
config_volume name config_map_name file1 file2 = record {
  name = name;
  source =
      config_map config_map_name
        (record { key = file1; path = file1 } ∷ record { key = file2; path = file2 } ∷ []);
}

-- The pod of a switch: the template on one node, with the files of a volume in every container.
abbrev pub switch_pod : SwitchTemplateSpec → Volume → SwitchPodSpec
switch_pod template volume = record {
  volumes = volume ∷ [];
  init_containers = template.spec.init_containers;
  containers = map (with_mount volume.name) template.spec.containers;
  host_network = template.spec.host_network;
}
