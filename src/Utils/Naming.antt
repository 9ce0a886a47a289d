-- ===== src/Utils/Naming.antt =====
-- internal/utils/naming.go: the names of generated objects. `fnv.New32` is FNV-1 on 32 bits.
pub mod Laws
use Prim.Native.Nat.{bit_xor}
use l2s_m.Base.{ℕ, ◌*◌, ◌%◌, ◌^◌, ◌≡◌, refl, [], ◌∷◌, ◌++◌, Text, codes, hex_padded}

pub data SwitchType : Type 0 where
  slice_packet_switch network_edge_device : SwitchType

unfoldable pub switch_type : SwitchType → Text
switch_type slice_packet_switch = codes "sps"
switch_type network_edge_device = codes "ned"

-- `sum32.Write`: multiply by the prime, then exclusive or with the byte
unfoldable pub fnv_write : ℕ → Text → ℕ
fnv_write h [] = h
fnv_write h (c ∷ s) = fnv_write (bit_xor (h * 16777619 % 2 ^ 32) c) s

unfoldable pub fnv32 : Text → ℕ
unfolding fnv_write
fnv32 s = fnv_write 2166136261 s

unfoldable pub generate_switch_pod_name : Text → Text → SwitchType → Text
unfolding fnv32 switch_type hex_padded
generate_switch_pod_name resource_name node_name t =
    let sum = fnv32 (resource_name ++ node_name) in switch_type t ++ b'-' ∷ hex_padded 4 sum

unfoldable pub generate_replica_set_name : Text → Text
generate_replica_set_name switch_pod_name = switch_pod_name

unfoldable pub generate_service_name : Text → Text
generate_service_name switch_pod_name = switch_pod_name ++ codes "-svc"

unfoldable pub generate_lpm_network_name : Text → Text
generate_lpm_network_name overlay_name = codes "lpm-" ++ overlay_name

unfoldable pub generate_ids_cm_name : Text → Text
generate_ids_cm_name network_name = network_name ++ codes "-ids-cm"

unfoldable pub generate_ids_deployname : Text → Text
generate_ids_deployname network_name = network_name ++ codes "-ids"

-- The published FNV-1 hash of "foobar".
fnv_test : fnv32 (codes "foobar") ≡ 0x31f0b262
unfolding fnv32
fnv_test = refl

name_test :
    generate_switch_pod_name (codes "foo") (codes "bar") slice_packet_switch ≡ codes "sps-31f0b262"
unfolding generate_switch_pod_name
name_test = refl
