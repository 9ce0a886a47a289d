-- ===== src/Utils/Naming/Laws.antt =====
-- Which generated names can be told apart, and which cannot.
use mathlib.Core.List.{append_cancel_right}
use l2s_m.Base.{ℕ, ◌≡◌, ◌≢◌, ap, [], ◌∷◌, ◌++◌, append_assoc, Text, arith}
use l2s_m.Utils.Naming.{
  SwitchType, slice_packet_switch, network_edge_device, generate_switch_pod_name,
  generate_service_name,
}

-- Moving the end of the resource name to the front of the node name does not change the name of
-- the switch pod.
pub generate_switch_pod_name_clash :
    (resource moved node : Text) (t : SwitchType)
    → generate_switch_pod_name (resource ++ moved) node t
      ≡ generate_switch_pod_name resource (moved ++ node) t
unfolding generate_switch_pod_name
generate_switch_pod_name_clash resource moved node t = rw append_assoc

abbrev first : Text → ℕ
first [] = 0
first (c ∷ s) = c

-- A switch pod of an overlay and a switch pod of a network edge device never have the same name.
pub generate_switch_pod_name_kinds :
    (r n r' n' : Text)
    → generate_switch_pod_name r n slice_packet_switch
      ≢ generate_switch_pod_name r' n' network_edge_device
unfolding generate_switch_pod_name
generate_switch_pod_name_kinds r n r' n' e = omega (arith, ap first e)

pub generate_service_name-injective :
    (a b : Text) → generate_service_name a ≡ generate_service_name b → a ≡ b
unfolding generate_service_name
generate_service_name-injective a b e = append_cancel_right a b _ e
