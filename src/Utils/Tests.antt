-- ===== src/Utils/Tests.antt =====
-- Runs of the helpers on names and strings.
use l2s_m.Base.{◌≡◌, refl, ◌++◌, codes, some, ok, decimal, has_prefix}
use l2s_m.Utils.Strings.{index, veth, get_port_number_from_net_attach_def}
use l2s_m.Utils.Strings.Ports.{get_port_number_wrong}
use l2s_m.Utils.Naming.{slice_packet_switch, generate_switch_pod_name}
use l2s_m.Utils.Naming.Laws.{generate_switch_pod_name_clash}

veth_test : index (codes "veth-net") veth ≡ some 0
unfolding index has_prefix
veth_test = refl

get_port_number_wrong_example :
    get_port_number_from_net_attach_def (codes "veth-net" ++ (codes "-veth" ++ decimal 3))
    ≡ ok (codes "-net" ++ (codes "-veth" ++ decimal 3))
get_port_number_wrong_example = get_port_number_wrong (codes "veth-net") 3 0 veth_test

generate_switch_pod_name_clash_example :
    generate_switch_pod_name (codes "net" ++ codes "1") (codes "node") slice_packet_switch
    ≡ generate_switch_pod_name (codes "net") (codes "1" ++ codes "node") slice_packet_switch
generate_switch_pod_name_clash_example =
    generate_switch_pod_name_clash (codes "net") (codes "1") (codes "node") slice_packet_switch
