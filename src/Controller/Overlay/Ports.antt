-- ===== src/Controller/Overlay/Ports.antt =====
-- The interfaces of an overlay: their attachment definitions and the numbers of their ports.
use l2s_m.Base.{
  ℕ, zero, suc, ◌+◌, ◌≡◌, refl, ap, ◌∙◌, List, [], ◌∷◌, map, none, Text, decimal, Result, ok,
}
use l2s_m.Base.Int.{ℤ, pos, negsuc}
use l2s_m.Utils.Strings.{index, veth, PortError, get_port_number_from_net_attach_def}
use l2s_m.Utils.Strings.Ports.{get_port_number-decimal}
use l2s_m.Api.Meta.{NetAttachDef}
use l2s_m.Api.Overlay.{Overlay}
use l2s_m.Controller.Overlay.{net_attach_def_of, build_network_attachment_definitions}
use l2s_m.Controller.SwitchPod.{numbered, interfaces, interface_name}

port_of_interface :
    (overlay : Overlay) (i : ℕ)
    → index overlay.name veth ≡ none
    → get_port_number_from_net_attach_def ((net_attach_def_of overlay i).name) ≡ ok (decimal i)
unfolding net_attach_def_of interface_name
port_of_interface overlay i h = get_port_number-decimal overlay.name i h

-- The `n` numbers from `first` on.
abbrev pub counted : ℕ → ℕ → List ℕ
counted first zero = []
counted first (suc n) = first ∷ counted (first + 1) n

-- The numbers of the ports that an overlay asks for: 1, 2 and so on, and none for a number that is
-- not positive.
abbrev pub asked_ports : ℤ → List ℕ
asked_ports (pos n) = counted 1 n
asked_ports (negsuc n) = []

abbrev pub read_port : NetAttachDef → Result PortError Text
read_port nad = get_port_number_from_net_attach_def nad.name

numbered-ports :
    (overlay : Overlay) (first n : ℕ)
    → index overlay.name veth ≡ none
    → map read_port (map (net_attach_def_of overlay) (numbered first n))
      ≡ map (λ i. ok (decimal i)) (counted first n)
unfolding numbered
numbered-ports overlay first zero h = refl
numbered-ports overlay first (suc n) h =
    ap (λ x. x ∷ map read_port (map (net_attach_def_of overlay) (numbered (first + 1) n)))
      (port_of_interface overlay first h)
    ∙ ap (λ xs. ok (decimal first) ∷ xs) (numbered-ports overlay (first + 1) n h)

interfaces-ports :
    (overlay : Overlay) (n : ℤ)
    → index overlay.name veth ≡ none
    → map read_port (map (net_attach_def_of overlay) (interfaces n))
      ≡ map (λ i. ok (decimal i)) (asked_ports n)
unfolding interfaces
interfaces-ports overlay (pos n) h = numbered-ports overlay 1 n h
interfaces-ports overlay (negsuc n) h = numbered-ports overlay 1 0 h

-- If the name of an overlay does not hold "veth", the port numbers that are read from the names
-- of its attachment definitions are 1, 2 and so on up to the number of interfaces that it asks
-- for, and it has no definition if that number is not positive.
pub build_network_attachment_definitions-ports :
    (overlay : Overlay)
    → index overlay.name veth ≡ none
    → map read_port (build_network_attachment_definitions overlay)
      ≡ map (λ i. ok (decimal i)) (asked_ports overlay.spec.interface_number)
unfolding build_network_attachment_definitions
build_network_attachment_definitions-ports overlay h =
    interfaces-ports overlay overlay.spec.interface_number h
