-- ===== src/Controller/Network/Attach.antt =====
-- `AttachInterface` of internal/talpainterface/grpcapi.go: the call of a network edge device. The gRPC
-- client, and the service of the device, are parameters (`NedService`).
use l2s_m.Base.{Bool, true, false, Option, none, some, Text, Result, ok, err}

-- `accepts` says whether `grpc.NewClient` gives a client for an address, which does not call the device;
-- `attach` calls the device at the address with the name of an interface, and gives the number in its
-- answer as `fmt.Sprint` prints it, or nothing after an error or ten seconds.
pub record NedService (W : Type 0) : Type 0 where
  pub accepts : Text → Bool
  pub attach : Text → Text → W → Option Text × W

pub data AttachError : Type 0 where
  not_connected not_attached : AttachError

unfoldable pub attach_interface :
    {W : Type 0} → NedService W → Text → Text → W → Result AttachError Text × W
attach_interface service ned_address ned_network_attach_def w = elim (service.accepts ned_address) [
  | false ↦ (err not_connected, w)
  | true ↦
      let (answer, w') = service.attach ned_address ned_network_attach_def w in
      (elim answer [ none ↦ err not_attached | some interface_num ↦ ok interface_num ], w')
]
