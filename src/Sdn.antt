-- ===== src/Sdn.antt =====
-- internal/sdnclient: the interface to the SDN controllers, its two implementations over HTTP and the
-- session client below them. The HTTP transport and `encoding/json` are parameters.
pub mod Session
pub mod Internal
pub mod External
pub mod Create
pub mod Laws
mod Tests
use l2s_m.Base.{Bool, List, Option, Text, Result}
use l2s_m.Base.Effects.{Outcome}
use l2s_m.Api.L2Network.{NetworkType}

-- internal_client.go: the body of a request to the vnets application.
pub record VnetPayload : Type 0 where
  pub network_id : Text
  pub port : List Text
  pub mirror_port : Text

pub data SdnError : Type 0 where
  transport : SdnError  -- no response was received
  status : SdnError  -- the response had another status code
  no_session unsupported_client_type unimplemented : SdnError

-- The methods of the interface `Client`, as functions that change a world `W`.
pub record Client (W : Type 0) : Type 0 where
  pub create_network : NetworkType → VnetPayload → W → Outcome (Option SdnError) × W
  pub delete_network : NetworkType → Text → W → Outcome (Option SdnError) × W
  pub check_network_exists : NetworkType → Text → W → Outcome (Result SdnError Bool) × W
  pub attach_pod_to_network : NetworkType → VnetPayload → W → Outcome (Option SdnError) × W
  pub detach_pod_from_network : NetworkType → VnetPayload → W → Outcome (Option SdnError) × W
  pub set_up_mirror_port : NetworkType → VnetPayload → W → Outcome (Option SdnError) × W
