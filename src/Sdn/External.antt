-- ===== src/Sdn/External.antt =====
-- internal/sdnclient/external_client.go: the client of the inter-cluster application.
use l2s_m.Base.{ℕ, Bool, [], ◌++◌, Option, none, some, Text, codes, Result, ◌==◌}
use l2s_m.Base.Effects.{Outcome, returned, panicked}
use l2s_m.Api.L2Network.{NetworkType}
use l2s_m.Sdn.{VnetPayload, SdnError, unimplemented, Client}
use l2s_m.Sdn.Session.{Http, SessionClient, session_get, session_post, session_delete, no_content}
use l2s_m.Sdn.Internal.{expect, expect_exists}

module _ {W : Type 0} (http : Http W) (session : SessionClient) where
  unfoldable pub create_network : NetworkType → VnetPayload → W → Outcome (Option SdnError) × W
  create_network type config w =
      expect (λ c. c == no_content)
        (session_post http session (codes "/idco/mscs") (http.marshal config) w)

  unfoldable pub check_network_exists : NetworkType → Text → W → Outcome (Result SdnError Bool) × W
  check_network_exists type network_id w =
      expect_exists (session_get http session (codes "/idco/mscs/" ++ network_id) w)

  unfoldable pub delete_network : NetworkType → Text → W → Outcome (Option SdnError) × W
  delete_network type network_id w =
      expect (λ c. c == no_content)
        (session_delete http session (codes "/idco/mscs/" ++ network_id) [] w)

  unfoldable pub attach_pod_to_network :
      NetworkType → VnetPayload → W → Outcome (Option SdnError) × W
  attach_pod_to_network type config w = (returned none, w)

  unfoldable pub detach_pod_from_network :
      NetworkType → VnetPayload → W → Outcome (Option SdnError) × W
  detach_pod_from_network type config w = (panicked, w)

  unfoldable pub set_up_mirror_port : NetworkType → VnetPayload → W → Outcome (Option SdnError) × W
  set_up_mirror_port type config w = (returned (some unimplemented), w)

  unfoldable pub begin_session_controller : W → Option ℕ × W
  begin_session_controller w = session_get http session (codes "/idco/mscs/status") w

  unfoldable pub external_client : Client W
  external_client = record {
    create_network = create_network;
    delete_network = delete_network;
    check_network_exists = check_network_exists;
    attach_pod_to_network = attach_pod_to_network;
    detach_pod_from_network = detach_pod_from_network;
    set_up_mirror_port = set_up_mirror_port;
  }
