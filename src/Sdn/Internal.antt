-- ===== src/Sdn/Internal.antt =====
-- internal/sdnclient/internal_client.go: the client of the vnets application.
use l2s_m.Base.{
  ℕ, Bool, ◌||◌, [], ◌++◌, Option, none, some, Text, codes, Result, ok, err, ◌==◌, if◌then◌else◌,
}
use l2s_m.Base.Effects.{Outcome, returned}
use l2s_m.Api.L2Network.{NetworkType}
use l2s_m.Sdn.{VnetPayload, SdnError, transport, status, Client}
use l2s_m.Sdn.Session.{
  Http, SessionClient, session_get, session_post, session_delete, ok_status, no_content,
}

-- A request that must be answered by one of the codes that `good` accepts.
unfoldable pub expect : {W : Type 0} → (ℕ → Bool) → Option ℕ × W → Outcome (Option SdnError) × W
expect good (none, w) = (returned (some transport), w)
expect good (some code, w) = (returned (if good code then none else some status), w)

unfoldable pub expect_exists : {W : Type 0} → Option ℕ × W → Outcome (Result SdnError Bool) × W
expect_exists (none, w) = (returned (err transport), w)
expect_exists (some code, w) = (returned (ok (code == ok_status)), w)

module _ {W : Type 0} (http : Http W) (session : SessionClient) where
  unfoldable pub create_network : NetworkType → VnetPayload → W → Outcome (Option SdnError) × W
  create_network type config w =
      expect (λ c. c == no_content)
        (session_post http session (codes "/vnets/api") (http.marshal config) w)

  unfoldable pub check_network_exists : NetworkType → Text → W → Outcome (Result SdnError Bool) × W
  check_network_exists type network_id w =
      expect_exists (session_get http session (codes "/vnets/api/" ++ network_id) w)

  unfoldable pub delete_network : NetworkType → Text → W → Outcome (Option SdnError) × W
  delete_network type network_id w =
      expect (λ c. c == no_content)
        (session_delete http session (codes "/vnets/api/" ++ network_id) [] w)

  unfoldable pub attach_pod_to_network :
      NetworkType → VnetPayload → W → Outcome (Option SdnError) × W
  attach_pod_to_network type config w =
      expect (λ c. c == no_content)
        (session_post http session (codes "/vnets/api/port") (http.marshal config) w)

  unfoldable pub detach_pod_from_network :
      NetworkType → VnetPayload → W → Outcome (Option SdnError) × W
  detach_pod_from_network type config w =
      expect (λ c. c == no_content || c == ok_status)
        (session_delete http session (codes "/vnets/api/port") (http.marshal config) w)

  unfoldable pub set_up_mirror_port : NetworkType → VnetPayload → W → Outcome (Option SdnError) × W
  set_up_mirror_port type config w =
      expect (λ c. c == no_content)
        (session_post http session (codes "/vnets/api/mirror-port") (http.marshal config) w)

  unfoldable pub begin_session_controller : W → Option ℕ × W
  begin_session_controller w = session_get http session (codes "/vnets/api/status") w

  unfoldable pub internal_client : Client W
  internal_client = record {
    create_network = create_network;
    delete_network = delete_network;
    check_network_exists = check_network_exists;
    attach_pod_to_network = attach_pod_to_network;
    detach_pod_from_network = detach_pod_from_network;
    set_up_mirror_port = set_up_mirror_port;
  }
