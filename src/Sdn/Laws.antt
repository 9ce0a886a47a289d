-- ===== src/Sdn/Laws.antt =====
-- When the methods of the two clients report success, and what they send.
use l2s_m.Base.{ℕ, ◌==◌, ◌||◌, ◌≡◌, ◌↔◌, ◌⊎◌, Option, none, some, Text, codes, arith}
use l2s_m.Base.Effects.{returned}
use l2s_m.Api.L2Network.{NetworkType}
use l2s_m.Sdn.{VnetPayload}
use l2s_m.Sdn.Session.{
  ok_status, no_content, Http, SessionClient, Method, get, post, delete, new_request,
  new_session_client,
}
use l2s_m.Sdn.Session
use l2s_m.Sdn.Internal

expect-no_content :
    {W : Type 0} (r : Option ℕ × W) (w' : W)
    → (Internal.expect (λ c. c == no_content) r ≡ (returned none, w')) ↔ (r ≡ (some 204, w'))
unfolding Internal.expect
expect-no_content (none, w) w' = ground arith
expect-no_content (some code, w) w' = ground arith

expect_either :
    {W : Type 0} (r : Option ℕ × W) (w' : W)
    → (Internal.expect (λ c. c == no_content || c == ok_status) r ≡ (returned none, w'))
      ↔ ((r ≡ (some 204, w')) ⊎ (r ≡ (some 200, w')))
unfolding Internal.expect
expect_either (none, w) w' = ground arith
expect_either (some code, w) w' = ground arith

module _ {W : Type 0} (http : Http W) where
  -- The one request that a method sends, with the session's headers.
  abbrev pub sent : SessionClient → Method → Text → Text → W → Option ℕ × W
  sent session method path body = http.send (new_request http session method path body)

  module _ (session : SessionClient) (type : NetworkType) (config : VnetPayload) (w w' : W) where
    -- The internal client creates a network, attaches ports and sets a mirror port without an
    -- error exactly if the one POST that it sends is answered by 204, and detaches exactly if
    -- the DELETE that it sends is answered by 204 or 200.
    pub internal_client_ok_iff :
        ((Internal.create_network http session type config w ≡ (returned none, w'))
          ↔ (sent session post (codes "/vnets/api") (http.marshal config) w ≡ (some 204, w')))
        × ((Internal.attach_pod_to_network http session type config w ≡ (returned none, w')) ↔ (
            sent session post (codes "/vnets/api/port") (http.marshal config) w ≡ (some 204, w')))
        × ((Internal.set_up_mirror_port http session type config w ≡ (returned none, w')) ↔ (
            sent session post (codes "/vnets/api/mirror-port") (http.marshal config) w
            ≡ (some 204, w')))
        × ((Internal.detach_pod_from_network http session type config w ≡ (returned none, w')) ↔ (
            (sent session delete (codes "/vnets/api/port") (http.marshal config) w ≡ (some 204, w'))
            ⊎ (sent session delete (codes "/vnets/api/port") (http.marshal config) w
                ≡ (some 200, w'))))
    unfolding Internal.create_network Internal.attach_pod_to_network Internal.set_up_mirror_port
        Internal.detach_pod_from_network Internal.expect Session.session_post Session.session_delete
        Session.do_request
    internal_client_ok_iff = (
      expect-no_content (sent session post (codes "/vnets/api") (http.marshal config) w) w',
      expect-no_content (sent session post (codes "/vnets/api/port") (http.marshal config) w) w',
      expect-no_content (sent session post (codes "/vnets/api/mirror-port") (http.marshal config) w)
          w',
      expect_either (sent session delete (codes "/vnets/api/port") (http.marshal config) w) w',
    )
