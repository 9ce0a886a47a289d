-- ===== src/Sdn/Create.antt =====
-- internal/sdnclient/client.go: `NewClient`, which opens a session before it returns a client.
use l2s_m.Base.{ℕ, Option, none, some, Text, Result, ok, err, ◌==◌, if◌then◌else◌}
use l2s_m.Sdn.{SdnError, no_session, unsupported_client_type, Client}
use l2s_m.Sdn.Session.{Http, new_session_client, ok_status}
use l2s_m.Sdn.Internal
use l2s_m.Sdn.External

pub data ClientType : Type 0 where
  internal external : ClientType
  other : Text → ClientType

pub record ClientConfig : Type 0 where
  pub base_url : Text
  pub username : Text
  pub password : Text

-- The session is up if the status request is answered by 200.
unfoldable pub started : {W : Type 0} → Client W → Option ℕ × W → Result SdnError (Client W) × W
started client (none, w) = (err no_session, w)
started client (some code, w) = (if code == ok_status then ok client else err no_session, w)

module _ {W : Type 0} (http : Http W) where
  unfoldable pub new_client : ClientType → ClientConfig → W → Result SdnError (Client W) × W
  unfolding new_session_client started
  new_client internal config w =
      let session = new_session_client http config.base_url config.username config.password in
      started (Internal.internal_client http session)
        (Internal.begin_session_controller http session w)
  new_client external config w =
      let session = new_session_client http config.base_url config.username config.password in
      started (External.external_client http session)
        (External.begin_session_controller http session w)
  new_client (other t) config w = (err unsupported_client_type, w)
