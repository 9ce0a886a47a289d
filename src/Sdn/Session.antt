-- ===== src/Sdn/Session.antt =====
-- internal/sdnclient/session_client.go: a request with the session's headers.
use l2s_m.Base.{ℕ, [], ◌∷◌, ◌++◌, Option, Text, codes}
use l2s_m.Sdn.{VnetPayload}

pub data Method : Type 0 where
  get post delete : Method

pub record Request : Type 0 where
  pub method : Method
  pub url : Text
  pub authorization : Text
  pub content_type : Text
  pub body : Text

-- What the program uses of the standard library: sending a request, which yields a status code or
-- an error, JSON, and the base64 encoding.
pub record Http (W : Type 0) : Type 0 where
  pub send : Request → W → Option ℕ × W
  pub marshal : VnetPayload → Text
  pub base64 : Text → Text

pub record SessionClient : Type 0 where
  pub base_url : Text
  pub auth_token : Text

module _ {W : Type 0} (http : Http W) where
  unfoldable pub new_session_client : Text → Text → Text → SessionClient
  new_session_client base_url username password = record {
    base_url = base_url;
    auth_token = http.base64 (username ++ (b':' ∷ password));
  }

  unfoldable pub new_request : SessionClient → Method → Text → Text → Request
  new_request c method url body = record {
    method = method;
    url = c.base_url ++ url;
    authorization = codes "Basic " ++ c.auth_token;
    content_type = codes "application/json";
    body = body;
  }

  unfoldable pub do_request : Request → W → Option ℕ × W
  do_request req = http.send req

  unfoldable pub session_get : SessionClient → Text → W → Option ℕ × W
  unfolding new_request do_request
  session_get c url = do_request (new_request c get url [])

  unfoldable pub session_post : SessionClient → Text → Text → W → Option ℕ × W
  unfolding new_request do_request
  session_post c url body = do_request (new_request c post url body)

  unfoldable pub session_delete : SessionClient → Text → Text → W → Option ℕ × W
  unfolding new_request do_request
  session_delete c url body = do_request (new_request c delete url body)

abbrev pub ok_status : ℕ
ok_status = 200

abbrev pub no_content : ℕ
no_content = 204
