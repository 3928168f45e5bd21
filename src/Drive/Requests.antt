-- ===== src/Drive/Requests.antt =====
-- crates/gdrive-sync/src/drive_client.rs, `send` and `check_status`: a request with its token,
-- the one retry after a refusal, and what a status stands for. `reqwest` is a parameter.
pub mod Retry
use gd_client.Prelude.{
  Bool, List, Option, Result, String, err, if◌then◌else◌, leb, none, ok, some, ℕ, ◌&&◌, ◌<>◌, ◌==◌,
  ◌∷◌,
}
use gd_client.Effects.{Exec, ◌>>=◌, ◌>>◌, pure, fail}
use gd_client.Common.Errors.{SyncError, api, oauth, reauthentication_required}
use gd_client.Drive.Auth.{TokenDisk, OAuthConfig}
use gd_client.Drive.Tokens.{TokenState, Client, Waits, access_token}

pub data JsonValue : Type 0 where
  json_text : String → JsonValue
  json_array : List String → JsonValue

pub data Body : Type 0 where
  no_body : Body
  json_body : List (String × JsonValue) → Body
  bytes_body : List ℕ → Body
  multipart_body : List ℕ → Body

pub record Request : Type 0 where
  pub method : String
  pub url : String
  pub query : List (String × String)
  pub body : Body
  pub can_clone : Bool

-- `text` and `bytes` are what reading the body gives.
pub record Response : Type 0 where
  pub status : ℕ
  pub text : Result SyncError String
  pub bytes : Result SyncError (List ℕ)

abbrev pub unauthorized : ℕ
unauthorized = 401

-- `StatusCode::is_success`
abbrev pub is_success : ℕ → Bool
is_success status = leb 200 status && leb status 299

-- The network, and what happens in this process while a request waits for it.
pub record Internet (D : TokenDisk) : Type 1 where
  pub Net : Type 0
  pub transport : Request → String → Net → Result SyncError Response × Net
  pub meanwhile : Net → Client D → Client D
  pub waits : Net → Waits D
  pub status_text : ℕ → String

-- `drive_requests` holds what went out to the Drive API, the newest first, with its bearer token. What
-- `access_token` asks of the token endpoint is not a request of these: its answer is in `Waits`.
pub record World (D : TokenDisk) (I : Internet D) : Type 0 where
  pub client : Client D
  pub net : I.Net
  pub drive_requests : List (Request × String)

module _ (D : TokenDisk) (I : Internet D) (config : Option OAuthConfig) where
  -- `bearer_auth(token).send().await`
  unfoldable pub send_with : Request → String → Exec (World D I) Response
  send_with request token w =
      let (r, net) = I.transport request token w.net in
      (
        r,
        record {
          client = I.meanwhile w.net w.client;
          net = net;
          drive_requests = (request, token) ∷ w.drive_requests;
        },
      )

  unfoldable pub get_token : Option TokenState → Exec (World D I) TokenState
  get_token rejected w =
      let (r, client) = access_token D config rejected (I.waits w.net) w.client in
      (r, record w { client = client })

  abbrev replay : Request → TokenState → Exec (World D I) Response
  replay request token =
      if request.can_clone
      then (do refreshed ← get_token (some token); send_with request refreshed.token.access_token)
      else fail (oauth "Drive request cannot be replayed after authentication failed")

  -- `DriveClient::send`
  unfoldable pub send : Request → Exec (World D I) Response
  send request = do
    token ← get_token none
    response ← send_with request token.token.access_token
    if response.status == unauthorized then replay request token else pure response

  abbrev status_error : ℕ → String → SyncError
  status_error status text = api ("HTTP " <> I.status_text status <> ": " <> text)

  -- `check_status`
  unfoldable pub check_status : Response → Result SyncError Response
  check_status response =
      if is_success response.status
      then ok response
      else if response.status == unauthorized
      then err reauthentication_required
      else elim response.text [ err e ↦ err e | ok text ↦ err (status_error response.status text) ]
