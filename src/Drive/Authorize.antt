-- ===== src/Drive/Authorize.antt =====
-- `authorize`, `authenticate` and `wait_for_redirect_code` of crates/gdrive-sync/src/auth.rs, over the
-- `oauth2` library, the browser and a socket. A call gives the world in which it returns.
pub mod Obtained
mod Tests
use gd_client.Prelude.{ℕ, String, false, Option, List, [], ◌∷◌, Result, ok, err, map_err, ◌<>◌}
use gd_client.Effects.{Exec, ◌>>=◌, ◌>>◌, pure, lift}
use gd_client.Common.Paths.{PathBuf}
use gd_client.Common.Errors.{IoError, io, oauth, http, SyncError}
use gd_client.Drive.Auth.{
  OAuthConfig, TokenDisk, StoredToken, TokenResponse, accept_authorization, save_token,
}
use gd_client.Drive.Redirect.{redirect_code}

-- What the authorization URL asks for.
pub record AuthorizationUrl : Type 0 where
  pub redirect_url : String
  pub scope : String
  pub extra_params : List (String × String)
  pub pkce_verifier : String

-- `read` is the text of the first bytes that the redirected browser sends.
pub record SignInWorld : Type 1 where
  pub World : Type 0
  pub new_random_sha256 : World → String × World
  pub authorize_url : OAuthConfig → AuthorizationUrl → World → String × World
  pub show_auth_url : String → World → World
  pub bind : ℕ → World → Result IoError Unit × World
  pub accept_connection : World → Result IoError Unit × World
  pub read : World → Result IoError String × World
  pub write_all : String → World → World
  pub build_client : World → Result String Unit × World
  pub exchange_code : OAuthConfig → String → String → World → Result String TokenResponse × World
  pub now_unix_secs : World → ℕ

abbrev pub redirect_port : ℕ
redirect_port = 8734

abbrev drive_scope : String
drive_scope = "https://www.googleapis.com/auth/drive"

abbrev complete_page : String
complete_page = "Authentication complete. You can close this window and return to the app."

abbrev complete_response : String
complete_response =
    "HTTP/1.1 200 OK\r\nContent-Length: 73\r\nContent-Type: text/plain\r\n\r\n" <> complete_page

module _ (A : SignInWorld) where
  abbrev pub Step : Type 0 → Type 0
  Step T = Exec A.World T

  abbrev pub on_socket : {T : Type 0} → (A.World → Result IoError T × A.World) → Step T
  on_socket m w = let (r, v) = m w in (map_err io r, v)

  unfoldable pub wait_for_redirect_code : ℕ → Step String
  unfolding redirect_code
  wait_for_redirect_code port = do
    on_socket (A.bind port)
    on_socket A.accept_connection
    request ← on_socket A.read
    found ← lift (redirect_code request)
    λ w. (ok found, A.write_all complete_response w)

  abbrev pub url_for : String → AuthorizationUrl
  url_for verifier = record {
    redirect_url = "http://127.0.0.1:8734";
    scope = drive_scope;
    extra_params = ("access_type", "offline") ∷ ("prompt", "consent") ∷ [];
    pkce_verifier = verifier;
  }

  -- The consent of the user is asked for.
  abbrev pub consent_asked : OAuthConfig → String → A.World → A.World
  consent_asked config verifier w =
      let (url, v) = A.authorize_url config (url_for verifier) w in A.show_auth_url url v

  abbrev pub http_client : Step Unit
  http_client w = let (r, v) = A.build_client w in (map_err (λ e. http e false) r, v)

  abbrev pub exchange_found : OAuthConfig → String → String → Step TokenResponse
  exchange_found config found verifier w =
      let (r, v) = A.exchange_code config found verifier w in (map_err oauth r, v)

  abbrev pub stored_response : TokenResponse → Step StoredToken
  stored_response response w = (accept_authorization response (A.now_unix_secs w), w)

  -- From the consent on.
  abbrev pub granted : OAuthConfig → String → Step StoredToken
  granted config verifier = do
    found ← wait_for_redirect_code redirect_port
    http_client
    response ← exchange_found config found verifier
    stored_response response

  unfoldable pub authorize : OAuthConfig → Step StoredToken
  unfolding wait_for_redirect_code accept_authorization
  authorize config w =
      let (verifier, v) = A.new_random_sha256 w in
      granted config verifier (consent_asked config verifier v)

  -- `authenticate`, with the disk of the cached token.
  unfoldable pub authenticate :
      (D : TokenDisk)
      → String
      → PathBuf
      → OAuthConfig
      → A.World × D.Disk
      → Result SyncError StoredToken × (A.World × D.Disk)
  unfolding authorize save_token
  authenticate D name path config (w, d) =
      let (r, v) = authorize config w in
      elim r [
        | err e ↦ (err e, (v, d))
        | ok token ↦
            let (saved, e) = save_token D name path token d in
            elim saved [ err x ↦ (err x, (v, e)) | ok _ ↦ (ok token, (v, e)) ]
      ]
