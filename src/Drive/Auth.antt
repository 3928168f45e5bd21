-- ===== src/Drive/Auth.antt =====
-- crates/gdrive-sync/src/auth.rs: credentials, cached tokens and what the token endpoint answers. The
-- disk, JSON and the `oauth2` library are parameters. Times are seconds since 1970, taken to be in
-- the range of `i64` and not negative.
pub mod Cache
pub mod Exchange
use gd_client.Common.Paths.{PathBuf, join, parent}
use gd_client.Common.Errors.{
  SyncError, IoError, io, oauth, oauth_transport, reauthentication_required, timeout,
}
use gd_client.Prelude.{
  ◌>>=◌, ◌>>◌, Bool, Option, Result, String, [], err, false, if◌then◌else◌, is_some, leb, map_err,
  none, ok, some, str_eq, true, ℕ, ◌+◌, ◌<>◌, ◌||◌, ◌∷◌,
}

pub record OAuthConfig : Type 0 where
  pub client_id : String
  pub client_secret : String

-- The environment: run-time variables, and those of the build.
pub record OAuthVariables : Type 0 where
  pub client_id : Option String
  pub client_secret : Option String
  pub built_in_client_id : Option String
  pub built_in_client_secret : Option String

abbrev pub is_empty : String → Bool
is_empty s = str_eq s ""

abbrev both : Option String → Option String → Option OAuthConfig
both (some id) (some secret) = some (record { client_id = id; client_secret = secret })
both _ _ = none

-- `filter(|s| !s.is_empty())`
abbrev pub non_empty : Option String → Option String
non_empty none = none
non_empty (some s) = if is_empty s then none else some s

abbrev pub or_else {ℓ} : {A : Type ℓ} → Option A → Option A → Option A
or_else none o = o
or_else (some a) o = some a

-- `OAuthConfig::from_env`
unfoldable pub from_env : OAuthVariables → Option OAuthConfig
from_env v =
    or_else (both v.client_id v.client_secret)
      (both (non_empty v.built_in_client_id) (non_empty v.built_in_client_secret))

pub record StoredToken : Type 0 where
  pub access_token : String
  pub refresh_token : Option String
  pub expires_at : Option ℕ

-- `StoredToken::needs_refresh` at a time
unfoldable pub needs_refresh : StoredToken → ℕ → Bool
needs_refresh token now = elim token.expires_at [ none ↦ false | some t ↦ leb t (now + 30) ]

-- What `oauth2` reports when a request for a token fails.
pub data RequestTokenError : Type 0 where
  server_response : Bool → RequestTokenError
  request_reqwest : Bool → String → RequestTokenError
  request_http : String → RequestTokenError
  other_error : RequestTokenError

pub record TokenResponse : Type 0 where
  pub access_token : String
  pub refresh_token : Option String
  pub expires_in : Option ℕ

abbrev refresh_error : RequestTokenError → SyncError
refresh_error (server_response true) = reauthentication_required
refresh_error (server_response false) =
    oauth "token refresh rejected; check the daemon's OAuth client configuration"
refresh_error (request_reqwest true message) = timeout "refreshing the OAuth access token"
refresh_error (request_reqwest false message) = oauth_transport message
refresh_error (request_http message) = oauth_transport message
refresh_error other_error = oauth "invalid response from the OAuth token endpoint"

abbrev expiry : Option ℕ → ℕ → Option ℕ
expiry none now = none
expiry (some d) now = some (now + d)

abbrev pub has_empty : Option String → Bool
has_empty none = false
has_empty (some s) = is_empty s

abbrev refreshed : StoredToken → TokenResponse → ℕ → Result SyncError StoredToken
refreshed previous response now =
    if is_empty response.access_token || has_empty response.refresh_token
    then err (oauth "OAuth token endpoint returned an empty token")
    else ok (record {
      access_token = response.access_token;
      refresh_token = or_else response.refresh_token previous.refresh_token;
      expires_at = expiry response.expires_in now;
    })

-- `refresh_access_token`: `endpoint` is the exchange of a refresh token, `none` where its 15 seconds
-- pass; `valid_url` is whether the token endpoint's address parses.
unfoldable pub refresh_access_token :
    Bool
    → (OAuthConfig → String → Option (Result RequestTokenError TokenResponse))
    → OAuthConfig
    → StoredToken
    → ℕ
    → Result SyncError StoredToken
refresh_access_token valid_url endpoint config previous now =
    elim (non_empty previous.refresh_token) [
      | none ↦ err reauthentication_required
      | some refresh_token ↦
          if valid_url
          then (elim (endpoint config refresh_token) [
            | none ↦ err (timeout "refreshing the OAuth access token")
            | some (err e) ↦ err (refresh_error e)
            | some (ok response) ↦ refreshed previous response now
          ])
          else err (oauth "invalid OAuth token endpoint")
    ]

-- The last step of `authorize`: the tokens that a code was exchanged for.
unfoldable pub accept_authorization : TokenResponse → ℕ → Result SyncError StoredToken
accept_authorization response now = elim (non_empty response.refresh_token) [
  | none ↦ err (oauth "Google did not grant offline access; sign in again and complete consent")
  | some t ↦ ok (record {
    access_token = response.access_token;
    refresh_token = response.refresh_token;
    expires_at = expiry response.expires_in now;
  })
]

-- The file system, as far as the token cache uses it, and the JSON text of a token.
pub record TokenDisk : Type 1 where
  pub Disk : Type 0
  pub contents : Disk → PathBuf → Option String
  pub read_to_string : Disk → PathBuf → Result IoError String
  pub create_dir_all : PathBuf → Disk → Result IoError Unit × Disk
  pub create_new : PathBuf → Disk → Result IoError Unit × Disk
  pub write_all : PathBuf → String → Disk → Result IoError Unit × Disk
  pub sync_all : PathBuf → Disk → Result IoError Unit × Disk
  pub rename : PathBuf → PathBuf → Disk → Result IoError Unit × Disk
  pub remove_file : PathBuf → Disk → Result IoError Unit × Disk
  pub to_string_pretty : StoredToken → Result String String
  pub from_str : String → Result String StoredToken

-- `path.parent().filter(non-empty).unwrap_or(".")`
abbrev pub parent_or_here : PathBuf → PathBuf
parent_or_here path = elim (parent path) [
  | none ↦ "." ∷ []
  | some [] ↦ "." ∷ []
  | some (c ∷ p) ↦ c ∷ p
]

module _ (D : TokenDisk) where
  abbrev pub Io : Type 0
  Io = D.Disk → Result IoError Unit × D.Disk

  -- What follows an operation that failed, or one that succeeded.
  abbrev pub after {ℓ} :
      {R : Type ℓ} → Result IoError Unit × D.Disk → (IoError → D.Disk → R) → (D.Disk → R) → R
  after (ok _, d) failed done = done d
  after (err e, d) failed done = failed e d

  infixl 5 ◌&>◌
  -- Runs the second action if the first succeeds.
  abbrev pub ◌&>◌ : Io → Io → Io
  ◌&>◌ m n d = after (m d) (λ e d'. (err e, d')) n

  -- `load_token`
  unfoldable pub load_token : PathBuf → D.Disk → Result SyncError (Option StoredToken)
  load_token path d =
      if is_some (D.contents d path)
      then (do
        text ← map_err io (D.read_to_string d path)
        token ← map_err (λ e. oauth ("failed to parse cached token: " <> e)) (D.from_str text)
        ok (some token))
      else ok none

  -- The closure of `save_token`, and the clean-up after it.
  abbrev pub replace_file : PathBuf → PathBuf → String → Io
  replace_file temporary path text =
      D.write_all temporary text &> D.sync_all temporary &> D.rename temporary path

  unfoldable pub save_to_temporary :
      PathBuf → PathBuf → String → D.Disk → Result SyncError Unit × D.Disk
  save_to_temporary temporary path text d =
      after (replace_file temporary path text d)
        (λ e d. (err (io e), (D.remove_file temporary d).1)) (λ d. (ok tt, d))

  -- `save_token`; `name` is the fresh name `.oauth-token-….tmp` of the temporary file.
  unfoldable pub save_token :
      String → PathBuf → StoredToken → D.Disk → Result SyncError Unit × D.Disk
  unfolding save_to_temporary
  save_token name path token d =
      let temporary = join (parent_or_here path) name in
      after (D.create_dir_all (parent_or_here path) d) (λ e d. (err (io e), d))
        λ d. elim (D.to_string_pretty token) [
          | err e ↦ (err (oauth ("failed to serialize token: " <> e)), d)
          | ok text ↦
              after (D.create_new temporary d) (λ e d. (err (io e), d))
                λ d. save_to_temporary temporary path text d
        ]
