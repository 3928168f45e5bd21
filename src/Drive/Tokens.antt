-- ===== src/Drive/Tokens.antt =====
-- crates/gdrive-sync/src/drive_client.rs, `TokenState` and `DriveClient`: the token that all requests share, its
-- refresh, and the one retry of a request that was refused. Other tasks run while a task waits: what
-- they do to the client meanwhile is an argument.
pub mod Sessions
pub mod Obtained
use gd_client.Prelude.{
  Bool, Option, Result, String, err, false, if◌then◌else◌, is_some, next_u64, none, not, ok, some,
  str_eq, true, ℕ, ◌==◌, ◌||◌,
}
use gd_client.Common.Paths.{PathBuf}
use gd_client.Common.Errors.{
  SyncError, not_authenticated, oauth, reauthentication_required, timeout,
}
use gd_client.Drive.Auth.{
  StoredToken, TokenDisk, OAuthConfig, is_empty, needs_refresh, non_empty, save_token,
  RequestTokenError, TokenResponse, refresh_access_token,
}
use gd_client.Drive.Auth

pub record TokenState : Type 0 where
  pub token : StoredToken
  pub path : Option PathBuf
  pub generation : ℕ

-- `TokenState::new`
unfoldable pub new_state : String → TokenState
new_state access_token = record {
  token = record { access_token = access_token; refresh_token = none; expires_at = none };
  path = none;
  generation = 0;
}

unfoldable pub replace : StoredToken → Option PathBuf → TokenState → TokenState
replace token path state = record state {
  token = token;
  path = path;
  generation = next_u64 state.generation;
}

-- The closure `needs_refresh` of `refresh_if_needed`.
unfoldable pub state_needs_refresh : Option TokenState → ℕ → TokenState → Result SyncError Bool
unfolding needs_refresh
state_needs_refresh none now state =
    if is_empty state.token.access_token
    then err not_authenticated
    else ok (needs_refresh state.token now)
state_needs_refresh (some old) now state =
    if is_empty state.token.access_token || not (old.generation == state.generation)
    then err not_authenticated
    else ok
        (needs_refresh state.token now || str_eq old.token.access_token state.token.access_token)

-- The `RwLock` around the tokens, and the disk with the cached token.
pub record Client (D : TokenDisk) : Type 0 where
  pub tokens : TokenState
  pub disk : D.Disk

module _ (D : TokenDisk) where
  unfoldable pub set_access_token : String → Client D → Client D
  unfolding new_state replace
  set_access_token access_token c = record c {
    tokens = replace (new_state access_token).token none c.tokens;
  }

  unfoldable pub restore_token : StoredToken → PathBuf → Client D → Client D
  unfolding replace
  restore_token token path c = record c { tokens = replace token (some path) c.tokens }

  -- `DriveClient::save_token`
  unfoldable pub save_session :
      String → StoredToken → PathBuf → Client D → Result SyncError Unit × Client D
  unfolding replace
  save_session name token path c =
      let (r, d) = Auth.save_token D name path token c.disk in
      elim r [
        | err e ↦ (err e, record c { disk = d })
        | ok _ ↦ (ok tt, record c { disk = d; tokens = replace token (some path) c.tokens })
      ]

  -- What one call of `access_token` meets: the clock before and after the exchange, what other tasks
  -- do until this one has the refresh lock and while it waits for the token endpoint, whether either
  -- wait ends within the 20 seconds, the endpoint, and the name of the temporary file.
  pub record Waits : Type 0 where
    pub now : ℕ
    pub answered_at : ℕ
    pub lock_in_time : Bool
    pub exchange_in_time : Bool
    pub locking : Client D → Client D
    pub exchanging : Client D → Client D
    pub valid_url : Bool
    pub endpoint : OAuthConfig → String → Option (Result RequestTokenError TokenResponse)
    pub temporary_name : String

  -- The message of `access_token`'s deadline.
  abbrev deadline : SyncError
  deadline = timeout "refreshing Google Drive credentials"

  -- From the answer of the endpoint on: the tokens are written if the session is still the one that
  -- was refreshed.
  unfoldable pub install :
      TokenState
      → PathBuf
      → String
      → StoredToken
      → Client D
      → Result SyncError TokenState × Client D
  install snapshot path name token c =
      if c.tokens.generation == snapshot.generation
      then (let (r, d) = Auth.save_token D name path token c.disk in
          elim r [
            | err e ↦ (err e, record c { disk = d })
            | ok _ ↦
                let state = record c.tokens { token = token } in
                (ok state, record c { disk = d; tokens = state })
          ])
      else (err not_authenticated, c)

  abbrev no_client : SyncError
  no_client =
      oauth
        "OAuth client credentials are not configured; configure the daemon's OAuth client and retry"

  abbrev no_path : SyncError
  no_path = oauth "OAuth token cache path is unavailable; sign out and sign in again"

  -- What a refresh needs besides the lock.
  unfoldable pub refresh_inputs :
      Option OAuthConfig → TokenState → Result SyncError (OAuthConfig × PathBuf)
  refresh_inputs config snapshot =
      if is_some (non_empty snapshot.token.refresh_token)
      then (elim config [
        | none ↦ err no_client
        | some c ↦ elim snapshot.path [ none ↦ err no_path | some path ↦ ok (c, path) ]
      ])
      else err reauthentication_required

  abbrev exchanged :
      Waits
      → TokenState
      → PathBuf
      → Result SyncError StoredToken
      → Client D
      → Result SyncError TokenState × Client D
  exchanged w snapshot path (err e) c = (err e, c)
  exchanged w snapshot path (ok token) c = install snapshot path w.temporary_name token c

  -- The exchange of a snapshot's refresh token, and what follows it.
  unfoldable pub exchange :
      Waits → TokenState → OAuthConfig × PathBuf → Client D → Result SyncError TokenState × Client D
  exchange w snapshot (config, path) c =
      if w.exchange_in_time
      then exchanged w snapshot path
          (refresh_access_token w.valid_url w.endpoint config snapshot.token w.answered_at)
          (w.exchanging c)
      else (err deadline, w.exchanging c)

  -- `refresh_if_needed` once it has the refresh lock.
  unfoldable pub refresh_locked :
      Option OAuthConfig
      → Option TokenState
      → Waits
      → Client D
      → Result SyncError TokenState × Client D
  refresh_locked config rejected w c = elim (state_needs_refresh rejected w.now c.tokens) [
    | err e ↦ (err e, c)
    | ok false ↦ (ok c.tokens, c)
    | ok true ↦ elim (refresh_inputs config c.tokens) [
      | err e ↦ (err e, c)
      | ok inputs ↦ exchange w c.tokens inputs c
    ]
  ]

  -- `access_token` and `refresh_if_needed`
  unfoldable pub access_token :
      Option OAuthConfig
      → Option TokenState
      → Waits
      → Client D
      → Result SyncError TokenState × Client D
  access_token config rejected w c = elim (state_needs_refresh rejected w.now c.tokens) [
    | err e ↦ (err e, c)
    | ok false ↦ (ok c.tokens, c)
    | ok true ↦
        if w.lock_in_time
        then refresh_locked config rejected w (w.locking c)
        else (err deadline, w.locking c)
  ]
