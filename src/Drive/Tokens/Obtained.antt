-- ===== src/Drive/Tokens/Obtained.antt =====
-- What token `access_token` of drive_client.rs returns.
use gd_client.Prelude.{
  Bool, Bool-cases, Option, Result, Result-cases, String, arith, err, false, inl, inr, none, ok,
  refl, some, true, ℕ, ◌==◌, ◌≡◌, if-cases,
}
use gd_client.Common.Errors.{SyncError, timeout}
use gd_client.Common.Paths.{PathBuf}
use gd_client.Drive.Auth.{
  TokenDisk, StoredToken, OAuthConfig, is_empty, refresh_access_token, save_token,
}
use gd_client.Drive.Auth.Exchange.{refresh_access_token-IsRenewable}
use gd_client.Drive.Tokens.{
  TokenState, Client, Waits, access_token, exchange, install, refresh_inputs, refresh_locked,
  state_needs_refresh,
}

-- The token can be sent, and belongs to the session whose token was rejected.
abbrev pub Usable : Option TokenState → TokenState → Type 0
Usable none s = is_empty s.token.access_token ≡ false
Usable (some old) s = (is_empty s.token.access_token ≡ false) × (old.generation ≡ s.generation)

state_needs_refresh-Usable :
    (rejected : Option TokenState) (now : ℕ) (s : TokenState) (b : Bool)
    → state_needs_refresh rejected now s ≡ ok b
    → Usable rejected s
unfolding state_needs_refresh
state_needs_refresh-Usable none now s b h = ground arith
state_needs_refresh-Usable (some old) now s b h = ground arith

Usable-renewed :
    (rejected : Option TokenState) (snapshot s : TokenState)
    → Usable rejected snapshot
    → s.generation ≡ snapshot.generation
    → is_empty s.token.access_token ≡ false
    → Usable rejected s
Usable-renewed none snapshot s u g h = h
Usable-renewed (some old) snapshot s u g h = (h, ground arith)

module _ (D : TokenDisk) where
  -- The state that the client holds afterwards, which can be used.
  abbrev pub Obtained : Option TokenState → Result SyncError TokenState × Client D → Type 0
  Obtained rejected (ok s, c) = (c.tokens ≡ s) × Usable rejected s
  Obtained rejected (err e, c) = Unit

  install-Obtained :
      (rejected : Option TokenState) (snapshot : TokenState) (path : PathBuf) (name : String)
      (token : StoredToken) (c : Client D)
      → Usable rejected snapshot
      → is_empty token.access_token ≡ false
      → Obtained rejected (install D snapshot path name token c)
  unfolding install
  install-Obtained rejected snapshot path name token c u h =
      elim (Bool-cases (c.tokens.generation == snapshot.generation)) [
        | inr other ↦ rw other tt
        | inl this ↦ elim (Result-cases (save_token D name path token c.disk).0) [
          | inr (e, failed) ↦ rw (this, install, failed, install) tt
          | inl (_, saved) ↦
              rw (this, install, saved, install)
                (
                  refl,
                  Usable-renewed rejected snapshot (record c.tokens { token = token }) u
                      (ground arith) h,
                )
        ]
      ]

  exchange-Obtained :
      (rejected : Option TokenState) (w : Waits D) (snapshot : TokenState)
      (inputs : OAuthConfig × PathBuf) (c : Client D)
      → Usable rejected snapshot
      → Obtained rejected (exchange D w snapshot inputs c)
  unfolding exchange
  exchange-Obtained rejected w snapshot (config, path) c u = elim (Bool-cases w.exchange_in_time) [
    | inr late ↦ rw (late, exchange) tt
    | inl early ↦
        elim (Result-cases
          (refresh_access_token w.valid_url w.endpoint config snapshot.token w.answered_at)) [
            | inr (x, e) ↦ rw (early, exchange, e, exchange) tt
            | inl (token, e) ↦
                rw (early, exchange, e, exchange)
                  (install-Obtained rejected snapshot path w.temporary_name token (w.exchanging c) u
                    (refresh_access_token-IsRenewable w.valid_url w.endpoint config snapshot.token
                      w.answered_at token e).0)
          ]
  ]

  refresh_locked-Obtained :
      (config : Option OAuthConfig) (rejected : Option TokenState) (w : Waits D) (c : Client D)
      → Obtained rejected (refresh_locked D config rejected w c)
  unfolding refresh_locked
  refresh_locked-Obtained config rejected w c =
      elim (Result-cases (state_needs_refresh rejected w.now c.tokens)) [
        | inr (x, e) ↦ rw (e, refresh_locked) tt
        | inl (false, e) ↦
            rw (e, refresh_locked)
              (refl, state_needs_refresh-Usable rejected w.now c.tokens false e)
        | inl (true, e) ↦ elim (Result-cases (refresh_inputs D config c.tokens)) [
          | inr (x, f) ↦ rw (e, refresh_locked, f, refresh_locked) tt
          | inl (inputs, f) ↦
              rw (e, refresh_locked, f, refresh_locked)
                (exchange-Obtained rejected w c.tokens inputs c
                  (state_needs_refresh-Usable rejected w.now c.tokens true e))
        ]
      ]

  -- Whatever other tasks and the token endpoint do, a token that `access_token` returns is not empty,
  -- it is what the client then holds, and after a rejection it belongs to the session whose token was
  -- rejected.
  pub access_token-Obtained :
      (config : Option OAuthConfig) (rejected : Option TokenState) (w : Waits D) (c : Client D)
      → Obtained rejected (access_token D config rejected w c)
  unfolding access_token
  access_token-Obtained config rejected w c =
      elim (Result-cases (state_needs_refresh rejected w.now c.tokens)) [
        | inr (x, e) ↦ rw (e, access_token) tt
        | inl (false, e) ↦
            rw (e, access_token) (refl, state_needs_refresh-Usable rejected w.now c.tokens false e)
        | inl (true, e) ↦
            rw (e, access_token)
              (if-cases (Obtained rejected) w.lock_in_time
                (refresh_locked D config rejected w (w.locking c))
                (err (timeout "refreshing Google Drive credentials"), w.locking c)
                (refresh_locked-Obtained config rejected w (w.locking c)) tt)
      ]
