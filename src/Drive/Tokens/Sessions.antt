-- ===== src/Drive/Tokens/Sessions.antt =====
-- Sign-out and sign-in against a refresh that is in flight (drive_client.rs).
use gd_client.Prelude.{
  Option, String, arith, err, ◌≡◌, ◌≢◌, ◌⊎◌, Bool-cases, Result-cases, false, inl, inr, true, Bool,
  List, [], if◌then◌else◌, next_u64, ok, refl, u64_mod, ℕ, ◌%◌, ◌+◌, ◌<◌, ◌∷◌,
}
use gd_client.Common.Errors.{SyncError, not_authenticated, timeout}
use gd_client.Drive.Auth.{TokenDisk, StoredToken, OAuthConfig, refresh_access_token}
use gd_client.Drive.Tokens.{
  TokenState, Client, Waits, exchange, install, refresh_locked, PathBuf, refresh_inputs,
  state_needs_refresh, restore_token, save_session, set_access_token,
}

module _ (D : TokenDisk) where
  install-overtaken :
      (snapshot : TokenState) (path : _) (name : String) (token : StoredToken) (c : Client D)
      → c.tokens.generation ≢ snapshot.generation
      → install D snapshot path name token c ≡ (err not_authenticated, c)
  unfolding install
  install-overtaken snapshot path name token c h = ground arith

  exchange-overtaken :
      (w : Waits D) (snapshot : TokenState) (inputs : OAuthConfig × PathBuf) (c : Client D)
      → (w.exchanging c).tokens.generation ≢ snapshot.generation
      → (e : SyncError) × (exchange D w snapshot inputs c ≡ (err e, w.exchanging c))
  unfolding exchange
  exchange-overtaken w snapshot (config, path) c h = elim (Bool-cases w.exchange_in_time) [
    | inr late ↦ (timeout "refreshing Google Drive credentials", rw late)
    | inl early ↦
        elim (Result-cases
          (refresh_access_token w.valid_url w.endpoint config snapshot.token w.answered_at)) [
            | inl (token, e) ↦ (
              not_authenticated,
              rw (early, e)
                  (install-overtaken snapshot path w.temporary_name token (w.exchanging c) h),
            )
            | inr (x, e) ↦ (x, rw (early, e))
          ]
  ]

  -- If other tasks replace the session while a refresh waits for the token endpoint, then whatever the
  -- endpoint answers, the call fails and leaves the tokens and the disk as those tasks left them; or it
  -- returned before it asked the endpoint, and changed nothing.
  pub refresh_locked-overtaken :
      (config : Option OAuthConfig) (rejected : Option TokenState) (w : Waits D) (c : Client D)
      → (w.exchanging c).tokens.generation ≢ c.tokens.generation
      → ((e : SyncError) × (refresh_locked D config rejected w c ≡ (err e, w.exchanging c)))
        ⊎ ((refresh_locked D config rejected w c).1 ≡ c)
  unfolding refresh_locked
  refresh_locked-overtaken config rejected w c h =
      elim (Result-cases (state_needs_refresh rejected w.now c.tokens)) [
        | inr (x, e) ↦ inr (rw (e, refresh_locked))
        | inl (false, e) ↦ inr (rw (e, refresh_locked))
        | inl (true, e) ↦ elim (Result-cases (refresh_inputs D config c.tokens)) [
          | inr (x, f) ↦ inr (rw (e, refresh_locked, f, refresh_locked))
          | inl (inputs, f) ↦
              inl (
                rw (e, refresh_locked, f, refresh_locked)
                  (exchange-overtaken w c.tokens inputs c h))
        ]
      ]

-- What replaces the session: sign-out, the cached token at startup, and a sign-in.
pub data SessionOp : Type 0 where
  set_op : String → SessionOp
  restore_op : StoredToken → PathBuf → SessionOp
  save_op : String → StoredToken → PathBuf → SessionOp

module _ (D : TokenDisk) where
  abbrev pub session_op : SessionOp → Client D → Client D
  session_op (set_op t) c = set_access_token D t c
  session_op (restore_op t p) c = restore_token D t p c
  session_op (save_op name t p) c = (save_session D name t p c).1

  -- A sign-in counts only if its token was saved.
  abbrev pub replaces : SessionOp → Client D → Bool
  replaces (save_op name t p) c = elim (save_session D name t p c).0 [ ok _ ↦ true | err _ ↦ false ]
  replaces _ c = true

  abbrev pub session_ops : List SessionOp → Client D → Client D
  session_ops [] c = c
  session_ops (op ∷ ops) c = session_ops ops (session_op op c)

  abbrev pub replacements : List SessionOp → Client D → ℕ
  replacements [] c = 0
  replacements (op ∷ ops) c = (if replaces op c then 1 else 0) + replacements ops (session_op op c)

  generation-session_op :
      (op : SessionOp) (c : Client D)
      → (session_op op c).tokens.generation
        ≡ (if replaces op c then next_u64 c.tokens.generation else c.tokens.generation)
  unfolding set_access_token restore_token save_session
  generation-session_op (set_op t) c = refl
  generation-session_op (restore_op t p) c = refl
  generation-session_op (save_op name t p) c = ground arith

  generation-session_ops :
      (ops : List SessionOp) (c : Client D)
      → c.tokens.generation < u64_mod
      → (session_ops ops c).tokens.generation ≡ (c.tokens.generation + replacements ops c) % u64_mod
  generation-session_ops [] c h = omega arith
  generation-session_ops (op ∷ ops) c h =
      ground (arith, generation-session_op op c, generation-session_ops ops (session_op op c))

  -- A sign-out or a new sign-in that happens while a refresh waits for the token endpoint wins: if at
  -- least one and fewer than 2^64 such operations replaced the session, then whatever the endpoint
  -- answers the tokens and the disk stay as those operations left them and the call fails; or the call
  -- needed no answer and changed nothing.
  pub sessions-win :
      (config : Option OAuthConfig) (rejected : Option TokenState) (w : Waits D) (c : Client D)
      (ops : List SessionOp)
      → w.exchanging c ≡ session_ops ops c
      → c.tokens.generation < u64_mod
      → 0 < replacements ops c
      → replacements ops c < u64_mod
      → ((e : SyncError) × (refresh_locked D config rejected w c ≡ (err e, session_ops ops c)))
        ⊎ ((refresh_locked D config rejected w c).1 ≡ c)
  sessions-win config rejected w c ops others h some_op few =
      let moved : (session_ops ops c).tokens.generation ≢ c.tokens.generation =
        omega (arith, generation-session_ops ops c h) in
      rw others at (refresh_locked-overtaken D config rejected w c (rw others moved))
