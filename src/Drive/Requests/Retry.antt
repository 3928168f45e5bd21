-- ===== src/Drive/Requests/Retry.antt =====
-- How often `send` of drive_client.rs sends a request, and with which tokens.
use gd_client.Prelude.Keys.{nat_ord, string_ord}
use gd_client.Prelude.BTreeMap.{same}
use gd_client.Prelude.{
  List, Option, Result, String, arith, err, false, inl, inr, none, ok, refl, some, true, ◌∷◌, ◌≡◌,
  ◌⊎◌, Bool, ap, if-split, if◌then◌else◌, ◌==◌, ◌∙◌,
}
use gd_client.Effects.{bind-after, Exec, ◌>>=◌, pure, fail}
use gd_client.Common.Errors.{SyncError, oauth}
use gd_client.Drive.Auth.{TokenDisk, OAuthConfig, is_empty}
use gd_client.Drive.Tokens.{TokenState, Client}
use gd_client.Drive.Tokens.Obtained.{Usable, Obtained, access_token-Obtained}
use gd_client.Drive.Requests.{
  Request, Internet, World, get_token, replay, send_with, Response, send, unauthorized,
}

abbrev pub Log : Type 0
Log = List (Request × String)

-- The request went out with a token that is not empty.
abbrev pub SentOnce : Request → Log → Log → Type 0
SentOnce request old new = (t : String) × (new ≡ (request, t) ∷ old) × (is_empty t ≡ false)

module _ (D : TokenDisk) where
  token-Usable :
      (rejected : Option TokenState) (r : Result SyncError TokenState × Client D) (s : TokenState)
      → Obtained D rejected r
      → r.0 ≡ ok s
      → Usable rejected s
  token-Usable rejected (ok t, c) s o e = ground arith
  token-Usable rejected (err x, c) s o e = cc

  Usable-not_empty :
      (rejected : Option TokenState) (s : TokenState)
      → Usable rejected s
      → is_empty s.token.access_token ≡ false
  Usable-not_empty none s u = u
  Usable-not_empty (some old) s u = u.0

module _ (D : TokenDisk) (I : Internet D) (config : Option OAuthConfig) where
  sent-get_token :
      (rejected : Option TokenState) (w : World D I)
      → (get_token D I config rejected w).1.drive_requests ≡ w.drive_requests
  unfolding get_token
  sent-get_token rejected w = refl

  get_token-not_empty :
      (rejected : Option TokenState) (w : World D I) (s : TokenState)
      → (get_token D I config rejected w).0 ≡ ok s
      → is_empty s.token.access_token ≡ false
  unfolding get_token
  get_token-not_empty rejected w s e = Usable-not_empty D rejected s (
      token-Usable D rejected _ s (access_token-Obtained D config rejected (I.waits w.net) w.client)
        e)

  sent-send_with :
      (request : Request) (token : String) (w : World D I)
      → (send_with D I config request token w).1.drive_requests
        ≡ (request, token) ∷ w.drive_requests
  unfolding send_with
  sent-send_with request token w = refl

  -- The network answered the request with status 401.
  abbrev pub Refused : Request → String → Type 0
  Refused request token =
      (net : I.Net) × (response : Response) × ((I.transport request token net).0 ≡ ok response)
      × (response.status ≡ 401)

  send_with-Refused :
      (request : Request) (token : String) (w : World D I) (response : Response)
      → (send_with D I config request token w).0 ≡ ok response
      → (response.status == unauthorized) ≡ true
      → Refused request token
  unfolding send_with
  send_with-Refused request token w response e refused = (w.net, response, e, ground arith)

  abbrev Replayed : Request → Log → World D I → Type 0
  Replayed request old w =
      (w.drive_requests ≡ old)
      ⊎ ((request.can_clone ≡ true) × SentOnce request old w.drive_requests)

  replay-Replayed :
      (request : Request) (token : TokenState) (w : World D I)
      → Replayed request w.drive_requests (replay D I config request token w).1
  replay-Replayed request token w = again request.can_clone refl
    where
      again :
          (b : Bool)
          → request.can_clone ≡ b
          → Replayed request w.drive_requests
              ((if b
                  then (do
                    refreshed ← get_token D I config (some token)
                    send_with D I config request refreshed.token.access_token)
                  else fail (oauth "Drive request cannot be replayed after authentication failed"))
                w).1
      again false e = inl refl
      again true e =
          bind-after (Replayed request w.drive_requests) (get_token D I config (some token)) _ w
            (λ x _. inl (sent-get_token (some token) w))
            λ s got.
              let sent = sent-get_token (some token) w in
              inr (
                e,
                (
                  s.token.access_token,
                  sent-send_with request s.token.access_token _
                      ∙ ap (λ l. (request, s.token.access_token) ∷ l) sent,
                  get_token-not_empty (some token) w s got,
                ),
              )

  -- The request went out, was answered with status 401, and went out again.
  abbrev pub SentTwice : Request → Log → Log → Type 0
  SentTwice request old new =
      (t u : String) × (new ≡ (request, u) ∷ (request, t) ∷ old)
      × (is_empty t ≡ false)
      × (is_empty u ≡ false)
      × Refused request t

  -- The log after a call of `send`.
  abbrev pub Attempts : Request → Log → World D I → Type 0
  Attempts request old w =
      (w.drive_requests ≡ old)
      ⊎ SentOnce request old w.drive_requests
      ⊎ ((request.can_clone ≡ true) × SentTwice request old w.drive_requests)

  Attempts-Replayed :
      (request : Request) (t : String) (old : Log) (w w' : World D I)
      → w.drive_requests ≡ (request, t) ∷ old
      → is_empty t ≡ false
      → Refused request t
      → Replayed request w.drive_requests w'
      → Attempts request old w'
  Attempts-Replayed request t old w w' sent full refused (inl same) =
      inr (inl (t, same ∙ sent, full))
  Attempts-Replayed request t old w w' sent full refused (inr (clone, (u, more, full'))) =
      inr (inr (clone, (t, u, more ∙ ap (λ l. (request, u) ∷ l) sent, full, full', refused)))

  -- Whatever the network, the token endpoint and other tasks do, `send` sends its request to the Drive
  -- API at most twice, and nothing else to that API; a second time only a request that can be cloned and
  -- that was answered with status 401; and never with an empty token.
  pub send-Attempts :
      (request : Request) (w : World D I)
      → Attempts request w.drive_requests (send D I config request w).1
  unfolding send
  send-Attempts request w =
      bind-after (Attempts request w.drive_requests) (get_token D I config none) _ w
        (λ x _. inl (sent-get_token none w))
        λ s got.
          let w₁ = (get_token D I config none w).1 in
          let t = s.token.access_token in
          let full = get_token-not_empty none w s got in
          let sent : (send_with D I config request t w₁).1.drive_requests
              ≡ (request, t) ∷ w.drive_requests =
            sent-send_with request t w₁ ∙ ap (λ l. (request, t) ∷ l) (sent-get_token none w) in
          bind-after (Attempts request w.drive_requests) (send_with D I config request t) _ w₁
            (λ x _. inr (inl (t, sent, full)))
            λ response answered.
              if-split
                (λ (m : Exec (World D I) Response).
                  Attempts request w.drive_requests (m (send_with D I config request t w₁).1).1)
                (response.status == unauthorized) (replay D I config request s) (pure response)
                (λ refused.
                  Attempts-Replayed request t w.drive_requests (send_with D I config request t w₁).1
                    (replay D I config request s (send_with D I config request t w₁).1).1 sent full
                    (send_with-Refused request t w₁ response answered refused)
                    (replay-Replayed request s (send_with D I config request t w₁).1))
                (λ _. inr (inl (t, sent, full)))
