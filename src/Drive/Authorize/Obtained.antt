-- ===== src/Drive/Authorize/Obtained.antt =====
-- Where the tokens that `authorize` of crates/gdrive-sync/src/auth.rs returns come from.
use gd_client.Prelude.{
  ℕ, String, Option-cases, some, Result, ok, err, map_err, ◌≡◌, ap, arith, false, inl, inr, ◌∙◌,
}
use gd_client.Effects.{lift, bind-eq-ok}
use gd_client.Common.Errors.{io, oauth}
use gd_client.Drive.Auth.{OAuthConfig, StoredToken, TokenResponse, accept_authorization, is_empty}
use gd_client.Drive.Redirect.{redirect_code}
use gd_client.Drive.Authorize.{
  SignInWorld, authorize, wait_for_redirect_code, http_client, exchange_found, on_socket,
  redirect_port,
}

map_err-ok : {E F A : Type 0} (f : E → F) (r : Result E A) (a : A) → map_err f r ≡ ok a → r ≡ ok a
map_err-ok f (ok b) a h = cc
map_err-ok f (err e) a h = cc

-- A token that was accepted is the one of the response, and can be renewed.
abbrev pub Accepted : TokenResponse → StoredToken → Type 0
Accepted response token =
    (token.access_token ≡ response.access_token)
    × (token.refresh_token ≡ response.refresh_token)
    × ((r : String) × (token.refresh_token ≡ some r) × (is_empty r ≡ false))

accept-Accepted :
    (response : TokenResponse) (now : ℕ) (token : StoredToken)
    → accept_authorization response now ≡ ok token
    → Accepted response token
unfolding accept_authorization
accept-Accepted response now token h = elim (Option-cases response.refresh_token) [
  | inl e ↦ ground arith
  | inr (r, e) ↦ (ground arith, ground arith, (r, ground arith, ground arith))
]

module _ (A : SignInWorld) where
  -- The code that the browser brought, and the response that Google gave for it and the verifier.
  abbrev pub ObtainedBy : OAuthConfig → String → StoredToken → Type 0
  ObtainedBy config verifier token =
      (request found : String) × (response : TokenResponse) × (v u : A.World) × ((A.read v).0
        ≡ ok request)
      × (redirect_code request ≡ ok found)
      × ((A.exchange_code config found verifier u).0 ≡ ok response)
      × Accepted response token

  code-read :
      (port : ℕ) (w : A.World) (found : String)
      → (wait_for_redirect_code A port w).0 ≡ ok found
      → (request : String) × (v : A.World) × ((A.read v).0 ≡ ok request)
        × (redirect_code request ≡ ok found)
  unfolding wait_for_redirect_code
  code-read port w found h =
      let t = (wait_for_redirect_code A port w).1 in
      let (a, bound, h1) =
        bind-eq-ok (on_socket A (A.bind port)) _ w found t (ap (λ r. (r, t)) h) in
      let (b, accepted, h2) = bind-eq-ok (on_socket A A.accept_connection) _ _ found t h1 in
      let (request, read, h3) = bind-eq-ok (on_socket A A.read) _ _ found t h2 in
      let (c, parsed, h4) = bind-eq-ok (lift (redirect_code request)) _ _ found t h3 in
      (request, _, map_err-ok io _ request read, parsed ∙ ap (λ r. ok r) (cc))

  -- A sign-in that succeeds has read a request from the redirected browser, and its token is the one
  -- that Google gave for the code of that request and the verifier of this sign-in; it has a refresh
  -- token that is not empty.
  pub authorize-ObtainedBy :
      (config : OAuthConfig) (w : A.World) (token : StoredToken)
      → (authorize A config w).0 ≡ ok token
      → ObtainedBy config (A.new_random_sha256 w).0 token
  unfolding authorize
  authorize-ObtainedBy config w token h =
      let verifier = (A.new_random_sha256 w).0 in
      let (found, read, h1) =
        bind-eq-ok (wait_for_redirect_code A redirect_port) _ _ token _
          (ap (λ r. (r, (authorize A config w).1)) h) in
      let (u, built, h2) = bind-eq-ok (http_client A) _ _ token _ h1 in
      let (response, given, h3) =
        bind-eq-ok (exchange_found A config found verifier) _ _ token _ h2 in
      let (request, v, text, parsed) = code-read redirect_port _ found read in
      (
        request,
        found,
        response,
        v,
        _,
        text,
        parsed,
        map_err-ok oauth _ response given,
        accept-Accepted response _ token (ap (λ r. r.0) h3),
      )
