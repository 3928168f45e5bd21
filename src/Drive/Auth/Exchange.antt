-- ===== src/Drive/Auth/Exchange.antt =====
-- What `refresh_access_token` of auth.rs accepts.
use gd_client.Prelude.{
  Bool, Option, Result, String, arith, false, none, ok, some, ℕ, ◌≡◌, Option-cases, err, inl, inr,
}
use gd_client.Drive.Auth.{
  StoredToken, OAuthConfig, RequestTokenError, TokenResponse, is_empty, non_empty,
  refresh_access_token, refreshed,
}

-- A session that can be used and renewed: neither token is missing or empty.
abbrev pub IsRenewable : StoredToken → Type 0
IsRenewable t =
    (is_empty t.access_token ≡ false)
    × ((r : String) × (t.refresh_token ≡ some r) × (is_empty r ≡ false))

non_empty-some :
    (o : Option String) (s : String) → non_empty o ≡ some s → (o ≡ some s) × (is_empty s ≡ false)
non_empty-some none s h = ground arith
non_empty-some (some t) s h = ground arith

refreshed-IsRenewable :
    (previous : StoredToken) (response : TokenResponse) (now : ℕ) (r : String) (t : StoredToken)
    → previous.refresh_token ≡ some r
    → is_empty r ≡ false
    → refreshed previous response now ≡ ok t
    → IsRenewable t
refreshed-IsRenewable previous response now r t e h k = elim (Option-cases response.refresh_token) [
  | inl kept ↦ (ground arith, (r, ground arith, h))
  | inr (s, rotated) ↦ (ground arith, (s, ground arith, ground arith))
]

-- Every token that a refresh returns has an access token and a refresh token that are not empty.
pub refresh_access_token-IsRenewable :
    (valid_url : Bool)
    (endpoint : OAuthConfig → String → Option (Result RequestTokenError TokenResponse))
    (config : OAuthConfig) (previous : StoredToken) (now : ℕ) (t : StoredToken)
    → refresh_access_token valid_url endpoint config previous now ≡ ok t
    → IsRenewable t
unfolding refresh_access_token
refresh_access_token-IsRenewable valid_url endpoint config previous now t h =
    elim (Option-cases (non_empty previous.refresh_token)) [
      | inl e ↦ ground arith
      | inr (r, e) ↦
          let (had, full) = non_empty-some previous.refresh_token r e in
          elim (Option-cases (endpoint config r)) [
            | inl late ↦ ground arith
            | inr (err x, answer) ↦ ground arith
            | inr (ok response, answer) ↦
                refreshed-IsRenewable previous response now r t had full (ground arith)
          ]
    ]
