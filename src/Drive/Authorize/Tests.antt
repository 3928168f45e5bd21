-- ===== src/Drive/Authorize/Tests.antt =====
-- A sign-in in which the browser brings the code `abc`.
use gd_client.Prelude.{String, List, some, [], ◌∷◌, ok, ◌≡◌, refl}
use gd_client.Drive.Auth.{OAuthConfig, StoredToken}
use gd_client.Drive.Redirect.{
  second_word, behind, skip_whitespace, before, split_ampersand, strip_text,
}
use gd_client.Drive.Authorize.{SignInWorld, authorize}
use gd_client.Drive.Authorize.Obtained.{ObtainedBy, authorize-ObtainedBy}

-- The world is what has been sent to the browser, the newest first.
abbrev consenting : SignInWorld
consenting = record {
  World = List String;
  new_random_sha256 = λ w. ("verifier", w);
  authorize_url = λ c u w. (u.redirect_url, w);
  show_auth_url = λ url w. url ∷ w;
  bind = λ p w. (ok tt, w);
  accept_connection = λ w. (ok tt, w);
  read = λ w. (ok "GET /?state=x&code=abc HTTP/1.1", w);
  write_all = λ text w. text ∷ w;
  build_client = λ w. (ok tt, w);
  exchange_code = λ c found verifier w. (
    ok (record { access_token = found; refresh_token = some verifier; expires_in = some 60 }),
    w,
  );
  now_unix_secs = λ w. 1000;
}

abbrev some_config : OAuthConfig
some_config = record { client_id = "client"; client_secret = "secret" }

abbrev abc_token : StoredToken
abc_token = record { access_token = "abc"; refresh_token = some "verifier"; expires_at = some 1060 }

consented : (authorize consenting some_config []).0 ≡ ok abc_token
unfolding authorize second_word behind skip_whitespace before split_ampersand strip_text
consented = refl

authorize-ObtainedBy_example : ObtainedBy consenting some_config "verifier" abc_token
authorize-ObtainedBy_example = authorize-ObtainedBy consenting some_config [] abc_token consented
