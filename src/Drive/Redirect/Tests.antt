-- ===== src/Drive/Redirect/Tests.antt =====
-- A redirect with a state and a code.
use gd_client.Prelude.{[], ◌∷◌, ◌≡◌, ok, refl}
use gd_client.Drive.Redirect.{redirect_code, strip_text}
use gd_client.Drive.Redirect.Requests.{request_of, redirect_code-request_of}

redirect_code-request_of_example :
    redirect_code (request_of "GET" "/" ("s=1" ∷ "code=4" ∷ []) "HTTP/1.1") ≡ ok "4"
unfolding strip_text
redirect_code-request_of_example =
    redirect_code-request_of "G" "ET" "/" "" ("s=1" ∷ []) "4" [] "HTTP/1.1"
      (refl, (refl, (refl, tt))) (refl, tt) (refl, tt)
      (
        ((refl, (refl, (refl, tt))), (refl, (refl, (refl, tt)))),
        (
          (
            (refl, (refl, (refl, (refl, (refl, (refl, tt)))))),
            (refl, (refl, (refl, (refl, (refl, (refl, tt)))))),
          ),
          tt,
        ),
      )
      (refl, tt)
