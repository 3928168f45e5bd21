-- ===== src/Drive/Tests/Network.antt =====
-- A request over a network that answers from a list.
use gd_client.Prelude.{ℕ, List, [], ◌∷◌, ok, err, refl, some, ◌≡◌, Result, false, length, true}
use gd_client.Drive.Tests.Disk.{memory, oauth_config}
use gd_client.Drive.Tests.Sessions.{client, quiet}
use gd_client.Drive.Requests.{Request, Response, Internet, World, send, no_body}
use gd_client.Drive.Requests.Retry.{Attempts, send-Attempts}
use gd_client.Common.Errors.{SyncError, http}

abbrev pub answer : ℕ → Response
answer status = record { status = status; text = ok "{}"; bytes = ok [] }

abbrev next : List Response → Result SyncError Response × List Response
next [] = (err (http "connection refused" false), [])
next (r ∷ rs) = (ok r, rs)

abbrev pub listed : Internet memory
listed = record {
  Net = List Response;
  transport = λ request token net. next net;
  meanwhile = λ net c. c;
  waits = λ net. quiet;
  status_text = λ status. "";
}

abbrev request : Request
request = record { method = "GET"; url = "/files"; query = []; body = no_body; can_clone = true }

-- The first answer refuses the token.
abbrev world : World memory listed
world = record { client = client; net = answer 401 ∷ answer 200 ∷ []; drive_requests = [] }

abbrev count_sent : World memory listed → ℕ
count_sent w = length w.drive_requests

sent_twice : count_sent (send memory listed (some oauth_config) request world).1 ≡ 2
unfolding send gd_client.Drive.Requests.get_token gd_client.Drive.Tokens.access_token
    gd_client.Drive.Tokens.state_needs_refresh gd_client.Drive.Tokens.refresh_locked
    gd_client.Drive.Tokens.refresh_inputs gd_client.Drive.Tokens.exchange
    gd_client.Drive.Auth.refresh_access_token gd_client.Drive.Tokens.install
    gd_client.Drive.Auth.save_token gd_client.Common.Paths.join gd_client.Common.Paths.parent
    gd_client.Drive.Requests.send_with
sent_twice = refl

send-Attempts_example :
    Attempts memory listed
      (some oauth_config)
      request
      []
      (send memory listed (some oauth_config) request world).1
send-Attempts_example = send-Attempts memory listed (some oauth_config) request world
