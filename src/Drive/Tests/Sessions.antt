-- ===== src/Drive/Tests/Sessions.antt =====
-- A refresh that meets a sign-out, and one that does not.
use gd_client.Prelude.{
  List, [], ◌∷◌, ok, err, refl, some, none, arith, ◌≡◌, Result, String, true, ◌⊎◌,
}
use gd_client.Drive.Tests.Disk.{memory, disk, old_token, token_path, endpoint, oauth_config}
use gd_client.Drive.Tokens.{
  TokenState, Client, Waits, access_token, refresh_locked, set_access_token,
}
use gd_client.Drive.Tokens.Sessions.{
  SessionOp, set_op, session_ops, sessions-win, refresh_locked-overtaken,
}
use gd_client.Drive.Tokens.Obtained.{Obtained, access_token-Obtained}
use gd_client.Common.Errors.{SyncError}

abbrev pub client : Client memory
client = record {
  tokens = record { token = old_token; path = some token_path; generation = 4 };
  disk = disk;
}

abbrev pub quiet : Waits memory
quiet = record {
  now = 1000;
  answered_at = 1001;
  lock_in_time = true;
  exchange_in_time = true;
  locking = λ c. c;
  exchanging = λ c. c;
  valid_url = true;
  endpoint = endpoint;
  temporary_name = "fresh.tmp";
}

abbrev sign_out : List SessionOp
sign_out = set_op "" ∷ []

abbrev overtaken : Waits memory
overtaken = record quiet { exchanging = session_ops memory sign_out }

signed_out_generation : (session_ops memory sign_out client).tokens.generation ≡ 5
unfolding set_access_token
signed_out_generation = refl

sessions-win_example :
    ((e : SyncError) × (refresh_locked memory (some oauth_config) none overtaken client
        ≡ (err e, session_ops memory sign_out client)))
    ⊎ ((refresh_locked memory (some oauth_config) none overtaken client).1 ≡ client)
sessions-win_example =
    sessions-win memory (some oauth_config) none overtaken client sign_out refl (omega arith)
      (omega arith) (omega arith)

refresh_locked-overtaken_example :
    ((e : SyncError) × (refresh_locked memory (some oauth_config) none overtaken client
        ≡ (err e, overtaken.exchanging client)))
    ⊎ ((refresh_locked memory (some oauth_config) none overtaken client).1 ≡ client)
refresh_locked-overtaken_example =
    refresh_locked-overtaken memory (some oauth_config) none overtaken client
      (omega (arith, signed_out_generation))

abbrev refreshed_token : Result SyncError TokenState × Client memory → String
refreshed_token (ok s, _) = s.token.access_token
refreshed_token (err _, _) = ""

quiet_refresh : refreshed_token (access_token memory (some oauth_config) none quiet client) ≡ "a1"
unfolding access_token gd_client.Drive.Tokens.state_needs_refresh refresh_locked
    gd_client.Drive.Tokens.refresh_inputs gd_client.Drive.Tokens.exchange
    gd_client.Drive.Auth.refresh_access_token gd_client.Drive.Tokens.install
    gd_client.Drive.Auth.save_token gd_client.Common.Paths.join gd_client.Common.Paths.parent
quiet_refresh = refl

access_token-Obtained_example :
    Obtained memory none (access_token memory (some oauth_config) none quiet client)
access_token-Obtained_example = access_token-Obtained memory (some oauth_config) none quiet client
