-- ===== src/Service/Tests.antt =====
-- A service with a configuration file and a disk in memory, through a sign-in.
use gd_client.Prelude.{
  ℕ, List, [], ◌∷◌, ok, err, refl, some, none, arith, ◌≡◌, ◌≢◌, Result, String, false,
  if◌then◌else◌, str_eq, true,
}
use gd_client.Prelude.BTreeMap.{get, BTreeMap, insert, modify}
use gd_client.Prelude.Keys.{nat_ord, string_ord}
use gd_client.Common.Paths.{parent}
use gd_client.Common.Config.{AppConfig, Uuid, save_to}
use gd_client.Common.Config.Tests.{one_file, paused}
use gd_client.Drive.Tests.Disk.{memory, token_path, new_token, oauth_config}
use gd_client.Drive.Tests.Sessions.{client}
use gd_client.Engine.Workers.{new_engine}
use gd_client.Service.{
  ServiceState, SignIn, NewFolder, remove_sync_folder, set_folder_enabled, returned, Service,
  commit, persist,
}
use gd_client.Service.SignIns.{
  sign_in, sign_in_ends, sign_out_begins, complete_sign_in, sign_in_busy,
}
use gd_client.Service.SignIns.Histories.{
  Reachable, ServiceOp, sign_in_op, sign_in_ends_op, service_op, new_service, one_sign_in,
}
use gd_client.Service.SignIns.SignOut.{Untouched, sign_out_wins}

abbrev parse_str : String → Result String Uuid
parse_str s = if str_eq s "7" then ok 7 else err "invalid length"

abbrev uuid_text : Uuid → String
uuid_text id = "7"

abbrev quoted : String → String
quoted s = s

abbrev config : AppConfig
config = record { sync_folders = []; poll_interval_secs = 60 }

abbrev fresh : ServiceState one_file memory
fresh =
    new_service one_file memory config ("config.toml" ∷ []) token_path (new_engine config) none
      client

abbrev after_op : ServiceOp → ServiceState one_file memory → ServiceState one_file memory
after_op op s = service_op one_file memory uuid_text parse_str quoted op s

abbrev signing_in : ServiceState one_file memory
signing_in = after_op (sign_in_op (some oauth_config)) fresh

abbrev signed_in : ServiceState one_file memory
signed_in = after_op (sign_in_ends_op "fresh.tmp" 0 (ok new_token)) signing_in

abbrev IsReachable : ServiceState one_file memory → Type 0
IsReachable s = Reachable one_file memory uuid_text parse_str quoted s

fresh-IsReachable : IsReachable fresh
fresh-IsReachable =
    Reachable.created config ("config.toml" ∷ []) token_path (new_engine config) none client

signing_in-IsReachable : IsReachable signing_in
signing_in-IsReachable =
    Reachable.step (sign_in_op (some oauth_config)) (omega arith) fresh-IsReachable

abbrev running_task : SignIn
running_task = record { generation = 1; aborted = false; ending = none }

abbrev ended_task : SignIn
ended_task = record { generation = 1; aborted = false; ending = some returned }

first_generation : signing_in.sign_in_generation ≡ 1
unfolding service_op sign_in gd_client.Service.SignIns.sign_in_busy
first_generation = refl

found_running : get 0 signing_in.tasks ≡ some running_task
unfolding service_op sign_in get gd_client.Service.SignIns.sign_in_busy
    gd_client.Prelude.BTreeMap.insert
found_running = refl

found_ended : get 0 signed_in.tasks ≡ some ended_task
unfolding service_op sign_in sign_in_ends get gd_client.Service.SignIns.sign_in_busy
    gd_client.Prelude.BTreeMap.insert gd_client.Service.SignIns.complete_sign_in
    gd_client.Drive.Tokens.save_session gd_client.Drive.Auth.save_token gd_client.Common.Paths.join
    gd_client.Common.Paths.parent gd_client.Prelude.BTreeMap.modify
found_ended = refl

announced : signed_in.signals ≡ true ∷ []
unfolding service_op sign_in sign_in_ends get gd_client.Service.SignIns.sign_in_busy
    gd_client.Prelude.BTreeMap.insert gd_client.Service.SignIns.complete_sign_in
    gd_client.Drive.Tokens.save_session gd_client.Drive.Auth.save_token gd_client.Common.Paths.join
    gd_client.Common.Paths.parent
announced = refl

signed_in-IsReachable : IsReachable signed_in
signed_in-IsReachable =
    Reachable.step (sign_in_ends_op "fresh.tmp" 0 (ok new_token)) (omega (arith, first_generation))
      signing_in-IsReachable

accepted_again : (sign_in one_file memory (some oauth_config) signed_in).0 ≡ ok tt
unfolding service_op sign_in sign_in_ends gd_client.Service.SignIns.sign_in_busy get
    gd_client.Prelude.BTreeMap.insert gd_client.Service.SignIns.complete_sign_in
    gd_client.Drive.Tokens.save_session gd_client.Drive.Auth.save_token gd_client.Common.Paths.join
    gd_client.Common.Paths.parent
accepted_again = refl

abbrev first_task : ℕ
first_task = 0

one_sign_in_example : first_task ≡ 0
one_sign_in_example =
    one_sign_in one_file memory uuid_text parse_str quoted first_task 0 running_task running_task
      signing_in-IsReachable found_running found_running refl refl

sign_out_wins_example : Untouched one_file memory (sign_out_begins one_file memory signing_in).1 (
    sign_in_ends one_file memory "fresh.tmp" 0
      (ok new_token)
      (sign_out_begins one_file memory signing_in).1)
sign_out_wins_example =
    sign_out_wins one_file memory uuid_text parse_str quoted "fresh.tmp" 0 (ok new_token)
      (omega (arith, first_generation)) signing_in-IsReachable

abbrev folder_args : NewFolder
folder_args = record {
  display_name = "Photos";
  drive_folder_id = "root";
  drive_folder_path = "";
  local_path = "/home/me/Photos";
  owner_user = "me";
  owner_group = "me";
  enabled = true;
}

removed : (remove_sync_folder one_file memory uuid_text parse_str quoted "7" fresh).0 ≡ ok tt
unfolding remove_sync_folder gd_client.Service.commit gd_client.Service.persist
    gd_client.Common.Config.save_to gd_client.Common.Paths.parent
removed = refl

abbrev with_paused : ServiceState one_file memory
with_paused = record fresh { config = record config { sync_folders = paused ∷ [] } }

taken_out :
    (remove_sync_folder one_file memory uuid_text parse_str quoted "7" with_paused).0 ≡ ok tt
unfolding remove_sync_folder commit persist save_to parent
taken_out = refl

switched_on :
    (set_folder_enabled one_file memory uuid_text parse_str quoted "7" true with_paused).0 ≡ ok tt
unfolding set_folder_enabled commit persist save_to parent
switched_on = refl
