-- ===== src/Ui/Committed.antt =====
-- The requests of crates/gdrive-ui/src/dbus_client.rs against the service of
-- crates/gdrived/src/dbus_service.rs: the bus of a daemon.
use gd_client.Prelude.Keys.{nat_ord, string_ord}
use gd_client.Prelude.{ℕ, String, Bool, Option, List, Result, ok, map_err, ◌≡◌, if◌then◌else◌}
use gd_client.Common.Config.{Uuid, ConfigStore, IsLawful}
use gd_client.Drive.Auth.{TokenDisk, OAuthConfig}
use gd_client.Service.{
  ServiceState, FdoError, NewFolder, add_sync_folder, remove_sync_folder, set_folder_enabled,
  list_sync_folders,
}
use gd_client.Service.SignIns.{sign_in, sign_out, is_authenticated}
use gd_client.Service.SignIns.Answers.{SignInBegun, SignedOut}
use gd_client.Service.Configuration.{Change, Committed, Added, Removed, Switched}
use gd_client.Ui.Window.{
  NewFolderForm, Request, refresh_request, add_folder_request, remove_folder_request,
  set_folder_enabled_request, sign_in_request, sign_out_request, list_drive_folders_request,
  dark_mode_request,
}
use gd_client.Ui.Futures.{Call}
use gd_client.Ui.Bus.{Bus}
use gd_client.Ui.Performed.{Performed}

-- The arguments of `proxy.add_sync_folder`.
abbrev pub new_folder_of : NewFolderForm → NewFolder
new_folder_of form = record {
  display_name = form.display_name;
  drive_folder_id = form.drive_folder_id;
  drive_folder_path = form.drive_folder_path;
  local_path = form.local_path;
  owner_user = form.owner_user;
  owner_group = form.owner_group;
  enabled = form.enabled;
}

-- How the daemon comes to answer a call: how long that takes; what else happens to it before the method
-- runs, and between that and the answer; and whether the method has run when the call is given up.
pub record Pace (W : Type 0) : Type 0 where
  pub takes : W → Option ℕ
  pub before : W → W
  pub after : W → W
  pub reached : ℕ → W → Bool

module _ {W A : Type 0} (message : FdoError → String) where
  abbrev pub served : Pace W → (W → Result FdoError A × W) → Call W A
  served p method = record {
    takes = p.takes;
    result = λ w. map_err message (method (p.before w)).0;
    done = λ w. p.after (method (p.before w)).1;
    left = λ n w. if p.reached n w then (method (p.before w)).1 else p.before w;
  }

module _ (S : ConfigStore) (L : IsLawful S) (D : TokenDisk) (uuid_to_string : Uuid → String)
    (parse_str : String → Result String Uuid) (debug : String → String) where
  abbrev Service : Type 0
  Service = ServiceState S D

  -- What the daemon runs with: the message of an error on the bus, the pace of its methods, fresh ids, the
  -- OAuth credentials, and what happens while `sign_out` waits; and what `zbus` does without the daemon.
  pub record Setting : Type 1 where
    pub message : FdoError → String
    pub pace : Pace Service
    pub fresh : Service → Uuid
    pub credentials : Option OAuthConfig
    pub meanwhile : Service → Service
    pub Reply : Type 0
    pub connect : ℕ → Call Service Unit
    pub new_proxy : Call Service Unit
    pub read_color_scheme : Call Service Reply
    pub color_scheme : Reply → Result String ℕ
    pub list_drive_folders : String → Call Service (List (String × String))

  module _ (E : Setting) where
    -- The bus with the daemon on it.
    abbrev pub daemon_bus : Bus
    daemon_bus = record {
      World = Service;
      Reply = E.Reply;
      connect = E.connect;
      new_proxy = E.new_proxy;
      read_color_scheme = E.read_color_scheme;
      color_scheme = E.color_scheme;
      list_sync_folders =
          served E.message E.pace
            (λ s. (ok (list_sync_folders S D uuid_to_string parse_str debug s), s));
      is_authenticated = served E.message E.pace (λ s. (is_authenticated S D s, s));
      add_sync_folder = λ form. served E.message E.pace (λ s.
          add_sync_folder S D uuid_to_string parse_str debug (E.fresh s) (new_folder_of form) s);
      remove_sync_folder =
          λ id. served E.message E.pace (remove_sync_folder S D uuid_to_string parse_str debug id);
      set_folder_enabled = λ id enabled.
          served E.message E.pace
            (set_folder_enabled S D uuid_to_string parse_str debug id enabled);
      sign_in = served E.message E.pace (sign_in S D E.credentials);
      sign_out = served E.message E.pace (sign_out S D E.meanwhile);
      list_drive_folders = E.list_drive_folders;
    }

    -- A method succeeded in some state, and the service is what it made of that.
    abbrev Ran : {A : Type 0} → (Service → Result FdoError A × Service) → Service → Type 0
    Ran {A} method u =
        (s : Service) × (a : A) × ((method s).0 ≡ ok a) × (u ≡ E.pace.after (method s).1)

    -- The same of one that makes a change.
    abbrev Made : (A : Type 0) → (Service → Change) → Service → Type 0
    Made A change u =
        (s t : Service) × (a : A) × Committed S D (change s) s (ok a, t) × (u ≡ E.pace.after t)

    -- What has become of a request.
    abbrev pub Effect : Request → Service → Type 0
    Effect (add_folder_request form) = Made String (λ s.
        Added S D (E.fresh s)
          (record {
            display_name = form.display_name;
            drive_folder_id = form.drive_folder_id;
            drive_folder_path = form.drive_folder_path;
            local_path = form.local_path;
            owner_user = form.owner_user;
            owner_group = form.owner_group;
            enabled = form.enabled;
          })
          s)
    Effect (remove_folder_request id) = Made Unit (Removed S D (parse_str id))
    Effect (set_folder_enabled_request id enabled) = Made Unit (Switched S D (parse_str id) enabled)
    Effect sign_in_request = λ u. (s t : Service) × SignInBegun S D s t × (u ≡ E.pace.after t)
    Effect sign_out_request =
        λ u. (s t : Service) × SignedOut S D E.meanwhile s t × (u ≡ E.pace.after t)
    Effect refresh_request = λ u. ⊥
    Effect (list_drive_folders_request parent) = λ u. ⊥
    Effect dark_mode_request = λ u. ⊥
