-- ===== src/Daemon/Startup.antt =====
-- What the daemon of crates/gdrived/src/main.rs is when it starts.
use gd_client.Prelude.Keys.{nat_ord, string_ord}
use gd_client.Prelude.{
  String, Option, none, some, is_some, contains, Result, ok, err, and_then, ◌&&◌, ◌≡◌, refl, ap,
  subst, sym,
}
use gd_client.Common.Paths.{PathBuf, join}
use gd_client.Common.Directories.{
  ProjectDirs, project_dirs, config_file, data_dir, sync_state_db_file, oauth_token_file,
}
use gd_client.Common.Errors.{SyncError}
use gd_client.Common.Config.{AppConfig, ConfigStore, Uuid, load_from}
use gd_client.StateDb.{StateDb}
use gd_client.StateDb.Opening.{open_db}
use gd_client.Drive.Auth.{TokenDisk, StoredToken, load_token}
use gd_client.Drive.Tokens.{TokenState, new_state, replace, restore_token}
use gd_client.Engine.Workers.{running_folders}
use gd_client.Engine.Workers.Running.{is_enabled, running-start_all}
use gd_client.Service.SignIns.Histories.{Reachable}
use gd_client.Daemon.{
  Daemon, StartError, common_error, sync_error, default_token_path, load_cached_token, cached,
  restored, engine_of, serve, main,
}

-- What holds after the rest, where the first result is a success.
and_then-to :
    {E F A B Disk : Type 0} (P : Result F B × Disk → Type 0) (m : Result E A × Disk) (f : E → F)
    (k : A → Disk → Result F B × Disk) (a : A)
    → m.0 ≡ ok a
    → P (k a m.1)
    → P (and_then f m k)
and_then-to P (ok b, d) f k a h p = subst (λ c. P (k c d)) (cc) p
and_then-to P (err e, d) f k a h p = cc

module _ (S : ConfigStore) (D : TokenDisk) (uuid_to_string : Uuid → String)
    (parse_str : String → Result String Uuid) (debug : String → String)
    (from : String → String → String → Option ProjectDirs)
    (connect : PathBuf → D.Disk → Result String StateDb × D.Disk) where
  -- The session of a cached token.
  abbrev pub session : Option StoredToken → PathBuf → TokenState
  session none path = new_state ""
  session (some token) path = replace token (some path) (new_state "")

  -- The daemon has the configuration, a session of the token that was cached, if there was one, and then
  -- a worker for each enabled folder; its service is one that can be reached.
  abbrev pub Started : AppConfig → Option StoredToken → Daemon S D → Type 0
  Started config token daemon =
      (daemon.service.config ≡ config)
      × (daemon.service.client.tokens ≡ session token daemon.service.token_path)
      × ((id : Uuid)
          → contains (running_folders daemon.service.engine) id
            ≡ (is_some token && is_enabled id config.sync_folders))
      × Reachable S D uuid_to_string parse_str debug daemon.service

  running-engine_of :
      (config : AppConfig) (token : Option StoredToken) (id : Uuid)
      → contains (running_folders (engine_of S D from connect config token)) id
        ≡ (is_some token && is_enabled id config.sync_folders)
  unfolding engine_of running_folders
  running-engine_of config none id = refl
  running-engine_of config (some token) id = running-start_all config config id

  module _ (dirs : ProjectDirs) (home : from "" "g-client" "gdrive-client" ≡ some dirs)
      (makes : (p : PathBuf) (d : D.Disk) → (D.create_dir_all p d).0 ≡ ok tt) where
    abbrev pub token_path : PathBuf
    token_path = join dirs.data_dir "oauth-token.json"

    -- The disk once the directory of the data is there.
    abbrev pub with_data_dir : D.Disk → D.Disk
    with_data_dir d = (D.create_dir_all dirs.data_dir d).1

    project_dirs-eq : project_dirs D.create_dir_all from ≡ ok dirs
    unfolding project_dirs
    project_dirs-eq = rw (home, project_dirs) refl

    config_file-eq : config_file D.create_dir_all from ≡ ok (join dirs.config_dir "config.toml")
    unfolding config_file
    config_file-eq = rw (project_dirs-eq) refl

    data_dir-eq :
        (d : D.Disk) → data_dir D.create_dir_all from d ≡ (ok dirs.data_dir, with_data_dir d)
    unfolding data_dir
    data_dir-eq d = rw (project_dirs-eq, data_dir, makes dirs.data_dir d, data_dir) refl

    default_token_path-eq :
        (d : D.Disk) → default_token_path S D from connect d ≡ (ok token_path, with_data_dir d)
    unfolding default_token_path oauth_token_file
    default_token_path-eq d = rw (data_dir-eq d) refl

    serve-Started :
        (config : AppConfig) (config_path : PathBuf) (token : Option StoredToken) (db : StateDb)
        (config_disk : S.Disk) (d : D.Disk)
        → (daemon : Daemon S D) × ((serve S D from connect
              (some (ok tt))
              config
              config_path
              token
              db
              config_disk
              d).0
            ≡ ok daemon)
          × Started config token daemon
    unfolding serve restored restore_token
    serve-Started config config_path none db config_disk d =
        rw (default_token_path-eq d)
          (_, refl, (refl, refl, running-engine_of config none, Reachable.created _ _ _ _ _ _))
    serve-Started config config_path (some token) db config_disk d =
        rw (default_token_path-eq d, default_token_path-eq (with_data_dir d))
          (
            _,
            refl,
            (refl, refl, running-engine_of config (some token), Reachable.created _ _ _ _ _ _),
          )

    sync_state_db_file-eq :
        (d : D.Disk)
        → sync_state_db_file D.create_dir_all from d
          ≡ (ok (join dirs.data_dir "sync-state.sqlite3"), with_data_dir d)
    unfolding sync_state_db_file
    sync_state_db_file-eq d = rw (data_dir-eq d) refl

    load_cached_token-eq :
        (d : D.Disk)
        → load_cached_token S D from connect d
          ≡ (load_token D token_path (with_data_dir d), with_data_dir d)
    unfolding load_cached_token
    load_cached_token-eq d = rw (default_token_path-eq d) refl

  -- The daemon starts whatever the cache of the token holds, if there is a home directory, directories
  -- can be made, the configuration can be read, the database opens and the bus answers in time. It has
  -- that configuration, the session of the cached token, or an empty one where none can be read; a folder
  -- has a running worker exactly if there is a token and the folder is enabled; and the service is in a
  -- state that it reaches.
  pub main-Started :
      (dirs : ProjectDirs)
      → from "" "g-client" "gdrive-client" ≡ some dirs
      → ((p : PathBuf) (d : D.Disk) → (D.create_dir_all p d).0 ≡ ok tt)
      → ((p : PathBuf) (d : D.Disk)
          → (db : StateDb) × ((open_db D.create_dir_all connect p d).0 ≡ ok db))
      → (config : AppConfig) (config_disk : S.Disk) (d : D.Disk)
      → load_from S config_disk (join dirs.config_dir "config.toml") ≡ ok config
      → (daemon : Daemon S D) × ((main S D from connect (some (ok tt)) config_disk d).0 ≡ ok daemon)
        × Started config
            (cached S D from connect (
              load_token D
                (join dirs.data_dir "oauth-token.json")
                (D.create_dir_all dirs.data_dir d).1))
            daemon
  unfolding main config_file
  main-Started dirs home makes opens config config_disk d loads =
      and_then-to Starts (config_file D.create_dir_all from, d) _ _ _
        (config_file-eq dirs home makes)
        (and_then-to Starts (load_from S config_disk (join dirs.config_dir "config.toml"), d) _ _ _
          loads
          (subst (λ t. Starts (after t.0 t.1)) (sym (load_cached_token-eq dirs home makes d))
            (and_then-to Starts (sync_state_db_file D.create_dir_all from (made d)) _ _ _
              (ap (λ r. r.0) (sync_state_db_file-eq dirs home makes (made d)))
              (and_then-to Starts _ _ _ _ (opens _ _).1
                (serve-Started dirs home makes config _ _ _ config_disk _)))))
    where
      made : D.Disk → D.Disk
      made = with_data_dir dirs home makes

      Starts : Result StartError (Daemon S D) × D.Disk → Type 0
      Starts r =
          (daemon : Daemon S D) × (r.0 ≡ ok daemon)
          × Started config
              (cached S D from connect
                (load_token D (join dirs.data_dir "oauth-token.json") (made d)))
              daemon

      after :
          Result SyncError (Option StoredToken) → D.Disk → Result StartError (Daemon S D) × D.Disk
      after token e =
          and_then common_error (sync_state_db_file D.create_dir_all from e) λ state_db_path d.
            and_then sync_error (open_db D.create_dir_all connect state_db_path d) λ db d.
              serve S D from connect (some (ok tt)) config (join dirs.config_dir "config.toml")
                (cached S D from connect token) db config_disk d
