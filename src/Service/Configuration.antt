-- ===== src/Service/Configuration.antt =====
-- What becomes of the configuration when a method of dbus_service.rs changes the folders.
use gd_client.Prelude.Keys.{nat_ord, string_ord}
use gd_client.Prelude.{
  String, Bool, List, All, none, [], true, false, ◌≢◌, Result, ok, err, ◌≡◌, if◌then◌else◌, some,
  ◌++◌, ◌∷◌,
}
use gd_client.Common.Paths.{components}
use gd_client.Common.Config.{Uuid, ConfigStore, AppConfig, IsLawful, load_from, SyncFolder}
use gd_client.Drive.Auth.{TokenDisk}
use gd_client.Engine.Workers.{SyncEngine, start_folder, stop_folder}
use gd_client.Service.{ServiceState, FdoError, NewFolder, folder_of}

-- What a method should make of the configuration and the engine.
abbrev pub Change : Type 1
Change = AppConfig → SyncEngine → Type 0

-- A list, and what is left of it without the folders with the id.
pub data Without (id : Uuid) : List SyncFolder → List SyncFolder → Type 0 where
  nothing : Without id [] []
  gone :
      {f : SyncFolder} {fs gs : List SyncFolder}
      → f.id ≡ id
      → Without id fs gs
      → Without id (f ∷ fs) gs
  left_in :
      {f : SyncFolder} {fs gs : List SyncFolder}
      → f.id ≢ id
      → Without id fs gs
      → Without id (f ∷ fs) (f ∷ gs)

-- The folder is the first of the list with the id, and the other list differs in its flag only.
abbrev pub FirstSet : Uuid → Bool → SyncFolder → List SyncFolder → List SyncFolder → Type 0
FirstSet id enabled folder fs gs =
    (before after : List SyncFolder) × (folder.id ≡ id)
    × All (λ (f : SyncFolder). f.id ≢ id) before
    × (fs ≡ before ++ (folder ∷ after))
    × (gs ≡ before ++ ((record folder { enabled = enabled }) ∷ after))

-- The folder is as the call says. No id, and that of the top, mean My Drive itself.
abbrev pub Described : Uuid → NewFolder → SyncFolder → Type 0
Described id args f =
    (f.id ≡ id)
    × (f.display_name ≡ args.display_name)
    × (f.local_path ≡ components args.local_path)
    × (f.owner_user ≡ args.owner_user)
    × (f.owner_group ≡ args.owner_group)
    × (f.enabled ≡ args.enabled)
    × (args.drive_folder_id ≡ "" → f.drive_folder_id ≡ none)
    × (args.drive_folder_id ≡ "root" → f.drive_folder_id ≡ none)
    × ((d : String) → f.drive_folder_id ≡ some d → d ≡ args.drive_folder_id)

module _ (S : ConfigStore) (D : TokenDisk) where
  -- After an error nothing but the disk may have changed; after success the change is made, the file
  -- holds the configuration in memory, and nothing but these, the disk and the engine has changed.
  abbrev pub Committed :
      {A : Type 0} → Change → ServiceState S D → Result FdoError A × ServiceState S D → Type 0
  Committed change s (err e, u) = u ≡ record s { config_disk = u.config_disk }
  Committed change s (ok a, u) =
      (load_from S u.config_disk s.config_path ≡ ok u.config)
      × (u ≡ record s { config_disk = u.config_disk; config = u.config; engine = u.engine })
      × change u.config u.engine

  -- The folder is the last one, is as the call describes it, and is started if it is enabled.
  abbrev pub Added : Uuid → NewFolder → ServiceState S D → Change
  Added id args s c e =
      (c.sync_folders ≡ s.config.sync_folders ++ (folder_of id args ∷ []))
      × (e ≡ (if args.enabled then start_folder (folder_of id args) s.engine else s.engine))
      × Described id args (folder_of id args)

  -- Every folder with the id is gone, the others stay, and its worker is stopped.
  abbrev pub Removed : Result String Uuid → ServiceState S D → Change
  Removed parsed_id s c e =
      (id : Uuid) × (parsed_id ≡ ok id)
      × Without id s.config.sync_folders c.sync_folders
      × (e ≡ stop_folder id s.engine)

  -- The first folder with the id is enabled or disabled, the others stay, and its worker is started as
  -- the folder now is, or stopped.
  abbrev pub Switched : Result String Uuid → Bool → ServiceState S D → Change
  Switched parsed_id enabled s c e =
      (id : Uuid) × (parsed_id ≡ ok id)
      × ((folder : SyncFolder) × FirstSet id enabled folder s.config.sync_folders c.sync_folders
          × (enabled ≡ true → e ≡ start_folder (record folder { enabled = true }) s.engine)
          × (enabled ≡ false → e ≡ stop_folder id s.engine))

module _ (S : ConfigStore) (L : IsLawful S) (D : TokenDisk) (uuid_to_string : Uuid → String)
    (parse_str : String → Result String Uuid) (debug : String → String) where
  abbrev Persisted : AppConfig → ServiceState S D → Result FdoError Unit × ServiceState S D → Type 0
  Persisted config s (err e, u) = u ≡ record s { config_disk = u.config_disk }
  Persisted config s (ok a, u) =
      (load_from S u.config_disk s.config_path ≡ ok config)
      × (u ≡ record s { config_disk = u.config_disk })
