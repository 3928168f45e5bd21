-- ===== src/Common/Config.antt =====
-- crates/gdrive-common/src/config.rs. Reading and writing a file, and the TOML text of a document, are
-- parameters; which field a document may leave out, and what stands for it then, is the source's.
pub mod RoundTrip
pub mod Tests
use gd_client.Prelude.{
  Bool, List, Option, Result, String, [], err, if◌then◌else◌, map_err, none, ok, some, true, ℕ, ◌≡◌,
}
use gd_client.Prelude.{◌>>=◌, and_then, map, ◌∷◌, ◌<>◌}
use gd_client.Common.Paths.{PathBuf, parent}
use gd_client.Common.Errors.{IoError, CommonError, common_io, toml_de, toml_ser}

abbrev pub Uuid : Type 0
Uuid = ℕ

pub record SyncFolder : Type 0 where
  pub id : Uuid
  pub display_name : String
  pub drive_folder_id : Option String
  pub drive_folder_path : Option String
  pub local_path : PathBuf
  pub owner_user : String
  pub owner_group : String
  pub enabled : Bool

-- `SyncFolder::new`; the fresh `id` is an argument.
unfoldable pub new_folder : Uuid → String → PathBuf → String → String → SyncFolder
new_folder id display_name local_path owner_user owner_group = record {
  id = id;
  display_name = display_name;
  drive_folder_id = none;
  drive_folder_path = none;
  local_path = local_path;
  owner_user = owner_user;
  owner_group = owner_group;
  enabled = true;
}

pub record AppConfig : Type 0 where
  pub sync_folders : List SyncFolder
  pub poll_interval_secs : ℕ

unfoldable pub default_poll_interval_secs : ℕ
default_poll_interval_secs = 60

-- The derived `AppConfig::default()`: the default of each field's type.
unfoldable pub default_config : AppConfig
default_config = record { sync_folders = []; poll_interval_secs = 0 }

-- A table of the list of folders, in which any field may be missing.
pub record FolderDocument : Type 0 where
  pub id : Option Uuid
  pub display_name : Option String
  pub drive_folder_id : Option String
  pub drive_folder_path : Option String
  pub local_path : Option PathBuf
  pub owner_user : Option String
  pub owner_group : Option String
  pub enabled : Option Bool

-- A document, in which both fields may be missing.
pub record ConfigDocument : Type 0 where
  pub sync_folders : Option (List FolderDocument)
  pub poll_interval_secs : Option ℕ

abbrev or_default {ℓ} : {A : Type ℓ} → Option A → A → A
or_default none d = d
or_default (some a) d = a

-- A field without a default, which is not an `Option`.
abbrev required : {A : Type 0} → String → Option A → Result String A
required name none = err ("missing field `" <> (name <> "`"))
required name (some a) = ok a

-- The derived `Deserialize for SyncFolder`: a missing `Option` is `None`.
unfoldable pub of_folder : FolderDocument → Result String SyncFolder
of_folder d = do
  id ← required "id" d.id
  display_name ← required "display_name" d.display_name
  local_path ← required "local_path" d.local_path
  owner_user ← required "owner_user" d.owner_user
  owner_group ← required "owner_group" d.owner_group
  enabled ← required "enabled" d.enabled
  ok (record {
    id = id;
    display_name = display_name;
    drive_folder_id = d.drive_folder_id;
    drive_folder_path = d.drive_folder_path;
    local_path = local_path;
    owner_user = owner_user;
    owner_group = owner_group;
    enabled = enabled;
  })

unfoldable pub of_folders : List FolderDocument → Result String (List SyncFolder)
unfolding of_folder
of_folders [] = ok []
of_folders (d ∷ ds) = do folder ← of_folder d; folders ← of_folders ds; ok (folder ∷ folders)

-- The derived `Deserialize for AppConfig`, with its `#[serde(default)]` attributes.
unfoldable pub of_document : ConfigDocument → Result String AppConfig
unfolding default_poll_interval_secs of_folders
of_document d = do
  folders ← of_folders (or_default d.sync_folders [])
  ok (record {
    sync_folders = folders;
    poll_interval_secs = or_default d.poll_interval_secs default_poll_interval_secs;
  })

-- The derived `Serialize for SyncFolder`. A path that is `None` is skipped, and TOML leaves out an id
-- that is `None`.
unfoldable pub to_folder : SyncFolder → FolderDocument
to_folder f = record {
  id = some f.id;
  display_name = some f.display_name;
  drive_folder_id = f.drive_folder_id;
  drive_folder_path = f.drive_folder_path;
  local_path = some f.local_path;
  owner_user = some f.owner_user;
  owner_group = some f.owner_group;
  enabled = some f.enabled;
}

-- The derived `Serialize for AppConfig`: every field is written.
unfoldable pub to_document : AppConfig → ConfigDocument
unfolding to_folder
to_document c = record {
  sync_folders = some (map to_folder c.sync_folders);
  poll_interval_secs = some c.poll_interval_secs;
}

-- The configuration file's disk and the TOML library; `Text` is the text of a file.
pub record ConfigStore : Type 1 where
  pub Disk : Type 0
  pub Text : Type 0
  pub exists : Disk → PathBuf → Bool
  pub read_to_string : Disk → PathBuf → Result IoError Text
  pub create_dir_all : Disk → PathBuf → Result IoError Unit × Disk
  pub write : Disk → PathBuf → Text → Result IoError Unit × Disk
  pub parse_document : Text → Result String ConfigDocument
  pub print_document : ConfigDocument → Result String Text

-- A file that was written is there, with the text that was written; a printed document parses back.
pub record IsLawful (S : ConfigStore) : Type 0 where
  pub exists-write :
      (d d' : S.Disk) (path : PathBuf) (text : S.Text)
      → S.write d path text ≡ (ok tt, d')
      → S.exists d' path ≡ true
  pub read-write :
      (d d' : S.Disk) (path : PathBuf) (text : S.Text)
      → S.write d path text ≡ (ok tt, d')
      → S.read_to_string d' path ≡ ok text
  pub parse-print :
      (doc : ConfigDocument) (text : S.Text)
      → S.print_document doc ≡ ok text
      → S.parse_document text ≡ ok doc

module _ (S : ConfigStore) where
  -- `AppConfig::load_from`
  unfoldable pub load_from : S.Disk → PathBuf → Result CommonError AppConfig
  unfolding default_config of_document
  load_from d path =
      if S.exists d path
      then (do
        text ← map_err common_io (S.read_to_string d path)
        document ← map_err toml_de (S.parse_document text)
        map_err toml_de (of_document document))
      else ok default_config

  abbrev create_parent : S.Disk → Option PathBuf → Result IoError Unit × S.Disk
  create_parent d none = (ok tt, d)
  create_parent d (some dir) = S.create_dir_all d dir

  -- `AppConfig::save_to`
  unfoldable pub save_to : AppConfig → S.Disk → PathBuf → Result CommonError Unit × S.Disk
  unfolding to_document
  save_to c d path = and_then common_io (create_parent d (parent path)) λ _ d.
      elim (S.print_document (to_document c)) [
        | err e ↦ (err (toml_ser e), d)
        | ok text ↦ and_then common_io (S.write d path text) λ _ d. (ok tt, d)
      ]
