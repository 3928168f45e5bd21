-- ===== src/Common/Config/Tests.antt =====
-- A file system with one file, whose text is the document, to run config.rs on.
use gd_client.Prelude.{[], ◌∷◌, ok, err, refl, some, none, arith, ◌≡◌, Option, is_some, true, false}
use gd_client.Common.Paths.{PathBuf, parent}
use gd_client.Common.Config.{
  AppConfig, ConfigDocument, ConfigStore, IsLawful, load_from, save_to, SyncFolder, to_document,
}
use gd_client.Common.Config.RoundTrip.{load_from-save_to}

-- The disk holds at most one file, whatever its path.
abbrev pub one_file : ConfigStore
one_file = record {
  Disk = Option ConfigDocument;
  Text = ConfigDocument;
  exists = λ d path. is_some d;
  read_to_string = λ d path. elim d [
    | none ↦ err (record { not_found = true; message = "no such file" })
    | some text ↦ ok text
  ];
  create_dir_all = λ d path. (ok tt, d);
  write = λ d path text. (ok tt, some text);
  parse_document = λ text. ok text;
  print_document = λ doc. ok doc;
}

pub one_file-IsLawful : IsLawful one_file
one_file-IsLawful = record {
  exists-write = λ d d' path text h. ground arith;
  read-write = λ d d' path text h. ground arith;
  parse-print = λ doc text h. ground arith;
}

abbrev pub paused : SyncFolder
paused = record {
  id = 7;
  display_name = "documents";
  drive_folder_id = some "d";
  drive_folder_path = none;
  local_path = "/" ∷ "home" ∷ "docs" ∷ [];
  owner_user = "me";
  owner_group = "me";
  enabled = false;
}

abbrev config : AppConfig
config = record { sync_folders = paused ∷ []; poll_interval_secs = 3 }

abbrev path : PathBuf
path = "config" ∷ "config.toml" ∷ []

saved : save_to one_file config none path ≡ (ok tt, some (to_document config))
unfolding save_to parent to_document
saved = refl

missing_file :
    load_from one_file none path ≡ ok (record { sync_folders = []; poll_interval_secs = 0 })
unfolding load_from
missing_file = refl

load_from-save_to_example : load_from one_file (some (to_document config)) path ≡ ok config
load_from-save_to_example =
    load_from-save_to one_file one_file-IsLawful config none (some (to_document config)) path saved
