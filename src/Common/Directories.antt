-- ===== src/Common/Directories.antt =====
-- crates/gdrive-common/src/paths.rs, over the `directories` crate and the creation of a directory.
use gd_client.Prelude.{String, Option, none, some, Result, ok, err, and_then, ◌>>=◌}
use gd_client.Common.Paths.{PathBuf, join}
use gd_client.Common.Errors.{IoError, CommonError, no_home_directory, common_io}

-- `directories::ProjectDirs`
pub record ProjectDirs : Type 0 where
  pub config_dir : PathBuf
  pub data_dir : PathBuf

abbrev kept : CommonError → CommonError
kept e = e

-- `ProjectDirs::from`, of a qualifier, an organization and an application.
module _ {Disk : Type 0} (create_dir_all : PathBuf → Disk → Result IoError Unit × Disk)
    (from : String → String → String → Option ProjectDirs) where
  unfoldable pub project_dirs : Result CommonError ProjectDirs
  project_dirs = elim (from "" "g-client" "gdrive-client") [
    | none ↦ err no_home_directory
    | some dirs ↦ ok dirs
  ]

  unfoldable pub config_file : Result CommonError PathBuf
  unfolding join
  config_file = do dirs ← project_dirs; ok (join dirs.config_dir "config.toml")

  unfoldable pub data_dir : Disk → Result CommonError PathBuf × Disk
  data_dir d =
      and_then kept (project_dirs, d)
        λ dirs d. and_then common_io (create_dir_all dirs.data_dir d) λ _ d. (ok dirs.data_dir, d)

  abbrev file_in : String → Disk → Result CommonError PathBuf × Disk
  file_in name d = and_then kept (data_dir d) λ dir d. (ok (join dir name), d)

  unfoldable pub sync_state_db_file : Disk → Result CommonError PathBuf × Disk
  unfolding data_dir
  sync_state_db_file d = file_in "sync-state.sqlite3" d

  unfoldable pub oauth_token_file : Disk → Result CommonError PathBuf × Disk
  unfolding data_dir
  oauth_token_file d = file_in "oauth-token.json" d
