-- ===== src/Engine/Ownership.antt =====
-- crates/gdrive-sync/src/ownership.rs: who owns the files that a worker writes.
use gd_client.Prelude.{ℕ, String, Option, none, some, if◌then◌else◌}
use gd_client.Common.Paths.{PathBuf}
use gd_client.Drive.Auth.{is_empty}
use gd_client.Engine.Site.{Remote, Host, Work, on_disk}

pub record Owner : Type 0 where
  pub uid : ℕ
  pub gid : ℕ

abbrev or_current : Option ℕ → ℕ → ℕ
or_current none current = current
or_current (some id) current = id

abbrev id_of : (String → Option ℕ) → String → ℕ → ℕ
id_of find name current = or_current (if is_empty name then none else find name) current

unfoldable pub resolve_owner : Host → String → String → Owner
resolve_owner H owner_user owner_group = record {
  uid = id_of H.user_from_name owner_user H.current_uid;
  gid = id_of H.group_from_name owner_group H.current_gid;
}

unfoldable pub apply_ownership : (R : Remote) (H : Host) → PathBuf → Owner → Work R H Unit
apply_ownership R H path owner = on_disk R H (H.chown path owner.uid owner.gid)
