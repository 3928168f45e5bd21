-- ===== src/Engine/Watcher.antt =====
-- crates/gdrive-sync/src/local_watcher.rs: the changes of local files that a worker is told of.
use gd_client.Prelude.Keys.{nat_ord, string_ord}
use gd_client.Prelude.{List, map}
use gd_client.Common.Paths.{PathBuf}

pub data LocalChangeKind : Type 0 where
  created modified removed other : LocalChangeKind

pub record LocalChange : Type 0 where
  pub path : PathBuf
  pub kind : LocalChangeKind

-- The kinds that `notify` tells apart.
pub data EventKind : Type 0 where
  any_event access_event create_event modify_event remove_event other_event : EventKind

pub record Event : Type 0 where
  pub kind : EventKind
  pub paths : List PathBuf

unfoldable pub classify : EventKind → LocalChangeKind
classify create_event = created
classify modify_event = modified
classify remove_event = removed
classify any_event = other
classify access_event = other
classify other_event = other

-- What the watcher's callback sends for an event, in order.
unfoldable pub changes_of : Event → List LocalChange
unfolding classify
changes_of event = map (λ path. record { path = path; kind = classify event.kind }) event.paths
