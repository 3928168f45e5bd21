-- ===== src/Engine/Poll/Tokens.antt =====
-- When `poll_remote_changes` of engine.rs moves the page token.
use gd_client.Prelude.{String, Option, none, some, List, Result, ok, err, ◌≡◌, ◌⊎◌, [], ◌∷◌}
use gd_client.Common.Errors.{SyncError}
use gd_client.Common.Config.{SyncFolder, Uuid}
use gd_client.StateDb.{StateDb, get_page_token, put_token}
use gd_client.SyncStatus.{FolderRun}
use gd_client.Drive.Client.{Change}
use gd_client.Engine.Site.{Remote, Host, Site}
use gd_client.Engine.Ownership.{Owner}
use gd_client.Engine.Poll.{apply_change}

module _ (R : Remote) (H : Host) where
  -- The page tokens are these.
  abbrev pub TokensAre : List (Uuid × String) → Site R H → Type 0
  TokensAre T s = s.db.page_tokens ≡ T

  module _ (folder : SyncFolder) (owner : Owner) (run : FolderRun) (T : List (Uuid × String)) where
    -- Each change of the list was applied with success, in order, from the first site to the second.
    abbrev pub AllApplied : List Change → Site R H → Site R H → Type 0
    AllApplied [] s u = u ≡ s
    AllApplied (change ∷ changes) s u =
        (v : Site R H) × (apply_change R H folder owner run change s ≡ (ok tt, v))
        × AllApplied changes v u

    -- The list of changes was fetched with the stored token, all its changes were applied to the site as
    -- it was then, and nothing has changed since but that the token of the list is the folder's.
    abbrev pub Advanced : Site R H → Site R H → Type 0
    Advanced s s' =
        (page_token : String) × (changes : List Change) × (new_token : String) × (u : Site R H)
        × ((get_page_token folder.id s.db).0 ≡ ok (some page_token))
        × ((R.list_changes page_token s.drive).0 ≡ ok (some (changes, new_token)))
        × AllApplied changes
            (record s {
              db = (get_page_token folder.id s.db).1;
              drive = (R.list_changes page_token s.drive).1;
            })
            u
        × (s' ≡ record u { db = s'.db })
        × (s'.db.files ≡ u.db.files)
        × (s'.db.page_tokens ≡ put_token folder.id new_token T)

    abbrev pub Polled : Site R H → Result SyncError (Option Unit) → Site R H → Type 0
    Polled s (err e) s' = TokensAre T s'
    Polled s (ok none) s' = TokensAre T s'
    Polled s (ok (some _)) s' =
        (TokensAre T s' × ((get_page_token folder.id s.db).0 ≡ ok none)) ⊎ Advanced s s'

    -- The site when the list has come.
    abbrev fetched : Site R H → String → Site R H
    fetched s page_token = record s {
      db = (get_page_token folder.id s.db).1;
      drive = (R.list_changes page_token s.drive).1;
    }
