-- ===== src/Drive/Paging.antt =====
-- The loop over the pages of an answer, in `list_files` of crates/gdrive-sync/src/drive_client.rs, over
-- any way to fetch a page. The program has no bound on the pages: `fuel` is one, and `none` means that
-- it ran out.
pub mod Chains
use gd_client.Prelude.{List, Option, String, none, some, suc, zero, ℕ, ◌++◌}
use gd_client.Effects.{Exec, ◌>>=◌, ◌>>◌, pure, fail}

pub record Page (T : Type 0) : Type 0 where
  pub files : List T
  pub next_page_token : Option String

module _ {S T : Type 0} (fetch : Option String → Exec S (Page T)) where
  abbrev pub turn_page :
      (Option String → List T → Exec S (Option (List T)))
      → Option String
      → List T
      → Exec S (Option (List T))
  turn_page loop none files = pure (some files)
  turn_page loop (some token) files = loop (some token) files

  unfoldable pub pages : ℕ → Option String → List T → Exec S (Option (List T))
  pages zero token files = pure none
  pages (suc fuel) token files = do
    page ← fetch token
    turn_page (pages fuel) page.next_page_token (files ++ page.files)
