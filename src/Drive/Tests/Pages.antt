-- ===== src/Drive/Tests/Pages.antt =====
-- Two pages of files, and two pages of changes.
use gd_client.Prelude.{
  ℕ, [], ◌∷◌, ok, refl, some, none, arith, ◌≡◌, Option, String, if◌then◌else◌, str_eq, true, ◌+◌,
}
use gd_client.Effects.{Exec}
use gd_client.Drive.Paging.{Page, pages}
use gd_client.Drive.Paging.Chains.{Chain, pages-Chain, after_files}
use gd_client.Drive.Client.{Change, ChangeListResponse}
use gd_client.Drive.Client.Changes.{ChangeChain, change_pages, change_pages-ChangeChain}

-- The state counts the pages that were fetched.
abbrev page_of : Option String → Exec ℕ (Page String)
page_of none n = (ok (record { files = "a" ∷ "b" ∷ []; next_page_token = some "p2" }), n + 1)
page_of (some t) n = (ok (record { files = "c" ∷ []; next_page_token = none }), n + 1)

two_pages : Chain page_of 2 none 0 (ok ("a" ∷ "b" ∷ "c" ∷ [])) 2
two_pages = Chain.more ("a" ∷ "b" ∷ []) "p2" refl (Chain.last ("c" ∷ []) refl)

pages-Chain_example :
    pages page_of 5 none [] 0 ≡ (after_files page_of [] (ok ("a" ∷ "b" ∷ "c" ∷ [])), 2)
pages-Chain_example = pages-Chain page_of 5 (omega arith) two_pages

abbrev change : String → Change
change id = record { file_id = id; removed = true; file = none }

abbrev changes_of : String → Exec ℕ ChangeListResponse
changes_of token n = (
  if str_eq token "t0"
      then ok (record {
        changes = change "x" ∷ [];
        new_start_page_token = none;
        next_page_token = some "t1";
      })
      else ok (record {
        changes = change "y" ∷ [];
        new_start_page_token = some "t9";
        next_page_token = none;
      }),
  n + 1,
)

two_change_pages : ChangeChain changes_of 2 "t0" 0 (change "x" ∷ change "y" ∷ []) "t9" 2
two_change_pages =
    ChangeChain.more (change "x" ∷ []) none "t1" refl
      (ChangeChain.last (change "y" ∷ []) (some "t9") refl)

change_pages-ChangeChain_example :
    change_pages changes_of 3 "t0" [] 0 ≡ (ok (some (change "x" ∷ change "y" ∷ [], "t9")), 2)
change_pages-ChangeChain_example =
    change_pages-ChangeChain changes_of 3 (omega arith) two_change_pages
