-- ===== src/Drive/Client/Changes.antt =====
-- `list_changes` of crates/gdrive-sync/src/drive_client.rs: the pages of the Changes API, and the token
-- for the next poll.
use gd_client.Prelude.{
  List, Option, String, [], arith, none, ok, some, suc, zero, ℕ, ◌++◌, ◌≡◌, ◌≤◌,
}
use mathlib.Core.List.{append_assoc}
use gd_client.Effects.{Exec, ◌>>=◌, pure}
use gd_client.Drive.Client.{
  Change, ChangeListResponse, Json, fetch_changes, TokenDisk, Internet, OAuthConfig, World,
}

module _ {S : Type 0} (fetch : String → Exec S ChangeListResponse) where
  abbrev or_token : Option String → String → String
  or_token none token = token
  or_token (some t) token = t

  abbrev pub turn_changes :
      (String → List Change → Exec S (Option (List Change × String)))
      → String
      → Option String
      → Option String
      → List Change
      → Exec S (Option (List Change × String))
  turn_changes loop token (some next) new_start changes = loop next changes
  turn_changes loop token none new_start changes = pure (some (changes, or_token new_start token))

  unfoldable pub change_pages : ℕ → String → List Change → Exec S (Option (List Change × String))
  change_pages zero token changes = pure none
  change_pages (suc fuel) token changes = do
    page ← fetch token
    turn_changes (change_pages fuel) token page.next_page_token page.new_start_page_token
        (changes ++ page.changes)

  -- From a state and a token, so many pages of changes follow, and the last one names the token of the
  -- next poll, or none, and then its own token is asked for again.
  pub data ChangeChain : ℕ → String → S → List Change → String → S → Type 0 where
    last :
        {token : String} {s s' : S} (changes : List Change) (new_start : Option String)
        → fetch token s ≡ (
          ok (record {
            changes = changes;
            new_start_page_token = new_start;
            next_page_token = none;
          }),
          s',
        )
        → ChangeChain 1 token s changes (or_token new_start token) s'
    more :
        {n : ℕ} {token : String} {s s₁ s' : S} {rest : List Change} {final : String}
        (changes : List Change) (new_start : Option String) (next : String)
        → fetch token s ≡ (
          ok (record {
            changes = changes;
            new_start_page_token = new_start;
            next_page_token = some next;
          }),
          s₁,
        )
        → ChangeChain n next s₁ rest final s'
        → ChangeChain (suc n) token s (changes ++ rest) final s'

  change_pages-ChangeChain_from :
      (fuel : ℕ) (acc : List Change) {n : ℕ} {token : String} {s s' : S} {changes : List Change}
      {final : String}
      → n ≤ fuel
      → ChangeChain n token s changes final s'
      → change_pages fuel token acc s ≡ (ok (some (acc ++ changes, final)), s')
  unfolding change_pages
  change_pages-ChangeChain_from zero acc h (last changes new_start e) = absurd (omega arith)
  change_pages-ChangeChain_from zero acc h (more changes new_start next e c) = absurd (omega arith)
  change_pages-ChangeChain_from (suc fuel) acc h (last changes new_start e) = rw e
  change_pages-ChangeChain_from (suc fuel) acc h (more {rest = rest} changes new_start next e c) =
      rw (e, ← append_assoc acc changes rest)
        (change_pages-ChangeChain_from fuel (acc ++ changes) (omega arith) c)

  -- If the server gives out `n` pages of changes one after another, the loop with fuel for `n` or more
  -- returns the changes of all of them in order, with the token of the last page.
  pub change_pages-ChangeChain :
      (fuel : ℕ) {n : ℕ} {token : String} {s s' : S} {changes : List Change} {final : String}
      → n ≤ fuel
      → ChangeChain n token s changes final s'
      → change_pages fuel token [] s ≡ (ok (some (changes, final)), s')
  change_pages-ChangeChain fuel h c = change_pages-ChangeChain_from fuel [] h c

module _ (D : TokenDisk) (I : Internet D) (config : Option OAuthConfig) (J : Json)
    (base : String) where
  -- `list_changes`: the changes since a token, and the token of the next poll.
  unfoldable pub list_changes : ℕ → String → Exec (World D I) (Option (List Change × String))
  unfolding change_pages fetch_changes
  list_changes fuel token = change_pages (fetch_changes D I config J base) fuel token []
