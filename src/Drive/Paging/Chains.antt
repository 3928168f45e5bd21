-- ===== src/Drive/Paging/Chains.antt =====
-- The page loop of drive_client.rs against the pages that a server gives out one after another.
use gd_client.Prelude.{
  List, Option, Result, String, arith, err, none, ok, some, suc, zero, ℕ, ◌++◌, ◌≡◌, ◌≤◌, [],
}
use gd_client.Effects.{Exec}
use gd_client.Common.Errors.{SyncError}
use mathlib.Core.List.{append_assoc}
use gd_client.Drive.Paging.{Page, pages}

module _ {S T : Type 0} (fetch : Option String → Exec S (Page T)) where
  -- From a state and a token, so many pages follow, and together hold these files; the last one has no
  -- token. Or a page fails.
  pub data Chain : ℕ → Option String → S → Result SyncError (List T) → S → Type 0 where
    last :
        {token : Option String} {s s' : S} (files : List T)
        → fetch token s ≡ (ok (record { files = files; next_page_token = none }), s')
        → Chain 1 token s (ok files) s'
    more :
        {n : ℕ} {token : Option String} {s s₁ s' : S} {rest : List T} (files : List T)
        (next : String)
        → fetch token s ≡ (ok (record { files = files; next_page_token = some next }), s₁)
        → Chain n (some next) s₁ (ok rest) s'
        → Chain (suc n) token s (ok (files ++ rest)) s'
    broken :
        {token : Option String} {s s' : S} (e : SyncError)
        → fetch token s ≡ (err e, s')
        → Chain 1 token s (err e) s'
    broken_later :
        {n : ℕ} {token : Option String} {s s₁ s' : S} {e : SyncError} (files : List T)
        (next : String)
        → fetch token s ≡ (ok (record { files = files; next_page_token = some next }), s₁)
        → Chain n (some next) s₁ (err e) s'
        → Chain (suc n) token s (err e) s'

  abbrev pub after_files : List T → Result SyncError (List T) → Result SyncError (Option (List T))
  after_files files (ok rest) = ok (some (files ++ rest))
  after_files files (err e) = err e

  pages-Chain_from :
      (fuel : ℕ) (files : List T) {n : ℕ} {token : Option String} {s s' : S}
      {r : Result SyncError (List T)}
      → n ≤ fuel
      → Chain n token s r s'
      → pages fetch fuel token files s ≡ (after_files files r, s')
  unfolding pages
  pages-Chain_from zero files h (last page e) = absurd (omega arith)
  pages-Chain_from zero files h (more page next e c) = absurd (omega arith)
  pages-Chain_from zero files h (broken x e) = absurd (omega arith)
  pages-Chain_from zero files h (broken_later page next e c) = absurd (omega arith)
  pages-Chain_from (suc fuel) files h (last page e) = rw e
  pages-Chain_from (suc fuel) files h (more {rest = rest} page next e c) =
      rw (e, ← append_assoc files page rest) (pages-Chain_from fuel (files ++ page) (omega arith) c)
  pages-Chain_from (suc fuel) files h (broken x e) = rw e
  pages-Chain_from (suc fuel) files h (broken_later page next e c) =
      rw e (pages-Chain_from fuel (files ++ page) (omega arith) c)

  -- If the server gives out `n` pages one after another, the loop with fuel for `n` or more returns the
  -- files of all of them in order; if one of the pages fails, the loop fails with its error, and the
  -- files of the pages before it are not returned.
  pub pages-Chain :
      {n : ℕ} {token : Option String} {s s' : S} {r : Result SyncError (List T)} (fuel : ℕ)
      → n ≤ fuel
      → Chain n token s r s'
      → pages fetch fuel token [] s ≡ (after_files [] r, s')
  pages-Chain fuel h c = pages-Chain_from fuel [] h c
