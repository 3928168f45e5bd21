-- ===== src/Drive/Auth/Cache.antt =====
-- `save_token` of auth.rs: the cached token is replaced whole or not at all.
use gd_client.Prelude.{Result, String, err, ok, some, ◌≡◌, ◌≢◌, refl, subst, ◌∙◌, Option, ◌<>◌}
use gd_client.Common.Paths.{PathBuf, join}
use gd_client.Common.Errors.{IoError, SyncError, io, oauth}
use gd_client.Drive.Auth.{
  TokenDisk, save_to_temporary, after, StoredToken, parent_or_here, save_token,
}

-- What the file system promises. An operation on one file leaves the others, making a folder leaves
-- every file, and a rename that fails leaves its target.
pub record IsLawful (D : TokenDisk) : Type 0 where
  pub create_dir_all :
      (q p : PathBuf) (d : D.Disk) → D.contents (D.create_dir_all p d).1 q ≡ D.contents d q
  pub create_new :
      (q p : PathBuf) (d : D.Disk) → q ≢ p → D.contents (D.create_new p d).1 q ≡ D.contents d q
  pub write_all :
      (q p : PathBuf) (text : String) (d : D.Disk)
      → q ≢ p
      → D.contents (D.write_all p text d).1 q ≡ D.contents d q
  pub sync_all : (q p : PathBuf) (d : D.Disk) → D.contents (D.sync_all p d).1 q ≡ D.contents d q
  pub remove_file :
      (q p : PathBuf) (d : D.Disk) → q ≢ p → D.contents (D.remove_file p d).1 q ≡ D.contents d q
  pub failed_rename :
      (p q : PathBuf) (d d' : D.Disk) (e : IoError)
      → D.rename p q d ≡ (err e, d')
      → D.contents d' q ≡ D.contents d q
  pub written :
      (p : PathBuf) (text : String) (d d' : D.Disk)
      → D.write_all p text d ≡ (ok tt, d')
      → D.contents d' p ≡ some text
  pub renamed :
      (p q : PathBuf) (d d' : D.Disk)
      → D.rename p q d ≡ (ok tt, d')
      → D.contents d' q ≡ D.contents d p

-- The file at `path` is the old one after an error, and `text` after success.
abbrev pub Replaced :
    (D : TokenDisk) → PathBuf → String → D.Disk → Result SyncError Unit × D.Disk → Type 0
Replaced D path text d (ok _, d') = D.contents d' path ≡ some text
Replaced D path text d (err e, d') = D.contents d' path ≡ D.contents d path

module _ (D : TokenDisk) (L : IsLawful D) (temporary path : PathBuf) (text : String)
    (apart : path ≢ temporary) where
  -- What an operation leaves at `q`, read off the pair that it returned.
  at_result :
      (q : PathBuf) (v : Option String) {m r : Result IoError Unit × D.Disk}
      → m ≡ r
      → D.contents m.1 q ≡ v
      → D.contents r.1 q ≡ v
  at_result q v e h = subst (λ (s : Result IoError Unit × D.Disk). D.contents s.1 q ≡ v) e h

  abbrev finish_save : Result IoError Unit × D.Disk → Result SyncError Unit × D.Disk
  finish_save r = after D r (λ e d. (err (io e), (D.remove_file temporary d).1)) (λ d. (ok tt, d))

  failed-Replaced :
      (d d' : D.Disk) (e : IoError)
      → D.contents d' path ≡ D.contents d path
      → Replaced D path text d (finish_save (err e, d'))
  failed-Replaced d d' e h = L.remove_file path temporary d' apart ∙ h

  rename-Replaced :
      (d d₁ : D.Disk) (r : Result IoError Unit × D.Disk)
      → D.contents d₁ path ≡ D.contents d path
      → D.contents d₁ temporary ≡ some text
      → D.rename temporary path d₁ ≡ r
      → Replaced D path text d (finish_save r)
  rename-Replaced d d₁ (ok tt, d') kept full e = L.renamed temporary path d₁ d' e ∙ full
  rename-Replaced d d₁ (err x, d') kept full e =
      failed-Replaced d d' x (L.failed_rename temporary path d₁ d' x e ∙ kept)

  sync-Replaced :
      (d d₁ : D.Disk) (r : Result IoError Unit × D.Disk)
      → D.contents d₁ path ≡ D.contents d path
      → D.contents d₁ temporary ≡ some text
      → D.sync_all temporary d₁ ≡ r
      → Replaced D path text d
          (finish_save (after D r (λ e d'. (err e, d')) (D.rename temporary path)))
  sync-Replaced d d₁ (ok tt, d') kept full e =
      rename-Replaced d d' (D.rename temporary path d')
        (at_result path (D.contents d path) e (L.sync_all path temporary d₁ ∙ kept))
        (at_result temporary (some text) e (L.sync_all temporary temporary d₁ ∙ full)) refl
  sync-Replaced d d₁ (err x, d') kept full e =
      failed-Replaced d d' x
        (at_result path (D.contents d path) e (L.sync_all path temporary d₁ ∙ kept))

  write-Replaced :
      (d : D.Disk) (r : Result IoError Unit × D.Disk)
      → D.write_all temporary text d ≡ r
      → Replaced D path text d (
          finish_save (
            after D
              (after D r (λ e d'. (err e, d')) (D.sync_all temporary))
              (λ e d'. (err e, d'))
              (D.rename temporary path)))
  write-Replaced d (ok tt, d') e =
      sync-Replaced d d' (D.sync_all temporary d')
        (at_result path (D.contents d path) e (L.write_all path temporary text d apart))
        (L.written temporary text d d' e) refl
  write-Replaced d (err x, d') e =
      failed-Replaced d d' x
        (at_result path (D.contents d path) e (L.write_all path temporary text d apart))

  save_to_temporary-Replaced :
      (d : D.Disk) → Replaced D path text d (save_to_temporary D temporary path text d)
  unfolding save_to_temporary
  save_to_temporary-Replaced d = write-Replaced d (D.write_all temporary text d) refl

  Replaced-rebase :
      (d d₁ : D.Disk) (r : Result SyncError Unit × D.Disk)
      → D.contents d₁ path ≡ D.contents d path
      → Replaced D path text d₁ r
      → Replaced D path text d r
  Replaced-rebase d d₁ (ok _, d') kept h = h
  Replaced-rebase d d₁ (err e, d') kept h = h ∙ kept

  create-Replaced :
      (d d₁ : D.Disk) (r : Result IoError Unit × D.Disk)
      → D.contents d₁ path ≡ D.contents d path
      → D.create_new temporary d₁ ≡ r
      → Replaced D path text d
          (after D r (λ e d'. (err (io e), d')) (save_to_temporary D temporary path text))
  create-Replaced d d₁ (ok tt, d') kept e =
      Replaced-rebase d d' (save_to_temporary D temporary path text d')
        (at_result path (D.contents d path) e (L.create_new path temporary d₁ apart ∙ kept))
        (save_to_temporary-Replaced d')
  create-Replaced d d₁ (err x, d') kept e =
      at_result path (D.contents d path) e (L.create_new path temporary d₁ apart ∙ kept)

-- The file at `path` is the old one after an error, and after success a text of the new token.
abbrev pub Saved :
    (D : TokenDisk) → PathBuf → StoredToken → D.Disk → Result SyncError Unit × D.Disk → Type 0
Saved D path token d (ok _, d') =
    (text : String) × (D.to_string_pretty token ≡ ok text) × (D.contents d' path ≡ some text)
Saved D path token d (err e, d') = D.contents d' path ≡ D.contents d path

module _ (D : TokenDisk) (L : IsLawful D) (name : String) (path : PathBuf)
    (token : StoredToken) where
  abbrev temporary : PathBuf
  temporary = join (parent_or_here path) name

  Saved-Replaced :
      (text : String) (d : D.Disk) (r : Result SyncError Unit × D.Disk)
      → D.to_string_pretty token ≡ ok text
      → Replaced D path text d r
      → Saved D path token d r
  Saved-Replaced text d (ok u, d') e h = (text, e, h)
  Saved-Replaced text d (err x, d') e h = h

  abbrev after_print : D.Disk → Result String String → Result SyncError Unit × D.Disk
  after_print d₁ printed = elim printed [
    | err e ↦ (err (oauth ("failed to serialize token: " <> e)), d₁)
    | ok text ↦
        after D (D.create_new temporary d₁) (λ e d. (err (io e), d))
          λ d. save_to_temporary D temporary path text d
  ]

  after_print-Saved :
      (d d₁ : D.Disk) (printed : Result String String)
      → path ≢ temporary
      → D.contents d₁ path ≡ D.contents d path
      → D.to_string_pretty token ≡ printed
      → Saved D path token d (after_print d₁ printed)
  after_print-Saved d d₁ (err e) apart kept p = kept
  after_print-Saved d d₁ (ok text) apart kept p =
      Saved-Replaced text d _ p
        (create-Replaced D L temporary path text apart d d₁ (D.create_new temporary d₁) kept refl)

  after_dir-Saved :
      (d : D.Disk) (r : Result IoError Unit × D.Disk)
      → path ≢ temporary
      → D.create_dir_all (parent_or_here path) d ≡ r
      → Saved D path token d
          (after D r (λ e d. (err (io e), d)) λ d₁. after_print d₁ (D.to_string_pretty token))
  after_dir-Saved d (ok tt, d') apart e =
      after_print-Saved d d' (D.to_string_pretty token) apart
        (subst (λ (s : Result IoError Unit × D.Disk). D.contents s.1 path ≡ D.contents d path) e
          (L.create_dir_all path (parent_or_here path) d))
        refl
  after_dir-Saved d (err x, d') apart e =
      subst (λ (s : Result IoError Unit × D.Disk). D.contents s.1 path ≡ D.contents d path) e
        (L.create_dir_all path (parent_or_here path) d)

  -- On a disk as above, saving a token replaces the cached one whole or not at all: after an error at any step the file
  -- is what it was, after success it is the new token's text, provided that the temporary file is
  -- another one.
  pub save_token-Saved :
      (d : D.Disk) → path ≢ temporary → Saved D path token d (save_token D name path token d)
  unfolding save_token
  save_token-Saved d apart = after_dir-Saved d (D.create_dir_all (parent_or_here path) d) apart refl
