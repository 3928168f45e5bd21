-- ===== src/Common/Config/RoundTrip.antt =====
-- What a saved configuration is read back as (config.rs).
use gd_client.Prelude.{ok, ◌≡◌, Result, String, List, [], ◌∷◌, map, arith, err, refl}
use gd_client.Common.Paths.{PathBuf, parent}
use gd_client.Common.Errors.{CommonError, common_io, toml_ser}
use gd_client.Prelude.{and_then}
use gd_client.Common.Config.{
  AppConfig, SyncFolder, ConfigStore, of_folder, of_folders, to_folder, IsLawful, load_from,
  of_document, save_to, to_document, create_parent,
}

module _ (S : ConfigStore) where
  and_then-eq-ok :
      {E F A B : Type 0} (f : E → F) (m : Result E A × S.Disk)
      (k : A → S.Disk → Result F B × S.Disk) {b : B} {d' : S.Disk}
      → and_then f m k ≡ (ok b, d')
      → (a : A) × (d : S.Disk) × (m ≡ (ok a, d)) × (k a d ≡ (ok b, d'))
  and_then-eq-ok f (ok a, d) k h = (a, d, refl, h)
  and_then-eq-ok f (err e, d) k h = ground arith

  write-eq-ok :
      (d d' : S.Disk) (path : PathBuf) (text : Result String S.Text)
      → (elim text as (λ _. Result CommonError Unit × S.Disk) [
        | err e ↦ (err (toml_ser e), d)
        | ok t ↦ and_then common_io (S.write d path t) λ _ d. (ok tt, d)
      ])
        ≡ (ok tt, d')
      → (t : S.Text) × (text ≡ ok t) × (S.write d path t ≡ (ok tt, d'))
  write-eq-ok d d' path (err e) h = ground arith
  write-eq-ok d d' path (ok t) h =
      let (u, d1, written, e) = and_then-eq-ok common_io (S.write d path t) (λ _ d. (ok tt, d)) h in
      (t, refl, ground arith)

-- Nothing of a folder is lost in its table.
of_folder-to_folder : (f : SyncFolder) → of_folder (to_folder f) ≡ ok f
unfolding of_folder to_folder
of_folder-to_folder f = refl

of_folders-to_folder : (fs : List SyncFolder) → of_folders (map to_folder fs) ≡ ok fs
unfolding of_folders
of_folders-to_folder [] = refl
of_folders-to_folder (f ∷ fs) = ground (arith, of_folder-to_folder f, of_folders-to_folder fs)

of_document-to_document : (c : AppConfig) → of_document (to_document c) ≡ ok c
unfolding of_document to_document
of_document-to_document c = ground (arith, of_folders-to_folder c.sync_folders)

-- Over a lawful store, after a save that succeeded, a load from the same path gives the configuration
-- that was saved, with every field of every folder.
pub load_from-save_to :
    (S : ConfigStore) (L : IsLawful S) (c : AppConfig) (d d' : S.Disk) (path : PathBuf)
    → save_to S c d path ≡ (ok tt, d')
    → load_from S d' path ≡ ok c
unfolding save_to load_from
load_from-save_to S L c d d' path h =
    let (u, d1, made, rest) = and_then-eq-ok S common_io (create_parent S d (parent path)) _ h in
    let (text, printed, written) = write-eq-ok S d1 d' path _ rest in
    ground (
      arith,
      L.exists-write d1 d' path text written,
      L.read-write d1 d' path text written,
      L.parse-print (to_document c) text printed,
      of_document-to_document c,
    )
