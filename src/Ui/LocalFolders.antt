-- ===== src/Ui/LocalFolders.antt =====
-- `create_local_folder` of crates/gdrive-ui/src/cxxqt_object.rs.
use Prim.Native.Char.{Char, code}
use Prim.Native.String.append
use text.Mathlib.TextEquality.{starts_with_iff}
use text.Mathlib.TextLemmas.{append-nil, append_assoc}
use gd_client.Prelude.{
  ℕ, String, Bool, true, false, ◌||◌, ◌<>◌, ◌==◌, [], ◌∷◌, ◌++◌, Result, ok, err, str_eq, eq_iff,
  Bool-cases, inl, inr, ◌≡◌, ◌≢◌, ◌⊎◌, ◌∙◌, ap, sym, subst, refl, arith, if◌then◌else◌, if-split,
}
use gd_client.Common.Errors.{IoError}
use gd_client.Common.Paths.{PathBuf, components, join, display, split_components, is_absolute}
use gd_client.Drive.Auth.{is_empty}
use gd_client.Ui.Window.{Window, set}

-- `name.contains(…)` of a character
unfoldable pub contains_code : ℕ → String → Bool
contains_code n String.[] = false
contains_code n (String.◌∷◌ c s) = code c == n || contains_code n s

unfoldable pub is_refused : String → Bool
unfolding contains_code
is_refused name =
    is_empty name
    || str_eq name "."
    || str_eq name ".."
    || contains_code 47 name
    || contains_code 92 name

abbrev pub refusal : String
refusal = "folder name must be non-empty and cannot be '.'/'..' or contain path separators"

abbrev pub say : String → Window → Window
say message = set (λ m. record m { status_message = message })

module _ {Disk : Type 0} (create_dir : PathBuf → Disk → Result IoError Unit × Disk) where
  abbrev pub made : PathBuf → Window → Result IoError Unit × Disk → Bool × Window × Disk
  made path w (ok _, d) = (true, w, d)
  made path w (err e, d) =
      (false, say ("could not create " <> (display path <> (": " <> e.message))) w, d)

  -- The answer, the window and the disk.
  unfoldable pub create_local_folder : String → String → Window → Disk → Bool × Window × Disk
  unfolding is_refused components join display set
  create_local_folder parent_path name w d =
      if is_refused name
      then (false, say refusal w, d)
      else made (join (components parent_path) name) w
          (create_dir (join (components parent_path) name) d)

one-append : (c : Char) (s : String) → String.◌∷◌ c String.[] <> s ≡ String.◌∷◌ c s
one-append c s = append.cons c String.[] s ∙ ap (λ t. String.◌∷◌ c t) (append.nil s)

-- A text without a slash is one component.
split_components-one :
    (taken s : String)
    → contains_code 47 s ≡ false
    → split_components taken s ≡ split_components (taken <> s) String.[]
unfolding split_components contains_code
split_components-one taken String.[] h =
    ap (λ t. split_components t String.[]) (sym (append-nil taken))
split_components-one taken (String.◌∷◌ c s) h = elim (Bool-cases (code c == 47)) [
  | inl slash ↦ ground arith
  | inr other ↦
      rw (other, split_components)
        (split_components-one (taken <> String.◌∷◌ c String.[]) s (ground arith)
          ∙ ap (λ t. split_components t String.[])
              (append_assoc taken (String.◌∷◌ c String.[]) s
                ∙ ap (λ t. taken <> t) (one-append c s)))
]

is_absolute-contains : (s : String) → is_absolute s ≡ true → contains_code 47 s ≡ true
unfolding contains_code
is_absolute-contains s h =
    let (u, e) = (starts_with_iff s "/").0 h in
    subst (λ t. contains_code 47 t ≡ true) (sym (one-append "/" u) ∙ e) refl

accepted-one : (name : String) → is_refused name ≡ false → split_components "" name ≡ name ∷ []
unfolding is_refused split_components
accepted-one name h =
    split_components-one "" name (ground arith)
    ∙ ap (λ t. split_components t String.[]) (append.nil name)
    ∙ ground arith

-- An accepted name joined to a path is one component behind it.
join-accepted :
    (p : PathBuf) (name : String) → is_refused name ≡ false → join p name ≡ p ++ (name ∷ [])
unfolding join is_refused
join-accepted p name h = elim (Bool-cases (is_absolute name)) [
  | inl absolute ↦ ground (arith, is_absolute-contains name absolute)
  | inr relative ↦ rw (relative, join, accepted-one name h) refl
]

module _ {Disk : Type 0} (create_dir : PathBuf → Disk → Result IoError Unit × Disk) where
  -- The answer is whether the directory was made.
  abbrev pub Answered : Bool → Disk → Result IoError Unit × Disk → Type 0
  Answered answer e (ok _, d) = (answer ≡ true) × (e ≡ d)
  Answered answer e (err _, d) = (answer ≡ false) × (e ≡ d)

  made-Answered :
      (path : PathBuf) (w : Window) (r : Result IoError Unit × Disk)
      → Answered (made create_dir path w r).0 (made create_dir path w r).2 r
  made-Answered path w (ok _, d) = (refl, refl)
  made-Answered path w (err e, d) = (refl, refl)

  -- A refused name changes nothing but the message; any other makes the one directory behind the parent,
  -- and the answer is whether that succeeded, with a message if it did not.
  abbrev pub Made : String → String → Window → Disk → Bool × Window × Disk → Type 0
  Made parent_path name w d (answer, v, e) =
      ((is_refused name ≡ true) × (answer ≡ false) × (v ≡ say refusal w) × (e ≡ d))
      ⊎ ((name ≢ "..")
          × (contains_code 47 name ≡ false)
          × ((answer, v, e)
              ≡ made create_dir (components parent_path ++ (name ∷ [])) w
                  (create_dir (components parent_path ++ (name ∷ [])) d))
          × Answered answer e (create_dir (components parent_path ++ (name ∷ [])) d))

  -- Whatever the texts are: a folder is created in the parent itself, under a name that is neither ".." nor
  -- holds a slash, and the answer says whether it was; or the name is refused, and nothing changes but the
  -- message that is shown.
  pub create_local_folder-Made :
      (parent_path name : String) (w : Window) (d : Disk)
      → Made parent_path name w d (create_local_folder create_dir parent_path name w d)
  unfolding create_local_folder is_refused
  create_local_folder-Made parent_path name w d =
      if-split (λ (r : Bool × Window × Disk). Made parent_path name w d r) (is_refused name)
        (false, say refusal w, d) (at (join (components parent_path) name))
        (λ refused. inl (refused, refl, refl, refl))
        (λ accepted. inr (
          ground (arith, eq_iff name ".."),
          ground arith,
          ap at (join-accepted (components parent_path) name accepted),
          subst
              (λ (r : Bool × Window × Disk).
                Answered r.0 r.2 (create_dir (components parent_path ++ (name ∷ [])) d))
              (sym (ap at (join-accepted (components parent_path) name accepted)))
              (made-Answered (components parent_path ++ (name ∷ [])) w
                (create_dir (components parent_path ++ (name ∷ [])) d)),
        ))
    where
      at : PathBuf → Bool × Window × Disk
      at path = made create_dir path w (create_dir path d)
