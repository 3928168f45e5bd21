-- ===== src/Common/Paths.antt =====
-- `std::path::PathBuf` as its components, the root being the component "/". A text is a path by its
-- components: repeated separators and all but a leading "." are skipped, ".." is kept, as
-- `Path::components` does.
use gd_client.Prelude.{
  Bool, List, Option, String, [], if◌then◌else◌, none, some, str_eq, ℕ, ◌++◌, ◌<>◌, ◌==◌, ◌||◌, ◌∷◌,
}
use Prim.Native.Char.{code}
use text.Mathlib.Text.{starts_with}

abbrev pub PathBuf : Type 0
PathBuf = List String

abbrev slash : ℕ
slash = 47

abbrev keep_component : String → List String → List String
keep_component c rest = if str_eq c "" || str_eq c "." then rest else c ∷ rest

-- `taken` holds the component that is being read.
unfoldable pub split_components : String → String → List String
split_components taken String.[] = keep_component taken []
split_components taken (String.◌∷◌ c s) =
    let after = split_components "" s in
    let within = split_components (taken <> String.◌∷◌ c String.[]) s in
    if code c == slash then keep_component taken after else within

abbrev pub is_absolute : String → Bool
is_absolute s = starts_with s "/"

unfoldable pub components : String → PathBuf
unfolding split_components
components s =
    if is_absolute s
    then "/" ∷ split_components "" s
    else if str_eq s "." || starts_with s "./"
    then "." ∷ split_components "" s
    else split_components "" s

-- `Path::join`: an absolute path replaces the one that it is joined to.
unfoldable pub join : PathBuf → String → PathBuf
unfolding components
join p s = if is_absolute s then components s else p ++ split_components "" s

-- `Path::strip_prefix`
unfoldable pub strip_prefix : PathBuf → PathBuf → Option PathBuf
strip_prefix p [] = some p
strip_prefix [] (b ∷ base) = none
strip_prefix (c ∷ p) (b ∷ base) =
    let rest = strip_prefix p base in if str_eq c b then rest else none

-- `Path::parent`, of a path that is not the root
unfoldable pub parent : PathBuf → Option PathBuf
parent [] = none
parent (c ∷ []) = some []
parent (c ∷ d ∷ p) = elim (parent (d ∷ p)) [ none ↦ some (c ∷ []) | some q ↦ some (c ∷ q) ]

-- `Path::file_name`
unfoldable pub file_name : PathBuf → Option String
file_name [] = none
file_name (c ∷ []) = if str_eq c ".." then none else some c
file_name (c ∷ d ∷ p) = file_name (d ∷ p)

-- `Path::display` and `to_string_lossy`: no separator follows the root.
unfoldable pub display : PathBuf → String
display [] = ""
display (c ∷ []) = c
display (c ∷ d ∷ p) =
    let rest = display (d ∷ p) in if str_eq c "/" then c <> rest else c <> ("/" <> rest)

-- `str::replace('\\', "/")`
unfoldable pub forward_slashes : String → String
forward_slashes String.[] = ""
forward_slashes (String.◌∷◌ c s) =
    let rest = forward_slashes s in if code c == 92 then "/" <> rest else String.◌∷◌ c rest
