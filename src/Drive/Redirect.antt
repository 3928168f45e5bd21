-- ===== src/Drive/Redirect.antt =====
-- How `wait_for_redirect_code` of crates/gdrive-sync/src/auth.rs finds the authorization code in the
-- request that the browser is redirected to. A line ends at a line feed; a carriage return before it is
-- white space, which separates the words.
pub mod Requests
mod Tests
use Prim.Native.Char.{Char, code}
use gd_client.Prelude.{
  ℕ, ◌≤◌, leb, String, Bool, true, false, ◌==◌, ◌||◌, ◌&&◌, Option, none, some, List, [], ◌∷◌,
  Result, ok, err, if◌then◌else◌,
}
use gd_client.Common.Errors.{SyncError, oauth}

-- `char::is_whitespace`
abbrev pub is_whitespace : ℕ → Bool
is_whitespace c =
    (leb 9 c && leb c 13)
    || (c == 32)
    || (c == 133)
    || (c == 160)
    || (c == 5760)
    || (leb 8192 c && leb c 8202)
    || (c == 8232)
    || (c == 8233)
    || (c == 8239)
    || (c == 8287)
    || (c == 12288)

abbrev pub is_newline : ℕ → Bool
is_newline c = c == 10

abbrev pub is_question_mark : ℕ → Bool
is_question_mark c = c == 63

abbrev pub is_ampersand : ℕ → Bool
is_ampersand c = c == 38

-- What stands before the first such character, and behind it.
unfoldable pub before : (ℕ → Bool) → String → String
before stop String.[] = ""
before stop (String.◌∷◌ c s) =
    let rest = before stop s in if stop (code c) then "" else String.◌∷◌ c rest

unfoldable pub behind : (ℕ → Bool) → String → Option String
behind stop String.[] = none
behind stop (String.◌∷◌ c s) = let rest = behind stop s in if stop (code c) then some s else rest

unfoldable pub skip_whitespace : String → String
skip_whitespace String.[] = ""
skip_whitespace (String.◌∷◌ c s) =
    let rest = skip_whitespace s in if is_whitespace (code c) then rest else String.◌∷◌ c s

abbrev first_word : String → Option String
first_word String.[] = none
first_word (String.◌∷◌ c s) = some (before is_whitespace (String.◌∷◌ c s))

abbrev pub word_in : Option String → Option String
word_in none = none
word_in (some rest) = first_word (skip_whitespace rest)

-- `split_whitespace().nth(1)`
unfoldable pub second_word : String → Option String
second_word line = word_in (behind is_whitespace (skip_whitespace line))

abbrev pub extend : Char → List String → List String
extend c [] = String.◌∷◌ c String.[] ∷ []
extend c (f ∷ fs) = String.◌∷◌ c f ∷ fs

-- `split('&')`
unfoldable pub split_ampersand : String → List String
split_ampersand String.[] = "" ∷ []
split_ampersand (String.◌∷◌ c s) =
    let rest = split_ampersand s in if is_ampersand (code c) then "" ∷ rest else extend c rest

-- `str::strip_prefix`
unfoldable pub strip_text : String → String → Option String
strip_text String.[] s = some s
strip_text (String.◌∷◌ p prefix) String.[] = none
strip_text (String.◌∷◌ p prefix) (String.◌∷◌ c s) =
    let rest = strip_text prefix s in if code c == code p then rest else none

abbrev or_next : Option String → Option String → Option String
or_next none next = next
or_next (some value) next = some value

-- `find_map`
abbrev pub code_among : List String → Option String
code_among [] = none
code_among (kv ∷ kvs) = or_next (strip_text "code=" kv) (code_among kvs)

abbrev query_code : Option String → Option String
query_code none = none
query_code (some query) = code_among (split_ampersand query)

abbrev path_code : Option String → Option String
path_code none = none
path_code (some path) = query_code (behind is_question_mark path)

abbrev pub or_missing : Option String → Result SyncError String
or_missing none = err (oauth "redirect did not contain an authorization code")
or_missing (some found) = ok found

unfoldable pub redirect_code : String → Result SyncError String
redirect_code request = or_missing (path_code (second_word (before is_newline request)))
