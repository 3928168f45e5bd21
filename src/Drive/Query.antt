-- ===== src/Drive/Query.antt =====
-- `query_literal` of crates/gdrive-sync/src/drive_client.rs: a text inside the quotes of a search query.
pub mod RoundTrip
mod Tests
use Prim.Native.Char.{code}
use text.Mathlib.TextLemmas.{append_assoc, cons-append, nil-append}
use gd_client.Prelude.{◌==◌, Option, String, [], if◌then◌else◌, none, some, ℕ, ◌<>◌, ◌∷◌}

-- `str::replace` of one character
unfoldable pub replace_char : ℕ → String → String → String
replace_char c by String.[] = ""
replace_char c by (String.◌∷◌ x s) =
    let rest = replace_char c by s in if code x == c then by <> rest else String.◌∷◌ x rest

unfoldable pub query_literal : String → String
query_literal value = replace_char 39 "\\'" (replace_char 92 "\\\\" value)

-- How a search query is read, from behind an opening quote: a backslash stands before a character that
-- is meant itself, and a quote ends the literal. Gives the value, and the query behind the literal.
abbrev prepend : Option (String × String) → (String → String) → Option (String × String)
prepend none f = none
prepend (some (value, rest)) f = some (f value, rest)

unfoldable pub read_literal : String → Option (String × String)
read_literal String.[] = none
read_literal (String.◌∷◌ c String.[]) = if code c == 39 then some ("", "") else none
read_literal (String.◌∷◌ c (String.◌∷◌ d s)) =
    let escaped = read_literal s in
    let plain = read_literal (String.◌∷◌ d s) in
    if code c == 39
    then some ("", String.◌∷◌ d s)
    else if code c == 92
    then prepend escaped (λ v. String.◌∷◌ d v)
    else prepend plain (λ v. String.◌∷◌ c v)
