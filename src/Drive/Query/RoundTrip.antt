-- ===== src/Drive/Query/RoundTrip.antt =====
-- A literal of drive_client.rs is read back as its value, whatever the value holds.
use Prim.Native.Char.{Char, code}
use text.Mathlib.TextEquality.{Char-path}
use text.Mathlib.TextLemmas.{cons-append, nil-append}
use gd_client.Prelude.{
  ◌==◌, Bool-cases, String, arith, false, inl, inr, refl, some, ◌<>◌, ◌≡◌, ap, true, ℕ, ◌∙◌, subst,
  sym,
}
use gd_client.Drive.Query.{query_literal, read_literal, prepend, replace_char}

abbrev backslash_char : Char
backslash_char = "\\"

abbrev quote_char : Char
quote_char = "'"

two-append :
    (c d : Char) (r : String)
    → String.◌∷◌ c (String.◌∷◌ d String.[]) <> r ≡ String.◌∷◌ c (String.◌∷◌ d r)
two-append c d r =
    cons-append c (String.◌∷◌ d String.[]) r
    ∙ ap (λ t. String.◌∷◌ c t) (cons-append d String.[] r ∙ ap (λ t. String.◌∷◌ d t) (nil-append r))

replace_char-hit :
    (c : ℕ) (by : String) (x : Char) (s : String)
    → (code x == c) ≡ true
    → replace_char c by (String.◌∷◌ x s) ≡ by <> replace_char c by s
unfolding replace_char
replace_char-hit c by x s h = ground arith

replace_char-miss :
    (c : ℕ) (by : String) (x : Char) (s : String)
    → (code x == c) ≡ false
    → replace_char c by (String.◌∷◌ x s) ≡ String.◌∷◌ x (replace_char c by s)
unfolding replace_char
replace_char-miss c by x s h = ground arith

abbrev pass : String → String
pass s = replace_char 39 "\\'" s

pass-backslash :
    (r : String) → pass (String.◌∷◌ backslash_char r) ≡ String.◌∷◌ backslash_char (pass r)
pass-backslash r = replace_char-miss 39 "\\'" backslash_char r refl

abbrev escape_two : String → String
escape_two s = pass (replace_char 92 "\\\\" s)

escape_two-backslash :
    (c : Char) (s : String)
    → (code c == 92) ≡ true
    → escape_two (String.◌∷◌ c s)
      ≡ String.◌∷◌ backslash_char (String.◌∷◌ backslash_char (escape_two s))
escape_two-backslash c s e =
    ap pass (
      replace_char-hit 92 "\\\\" c s e
      ∙ two-append backslash_char backslash_char (replace_char 92 "\\\\" s))
    ∙ pass-backslash _
    ∙ ap (λ t. String.◌∷◌ backslash_char t) (pass-backslash _)

escape_two-quote :
    (c : Char) (s : String)
    → (code c == 92) ≡ false
    → (code c == 39) ≡ true
    → escape_two (String.◌∷◌ c s) ≡ String.◌∷◌ backslash_char (String.◌∷◌ quote_char (escape_two s))
escape_two-quote c s e f =
    ap pass (replace_char-miss 92 "\\\\" c s e)
    ∙ replace_char-hit 39 "\\'" c _ f
    ∙ two-append backslash_char quote_char (escape_two s)

escape_two-plain :
    (c : Char) (s : String)
    → (code c == 92) ≡ false
    → (code c == 39) ≡ false
    → escape_two (String.◌∷◌ c s) ≡ String.◌∷◌ c (escape_two s)
escape_two-plain c s e f =
    ap pass (replace_char-miss 92 "\\\\" c s e) ∙ replace_char-miss 39 "\\'" c _ f

read_literal-escaped :
    (d : Char) (t : String)
    → read_literal (String.◌∷◌ backslash_char (String.◌∷◌ d t))
      ≡ prepend (read_literal t) (λ v. String.◌∷◌ d v)
unfolding read_literal
read_literal-escaped d t = refl

read_literal-quote : (t : String) → read_literal (String.◌∷◌ quote_char t) ≡ some ("", t)
unfolding read_literal
read_literal-quote String.[] = refl
read_literal-quote (String.◌∷◌ d t) = refl

read_literal-plain :
    (c : Char) (t : String)
    → (code c == 39) ≡ false
    → (code c == 92) ≡ false
    → read_literal (String.◌∷◌ c t) ≡ prepend (read_literal t) (λ v. String.◌∷◌ c v)
unfolding read_literal
read_literal-plain c String.[] h k = ground arith
read_literal-plain c (String.◌∷◌ d t) h k = ground arith

-- `read_literal` reads what stands for `v`, and then whatever follows.
abbrev Reads : String → String → String → Type 0
Reads written v rest = read_literal (written <> ("'" <> rest)) ≡ some (v, rest)

closing : (rest : String) → "'" <> rest ≡ String.◌∷◌ quote_char rest
closing rest =
    cons-append quote_char String.[] rest ∙ ap (λ t. String.◌∷◌ quote_char t) (nil-append rest)

Reads-pair :
    (d : Char) (written v rest : String)
    → Reads written v rest
    → Reads (String.◌∷◌ backslash_char (String.◌∷◌ d written)) (String.◌∷◌ d v) rest
Reads-pair d written v rest ih =
    ap read_literal (
      cons-append backslash_char (String.◌∷◌ d written) ("'" <> rest)
      ∙ ap (λ t. String.◌∷◌ backslash_char t) (cons-append d written ("'" <> rest)))
    ∙ read_literal-escaped d (written <> ("'" <> rest))
    ∙ ap (λ o. prepend o (λ w. String.◌∷◌ d w)) ih

Reads-plain :
    (c : Char) (written v rest : String)
    → (code c == 92) ≡ false
    → (code c == 39) ≡ false
    → Reads written v rest
    → Reads (String.◌∷◌ c written) (String.◌∷◌ c v) rest
Reads-plain c written v rest e f ih =
    ap read_literal (cons-append c written ("'" <> rest))
    ∙ read_literal-plain c (written <> ("'" <> rest)) f e
    ∙ ap (λ o. prepend o (λ w. String.◌∷◌ c w)) ih

code_eq : (c d : Char) → (code c == code d) ≡ true → c ≡ d
code_eq c d h = Char-path c d (ground arith)

escape_two-nil : escape_two String.[] ≡ String.[]
unfolding replace_char
escape_two-nil = refl

escape_two-Reads : (v rest : String) → Reads (escape_two v) v rest
escape_two-Reads String.[] rest =
    ap (λ w. read_literal (w <> ("'" <> rest))) escape_two-nil
    ∙ ap read_literal (nil-append ("'" <> rest) ∙ closing rest)
    ∙ read_literal-quote rest
escape_two-Reads (String.◌∷◌ c s) rest = elim (Bool-cases (code c == 92)) [
  | inl e ↦
      subst (λ w. Reads w (String.◌∷◌ c s) rest) (sym (escape_two-backslash c s e))
        (subst
          (λ d.
            Reads (String.◌∷◌ backslash_char (String.◌∷◌ backslash_char (escape_two s)))
              (String.◌∷◌ d s) rest)
          (sym (code_eq c backslash_char e))
          (Reads-pair backslash_char (escape_two s) s rest (escape_two-Reads s rest)))
  | inr e ↦ elim (Bool-cases (code c == 39)) [
    | inl f ↦
        subst (λ w. Reads w (String.◌∷◌ c s) rest) (sym (escape_two-quote c s e f))
          (subst
            (λ d.
              Reads (String.◌∷◌ backslash_char (String.◌∷◌ quote_char (escape_two s)))
                (String.◌∷◌ d s) rest)
            (sym (code_eq c quote_char f))
            (Reads-pair quote_char (escape_two s) s rest (escape_two-Reads s rest)))
    | inr f ↦
        subst (λ w. Reads w (String.◌∷◌ c s) rest) (sym (escape_two-plain c s e f))
          (Reads-plain c (escape_two s) s rest e f (escape_two-Reads s rest))
  ]
]

-- Behind an opening quote, the literal of a value and a closing quote are read as that value, with
-- the rest of the query untouched.
pub read_literal-query_literal :
    (v rest : String) → read_literal (query_literal v <> ("'" <> rest)) ≡ some (v, rest)
unfolding query_literal
read_literal-query_literal v rest = escape_two-Reads v rest
