-- ===== src/Drive/Redirect/Requests.antt =====
-- The request of a browser, and the code that auth.rs reads in it.
use Prim.Native.Char.{Char, code}
use text.Mathlib.TextLemmas.{cons-append, nil-append}
use gd_client.Prelude.{
  ℕ, arith, String, ◌<>◌, Bool, true, false, some, List, [], ◌∷◌, All, ◌≡◌, refl, ap, sym, ◌∙◌,
  ◌++◌, ok, none, ◌==◌,
}
use gd_client.Drive.Redirect.{
  is_whitespace, is_newline, is_question_mark, is_ampersand, before, behind, skip_whitespace,
  second_word, first_word, word_in, path_code, query_code, extend, split_ampersand, code_among,
  or_missing, redirect_code, strip_text, or_next,
}

-- No character of the text is such.
abbrev pub Without : (ℕ → Bool) → String → Type 0
Without stop String.[] = Unit
Without stop (String.◌∷◌ c s) = (stop (code c) ≡ false) × Without stop s

before-Without :
    (stop : ℕ → Bool) (a : String) (d : Char) (s : String)
    → Without stop a
    → stop (code d) ≡ true
    → before stop (a <> String.◌∷◌ d s) ≡ a
unfolding before
before-Without stop String.[] d s h e = rw (nil-append (String.◌∷◌ d s), before, e) refl
before-Without stop (String.◌∷◌ c a) d s (hc, h) e =
    rw (cons-append c a (String.◌∷◌ d s), before, hc)
      (ap (λ t. String.◌∷◌ c t) (before-Without stop a d s h e))

behind-Without :
    (stop : ℕ → Bool) (a : String) (d : Char) (s : String)
    → Without stop a
    → stop (code d) ≡ true
    → behind stop (a <> String.◌∷◌ d s) ≡ some s
unfolding behind
behind-Without stop String.[] d s h e = rw (nil-append (String.◌∷◌ d s), behind, e) refl
behind-Without stop (String.◌∷◌ c a) d s (hc, h) e =
    rw (cons-append c a (String.◌∷◌ d s), behind, hc) (behind-Without stop a d s h e)

split-Without : (a : String) → Without is_ampersand a → split_ampersand a ≡ a ∷ []
unfolding split_ampersand
split-Without String.[] h = refl
split-Without (String.◌∷◌ c a) (hc, h) =
    rw (split_ampersand, hc) (ap (extend c) (split-Without a h))

split-Without_cons :
    (a : String) (d : Char) (s : String)
    → Without is_ampersand a
    → is_ampersand (code d) ≡ true
    → split_ampersand (a <> String.◌∷◌ d s) ≡ a ∷ split_ampersand s
unfolding split_ampersand
split-Without_cons String.[] d s h e = rw (nil-append (String.◌∷◌ d s), split_ampersand, e) refl
split-Without_cons (String.◌∷◌ c a) d s (hc, h) e =
    rw (cons-append c a (String.◌∷◌ d s), split_ampersand, hc)
      (ap (extend c) (split-Without_cons a d s h e))

abbrev space_char : Char
space_char = " "

abbrev question_char : Char
question_char = "?"

abbrev ampersand_char : Char
ampersand_char = "&"

abbrev word_then : String → String → String
word_then word rest = word <> String.◌∷◌ space_char rest

abbrev pub join_fields : List String → String
join_fields [] = ""
join_fields (f ∷ []) = f
join_fields (f ∷ g ∷ fs) = f <> String.◌∷◌ ampersand_char (join_fields (g ∷ fs))

-- A request for a path and a query of these fields; `rest` is the version and the headers.
abbrev pub request_of : String → String → List String → String → String
request_of method path fields rest =
    word_then method (word_then (path <> String.◌∷◌ question_char (join_fields fields)) rest)

newline-whitespace : (n : ℕ) → is_whitespace n ≡ false → is_newline n ≡ false
newline-whitespace n h = ground arith

before-word_then :
    (word rest : String)
    → Without is_whitespace word
    → before is_newline (word_then word rest) ≡ word_then word (before is_newline rest)
unfolding before
before-word_then String.[] rest h =
    ap (before is_newline) (nil-append (String.◌∷◌ space_char rest)) ∙ sym (nil-append _)
before-word_then (String.◌∷◌ c word) rest (hc, h) =
    rw (cons-append c word (String.◌∷◌ space_char rest), before, newline-whitespace (code c) hc)
      (ap (λ t. String.◌∷◌ c t) (before-word_then word rest h) ∙ sym (cons-append c word _))

skip_whitespace-word :
    (c : Char) (s : String)
    → is_whitespace (code c) ≡ false
    → skip_whitespace (String.◌∷◌ c s) ≡ String.◌∷◌ c s
unfolding skip_whitespace
skip_whitespace-word c s h = rw (skip_whitespace, h) refl

word_in-word_then :
    (d : Char) (t r : String)
    → Without is_whitespace (String.◌∷◌ d t)
    → word_in (some (word_then (String.◌∷◌ d t) r)) ≡ some (String.◌∷◌ d t)
word_in-word_then d t r h =
    ap (λ s. word_in (some s)) (cons-append d t (String.◌∷◌ space_char r))
    ∙ ap first_word (skip_whitespace-word d (t <> String.◌∷◌ space_char r) h.0)
    ∙ ap (λ s. some (before is_whitespace s)) (sym (cons-append d t (String.◌∷◌ space_char r)))
    ∙ ap some (before-Without is_whitespace (String.◌∷◌ d t) space_char r h refl)

second_word-word_then :
    (c : Char) (m rest : String)
    → Without is_whitespace (String.◌∷◌ c m)
    → second_word (word_then (String.◌∷◌ c m) rest) ≡ word_in (some rest)
unfolding second_word
second_word-word_then c m rest h =
    ap (λ s. word_in (behind is_whitespace (skip_whitespace s)))
      (cons-append c m (String.◌∷◌ space_char rest))
    ∙ ap (λ s. word_in (behind is_whitespace s))
        (skip_whitespace-word c (m <> String.◌∷◌ space_char rest) h.0)
    ∙ ap (λ s. word_in (behind is_whitespace s))
        (sym (cons-append c m (String.◌∷◌ space_char rest)))
    ∙ ap word_in (behind-Without is_whitespace (String.◌∷◌ c m) space_char rest h refl)

append-Without :
    (stop : ℕ → Bool) (a : String) (d : Char) (b : String)
    → Without stop a
    → stop (code d) ≡ false
    → Without stop b
    → Without stop (a <> String.◌∷◌ d b)
append-Without stop String.[] d b ha hd hb = rw (nil-append (String.◌∷◌ d b)) (hd, hb)
append-Without stop (String.◌∷◌ c a) d b (hc, ha) hd hb =
    rw (cons-append c a (String.◌∷◌ d b)) (hc, append-Without stop a d b ha hd hb)

abbrev pub IsField : String → Type 0
IsField f = Without is_whitespace f × Without is_ampersand f

join_fields-Without : (fs : List String) → All IsField fs → Without is_whitespace (join_fields fs)
join_fields-Without [] h = tt
join_fields-Without (f ∷ []) h = h.0.0
join_fields-Without (f ∷ g ∷ fs) h =
    append-Without is_whitespace f ampersand_char _ h.0.0 refl (join_fields-Without (g ∷ fs) h.1)

split-join_fields :
    (f : String) (fs : List String)
    → All IsField (f ∷ fs)
    → split_ampersand (join_fields (f ∷ fs)) ≡ f ∷ fs
split-join_fields f [] h = split-Without f h.0.1
split-join_fields f (g ∷ fs) h =
    split-Without_cons f ampersand_char (join_fields (g ∷ fs)) h.0.1 refl
    ∙ ap (λ gs. f ∷ gs) (split-join_fields g fs h.1)

redirect_code-request :
    (c : Char) (m : String) (d : Char) (p : String) (f : String) (fs : List String) (rest : String)
    → Without is_whitespace (String.◌∷◌ c m)
    → Without is_whitespace (String.◌∷◌ d p)
    → Without is_question_mark (String.◌∷◌ d p)
    → All IsField (f ∷ fs)
    → redirect_code (request_of (String.◌∷◌ c m) (String.◌∷◌ d p) (f ∷ fs) rest)
      ≡ or_missing (code_among (f ∷ fs))
unfolding redirect_code
redirect_code-request c m d p f fs rest hm hp hq hf =
    let query = join_fields (f ∷ fs) in
    let tail = p <> String.◌∷◌ question_char query in
    let target : String.◌∷◌ d p <> String.◌∷◌ question_char query ≡ String.◌∷◌ d tail =
      cons-append d p (String.◌∷◌ question_char query) in
    let clean : Without is_whitespace (String.◌∷◌ d tail) = (
      hp.0,
      append-Without is_whitespace p question_char query hp.1 refl
          (join_fields-Without (f ∷ fs) hf),
    ) in
    ap (λ s. redirect_code (word_then (String.◌∷◌ c m) (word_then s rest))) target
    ∙ ap (λ s. or_missing (path_code (second_word s)))
        (before-word_then (String.◌∷◌ c m) (word_then (String.◌∷◌ d tail) rest) hm
          ∙ ap (word_then (String.◌∷◌ c m)) (before-word_then (String.◌∷◌ d tail) rest clean))
    ∙ ap (λ s. or_missing (path_code s))
        (second_word-word_then c m _ hm ∙ word_in-word_then d tail (before is_newline rest) clean)
    ∙ ap (λ s. or_missing (query_code (behind is_question_mark s))) (sym target)
    ∙ ap (λ s. or_missing (query_code s))
        (behind-Without is_question_mark (String.◌∷◌ d p) question_char query hq refl)
    ∙ ap (λ s. or_missing (code_among s)) (split-join_fields f fs hf)

strip_text-append : (prefix v : String) → strip_text prefix (prefix <> v) ≡ some v
unfolding strip_text
strip_text-append String.[] v = ap (strip_text String.[]) (nil-append v)
strip_text-append (String.◌∷◌ p prefix) v =
    let same : (code p == code p) ≡ true = ground arith in
    rw (cons-append p prefix v, strip_text, same) (strip_text-append prefix v)

-- The field is of another name.
abbrev pub IsOther : String → Type 0
IsOther g = strip_text "code=" g ≡ none

code_among-others :
    (others : List String) (v : String) (later : List String)
    → All IsOther others
    → code_among (others ++ (("code=" <> v) ∷ later)) ≡ some v
code_among-others [] v later h =
    ap (λ o. or_next o (code_among later)) (strip_text-append "code=" v)
code_among-others (g ∷ others) v later h =
    ap (λ o. or_next o (code_among (others ++ (("code=" <> v) ∷ later)))) h.0
    ∙ code_among-others others v later h.1

-- From a request whose method and path hold no white space, whose path holds no question mark and whose
-- query fields hold neither white space nor an ampersand, the code is read back as the first field of
-- that name gives it, whatever other fields stand before it, and whatever follows.
pub redirect_code-request_of :
    (c : Char) (m : String) (d : Char) (p : String) (others : List String) (v : String)
    (later : List String) (rest : String)
    → Without is_whitespace (String.◌∷◌ c m)
    → Without is_whitespace (String.◌∷◌ d p)
    → Without is_question_mark (String.◌∷◌ d p)
    → All IsField (others ++ (("code=" <> v) ∷ later))
    → All IsOther others
    → redirect_code
        (request_of (String.◌∷◌ c m) (String.◌∷◌ d p) (others ++ (("code=" <> v) ∷ later)) rest)
      ≡ ok v
redirect_code-request_of c m d p [] v later rest hm hp hq hf ho =
    redirect_code-request c m d p ("code=" <> v) later rest hm hp hq hf
    ∙ ap or_missing (code_among-others [] v later ho)
redirect_code-request_of c m d p (g ∷ others) v later rest hm hp hq hf ho =
    redirect_code-request c m d p g (others ++ (("code=" <> v) ∷ later)) rest hm hp hq hf
    ∙ ap or_missing (code_among-others (g ∷ others) v later ho)
