-- ===== src/Drive/Tests/Disk.antt =====
-- A disk in memory that keeps the promises of a file system, to run auth.rs on.
use gd_client.Prelude.{
  [], ◌∷◌, ok, err, refl, some, none, arith, ◌≡◌, Bool, Option, Option-cases, Result, String, ap,
  eq_iff, false, if◌then◌else◌, inl, inr, str_eq, sym, true, ◌&&◌, ◌↔◌, ◌∙◌, ◌≢◌,
}
use gd_client.Common.Paths.{PathBuf, join, parent}
use gd_client.Common.Errors.{IoError}
use gd_client.Drive.Auth.{
  TokenDisk, StoredToken, save_token, OAuthConfig, RequestTokenError, TokenResponse, parent_or_here,
  refresh_access_token,
}
use gd_client.Drive.Auth.Cache.{IsLawful, Saved, save_token-Saved}

abbrev pub same_path : PathBuf → PathBuf → Bool
same_path [] [] = true
same_path (c ∷ p) (d ∷ q) = let rest = same_path p q in str_eq c d && rest
same_path _ _ = false

same_path_iff : (p q : PathBuf) → (same_path p q ≡ true) ↔ (p ≡ q)
same_path_iff [] [] = ground arith
same_path_iff [] (d ∷ q) = ground arith
same_path_iff (c ∷ p) [] = ground arith
same_path_iff (c ∷ p) (d ∷ q) = ground (arith, eq_iff c d, same_path_iff p q)

abbrev pub Files : Type 0
Files = PathBuf → Option String

abbrev put : PathBuf → Option String → Files → Files
put p content d q = if same_path p q then content else d q

abbrev no_such_file : IoError
no_such_file = record { not_found = true; message = "No such file or directory" }

abbrev file_exists : IoError
file_exists = record { not_found = false; message = "File exists" }

abbrev create_new : PathBuf → Files → Result IoError Unit × Files
create_new p d = elim (d p) [ none ↦ (ok tt, put p (some "") d) | some _ ↦ (err file_exists, d) ]

abbrev rename : PathBuf → PathBuf → Files → Result IoError Unit × Files
rename p q d = elim (d p) [
  | none ↦ (err no_such_file, d)
  | some text ↦ (ok tt, put q (some text) (put p none d))
]

abbrev pub memory : TokenDisk
memory = record {
  Disk = Files;
  contents = λ d p. d p;
  read_to_string = λ d p. elim (d p) [ none ↦ err no_such_file | some text ↦ ok text ];
  create_dir_all = λ p d. (ok tt, d);
  create_new = create_new;
  write_all = λ p text d. (ok tt, put p (some text) d);
  sync_all = λ p d. (ok tt, d);
  rename = rename;
  remove_file = λ p d. (ok tt, put p none d);
  to_string_pretty = λ token. ok token.access_token;
  from_str = λ text. ok (record { access_token = text; refresh_token = none; expires_at = none });
}

put_ne : (q p : PathBuf) (content : Option String) (d : Files) → q ≢ p → put p content d q ≡ d q
put_ne q p content d h = ground (arith, same_path_iff p q)

put_same : (p : PathBuf) (content : Option String) (d : Files) → put p content d p ≡ content
put_same p content d = ground (arith, same_path_iff p p)

create_new_ne : (q p : PathBuf) (d : Files) → q ≢ p → (create_new p d).1 q ≡ d q
create_new_ne q p d h = elim (Option-cases (d p)) [
  | inl e ↦ rw (e, create_new) (put_ne q p (some "") d h)
  | inr (t, e) ↦ rw (e, create_new)
]

failed_rename :
    (p q : PathBuf) (d d' : Files) (e : IoError) → rename p q d ≡ (err e, d') → d' q ≡ d q
failed_rename p q d d' e h = elim (Option-cases (d p)) [
  | inl none_there ↦ ground (arith, ap (λ (r : Result IoError Unit × Files). r.1 q) h)
  | inr (t, there) ↦ ground arith
]

renamed : (p q : PathBuf) (d d' : Files) → rename p q d ≡ (ok tt, d') → d' q ≡ d p
renamed p q d d' h = elim (Option-cases (d p)) [
  | inl none_there ↦ ground arith
  | inr (t, there) ↦
      ground (
        arith,
        ap (λ (r : Result IoError Unit × Files). r.1 q) h,
        put_same q (some t) (put p none d),
      )
]

pub memory-IsLawful : IsLawful memory
memory-IsLawful = record {
  create_dir_all = λ q p d. refl;
  create_new = create_new_ne;
  write_all = λ q p text d h. put_ne q p (some text) d h;
  sync_all = λ q p d. refl;
  remove_file = λ q p d h. put_ne q p none d h;
  failed_rename = failed_rename;
  written = λ p text d d' h.
      ap (λ (r : Result IoError Unit × Files). r.1 p) (sym h) ∙ put_same p (some text) d;
  renamed = renamed;
}

abbrev pub token_path : PathBuf
token_path = "data" ∷ "token.json" ∷ []

abbrev pub old_token : StoredToken
old_token = record { access_token = "a0"; refresh_token = some "r0"; expires_at = some 1000 }

abbrev pub new_token : StoredToken
new_token = record { access_token = "a1"; refresh_token = some "r0"; expires_at = some 5000 }

abbrev pub disk : Files
disk = put token_path (some "a0") (λ _. none)

other_file : token_path ≢ join (parent_or_here token_path) "fresh.tmp"
unfolding join parent
other_file h =
    let distinct : same_path token_path (join (parent_or_here token_path) "fresh.tmp") ≡ false =
      refl in
    ground (arith, same_path_iff token_path (join (parent_or_here token_path) "fresh.tmp"))

saved_contents : (save_token memory "fresh.tmp" token_path new_token disk).1 token_path ≡ some "a1"
unfolding save_token join parent
saved_contents = refl

save_token-Saved_example :
    Saved memory token_path new_token disk (save_token memory "fresh.tmp" token_path new_token disk)
save_token-Saved_example =
    save_token-Saved memory memory-IsLawful "fresh.tmp" token_path new_token disk other_file

abbrev pub oauth_config : OAuthConfig
oauth_config = record { client_id = "id"; client_secret = "secret" }

abbrev pub endpoint : OAuthConfig → String → Option (Result RequestTokenError TokenResponse)
endpoint config refresh_token =
    some (ok (record { access_token = "a1"; refresh_token = none; expires_in = some 3600 }))

abbrev renewed : StoredToken
renewed = record { access_token = "a1"; refresh_token = some "r0"; expires_at = some 4600 }

exchanged_token : refresh_access_token true endpoint oauth_config old_token 1000 ≡ ok renewed
unfolding refresh_access_token
exchanged_token = refl
