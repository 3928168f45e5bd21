-- ===== src/Drive/Query/Tests.antt =====
-- A name with a quote and a backslash, read back from a query.
use gd_client.Prelude.{refl, ◌≡◌, some, ◌<>◌}
use gd_client.Drive.Query.{query_literal, read_literal}
use gd_client.Drive.Query.RoundTrip.{read_literal-query_literal}

quoted : query_literal "it's a \\" ≡ "it\\'s a \\\\"
unfolding query_literal gd_client.Drive.Query.replace_char
quoted = refl

read_literal-query_literal_example :
    read_literal (query_literal "it's a \\" <> ("'" <> " in parents"))
    ≡ some ("it's a \\", " in parents")
read_literal-query_literal_example = read_literal-query_literal "it's a \\" " in parents"
