-- ===== src/Tests/Headers.antt =====
-- Tests of Headers.
use veloce.Prelude.{◌≡◌, refl, true, none, List, [], ◌∷◌, codes, nat_eq}
use veloce.Text.{text_eq, text_beq, lower, is_in}
use veloce.Text.Split.{split}
use veloce.Text.Strip.{has_char, strip, lstrip, rstrip}
use veloce.Headers.Quoted.{
  walk, split_outside_quotes_checked, split_outside_quotes, unquote_value, lstrip_quotes,
  rstrip_quotes,
}
use veloce.Headers.Params.{parse_header_params, parse_media_type_params}
use veloce.Headers.Params.Laws.{put_all, parse_media_type_params-unquoted}
use veloce.Prelude.Dict.{put}
use veloce.Headers.Lists.{join_values, non_empty, entries}
use veloce.Headers.HeaderSet.{
  HeaderSet, add, without, discard, remove, update, init, to_header, contains, equals, add_call,
  discard_call, update_call, Call, run, step,
}

-- A delimiter in a quoted string, also behind an escaped quote, does not split.
quoted_tests :
    (split_outside_quotes (codes "a;b=\"c;\\\";d\";e") b';'
      ≡ codes "a" ∷ codes "b=\"c;\\\";d\"" ∷ codes "e" ∷ [])
    × (split_outside_quotes_checked (codes "a;\"b;c") b';' ≡ (codes "a" ∷ codes "\"b;c" ∷ [], true))
    × (split_outside_quotes (codes "a\\;b") b';' ≡ codes "a\\" ∷ codes "b" ∷ [])
    × (unquote_value (codes " \"v\" ") ≡ codes "v")
unfolding split_outside_quotes split_outside_quotes_checked walk unquote_value lstrip_quotes
    rstrip_quotes strip lstrip rstrip
quoted_tests = (refl, refl, refl, refl)

-- The values of unquoted parameters, and of a quoted one.
params_tests :
    (parse_header_params (codes "form-data; Name=\" a;b \" ; x") b';' true
      ≡ (codes "form-data", (codes "name", codes " a;b ") ∷ []))
    × (parse_header_params (codes "a=\"x\\\"y\"") b';' true ≡ ([], (codes "a", codes "x\"y") ∷ []))
    × (parse_media_type_params (codes "; Charset = utf-8;=v;q=0;Q=1")
        ≡ (codes "charset", codes "utf-8") ∷ (codes "q", codes "0") ∷ (codes "q", codes "1") ∷ [])
unfolding parse_header_params parse_media_type_params put text_beq strip lstrip rstrip lower
params_tests = (refl, refl, refl)

parse_media_type_params-unquoted_example :
    put_all (parse_media_type_params (codes "; Charset = utf-8;q=0;Q=1")) []
    ≡ (parse_header_params (codes "; Charset = utf-8;q=0;Q=1") b';' true).1
unfolding has_char
parse_media_type_params-unquoted_example =
    parse_media_type_params-unquoted (codes "; Charset = utf-8;q=0;Q=1") true refl

abbrev accept_lang : HeaderSet
accept_lang = record {
  items = codes "Accept" ∷ codes "Origin" ∷ [];
  lowered = codes "accept" ∷ codes "origin" ∷ [];
}

abbrev calls : List Call
calls =
    add_call (codes "ORIGIN")
    ∷ update_call (codes "Cookie" ∷ [])
    ∷ discard_call (codes "accept")
    ∷ []

header_set_tests :
    (run calls accept_lang ≡ record {
      items = codes "Origin" ∷ codes "Cookie" ∷ [];
      lowered = codes "origin" ∷ codes "cookie" ∷ [];
    })
    × (init (codes "Accept, ,ORIGIN ,accept") ≡ record {
      items = codes "Accept" ∷ codes "ORIGIN" ∷ [];
      lowered = codes "accept" ∷ codes "origin" ∷ [];
    })
    × (to_header accept_lang ≡ codes "Accept, Origin")
    × (remove (codes "x") accept_lang ≡ none)
    × (contains (codes "ACCEPT") accept_lang ≡ true)
    × (equals accept_lang (init (codes "origin,accept")) ≡ true)
unfolding run step add discard update init to_header remove contains equals is_in without entries
    non_empty join_values split strip lstrip rstrip text_beq lower
header_set_tests = (refl, refl, refl, refl, refl, refl)
