-- ===== src/Tests/Csrf.antt =====
-- Tests of Csrf.
use veloce.Prelude.{
  ◌%◌, ◌++◌, ◌≡◌, refl, sym, ap, some_injective, false, Option, none, some, [], ◌∷◌, ◌==◌, codes,
  if◌then◌else◌, arith,
}
use veloce.Prelude.Int.{pos}
use veloce.Text.{Text, text_eq, text_beq, is_in, lower, to_lower}
use veloce.Text.Strip.{starts_with, rstrip_char}
use veloce.Signing.{Library, loads, dumps, parts, cut, is_signed}
use veloce.Signing.Base64.{b64encode, b64decode, urlsafe_b64encode, a2b}
use veloce.Signing.Time.{pack, octets, unpack, value_from}
use veloce.Csrf.Origin.{
  Split, Request, allowed, forbidden, raised, exactly, suffix, before, strip_default_port,
  parse_trusted, is_trusted, parts_allowed, origin_allowed, verify_origin,
}
use veloce.Csrf.{
  Csrf, State, process_request, process_response, double_submit, is_genuine, is_echoed, is_form,
  contains, matches, set_cookie, kept, init, rotate_csrf_token,
}
use veloce.Csrf.Proven.{IsProven, process_request-IsProven}
use veloce.Csrf.Echoed.{process_request-process_response}
use veloce.Tests.Signing.{checksum, old_signer, token}

-- The origins of the tests, split; the last one raises.
abbrev split_origin : Split
split_origin t =
    if t == codes "https://App.example:443"
    then some (codes "https", codes "App.example:443")
    else if t == codes "https://a.app.example"
    then some (codes "https", codes "a.app.example")
    else if t == codes "https://.app.example"
    then some (codes "https", codes ".app.example")
    else if t == codes "https://evilapp.example"
    then some (codes "https", codes "evilapp.example")
    else if t == codes "https://other.example"
    then some (codes "https", codes "other.example")
    else none

-- A text is its own JSON.
abbrev text_library : Library Text
text_library = record {
  mac = λ key message. checksum (key ++ message) % 256 ∷ 200 ∷ [];
  json_dumps = λ t. t;
  json_loads = λ t. some t;
}

abbrev middleware : Csrf
middleware = record {
  cookie_name = codes "csrf_token";
  header_name = codes "X-CSRF-Token";
  form_field = codes "csrf_token";
  safe_methods = codes "GET" ∷ [];
  trusted = record { scheme = codes "https"; host = suffix (codes "app.example") } ∷ [];
  max_age = some (pos 60);
  signer = some old_signer;
}

abbrev headers_of : Text → Text → Text → Option Text
headers_of origin echo name =
    if name == codes "Origin"
    then some origin
    else if name == codes "Host"
    then some (codes "other.example")
    else if name == codes "X-CSRF-Token"
    then some echo
    else none

abbrev post : Text → Text → Text → Request
post origin cookie echo = record {
  is_mcp = false;
  method = codes "POST";
  scheme = codes "https";
  cookies = λ name. if name == codes "csrf_token" then some cookie else none;
  headers = headers_of origin echo;
  form = none;
}

abbrev fresh : State
fresh = record { csrf_cookie = none; csrf_rotate = false }

abbrev seen : Text → State
seen cookie = record { csrf_cookie = some cookie; csrf_rotate = false }

init_tests :
    (parse_trusted split_origin
        (codes "https://App.example:443" ∷ codes "https://.app.example" ∷ [])
      ≡ some (
          record { scheme = codes "https"; host = exactly (codes "app.example") }
          ∷ record { scheme = codes "https"; host = suffix (codes "app.example") }
          ∷ []))
    × (init split_origin text_library middleware [] (codes "http://[" ∷ []) ≡ none)
unfolding parse_trusted strip_default_port before text_beq lower to_lower init
init_tests = (refl, refl)

request_tests :
    (process_request split_origin text_library middleware 1010
        (post (codes "https://evilapp.example") token token)
        fresh
      ≡ (forbidden (codes "CSRF origin mismatch"), seen token))
    × (process_request split_origin text_library middleware 1010
          (post (codes "https://other.example") token token)
          fresh
        ≡ (allowed, seen token))
    × (process_request split_origin text_library middleware 1010
          (post (codes "http://[") token token)
          fresh
        ≡ (raised, seen token))
    × (process_request split_origin text_library middleware 1010
          (post (codes "https://a.app.example") [] [])
          fresh
        ≡ (forbidden (codes "CSRF cookie missing"), seen []))
    × (process_request split_origin text_library middleware 1010
          (post (codes "https://a.app.example") token (codes "x"))
          fresh
        ≡ (forbidden (codes "CSRF token mismatch"), seen token))
    × (process_request split_origin text_library middleware 1010
          (post (codes "https://a.app.example") (codes "x") (codes "x"))
          fresh
        ≡ (
          forbidden (codes "CSRF cookie signature invalid or expired"),
          rotate_csrf_token (seen (codes "x")),
        ))
unfolding process_request double_submit is_genuine is_echoed is_form contains matches verify_origin
    origin_allowed parts_allowed is_trusted strip_default_port before text_beq is_in lower to_lower
    starts_with loads parts cut is_signed unpack value_from b64decode a2b rotate_csrf_token
request_tests = (refl, refl, refl, refl, refl, refl)

response_tests :
    (process_response text_library middleware 1000 (codes "A") fresh
      ≡ set_cookie (codes "csrf_token") token)
    × (process_response text_library middleware 1000 (codes "A") (seen token) ≡ kept)
    × (process_response text_library middleware 1000 (codes "A") (rotate_csrf_token (seen token))
        ≡ set_cookie (codes "csrf_token") token)
unfolding process_response rotate_csrf_token dumps pack octets b64encode urlsafe_b64encode
    rstrip_char
response_tests = (refl, refl, refl)

process_request-IsProven_example :
    IsProven split_origin text_library middleware 1010
      (post (codes "https://a.app.example") token token)
unfolding process_request double_submit is_genuine is_echoed is_form matches verify_origin
    origin_allowed parts_allowed is_trusted strip_default_port before text_beq is_in lower to_lower
    loads parts cut is_signed unpack value_from b64decode a2b
process_request-IsProven_example =
    process_request-IsProven split_origin text_library middleware 1010
      (post (codes "https://a.app.example") token token) fresh refl refl refl

process_request-process_response_example :
    (process_request split_origin text_library middleware 1010
      (post (codes "https://a.app.example") token token)
      fresh).0
    ≡ allowed
unfolding process_response dumps pack octets b64encode urlsafe_b64encode rstrip_char is_in text_beq
    verify_origin origin_allowed parts_allowed is_trusted strip_default_port before lower to_lower
process_request-process_response_example =
    process_request-process_response text_library middleware 1000 1010 (codes "A") refl
      (omega arith, tt) (λ key message. (omega arith, (omega arith, tt))) (omega arith, refl)
      split_origin (post (codes "https://a.app.example") token token) fresh fresh
      (codes "csrf_token") token
      (λ signer e. sym (ap (λ s. is_in s.key s.secret_keys) (some_injective old_signer signer e)))
      (λ e. cc) refl refl refl refl
