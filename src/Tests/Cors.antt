-- ===== src/Tests/Cors.antt =====
-- Tests of Cors.
use veloce.Prelude.{◌≡◌, refl, true, false, ◌||◌, Option, none, some, [], ◌∷◌, codes}
use veloce.Prelude.Dict.{get, put, pop}
use veloce.Text.{Text, text_eq, text_beq, lower, upper, to_lower, to_upper, is_in}
use veloce.Text.Split.{split}
use veloce.Text.Strip.{strip, lstrip, rstrip}
use veloce.Headers.Lists.{join_values, entries, non_empty}
use veloce.Headers.HeaderSet
use veloce.Headers.HeaderSet.{update, add, to_header}
use veloce.Cors.{
  CorsMiddleware, Arguments, Pattern, star, init, checked, is_wildcard_regex,
  is_wildcard_regex_literal, strip_end, allow_origins_has_star, allow_headers_has_star,
  allow_headers_lower, allow_methods_set, varies_by_origin, resolve_allow_origin, origin_allowed,
  fullmatch,
}
use veloce.Cors.Response.{
  Fields, Response, folded_key, header_key, header_pop, add_vary, merge_vary,
}
use veloce.Cors.Preflight.{
  Request, process_request, add_cors_headers, matched, allow_headers_name, allow_origin_name,
  method_refused,
}
use veloce.Cors.Laws.{add_cors_headers-unkeyed, add_cors_headers-credentials}
use veloce.Cors.Granted.{NamesListed, process_request-NamesListed}
use veloce.Cors.Keyed.{varies_on, origin_name, add_cors_headers-keyed}

abbrev site : Text
site = codes "https://a.example"

abbrev other_site : Text
other_site = codes "https://b.example"

abbrev no_patterns : Text → Option Pattern
no_patterns pattern = none

abbrev arguments : Arguments
arguments = record {
  origins = some (site ∷ []);
  origin_regex = none;
  methods = none;
  headers = some (codes "X-Token" ∷ codes "Accept" ∷ []);
  credentials = true;
  private_network = false;
  max_age = codes "600";
  expose = some (codes "X-Id" ∷ []);
}

abbrev listed : CorsMiddleware
listed = record {
  allow_origins = site ∷ [];
  allow_origin_regex = none;
  allow_methods =
      codes "GET"
      ∷ codes "POST"
      ∷ codes "PUT"
      ∷ codes "DELETE"
      ∷ codes "PATCH"
      ∷ codes "OPTIONS"
      ∷ [];
  allow_headers = codes "X-Token" ∷ codes "Accept" ∷ [];
  allow_credentials = true;
  allow_private_network = false;
  max_age_text = codes "600";
  expose_headers = codes "X-Id" ∷ [];
}

abbrev open_to_all : CorsMiddleware
open_to_all = record {
  allow_origins = star ∷ [];
  allow_origin_regex = none;
  allow_methods = codes "GET" ∷ [];
  allow_headers = star ∷ [];
  allow_credentials = false;
  allow_private_network = false;
  max_age_text = codes "600";
  expose_headers = [];
}

-- Wildcards are refused besides credentials.
init_tests :
    (init no_patterns arguments ≡ some listed)
    × (init no_patterns (record arguments { headers = none }) ≡ none)
    × (init no_patterns (record arguments { origins = none }) ≡ none)
    × (is_wildcard_regex_literal (codes "^.*$") ≡ true)
    × (is_wildcard_regex (codes "h") (λ s. false) ≡ false)
unfolding init checked is_wildcard_regex is_wildcard_regex_literal strip_end is_in text_beq
    allow_origins_has_star allow_headers_has_star
init_tests = (refl, refl, refl, refl, refl)

abbrev preflight : Request
preflight = record {
  method = codes "OPTIONS";
  origin = site;
  requested_method = codes "put";
  requested_headers = codes "x-token, , Cookie";
  requested_private_network = none;
}

-- A response to a request without an origin does not say that it varies by it, although it lacks the
-- wildcard that every origin is sent.
no_origin_tests :
    (add_cors_headers open_to_all [] [] false ≡ [])
    × (varies_by_origin open_to_all ≡ false)
    × (get allow_origin_name (add_cors_headers open_to_all [] site false) ≡ some star)
unfolding add_cors_headers resolve_allow_origin origin_allowed varies_by_origin
    allow_origins_has_star allow_headers_has_star is_in text_beq get put
no_origin_tests = (refl, refl, refl)

abbrev written : Fields
written = (codes "vary", codes "Cookie") ∷ (codes "X-Other", codes "1") ∷ []

merged_tests :
    (add_vary (origin_name ∷ []) written
      ≡ (codes "X-Other", codes "1") ∷ (codes "Vary", codes "Cookie, Origin") ∷ [])
    × (header_pop written (codes "x-other")
        ≡ (some (codes "1"), (codes "vary", codes "Cookie") ∷ []))
unfolding add_vary header_pop header_key folded_key merge_vary HeaderSet.init update add to_header
    entries non_empty split strip lstrip rstrip join_values is_in text_beq lower to_lower get put
    pop
merged_tests = (refl, refl)

add_cors_headers-unkeyed_example :
    add_cors_headers open_to_all written site false
    ≡ add_cors_headers open_to_all written other_site false
unfolding varies_by_origin is_in text_beq
add_cors_headers-unkeyed_example =
    add_cors_headers-unkeyed open_to_all written site other_site false refl refl refl

add_cors_headers-keyed_example :
    varies_on origin_name (add_cors_headers listed written other_site false) ≡ true
unfolding varies_by_origin
add_cors_headers-keyed_example = add_cors_headers-keyed listed written other_site false refl

add_cors_headers-credentials_example :
    (get allow_origin_name (add_cors_headers listed [] site false) ≡ some site)
    × (is_in site listed.allow_origins || fullmatch listed listed.allow_origin_regex site ≡ true)
unfolding init checked is_in text_beq get put allow_origins_has_star allow_headers_has_star
    add_cors_headers resolve_allow_origin origin_allowed varies_by_origin add_vary header_key
    folded_key header_pop lower to_lower
add_cors_headers-credentials_example =
    add_cors_headers-credentials no_patterns arguments listed site (codes "true") false refl refl

abbrev preflight_response : Response
preflight_response = record {
  status_code = 204;
  body = [];
  headers =
      (codes "Access-Control-Allow-Origin", site)
      ∷ (codes "Vary", codes "Origin")
      ∷ (codes "Access-Control-Allow-Methods", codes "GET, POST, PUT, DELETE, PATCH, OPTIONS")
      ∷ (codes "Access-Control-Allow-Headers", codes "x-token")
      ∷ (codes "Access-Control-Allow-Credentials", codes "true")
      ∷ (codes "Access-Control-Expose-Headers", codes "X-Id")
      ∷ (codes "Access-Control-Max-Age", codes "600")
      ∷ [];
}

process_request-NamesListed_example :
    (origin_allowed listed site ≡ true)
    × (method_refused listed (codes "put") ≡ false)
    × NamesListed listed (get allow_headers_name preflight_response.headers)
unfolding process_request add_cors_headers resolve_allow_origin origin_allowed varies_by_origin
    allow_origins_has_star allow_headers_has_star allow_headers_lower allow_methods_set matched
    entries non_empty split strip lstrip rstrip join_values add_vary header_key folded_key
    header_pop is_in text_beq lower to_lower upper to_upper get put pop
process_request-NamesListed_example =
    process_request-NamesListed listed preflight preflight_response refl refl refl
