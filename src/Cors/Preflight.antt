-- ===== src/Cors/Preflight.antt =====
-- The two phases of `CORSMiddleware`, src/veloce/middleware/cors.py.
use veloce.Prelude.{
  Bool, true, false, not, ◌&&◌, Option, none, some, List, [], ◌∷◌, ◌==◌, is_empty, codes,
  if◌then◌else◌,
}
use veloce.Prelude.Dict.{put}
use veloce.Text.{Text, text_eq, lower, upper, is_in}
use veloce.Headers.Lists.{join_values, entries}
use veloce.Headers.HeaderSet
use veloce.Headers.HeaderSet.{to_header, update}
use veloce.Cors.{
  CorsMiddleware, star, allow_headers_has_star, varies_by_origin, allow_headers_lower,
  allow_methods_set, origin_allowed, resolve_allow_origin,
}
use veloce.Cors.Response.{Fields, Response, header_pop, add_vary}

abbrev pub allow_origin_name : Text
allow_origin_name = codes "Access-Control-Allow-Origin"

abbrev pub allow_methods_name : Text
allow_methods_name = codes "Access-Control-Allow-Methods"

abbrev pub allow_headers_name : Text
allow_headers_name = codes "Access-Control-Allow-Headers"

abbrev pub allow_credentials_name : Text
allow_credentials_name = codes "Access-Control-Allow-Credentials"

abbrev pub allow_private_network_name : Text
allow_private_network_name = codes "Access-Control-Allow-Private-Network"

abbrev pub expose_headers_name : Text
expose_headers_name = codes "Access-Control-Expose-Headers"

abbrev pub max_age_name : Text
max_age_name = codes "Access-Control-Max-Age"

-- The parts of a request that the middleware reads; an absent header is the empty text, or `none`.
pub record Request : Type 0 where
  pub method : Text
  pub origin : Text
  pub requested_method : Text
  pub requested_headers : Text
  pub requested_private_network : Option Text

module _ (m : CorsMiddleware) where
  abbrev pub write_origin : Option Text → Fields → Fields
  write_origin none headers = headers
  write_origin (some allowed) headers = put allow_origin_name allowed headers

  abbrev pub write_vary : Fields → Fields
  write_vary headers =
      if varies_by_origin m then add_vary (codes "Origin" ∷ []) headers else headers

  abbrev pub write_preflight : Bool → Fields → Fields
  write_preflight false headers = headers
  write_preflight true headers =
      put allow_headers_name
        (if allow_headers_has_star m then star else join_values m.allow_headers)
        (put allow_methods_name (join_values m.allow_methods) headers)

  abbrev pub write_credentials : Fields → Fields
  write_credentials headers =
      if m.allow_credentials then put allow_credentials_name (codes "true") headers else headers

  -- The value that is already there, and the headers without it.
  abbrev pub merge_expose : Option Text × Fields → Fields
  merge_expose (none, headers) = put expose_headers_name (join_values m.expose_headers) headers
  merge_expose (some [], headers) = put expose_headers_name (join_values m.expose_headers) headers
  merge_expose (some (c ∷ s), headers) =
      put expose_headers_name (to_header (update m.expose_headers (HeaderSet.init (c ∷ s)))) headers

  abbrev pub write_expose : Fields → Fields
  write_expose headers =
      if is_empty m.expose_headers
      then headers
      else merge_expose (header_pop headers expose_headers_name)

  abbrev pub write_rest : Option Text → Fields → Fields
  write_rest none headers = headers
  write_rest (some allowed) headers = write_expose (write_credentials headers)

  -- `_add_cors_headers`
  unfoldable pub add_cors_headers : Fields → Text → Bool → Fields
  unfolding resolve_allow_origin varies_by_origin add_vary allow_headers_has_star header_pop
  add_cors_headers headers origin preflight =
      let allow_origin = resolve_allow_origin m origin in
      write_rest allow_origin
        (write_preflight preflight (write_vary (write_origin allow_origin headers)))

  -- [t for t in tokens if t.lower() in allowed]
  unfoldable pub matched : List Text → List Text → List Text
  matched allowed [] = []
  matched allowed (t ∷ tokens) =
      let rest = matched allowed tokens in if is_in (lower t) allowed then t ∷ rest else rest

  abbrev pub write_matched : List Text → Fields → Fields
  write_matched [] headers = headers
  write_matched (t ∷ ts) headers = put allow_headers_name (join_values (t ∷ ts)) headers

  abbrev pub write_requested : Text → Fields → Fields
  write_requested requested headers =
      if is_empty requested
      then headers
      else if allow_headers_has_star m
      then put allow_headers_name requested headers
      else write_matched (matched (allow_headers_lower m) (entries requested)) headers

  abbrev pub is_true : Option Text → Bool
  is_true none = false
  is_true (some s) = s == codes "true"

  abbrev pub write_private_network : Option Text → Fields → Fields
  write_private_network requested headers =
      if m.allow_private_network && is_true requested
      then put allow_private_network_name (codes "true") headers
      else headers

  abbrev bad_request : Text → Response
  bad_request body = record { status_code = 400; body = body; headers = [] }

  abbrev pub method_refused : Text → Bool
  method_refused requested =
      not (is_empty requested)
      && (not (is_in star (allow_methods_set m))
          && not (is_in (upper requested) (allow_methods_set m)))

  abbrev pub granted : Request → Response
  granted request = record {
    status_code = 204;
    body = [];
    headers = put max_age_name m.max_age_text (
        write_private_network request.requested_private_network
          (write_requested request.requested_headers (add_cors_headers [] request.origin true)));
  }

  -- `process_request`; it also notes the origin in the request's state.
  unfoldable pub process_request : Request → Text × Option Response
  unfolding add_cors_headers matched entries allow_headers_lower allow_methods_set
  process_request request = (
    request.origin,
    if request.method == codes "OPTIONS" && not (is_empty request.origin)
        then if not (origin_allowed m request.origin)
          then some (bad_request (codes "CORS origin not allowed"))
          else if method_refused request.requested_method
          then some (bad_request (codes "CORS method not allowed"))
          else some (granted request)
        else none,
  )

  abbrev origin_or : Option Text → Text → Text
  origin_or none header = header
  origin_or (some cached) header = cached

  -- `process_response`, given the noted origin, if the request's phase ran.
  unfoldable pub process_response : Option Text → Request → Response → Response
  unfolding add_cors_headers
  process_response cached request response = record response {
    headers = add_cors_headers response.headers (origin_or cached request.origin) false;
  }
