-- ===== src/Cors/Laws.antt =====
-- Lemmas on the decisions of `CORSMiddleware`, src/veloce/middleware/cors.py.
use veloce.Prelude.{
  unless_test, some_injective, ◌≡◌, refl, ap, sym, ◌∙◌, Bool, true, false, ◌&&◌, ◌||◌, Option, none,
  some, [], is_empty, Bool-cases, inl, inr, arith,
}
use veloce.Prelude.Dict.{get}
use veloce.Text.{Text, text_eq, is_in}
use veloce.Cors.{
  CorsMiddleware, Pattern, Arguments, star, varies_by_origin, origin_allowed, resolve_allow_origin,
  allow_origins_has_star, allow_headers_has_star, fullmatch, checked, init, with_compiled,
  with_pattern, given, is_wildcard_regex,
}
use veloce.Cors.Response.{Fields}
use veloce.Cors.Written.{
  get-add_cors_headers, credentials-add_cors_headers, credentials_of, or_else,
}
use veloce.Cors.Preflight.{add_cors_headers, allow_origin_name, allow_credentials_name}

-- Every origin gets the wildcard, where the response does not vary by it.
resolve-unkeyed :
    (m : CorsMiddleware) (origin : Text)
    → varies_by_origin m ≡ false
    → is_empty origin ≡ false
    → resolve_allow_origin m origin ≡ some star
unfolding resolve_allow_origin origin_allowed varies_by_origin
resolve-unkeyed m origin hv ho = ground arith

-- Where the middleware does not mark responses as varying by origin, they do not: two requests that
-- name an origin get the same headers, whatever their origins.
pub add_cors_headers-unkeyed :
    (m : CorsMiddleware) (headers : Fields) (origin other : Text) (preflight : Bool)
    → varies_by_origin m ≡ false
    → is_empty origin ≡ false
    → is_empty other ≡ false
    → add_cors_headers m headers origin preflight ≡ add_cors_headers m headers other preflight
unfolding add_cors_headers
add_cors_headers-unkeyed m headers origin other preflight hv ho hother =
    rw (resolve-unkeyed m origin hv ho, resolve-unkeyed m other hv hother) refl

no_star :
    (credentials star_origin star_headers : Bool)
    → credentials && (star_origin || star_headers) ≡ false
    → credentials ≡ true
    → star_origin ≡ false
no_star credentials star_origin star_headers h hc = ground arith

checked-no_star :
    (m m' : CorsMiddleware)
    → checked m ≡ some m'
    → m'.allow_credentials ≡ true
    → allow_origins_has_star m' ≡ false
unfolding checked
checked-no_star m m' h hc =
    let (f, e') = unless_test _ (some m) m' h in
    let e = some_injective m m' e' in
    ap allow_origins_has_star (sym e)
    ∙ no_star m.allow_credentials (allow_origins_has_star m) (allow_headers_has_star m) f
        (ap (λ (n : CorsMiddleware). n.allow_credentials) e ∙ hc)

module _ (compile : Text → Option Pattern) (a : Arguments) (m : CorsMiddleware) where
  compiled-no_star :
      (pattern : Text) (compiled : Option Pattern)
      → with_compiled a pattern compiled ≡ some m
      → m.allow_credentials ≡ true
      → allow_origins_has_star m ≡ false
  compiled-no_star pattern none h hc = cc
  compiled-no_star pattern (some compiled) h hc =
      checked-no_star _ m
        (unless_test (a.credentials && is_wildcard_regex pattern compiled) _ m h).1 hc

  pattern-no_star :
      (pattern : Option Text)
      → with_pattern compile a pattern ≡ some m
      → m.allow_credentials ≡ true
      → allow_origins_has_star m ≡ false
  pattern-no_star none h hc = checked-no_star _ m h hc
  pattern-no_star (some pattern) h hc = compiled-no_star pattern (compile pattern) h hc

resolve-credentials :
    (m : CorsMiddleware) (origin v : Text)
    → allow_origins_has_star m ≡ false
    → m.allow_credentials ≡ true
    → resolve_allow_origin m origin ≡ some v
    → (resolve_allow_origin m origin ≡ some origin)
      × (is_in origin m.allow_origins || fullmatch m m.allow_origin_regex origin ≡ true)
unfolding resolve_allow_origin origin_allowed
resolve-credentials m origin v hs hc h = ground arith

credentials_configured :
    (m : CorsMiddleware) (o : Option Text) (value : Text)
    → credentials_of m o ≡ some value
    → (m.allow_credentials ≡ true) × ((v : Text) × (o ≡ some v))
credentials_configured m none value = λ h. cc
credentials_configured m (some v) value = elim (Bool-cases m.allow_credentials) [
  | inl t ↦ λ h. (t, (v, refl))
  | inr f ↦ rw f (λ h. cc)
]

-- A response that the middleware was free to write grants credentials only together with the very origin
-- of the request, and only to an origin that is listed or that the pattern matches: a middleware that
-- could be constructed has no wildcard besides credentials.
pub add_cors_headers-credentials :
    (compile : Text → Option Pattern) (a : Arguments) (m : CorsMiddleware) (origin value : Text)
    (preflight : Bool)
    → init compile a ≡ some m
    → get allow_credentials_name (add_cors_headers m [] origin preflight) ≡ some value
    → (get allow_origin_name (add_cors_headers m [] origin preflight) ≡ some origin)
      × (is_in origin m.allow_origins || fullmatch m m.allow_origin_regex origin ≡ true)
unfolding init
add_cors_headers-credentials compile a m origin value preflight hi hv =
    let o = resolve_allow_origin m origin in
    let (hc, (v, e)) =
      credentials_configured m o value
        (sym (credentials-add_cors_headers m origin preflight) ∙ hv) in
    let (eo, allowed) =
      resolve-credentials m origin v (pattern-no_star compile a m (given a.origin_regex) hi hc) hc
        e in
    (
      get-add_cors_headers m [] origin preflight
          ∙ ap (λ r. or_else r (get allow_origin_name [])) eo,
      allowed,
    )
