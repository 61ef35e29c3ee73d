-- ===== src/Cors.antt =====
-- `CORSMiddleware` of src/veloce/middleware/cors.py. `re.compile` is a parameter; a compiled pattern is
-- what its `fullmatch` says. The headers of a response are a dict whose keys keep their case.
pub mod Response
pub mod Preflight
pub mod Written
pub mod Granted
pub mod Keyed
pub mod Laws
use veloce.Prelude.{
  ℕ, ◌≡◌, Bool, true, false, not, ◌&&◌, ◌||◌, Option, none, some, List, [], ◌∷◌, ◌++◌, map, ◌==◌,
  nat_eq, all, is_empty, codes, if◌then◌else◌,
}
use veloce.Text.{Text, text_eq, lower, upper, is_in}
use veloce.Headers.Lists.{join_values}

abbrev pub Pattern : Type 0
Pattern = Text → Bool

-- What the middleware is constructed with; `max_age` as `str` prints it.
pub record Arguments : Type 0 where
  pub origins : Option (List Text)
  pub origin_regex : Option Text
  pub methods : Option (List Text)
  pub headers : Option (List Text)
  pub credentials : Bool
  pub private_network : Bool
  pub max_age : Text
  pub expose : Option (List Text)

pub record CorsMiddleware : Type 0 where
  pub allow_origins : List Text
  pub allow_origin_regex : Option Pattern
  pub allow_methods : List Text
  pub allow_headers : List Text
  pub allow_credentials : Bool
  pub allow_private_network : Bool
  pub max_age_text : Text
  pub expose_headers : List Text

-- `if body.startswith("^")`: without the first code point
abbrev strip_start : ℕ → Text → Text
strip_start c [] = []
strip_start c (d ∷ s) = if d == c then s else d ∷ s

-- `if body.endswith("$")`: without the last code point
unfoldable pub strip_end : ℕ → Text → Text
strip_end c [] = []
strip_end c (d ∷ []) = if d == c then [] else d ∷ []
strip_end c (d ∷ e ∷ s) = d ∷ strip_end c (e ∷ s)

abbrev wildcard_bodies : List Text
wildcard_bodies = codes ".*" ∷ codes ".+" ∷ codes ".{0,}" ∷ codes ".{1,}" ∷ []

abbrev wildcard_probes : List Text
wildcard_probes =
    codes "http://x.invalid"
    ∷ codes "null"
    ∷ codes "__not_an_origin__"
    ∷ codes "file:///etc/passwd"
    ∷ []

unfoldable pub is_wildcard_regex_literal : Text → Bool
unfolding strip_end is_in
is_wildcard_regex_literal pattern =
    is_in (strip_end b'$' (strip_start b'^' pattern)) wildcard_bodies

unfoldable pub is_wildcard_regex : Text → Pattern → Bool
unfolding is_wildcard_regex_literal
is_wildcard_regex pattern compiled =
    is_wildcard_regex_literal pattern || all compiled wildcard_probes

abbrev pub star : Text
star = codes "*"

-- xs or default
abbrev pub or_default : Option (List Text) → List Text → List Text
or_default none default = default
or_default (some []) default = default
or_default (some (x ∷ xs)) default = x ∷ xs

abbrev default_methods : List Text
default_methods =
    codes "GET" ∷ codes "POST" ∷ codes "PUT" ∷ codes "DELETE" ∷ codes "PATCH" ∷ codes "OPTIONS" ∷ []

-- The texts that are not empty count as a pattern.
abbrev pub given : Option Text → Option Text
given none = none
given (some []) = none
given (some (c ∷ s)) = some (c ∷ s)

abbrev origins_of : Option (List Text) → Option Text → List Text
origins_of (some origins) regex = origins
origins_of none none = star ∷ []
origins_of none (some pattern) = []

module _ (m : CorsMiddleware) where
  unfoldable pub allow_origins_has_star : Bool
  unfolding is_in
  allow_origins_has_star = is_in star m.allow_origins

  unfoldable pub allow_headers_has_star : Bool
  unfolding is_in
  allow_headers_has_star = is_in star m.allow_headers

  abbrev is_some {ℓ} : {A : Type ℓ} → Option A → Bool
  is_some none = false
  is_some (some a) = true

  unfoldable pub varies_by_origin : Bool
  unfolding allow_origins_has_star
  varies_by_origin =
      is_some m.allow_origin_regex || (m.allow_credentials || not allow_origins_has_star)

  unfoldable pub allow_headers_lower : List Text
  unfolding lower
  allow_headers_lower = map lower m.allow_headers

  unfoldable pub allow_methods_set : List Text
  unfolding upper
  allow_methods_set = map upper m.allow_methods

  -- `bool(self.allow_origin_regex and self.allow_origin_regex.fullmatch(origin))`
  abbrev pub fullmatch : Option Pattern → Text → Bool
  fullmatch none origin = false
  fullmatch (some matches) origin = matches origin

  -- `_origin_allowed`
  unfoldable pub origin_allowed : Text → Bool
  unfolding allow_origins_has_star is_in
  origin_allowed origin =
      not (is_empty origin)
      && ((allow_origins_has_star || is_in origin m.allow_origins)
          || fullmatch m.allow_origin_regex origin)

  -- `_resolve_allow_origin`
  unfoldable pub resolve_allow_origin : Text → Option Text
  unfolding origin_allowed allow_origins_has_star
  resolve_allow_origin origin =
      if not (origin_allowed origin)
      then none
      else if m.allow_credentials
      then some origin
      else if allow_origins_has_star
      then some star
      else some origin

abbrev pub with_regex : Arguments → Option Pattern → CorsMiddleware
with_regex a regex = record {
  allow_origins = origins_of a.origins (given a.origin_regex);
  allow_origin_regex = regex;
  allow_methods = or_default a.methods default_methods;
  allow_headers = or_default a.headers (star ∷ []);
  allow_credentials = a.credentials;
  allow_private_network = a.private_network;
  max_age_text = a.max_age;
  expose_headers = or_default a.expose [];
}

-- Wildcards do not go with credentials; `none` is ValueError.
unfoldable pub checked : CorsMiddleware → Option CorsMiddleware
unfolding allow_origins_has_star allow_headers_has_star
checked m =
    if m.allow_credentials && (allow_origins_has_star m || allow_headers_has_star m)
    then none
    else some m

abbrev pub with_compiled : Arguments → Text → Option Pattern → Option CorsMiddleware
with_compiled a pattern none = none
with_compiled a pattern (some compiled) =
    if a.credentials && is_wildcard_regex pattern compiled
    then none
    else checked (with_regex a (some compiled))

module _ (compile : Text → Option Pattern) where
  abbrev pub with_pattern : Arguments → Option Text → Option CorsMiddleware
  with_pattern a none = checked (with_regex a none)
  with_pattern a (some pattern) = with_compiled a pattern (compile pattern)

  -- `__init__`
  unfoldable pub init : Arguments → Option CorsMiddleware
  unfolding checked is_wildcard_regex
  init a = with_pattern a (given a.origin_regex)
