-- ===== src/Routing/Regex.antt =====
-- The regex routes of src/veloce/routing/router.py and _regex.py: `_match_regex`, and the whole of
-- `get_allowed_methods`. Matching a compiled pattern at the start of a path is a function of the
-- route, which gives the named groups.
pub mod Laws
use veloce.Prelude.{
  ℕ, Bool, true, false, not, ◌&&◌, Option, none, some, List, [], ◌∷◌, ◌++◌, map, ◌==◌, nat_eq,
  if◌then◌else◌, is_empty,
}
use veloce.Prelude.Dict.{Dict, get}
use veloce.Text.{Text, text_eq, upper, is_upper_text, is_in}
use veloce.Routing.Path.{slash, has_trailing_slash}
use veloce.Routing.Node.{Value, text, Converter, RouteInfo, Handlers, Node}
use veloce.Routing.Match.{
  PathParams, Matched, matched, unmatched, raised, RouteMatch, head, get_method, first_some,
  tree_methods,
}

pub record RegexRoute : Type 0 where
  pub pattern_match : Text → Option (Dict Text Text)
  pub converters : Dict Text Converter
  pub handlers : Handlers
  pub tolerant_slash : Bool

-- path[:-1]
unfoldable pub init_of : Text → Text
init_of [] = []
init_of (c ∷ []) = []
init_of (c ∷ d ∷ s) = c ∷ init_of (d ∷ s)

unfoldable pub toggled : Text → Text
unfolding init_of has_trailing_slash
toggled path = if has_trailing_slash path then init_of path else path ++ (slash ∷ [])

-- `_regex_route_match`
unfoldable pub regex_route_match : RegexRoute → Text → Option (Dict Text Text)
unfolding toggled
regex_route_match route path =
    first_some (route.pattern_match path)
      (if route.tolerant_slash then route.pattern_match (toggled path) else none)

-- What a group's converter makes of it, if it has one.
abbrev pub coerced : Text → Option Converter → Option Value
coerced value none = some (text value)
coerced value (some conv) = conv.match value

abbrev pub put_coerced : Text → Option Value → Option PathParams → Option PathParams
put_coerced name none rest = none
put_coerced name (some v) none = none
put_coerced name (some v) (some rest) = some ((name, v) ∷ rest)

-- `_coerce_regex_params`; `none` is a converter's refusal.
unfoldable pub coerce_regex_params : Dict Text Converter → Dict Text Text → Option PathParams
coerce_regex_params converters [] = some []
coerce_regex_params converters ((name, value) ∷ groups) =
    put_coerced name (coerced value (get name converters)) (coerce_regex_params converters groups)

abbrev pub coerced_groups : RegexRoute → Option (Dict Text Text) → Option PathParams
coerced_groups route none = none
coerced_groups route (some groups) = coerce_regex_params route.converters groups

-- The parameters of a path that the route's pattern matches and its converters take.
unfoldable pub params_of : RegexRoute → Text → Option PathParams
unfolding regex_route_match coerce_regex_params
params_of route path = coerced_groups route (regex_route_match route path)

-- The handler of a method in upper case.
unfoldable pub regex_handler : Text → Handlers → Option RouteInfo
regex_handler method_upper hs =
    first_some (get method_upper hs) (if method_upper == head then get get_method hs else none)

abbrev pub regex_match : Option RouteInfo → Option PathParams → Matched → Matched
regex_match none params later = later
regex_match (some info) none later = later
regex_match (some info) (some params) later =
    matched (record { route_info = info; path_params = params })

-- The loop over the routes.
unfoldable pub match_routes : List RegexRoute → Text → Text → Matched
unfolding regex_handler params_of
match_routes [] method_upper path = unmatched
match_routes (route ∷ routes) method_upper path =
    regex_match (regex_handler method_upper route.handlers) (params_of route path)
      (match_routes routes method_upper path)

-- `_match_regex`
unfoldable pub match_regex : List RegexRoute → Text → Text → Matched
unfolding match_routes
match_regex routes method path =
    match_routes routes (if is_upper_text method then method else upper method) path

-- methods.update(dict.fromkeys(more))
unfoldable pub add_methods : List Text → List Text → List Text
unfolding is_in
add_methods methods [] = methods
add_methods methods (m ∷ more) =
    add_methods (if is_in m methods then methods else methods ++ (m ∷ [])) more

abbrev pub keys : Handlers → List Text
keys hs = map (λ (entry : Text × RouteInfo). entry.0) hs

abbrev pub route_methods : RegexRoute → Option PathParams → List Text
route_methods route none = []
route_methods route (some params) = keys route.handlers

unfoldable pub regex_methods : List RegexRoute → Text → List Text → List Text
unfolding add_methods params_of
regex_methods [] path methods = methods
regex_methods (route ∷ routes) path methods =
    regex_methods routes path (add_methods methods (route_methods route (params_of route path)))

abbrev pub with_regex : List RegexRoute → Text → Option (List Text) → Option (List Text)
with_regex routes path none = none
with_regex routes path (some methods) = some (regex_methods routes path (add_methods [] methods))

-- `get_allowed_methods`; `none` is the `KeyError` of the walk.
unfoldable pub get_allowed_methods : Node → List RegexRoute → Text → Option (List Text)
unfolding tree_methods regex_methods add_methods
get_allowed_methods root routes path = with_regex routes path (tree_methods root path)
