-- ===== src/Tests/Routing.antt =====
-- Tests of Routing: a small table of routes.
use veloce.Prelude.{
  ℕ, ◌≡◌, refl, Bool, true, false, Option, none, some, List, [], ◌∷◌, ◌++◌, codes, if◌then◌else◌,
  ◌==◌, String, ◌⊎◌,
}
use veloce.Prelude.Dict.{get, put, has, pop}
use veloce.Text.{Text, text_eq, text_beq, upper, is_upper_text, is_in}
use veloce.Text.Split.{join, split}
use veloce.Routing.Path.{slash, split_path, has_trailing_slash}
use veloce.Routing.Path.Laws.{join-split_path, tail_of}
use veloce.Routing.Node.{
  Value, Converter, RouteInfo, Node, node, no_flags, no_statics, no_params, no_wildcard, flags,
  new_node, handlers, put_static, get_param, set_param, sort_params, append_param,
}
use veloce.Routing.Match.{
  key_error, Matched, matched, unmatched, match_node, match_tree, tree_methods,
}
use veloce.Routing.Match.Branch.{Sound}
use veloce.Routing.Match.Accepts.{Accepts, match_node-Sound}
use veloce.Routing.StaticMap.{match, or_regex}
use veloce.Routing.Regex.{RegexRoute, match_regex, get_allowed_methods}
use veloce.Routing.Regex.Laws.{is_matched, get_allowed_methods-match}
use veloce.Routing.Register.{
  override, refuse, Registration, register_all, register, register_leaf, any_refused,
}
use veloce.Routing.Insert.{duplicate_route, mark_slash}
use veloce.Routing.Register.Laws.{match-register_all}
use veloce.Routing.Register.Outcome.{IsRefused, IsKeptBut, IsCommitted, register_leaf-outcome}

-- `StringConverter()`, and a greedy one like `PathConverter`.
abbrev any_text : Converter
any_text = record {
  key = codes "str";
  greedy = false;
  specificity = 50;
  match = λ s. if s == [] then none else some (Value.text s);
}

abbrev rest_of_path : Converter
rest_of_path = record {
  key = codes "path";
  greedy = true;
  specificity = 90;
  match = λ s. if s == [] then none else some (Value.text s);
}

abbrev parse_converter : Text → Option Converter
parse_converter spec = if spec == codes "path" then some rest_of_path else none

abbrev same : RouteInfo → RouteInfo → Bool
same a b = a.name == b.name

abbrev info : String → ℕ → RouteInfo
info name handler = record { name = codes name; handler = handler }

abbrev route : String → String → RouteInfo → Registration
route tail method i = record {
  tail = codes tail;
  not_strict = false;
  methods = codes method ∷ [];
  info = i;
}

abbrev routes : List Registration
routes =
    route "users/{id}" "GET" (info "user" 1)
    ∷ route "users/me" "get" (info "me" 2)
    ∷ route "files/{p:path}" "GET" (info "file" 3)
    ∷ route "users/" "POST" (info "new" 4)
    ∷ []

abbrev table : Node
table = register_all override same parse_converter any_text routes new_node

abbrev no_regex : Text → Text → Matched
no_regex method path = unmatched

abbrev ask : String → String → Matched
ask method path = match table no_regex (codes method) (codes path)

match_tests :
    (ask "GET" "/users/me" ≡ matched (record { route_info = info "me" 2; path_params = [] }))
    × (ask "GET" "/users/7"
        ≡ matched (record {
          route_info = info "user" 1;
          path_params = (codes "id", Value.text (codes "7")) ∷ [];
        }))
    × (ask "HEAD" "/files/a/b"
        ≡ matched (record {
          route_info = info "file" 3;
          path_params = (codes "p", Value.text (codes "a/b")) ∷ [];
        }))
    × (ask "POST" "/users" ≡ unmatched)
    × (ask "GET" "//users/me" ≡ unmatched)
unfolding match match_tree match_node register_all split_path has_trailing_slash get text_beq split
    put_static put has upper get_param sort_params append_param join is_upper_text set_param pop
match_tests = (refl, refl, refl, refl, refl)

match-register_all_example :
    match table no_regex (codes "HEAD") (codes "/users/me")
    ≡ or_regex (match_tree table (codes "HEAD") (codes "/users/me")) unmatched
match-register_all_example =
    match-register_all override same parse_converter any_text routes no_regex (codes "HEAD")
      (codes "/users/me")

match_node-Sound_example :
    Sound
      (λ l. Accepts l table (codes "users" ∷ codes "me" ∷ []))
      (match_node (codes "users" ∷ codes "me" ∷ []) table [])
match_node-Sound_example = match_node-Sound (codes "users" ∷ codes "me" ∷ []) table []

-- `/a` with a route for GET, and a registration of `/a/` for GET and POST that is refused.
abbrev held : Node
held =
    register_all refuse same parse_converter any_text (route "a" "GET" (info "a" 1) ∷ []) new_node

abbrev slashed : Registration
slashed = record {
  tail = codes "a/";
  not_strict = false;
  methods = codes "POST" ∷ codes "get" ∷ [];
  info = info "b" 2;
}

-- The refused call raises, but `/a/`, which had no match, is answered from then on.
refused_tests :
    ((register refuse same parse_converter any_text
        (codes "/a/")
        false
        slashed.methods
        slashed.info
        held).1
      ≡ some duplicate_route)
    × (match_tree held (codes "GET") (codes "/a/") ≡ unmatched)
    × (match_tree
          (register_all refuse same parse_converter any_text (slashed ∷ []) held)
          (codes "GET")
          (codes "/a/")
        ≡ matched (record { route_info = info "a" 1; path_params = [] }))
unfolding match_tree match_node register_all register split_path has_trailing_slash get text_beq
    split put_static put has upper get_param sort_params append_param join is_upper_text set_param
    pop any_refused
refused_tests = (refl, refl, refl)

abbrev full : Node
full = node ((codes "GET", info "a" 1) ∷ []) no_flags no_statics no_params no_wildcard

register_leaf-outcome_example :
    let methods = codes "POST" ∷ codes "get" ∷ [] in
    let result = register_leaf refuse same (codes "/a/") false methods (info "b" 2) full in
    (IsRefused same refuse (handlers full) (info "b" 2) methods
      × IsKeptBut same (codes "/a/") false full result)
    ⊎ (¬ IsRefused same refuse (handlers full) (info "b" 2) methods
        × IsCommitted same methods (info "b" 2) (codes "GET") full result
        × (flags result.0 ≡ flags (mark_slash (codes "/a/") false full)))
register_leaf-outcome_example =
    register_leaf-outcome same refuse (codes "/a/") false (codes "POST" ∷ codes "get" ∷ [])
      (info "b" 2) full (codes "GET")

join-split_path_example :
    codes "/a//b/" ≡ slash ∷ (join slash (split_path (codes "/a//b/")) ++ tail_of (codes "/a//b/"))
join-split_path_example = join-split_path (codes "a//b/")

-- A template that repeats a name, with alternatives beside both: the rollback of the inner branch
-- takes the name that the outer one drops next.
abbrev repeated : Node
repeated =
    register_all override same parse_converter any_text
      (route "{x}/{x}/p" "GET" (info "p" 1)
        ∷ route "{y}/q" "GET" (info "q" 2)
        ∷ route "{x}/{y}" "GET" (info "r" 3)
        ∷ [])
      new_node

repeated_test : (match_node (codes "1" ∷ codes "2" ∷ codes "3" ∷ []) repeated []).0 ≡ key_error
unfolding match_node register_all split_path has_trailing_slash get text_beq split put_static put
    has upper get_param sort_params append_param join is_upper_text set_param pop
repeated_test = refl

-- A route of `/v{n}`, whose pattern takes anything behind `/v`.
abbrev version : RegexRoute
version = record {
  pattern_match = λ s. if s == codes "/v1" then some ((codes "n", codes "1") ∷ []) else none;
  converters = [];
  handlers = (codes "GET", info "version" 5) ∷ [];
  tolerant_slash = true;
}

regex_tests :
    (match table (match_regex (version ∷ [])) (codes "GET") (codes "/v1/")
      ≡ matched (record {
        route_info = info "version" 5;
        path_params = (codes "n", Value.text (codes "1")) ∷ [];
      }))
    × (get_allowed_methods table (version ∷ []) (codes "/users/me") ≡ some (codes "GET" ∷ []))
    × (get_allowed_methods table (version ∷ []) (codes "/v1") ≡ some (codes "GET" ∷ []))
    × (get_allowed_methods table (version ∷ []) (codes "/users") ≡ some [])
unfolding match match_tree match_node register_all split_path has_trailing_slash get text_beq split
    put_static put has upper get_param sort_params append_param join is_upper_text set_param pop
    match_regex get_allowed_methods tree_methods is_in
regex_tests = (refl, refl, refl, refl)

get_allowed_methods-match_example :
    is_in (codes "GET") (codes "GET" ∷ [])
    ≡ is_matched (match table (match_regex (version ∷ [])) (codes "GET") (codes "/v1"))
unfolding is_upper_text text_beq match match_tree match_node register_all split_path
    has_trailing_slash get split put_static put has upper get_param sort_params append_param join
    set_param pop match_regex get_allowed_methods tree_methods is_in
get_allowed_methods-match_example =
    get_allowed_methods-match override same parse_converter any_text routes (version ∷ [])
      (codes "GET") (codes "/v1") (codes "GET" ∷ []) (refl, refl) refl
