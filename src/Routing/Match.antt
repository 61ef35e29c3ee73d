-- ===== src/Routing/Match.antt =====
-- The walk of a path on the tree: `_match_node`, `_slash_mismatch`, `_match_tree` and the tree's
-- half of `get_allowed_methods` of src/veloce/routing/router.py.
pub mod Branch
pub mod Accepts
use veloce.Prelude.{
  is_empty, ℕ, Bool, true, false, not, ◌&&◌, Option, none, some, List, [], ◌∷◌, if◌then◌else◌, ◌==◌,
  map, String, codes,
}
use veloce.Prelude.Dict.{Dict, get, put, pop, has}
use veloce.Text.{Text, text_eq, upper, is_upper_text}
use veloce.Text.Split.{join}
use veloce.Routing.Path.{slash, split_path, has_trailing_slash}
use veloce.Routing.Node.{
  Value, text, Param, Flags, RouteInfo, Handlers, Node, node, Statics, Params, no_params, param,
  Wildcard, no_wildcard, wildcard, get_static, handlers, flags,
}

-- The `params` dictionary, which a walk mutates and which keeps what a failed branch leaves there.
abbrev pub PathParams : Type 0
PathParams = Dict Text Value

-- A node, `None`, or the `KeyError` of `del params[pname]`.
pub data Found : Type 0 where
  hit : Node → Found
  miss : Found
  key_error : Found

abbrev pub Walk : Type 0
Walk = Found × PathParams

abbrev pub no_branch : Params → Wildcard → Bool
no_branch no_params no_wildcard = true
no_branch _ _ = false

abbrev pub is_single : Params → Bool
is_single (param _ _ no_params) = true
is_single _ = false

-- `return node if node.handlers else None`
unfoldable pub at_end : Node → PathParams → Walk
at_end n ps = if is_empty (handlers n) then (miss, ps) else (hit n, ps)

-- `del params[pname]`, unless the child is the only one
unfoldable pub rollback : Bool → Text → PathParams → Walk
rollback true pname ps = (miss, ps)
rollback false pname ps = if has pname ps then (miss, pop pname ps) else (key_error, ps)

-- The end of the scan: the wildcard child, if there is one.
unfoldable pub try_wildcard : Wildcard → List Text → PathParams → Walk
try_wildcard no_wildcard segs ps = (miss, ps)
try_wildcard (wildcard n) segs ps = (hit n, put (codes "_wildcard") (text (join slash segs)) ps)

-- Goes on after a branch that missed; a node or an error is final.
abbrev pub or_else : Walk → (PathParams → Walk) → Walk
or_else (hit n, ps) k = (hit n, ps)
or_else (miss, ps) k = k ps
or_else (key_error, ps) k = (key_error, ps)

-- The greedy converter takes what is left of the path, and its node must hold a route.
unfoldable pub try_greedy : Text → Node → Option Value → PathParams → Walk
try_greedy pname child none ps = (miss, ps)
try_greedy pname child (some v) ps =
    if is_empty (handlers child) then (miss, ps) else (hit child, put pname v ps)

-- Any other takes one segment; `walk` is the walk of the segments after it.
unfoldable pub try_plain :
    (Node → PathParams → Walk) → Bool → Text → Node → Option Value → PathParams → Walk
unfolding rollback
try_plain walk single pname child none ps = (miss, ps)
try_plain walk single pname child (some v) ps =
    or_else (walk child (put pname v ps)) (rollback single pname)

unfoldable pub try_param :
    (Node → PathParams → Walk) → Bool → Text → List Text → Param → Node → PathParams → Walk
unfolding try_greedy try_plain
try_param walk single seg rest p child ps =
    if p.converter.greedy
    then try_greedy p.name child (p.converter.match (join slash (seg ∷ rest))) ps
    else try_plain walk single p.name child (p.converter.match seg) ps

unfoldable pub try_params :
    (Node → PathParams → Walk)
    → Bool
    → Text
    → List Text
    → Params
    → (PathParams → Walk)
    → PathParams
    → Walk
unfolding try_param
try_params walk single seg rest no_params last ps = last ps
try_params walk single seg rest (param p child more) last ps =
    or_else (try_param walk single seg rest p child ps) (try_params walk single seg rest more last)

abbrev pub walk_static : (Node → PathParams → Walk) → Option Node → PathParams → Walk
walk_static walk none ps = (miss, ps)
walk_static walk (some c) ps = walk c ps

unfoldable pub match_node : List Text → Node → PathParams → Walk
unfolding at_end try_params try_wildcard get_static
match_node [] n ps = at_end n ps
match_node (seg ∷ rest) (node hs fs ss qs w) ps =
    let here = walk_static (match_node rest) (get_static seg ss) ps in
    if no_branch qs w
    then here
    else or_else here
        (try_params (match_node rest) (is_single qs) seg rest qs (try_wildcard w (seg ∷ rest)))

-- `_slash_mismatch`
unfoldable pub slash_mismatch : Node → Bool → Bool
slash_mismatch n request_has_slash =
    let fs = flags n in
    if fs.tolerant_slash
    then false
    else if fs.trailing_slash && not fs.unslashed_variant && not request_has_slash
    then true
    else fs.unslashed_variant
      && not fs.trailing_slash
      && request_has_slash
      && not (is_empty (handlers n))

pub record RouteMatch : Type 0 where
  pub route_info : RouteInfo
  pub path_params : PathParams

abbrev pub head : Text
head = codes "HEAD"

abbrev pub get_method : Text
get_method = codes "GET"

abbrev pub first_some {ℓ} : {A : Type ℓ} → Option A → Option A → Option A
first_some (some a) other = some a
first_some none other = other

-- The handler of a method, as it is written or in upper case; HEAD falls back to GET.
unfoldable pub handler_for : Text → Handlers → Option RouteInfo
handler_for method hs =
    let method_upper = if is_upper_text method then method else upper method in
    let again = if is_upper_text method then none else get method_upper hs in
    let fallback = if method_upper == head then get get_method hs else none in
    first_some (get method hs) (first_some again fallback)

-- `KeyError` is an outcome of its own.
pub data Matched : Type 0 where
  matched : RouteMatch → Matched
  unmatched : Matched
  raised : Matched

abbrev pub match_of : PathParams → Option RouteInfo → Matched
match_of ps none = unmatched
match_of ps (some info) = matched (record { route_info = info; path_params = ps })

abbrev pub finish : Text → Bool → Walk → Matched
finish method request_has_slash (miss, ps) = unmatched
finish method request_has_slash (key_error, ps) = raised
finish method request_has_slash (hit n, ps) =
    if slash_mismatch n request_has_slash
    then unmatched
    else match_of ps (handler_for method (handlers n))

-- `_match_tree`
unfoldable pub match_tree : Node → Text → Text → Matched
unfolding match_node slash_mismatch handler_for
match_tree root method path =
    finish method (has_trailing_slash path) (match_node (split_path path) root [])

abbrev pub methods_of : Bool → Walk → Option (List Text)
methods_of request_has_slash (miss, ps) = some []
methods_of request_has_slash (key_error, ps) = none
methods_of request_has_slash (hit n, ps) = some (
    if not (is_empty (handlers n)) && not (slash_mismatch n request_has_slash)
    then map (λ (entry : Text × RouteInfo). entry.0) (handlers n)
    else [])

-- `get_allowed_methods`, the methods of the tree; `none` is the `KeyError`.
unfoldable pub tree_methods : Node → Text → Option (List Text)
unfolding match_node slash_mismatch
tree_methods root path = methods_of (has_trailing_slash path) (match_node (split_path path) root [])
