-- ===== src/Routing/StaticMap.antt =====
-- The map of literal paths: `_build_static_routes` and `match` of src/veloce/routing/router.py. The
-- source's stack visits a node's children from the last to the first, each with its subtree.
pub mod Descend
pub mod Sound
use veloce.Prelude.{
  is_empty, ℕ, Bool, true, false, not, ◌&&◌, ◌↔◌, ◌≡◌, Option, none, some, List, [], ◌∷◌, ◌++◌,
  if◌then◌else◌, ◌==◌, Key, arith,
}
use veloce.Prelude.Dict.{Dict, get, put, has}
use veloce.Text.{Text, text_eq, text_beq, text_beq_iff}
use veloce.Routing.Path.{slash}
use veloce.Routing.Path.Laws.{or_root}
use veloce.Routing.Node.{RouteInfo, Handlers, Flags, Node, node, Statics, no_statics, static}
use veloce.Routing.Match.{head, get_method, Matched, matched, unmatched, match_tree, RouteMatch}

pub key_iff : (a b : Text × Text) → ((text_beq a.0 b.0 && text_beq a.1 b.1) ≡ true) ↔ (a ≡ b)
key_iff a b = ground (arith, text_beq_iff a.0 b.0, text_beq_iff a.1 b.1)

instance abbrev pub key_eq : Key (Text × Text)
key_eq = record { same = λ a b. text_beq a.0 b.0 && text_beq a.1 b.1; same_iff = key_iff }

-- (method, path) -> RouteInfo
abbrev pub StaticRoutes : Type 0
StaticRoutes = Dict (Text × Text) RouteInfo

-- for method, info in node.handlers.items(): smap[(method, path)] = info
unfoldable pub add_handlers : Text → Handlers → StaticRoutes → StaticRoutes
add_handlers path [] m = m
add_handlers path ((method, info) ∷ hs) m = add_handlers path hs (put (method, path) info m)

abbrev pub put_some : Text → Option RouteInfo → StaticRoutes → StaticRoutes
put_some path none m = m
put_some path (some info) m = put (head, path) info m

-- The alias of HEAD for a path that has GET alone.
unfoldable pub add_head : Text → Handlers → StaticRoutes → StaticRoutes
add_head path hs m = if has head hs then m else put_some path (get get_method hs) m

unfoldable pub add_node : Text → Handlers → Flags → StaticRoutes → StaticRoutes
unfolding add_handlers add_head
add_node prefix hs fs m =
    if not (is_empty hs) && not fs.trailing_slash && not fs.tolerant_slash
    then add_head (or_root prefix) hs (add_handlers (or_root prefix) hs m)
    else m

unfoldable mutual
  pub build : Text → Node → StaticRoutes → StaticRoutes
  build prefix (node hs fs ss ps w) m = build_statics prefix ss (add_node prefix hs fs m)

  pub build_statics : Text → Statics → StaticRoutes → StaticRoutes
  build_statics prefix no_statics m = m
  build_statics prefix (static s n rest) m =
      build (prefix ++ (slash ∷ s)) n (build_statics prefix rest m)

unfoldable pub build_static_routes : Node → StaticRoutes
unfolding build add_node
build_static_routes root = build [] root []

abbrev or_match : Option RouteInfo → Matched → Matched
or_match none rest = rest
or_match (some info) rest = matched (record { route_info = info; path_params = [] })

-- A match on the tree, or what the regex routes say when the tree has none.
abbrev pub or_regex : Matched → Matched → Matched
or_regex unmatched regex = regex
or_regex found regex = found

-- `match`; `match_regex` is the fallback, which is consulted on a miss alone.
unfoldable pub match : Node → (Text → Text → Matched) → Text → Text → Matched
unfolding build_static_routes match_tree
match root match_regex method path =
    or_match (get (method, path) (build_static_routes root))
      (or_regex (match_tree root method path) (match_regex method path))
