-- ===== src/Routing/Register.antt =====
-- Adding a route to the tree: `_classify_route_path` and `_commit_route_methods` of
-- src/veloce/routing/router.py. The reverse map of names is not modelled.
pub mod Laws
pub mod Outcome
use veloce.Prelude.{
  Bool, true, false, not, ◌&&◌, ◌||◌, Option, none, some, List, [], ◌∷◌, if◌then◌else◌,
}
use veloce.Prelude.Dict.{Dict, get, put}
use veloce.Text.{Text, text_eq, upper}
use veloce.Routing.Path.{slash, split_path}
use veloce.Routing.Node.{RouteInfo, Handlers, Node, node, Converter, handlers}
use veloce.Routing.Insert.{Inserted, RouteError, duplicate_route, insert, parse_segment, mark_slash}

-- `on_duplicate`
pub data Policy : Type 0 where
  override warn refuse : Policy

-- The second pass: for method in methods: handler_table[method.upper()] = route_info
unfoldable pub put_methods : RouteInfo → List Text → Handlers → Handlers
put_methods info [] hs = hs
put_methods info (method ∷ more) hs = put_methods info more (put (upper method) info hs)

-- The leaf with the table that is committed, or as it is where `DuplicateRouteError` is raised.
abbrev pub with_handlers : Node → Option Handlers → Inserted
with_handlers n none = (n, some duplicate_route)
with_handlers (node hs fs ss ps w) (some hs') = (node hs' fs ss ps w, none)

-- `same` is `_allow_duplicate`, which compares two records of a route.
module _ (policy : Policy) (same : RouteInfo → RouteInfo → Bool) where
  -- A method that has another route already.
  unfoldable pub is_conflict : Option RouteInfo → RouteInfo → Bool
  is_conflict none info = false
  is_conflict (some existing) info = not (same existing info)

  -- The first pass: whether some method is refused.
  unfoldable pub any_refused : Handlers → RouteInfo → List Text → Bool
  unfolding is_conflict
  any_refused hs info [] = false
  any_refused hs info (method ∷ more) =
      let later = any_refused hs info more in
      elim policy [
        | refuse ↦ is_conflict (get (upper method) hs) info || later
        | _ ↦ false || later
      ]

  -- `none` is `DuplicateRouteError`.
  unfoldable pub commit_methods : List Text → RouteInfo → Handlers → Option Handlers
  unfolding any_refused put_methods
  commit_methods methods info hs =
      if any_refused hs info methods then none else some (put_methods info methods hs)

  -- The flags of the path's form are set before the methods are committed, so a refusal keeps them.
  unfoldable pub register_leaf : Text → Bool → List Text → RouteInfo → Node → Inserted
  unfolding commit_methods mark_slash
  register_leaf full_path not_strict methods info n =
      let n' = mark_slash full_path not_strict n in
      with_handlers n' (commit_methods methods info (handlers n'))

  module _ (parse_converter : Text → Option Converter) (string_converter : Converter) where
    unfoldable pub register : Text → Bool → List Text → RouteInfo → Node → Inserted
    unfolding insert register_leaf parse_segment
    register full_path not_strict methods info root =
        insert (parse_segment parse_converter string_converter)
          (register_leaf full_path not_strict methods info) (split_path full_path) root

-- One call of `add_route`, its path behind the first slash.
pub record Registration : Type 0 where
  pub tail : Text
  pub not_strict : Bool
  pub methods : List Text
  pub info : RouteInfo

module _ (policy : Policy) (same : RouteInfo → RouteInfo → Bool)
    (parse_converter : Text → Option Converter) (string_converter : Converter) where
  -- The tree after a sequence of calls, the ones that raise included.
  unfoldable pub register_all : List Registration → Node → Node
  unfolding register
  register_all [] root = root
  register_all (r ∷ more) root =
      register_all more
        (register policy same parse_converter string_converter (slash ∷ r.tail) r.not_strict
          r.methods r.info root).0
