-- ===== src/Routing/Insert.antt =====
pub mod WellFormed
-- `_insert_path_into_tree` and the radix half of `_classify_route_path` of
-- src/veloce/routing/router.py. The leaf that the source returns, and that its callers then change,
-- is changed here by a function that the insertion takes, and that may raise.
use veloce.Prelude.{
  ℕ, suc, Bool, true, false, not, ◌&&◌, ◌||◌, Option, none, some, List, [], ◌∷◌, ◌++◌,
  if◌then◌else◌, ◌==◌, nat_eq, nat_beq,
}
use veloce.Text.Strip.{partition}
use veloce.Text.{Text, text_eq}
use veloce.Routing.Path.{split_path, has_trailing_slash}
use veloce.Routing.Node.{
  Converter, Param, Flags, RouteInfo, Node, node, Statics, Params, no_wildcard, wildcard, new_node,
  get_static, put_static, get_param, set_param, append_param, sort_params, statics, params,
}

-- A segment of a route's template.
pub data Segment : Type 0 where
  literal : Text → Segment
  star : Segment
  placeholder : Param → Segment

-- What adding a route raises: an error of the template, or `DuplicateRouteError`.
pub data RouteError : Type 0 where
  bad_converter greedy_not_last duplicate_route : RouteError

-- seg[1:-1] of a text in braces, without the opening brace
unfoldable pub braced : Text → Option Text
braced [] = none
braced (c ∷ []) = if c == b'}' then some [] else none
braced (c ∷ d ∷ s) =
    let rest = braced (d ∷ s) in elim rest [ none ↦ none | some inner ↦ some (c ∷ inner) ]

-- seg.startswith("{") and seg.endswith("}"), with seg[1:-1]
unfoldable pub unbrace : Text → Option Text
unfolding braced
unbrace [] = none
unbrace (c ∷ s) = if c == b'{' then braced s else none

-- `parse_converter`, and the `StringConverter()` of a bare name
module _ (parse_converter : Text → Option Converter) (string_converter : Converter) where
  unfoldable pub converter_of : Text → Option Converter
  converter_of [] = some string_converter
  converter_of (c ∷ s) = parse_converter (c ∷ s)

  unfoldable pub parse_placeholder : Text → Option Param
  unfolding partition converter_of
  parse_placeholder spec =
      let (name, conv_spec) = partition b':' spec in
      elim (converter_of conv_spec) [
        | none ↦ none
        | some c ↦ some (record { name = name; converter = c })
      ]

  unfoldable pub parse_segment : Text → Option Segment
  unfolding unbrace parse_placeholder
  parse_segment seg = elim (unbrace seg) [
    | some spec ↦ elim (parse_placeholder spec) [ none ↦ none | some p ↦ some (placeholder p) ]
    | none ↦ some (if seg == b'*' ∷ [] then star else literal seg)
  ]

-- The tree after the walk, which keeps the nodes that were made on the way also on an error.
abbrev pub Inserted : Type 0
Inserted = Node × Option RouteError

abbrev pub or_new : Option Node → Node
or_new none = new_node
or_new (some n) = n

-- A parameter child that is new goes to the end of the list, which is then sorted.
unfoldable pub put_param : Param → Node → Params → Params
put_param p n ps = elim (get_param p ps) [
  | none ↦ sort_params (append_param p n ps)
  | some _ ↦ set_param p n ps
]

unfoldable pub put_static_child : Text → Inserted → Node → Inserted
put_static_child seg (child, e) (node hs fs ss ps w) =
    (node hs fs (put_static seg child ss) ps w, e)

unfoldable pub put_param_child : Param → Inserted → Node → Inserted
unfolding put_param
put_param_child p (child, e) (node hs fs ss ps w) = (node hs fs ss (put_param p child ps) w, e)

abbrev pub with_wildcard : Inserted → Node → Inserted
with_wildcard (child, e) (node hs fs ss ps w) = (node hs fs ss ps (wildcard child), e)

unfoldable pub put_wildcard : (Node → Inserted) → Node → Inserted
put_wildcard leaf (node hs fs ss ps no_wildcard) =
    with_wildcard (leaf new_node) (node hs fs ss ps no_wildcard)
put_wildcard leaf (node hs fs ss ps (wildcard n)) =
    with_wildcard (leaf n) (node hs fs ss ps (wildcard n))

module _ (parse : Text → Option Segment) (leaf : Node → Inserted) where
  -- The greedy converter must be the last segment; the walk ends there.
  unfoldable pub end_greedy : List Text → Node → Inserted
  end_greedy [] child = leaf child
  end_greedy (_ ∷ _) child = (child, some greedy_not_last)

  -- One segment, `walk` being the insertion of the segments after it.
  unfoldable pub insert_segment : (Node → Inserted) → List Text → Option Segment → Node → Inserted
  unfolding put_static_child put_param_child put_wildcard end_greedy
  insert_segment walk rest none n = (n, some bad_converter)
  insert_segment walk rest (some (literal s)) n =
      put_static_child s (walk (or_new (get_static s (statics n)))) n
  insert_segment walk rest (some star) n = put_wildcard leaf n
  insert_segment walk rest (some (placeholder p)) n =
      let child = or_new (get_param p (params n)) in
      put_param_child p (if p.converter.greedy then end_greedy rest child else walk child) n

  unfoldable pub insert : List Text → Node → Inserted
  unfolding insert_segment
  insert [] n = leaf n
  insert (seg ∷ rest) n = insert_segment (insert rest) rest (parse seg) n

-- The flags that a registration sets on its leaf.
unfoldable pub mark_slash : Text → Bool → Node → Node
mark_slash full_path not_strict (node hs fs ss ps w) =
    let trailing = has_trailing_slash full_path in
    node hs
      (record {
        trailing_slash = fs.trailing_slash || trailing;
        unslashed_variant = fs.unslashed_variant || not trailing;
        tolerant_slash = fs.tolerant_slash || not_strict;
      })
      ss ps w
