-- ===== src/Routing/Register/Laws.antt =====
-- Lemmas on registration in src/veloce/routing/router.py.
use veloce.Prelude.{
  Bool, true, false, ◌||◌, ◌≡◌, refl, Option, some, List, [], ◌∷◌, if◌then◌else◌, arith, ◌==◌,
  Bool-cases, inl, inr,
}
use veloce.Prelude.Dict.{get, put}
use veloce.Prelude.Dict.Laws.{get-put}
use veloce.Prelude.Dict.Unique.{IsUnique, put-IsUnique}
use veloce.Text.{Text, text_eq, upper}
use veloce.Routing.Path.{slash, split_path, has_trailing_slash}
use veloce.Routing.Path.Laws.{trailing_of_last_empty, split_path-Lacks}
use veloce.Routing.Node.{RouteInfo, Handlers, Node, node, Converter, handlers, flags, new_node}
use veloce.Routing.Insert.{literal, parse_segment}
use veloce.Routing.Insert.WellFormed.{insert-IsWellFormed, new_node-IsWellFormed}
use veloce.Routing.Match.{Matched, match_tree}
use veloce.Routing.StaticMap.{match, or_regex}
use veloce.Routing.StaticMap.Descend.{IsWellFormed, wf_node}
use veloce.Routing.StaticMap.Sound.{taken, match-eq-match_tree}
use veloce.Routing.Register.{
  Registration, register_all, Policy, any_refused, put_methods, register_leaf, register,
}

-- Whether a method is among those of a registration.
abbrev pub listed : Text → List Text → Bool
listed k [] = false
listed k (method ∷ more) = upper method == k || listed k more

put_methods-IsUnique :
    (info : RouteInfo) (methods : List Text) (hs : Handlers)
    → IsUnique hs
    → IsUnique (put_methods info methods hs)
unfolding put_methods
put_methods-IsUnique info [] hs u = u
put_methods-IsUnique info (m ∷ more) hs u =
    put_methods-IsUnique info more _ (put-IsUnique (upper m) info hs u)

pub get-put_methods :
    (info : RouteInfo) (methods : List Text) (hs : Handlers) (k : Text)
    → get k (put_methods info methods hs) ≡ (if listed k methods then some info else get k hs)
unfolding put_methods
get-put_methods info [] hs k = refl
get-put_methods info (m ∷ more) hs k =
    ground (arith, get-put_methods info more (put (upper m) info hs) k, get-put (upper m) k info hs)

module _ (policy : Policy) (same : RouteInfo → RouteInfo → Bool) where
  register_leaf-IsWellFormed :
      (full_path : Text) (not_strict : Bool) (methods : List Text) (info : RouteInfo) (n : Node)
      → IsWellFormed n
      → IsWellFormed (register_leaf policy same full_path not_strict methods info n).0
  unfolding register_leaf
  register_leaf-IsWellFormed full_path not_strict methods info _ (wf_node {hs = hs} u ws) =
      elim (Bool-cases (any_refused policy same hs info methods)) [
        | inl t ↦ rw t (wf_node u ws)
        | inr f ↦ rw f (wf_node (put_methods-IsUnique info methods hs u) ws)
      ]

  -- The slashed form of a path is marked on its leaf, so the static map leaves the leaf out.
  register_leaf-marked :
      (full_path : Text) (not_strict : Bool) (methods : List Text) (info : RouteInfo) (n : Node)
      → has_trailing_slash full_path ≡ true
      → let n' = (register_leaf policy same full_path not_strict methods info n).0 in
        taken (handlers n') (flags n') ≡ false
  unfolding register_leaf
  register_leaf-marked full_path not_strict methods info (node hs fs ss ps w) h =
      elim (Bool-cases (any_refused policy same hs info methods)) [
        | inl t ↦ rw (t, h) (ground arith)
        | inr f ↦ rw (f, h) (ground arith)
      ]

  module _ (parse_converter : Text → Option Converter) (string_converter : Converter) where
    -- A literal segment of a template is its own text.
    parse_segment-literal :
        (seg s : Text)
        → parse_segment parse_converter string_converter seg ≡ some (literal s)
        → seg ≡ s
    unfolding parse_segment
    parse_segment-literal seg s h = ground arith

    register-IsWellFormed :
        (tail : Text) (not_strict : Bool) (methods : List Text) (info : RouteInfo) (root : Node)
        → IsWellFormed root
        → IsWellFormed
            (register policy same parse_converter string_converter
              (slash ∷ tail)
              not_strict
              methods
              info
              root).0
    unfolding register
    register-IsWellFormed tail not_strict methods info root wf =
        insert-IsWellFormed (parse_segment parse_converter string_converter)
          (register_leaf policy same (slash ∷ tail) not_strict methods info) parse_segment-literal
          (register_leaf-IsWellFormed (slash ∷ tail) not_strict methods info)
          (split_path (slash ∷ tail)) root
          (λ e c.
            register_leaf-marked (slash ∷ tail) not_strict methods info c
              (trailing_of_last_empty tail e))
          (split_path-Lacks tail) wf

    register_all-IsWellFormed :
        (rs : List Registration) (root : Node)
        → IsWellFormed root
        → IsWellFormed (register_all policy same parse_converter string_converter rs root)
    unfolding register_all
    register_all-IsWellFormed [] root wf = wf
    register_all-IsWellFormed (r ∷ more) root wf =
        register_all-IsWellFormed more _
          (register-IsWellFormed r.tail r.not_strict r.methods r.info root wf)

    -- Whatever was registered, calls that raised included, the static map changes no match: `match` is
    -- the walk on the tree, and what the regex routes say where that has no match.
    pub match-register_all :
        (rs : List Registration) (match_regex : Text → Text → Matched) (method path : Text)
        → let root = register_all policy same parse_converter string_converter rs new_node in
          match root match_regex method path
          ≡ or_regex (match_tree root method path) (match_regex method path)
    match-register_all rs match_regex method path =
        match-eq-match_tree _ match_regex method path
          (register_all-IsWellFormed rs new_node new_node-IsWellFormed)
