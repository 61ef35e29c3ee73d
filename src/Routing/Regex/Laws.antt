-- ===== src/Routing/Regex/Laws.antt =====
-- Lemmas on regex routes: what `get_allowed_methods` of src/veloce/routing/router.py lists, and what
-- `match` finds.
use veloce.Prelude.{
  Bool, true, false, not, ◌&&◌, ◌||◌, ◌≡◌, refl, ap, sym, ◌∙◌, Option, none, some, List, [], ◌∷◌,
  ◌++◌, ◌==◌, if◌then◌else◌, Bool-cases, inl, inr, arith, is_empty,
}
use veloce.Prelude.Dict.{get}
use veloce.Text.{Text, text_eq, text_beq_iff, is_upper_text, is_in}
use veloce.Routing.Path.{has_trailing_slash, split_path}
use veloce.Routing.Node.{RouteInfo, Handlers, Node, handlers, new_node, Converter}
use veloce.Routing.Match.{
  PathParams, Matched, matched, unmatched, raised, Walk, hit, miss, key_error, head, handler_for,
  match_of, finish, match_tree, methods_of, tree_methods, match_node, slash_mismatch,
}
use veloce.Routing.StaticMap.{match, or_regex}
use veloce.Routing.Register.{Policy, Registration, register_all}
use veloce.Routing.Register.Laws.{match-register_all}
use veloce.Routing.Regex.{
  RegexRoute, params_of, regex_handler, regex_match, match_routes, match_regex, add_methods, keys,
  route_methods, regex_methods, with_regex, get_allowed_methods,
}

abbrev is_some {ℓ} : {A : Type ℓ} → Option A → Bool
is_some none = false
is_some (some a) = true

abbrev pub is_matched : Matched → Bool
is_matched (matched m) = true
is_matched unmatched = false
is_matched raised = false

-- A method in upper case, which is not the HEAD that falls back to GET.
abbrev pub IsPlain : Text → Type 0
IsPlain method = (is_upper_text method ≡ true) × ((method == head) ≡ false)

is_in-keys : (method : Text) (hs : Handlers) → is_in method (keys hs) ≡ is_some (get method hs)
unfolding is_in get
is_in-keys method [] = refl
is_in-keys method ((k, info) ∷ hs) = ground (arith, is_in-keys method hs)

is_in-snoc :
    (method m : Text) (ms : List Text)
    → is_in method (ms ++ (m ∷ [])) ≡ (is_in method ms || m == method)
unfolding is_in
is_in-snoc method m [] = ground arith
is_in-snoc method m (x ∷ ms) = ground (arith, is_in-snoc method m ms)

is_in-add_one :
    (method m : Text) (ms : List Text)
    → is_in method (if is_in m ms then ms else ms ++ (m ∷ [])) ≡ (is_in method ms || m == method)
is_in-add_one method m ms = elim (Bool-cases (is_in m ms)) [
  | inl t ↦ rw t (elim (Bool-cases (m == method)) [
    | inl same ↦
        ap (λ (k : Text). is_in k ms) (sym ((text_beq_iff m method).0 same))
        ∙ t
        ∙ sym (rw same (ground arith))
    | inr other ↦ rw other (ground arith)
  ])
  | inr f ↦ rw f (is_in-snoc method m ms)
]

is_in-add_methods :
    (method : Text) (ms more : List Text)
    → is_in method (add_methods ms more) ≡ (is_in method ms || is_in method more)
unfolding add_methods
is_in-add_methods method ms [] = unfold is_in in ground arith
is_in-add_methods method ms (m ∷ more) =
    is_in-add_methods method (if is_in m ms then ms else ms ++ (m ∷ [])) more
    ∙ rw (is_in-add_one method m ms) (unfold is_in in ground arith)

regex_handler-plain :
    (method : Text) (hs : Handlers)
    → IsPlain method
    → is_some (regex_handler method hs) ≡ is_some (get method hs)
unfolding regex_handler
regex_handler-plain method hs (u, h) = ground (arith)

handler_for-plain :
    (method : Text) (hs : Handlers)
    → IsPlain method
    → is_some (handler_for method hs) ≡ is_some (get method hs)
unfolding handler_for
handler_for-plain method hs (u, h) = rw (u, h) (ground arith)

regex_match-one :
    (info : Option RouteInfo) (params : Option PathParams) (later : Matched)
    → is_matched (regex_match info params later)
      ≡ ((is_some info && is_some params) || is_matched later)
regex_match-one none params later = refl
regex_match-one (some info) none later = refl
regex_match-one (some info) (some params) later = refl

is_in-route_methods :
    (method : Text) (route : RegexRoute) (params : Option PathParams)
    → is_in method (route_methods route params)
      ≡ (is_some (get method route.handlers) && is_some params)
is_in-route_methods method route none = unfold is_in in ground arith
is_in-route_methods method route (some params) = ground (arith, is_in-keys method route.handlers)

is_in-regex_methods :
    (method path : Text) (routes : List RegexRoute) (ms : List Text)
    → IsPlain method
    → is_in method (regex_methods routes path ms)
      ≡ (is_in method ms || is_matched (match_routes routes method path))
unfolding regex_methods match_routes
is_in-regex_methods method path [] ms p = ground arith
is_in-regex_methods method path (route ∷ routes) ms p =
    let params = params_of route path in
    let one = is_in-route_methods method route params in
    let two = is_in-add_methods method ms (route_methods route params) in
    let handler = regex_handler-plain method route.handlers p in
    is_in-regex_methods method path routes (add_methods ms (route_methods route params)) p
    ∙ rw
        (
          two,
          one,
          regex_match-one (regex_handler method route.handlers) params
              (match_routes routes method path),
          handler,
        )
        (ground arith)

is_in-tree_keys :
    (method : Text) (hs : Handlers) (mismatch : Bool)
    → is_in method (if not (is_empty hs) && not mismatch then keys hs else [])
      ≡ (not mismatch && is_some (get method hs))
is_in-tree_keys method [] mismatch = unfold is_in get in ground arith
is_in-tree_keys method (h ∷ hs) true = unfold is_in in refl
is_in-tree_keys method (h ∷ hs) false = is_in-keys method (h ∷ hs)

match_of-one :
    (ps : PathParams) (o : Option RouteInfo) (later : Matched)
    → is_matched (or_regex (match_of ps o) later) ≡ (is_some o || is_matched later)
match_of-one ps none later = refl
match_of-one ps (some info) later = refl

module _ (method path : Text) (routes : List RegexRoute) (p : IsPlain method) where
  match_regex-plain : match_regex routes method path ≡ match_routes routes method path
  unfolding match_regex
  match_regex-plain = rw (p.0) refl

  is_in-with_tree :
      (tree ms : List Text)
      → with_regex routes path (some tree) ≡ some ms
      → is_in method ms ≡ (is_in method tree || is_matched (match_regex routes method path))
  is_in-with_tree tree ms h =
      let e : regex_methods routes path (add_methods [] tree) ≡ ms = cc h in
      let start = is_in-add_methods method [] tree in
      rw (sym e, match_regex-plain)
        (is_in-regex_methods method path routes (add_methods [] tree) p
          ∙ rw start (unfold is_in in refl))

  allowed-walk :
      (w : Walk) (request_has_slash : Bool) (ms : List Text)
      → with_regex routes path (methods_of request_has_slash w) ≡ some ms
      → is_in method ms
        ≡ is_matched (or_regex (finish method request_has_slash w) (match_regex routes method path))
  allowed-walk (miss, ps) request_has_slash ms h = is_in-with_tree [] ms h ∙ unfold is_in in refl
  allowed-walk (key_error, ps) request_has_slash ms h = cc h
  allowed-walk (hit n, ps) request_has_slash ms h =
      is_in-with_tree
        (if not (is_empty (handlers n)) && not (slash_mismatch n request_has_slash)
          then keys (handlers n)
          else [])
        ms h
      ∙ rw (is_in-tree_keys method (handlers n) (slash_mismatch n request_has_slash))
          (elim (Bool-cases (slash_mismatch n request_has_slash)) [
            | inl t ↦ rw t refl
            | inr f ↦
                rw
                  (
                    f,
                    match_of-one ps (handler_for method (handlers n))
                        (match_regex routes method path),
                    handler_for-plain method (handlers n) p,
                  )
                  refl
          ])

module _ (policy : Policy) (same : RouteInfo → RouteInfo → Bool)
    (parse_converter : Text → Option Converter) (string_converter : Converter) where
  -- The tree after these calls.
  abbrev pub table : List Registration → Node
  table rs = register_all policy same parse_converter string_converter rs new_node

  -- Whatever was registered: if the walk raises no KeyError, the methods that are allowed for a path
  -- are those that `match` answers, over its static map, the tree and the regex routes together, for
  -- any method in upper case but HEAD.
  pub get_allowed_methods-match :
      (rs : List Registration) (routes : List RegexRoute) (method path : Text) (ms : List Text)
      → IsPlain method
      → get_allowed_methods (table rs) routes path ≡ some ms
      → is_in method ms ≡ is_matched (match (table rs) (match_regex routes) method path)
  unfolding get_allowed_methods tree_methods match_tree
  get_allowed_methods-match rs routes method path ms p h =
      let root = table rs in
      allowed-walk method path routes p (match_node (split_path path) root [])
        (has_trailing_slash path) ms h
      ∙ ap is_matched (
          sym (
            match-register_all policy same parse_converter string_converter rs (match_regex routes)
              method path))
