-- ===== src/Routing/StaticMap/Sound.antt =====
-- The static map of src/veloce/routing/router.py against the walk on the tree.
use mathlib.Core.Path.{subst}
use mathlib.Core.Option.{some-injective}
use veloce.Prelude.{
  is_empty, Bool, true, false, not, ◌&&◌, ◌≡◌, refl, sym, ap, ◌∙◌, none, some, List, [], ◌∷◌, ◌++◌,
  ◌==◌, arith, All, All-append, Bool-cases, Option-cases, inl, inr,
}
use veloce.Prelude.Dict.{get, put, has}
use veloce.Prelude.Dict.Laws.{get-put}
use veloce.Prelude.Dict.Unique.{IsUnique}
use veloce.Text.{Text, text_eq, text_beq_iff, text_beq_refl}
use veloce.Text.Split.{Lacks}
use veloce.Routing.Path.{slash}
use veloce.Routing.Path.Laws.{or_root, render, last_empty, split_path-render}
use veloce.Routing.Node.{
  RouteInfo, Handlers, Flags, Node, node, Statics, static, Params, Wildcard, get_static, handlers,
  statics, flags,
}
use veloce.Routing.Match.{
  head, get_method, Matched, matched, match_tree, handler_for, slash_mismatch,
}
use veloce.Routing.StaticMap.{
  key_eq, key_iff, StaticRoutes, add_handlers, add_head, add_node, build, build_statics,
  build_static_routes, or_regex, match,
}
use veloce.Routing.StaticMap.Descend.{
  wf_node, wf_none, wf_more, descend, IsSlashed, IsWellFormed, AreWellFormed, match_node-descend,
  descend-snoc, render-snoc, last_empty-snoc, handler_for_listed, handler_for-head, has-get,
  get_first, get-later,
}

-- What makes one entry right.
abbrev IsRight : Node → Text → Text → RouteInfo → Type 0
IsRight root method path info =
    match_tree root method path ≡ matched (record { route_info = info; path_params = [] })

abbrev pub IsSound : Node → StaticRoutes → Type 0
IsSound root m =
    (method path : Text) (info : RouteInfo)
    → get (method, path) m ≡ some info
    → IsRight root method path info

put-IsSound :
    (root : Node) (m : StaticRoutes) (method path : Text) (info : RouteInfo)
    → IsSound root m
    → IsRight root method path info
    → IsSound root (put (method, path) info m)
put-IsSound root m method path info h r method' path' info' g =
    let k : Text × Text = (method, path) in
    let k' : Text × Text = (method', path') in
    let g' = rw (get-put k k' info m) at g in
    elim (Bool-cases (k == k')) [
      | inl t ↦
          let same : k ≡ k' = (key_iff k k').0 t in
          let i : info ≡ info' = some-injective info info' (rw t at g') in
          subst (λ (x : RouteInfo). IsRight root method' path' x) i
            (subst (λ (x : Text × Text). IsRight root x.0 x.1 info) same r)
      | inr f ↦ h method' path' info' (rw f at g')
    ]

module _ (root : Node) (path : Text) (hs : Handlers)
    (right : (method : Text) (info : RouteInfo)
      → handler_for method hs ≡ some info
      → IsRight root method path info) where
  -- Every listed handler is right, whatever has been stored before.
  add_handlers-IsSound :
      (some_hs : Handlers) (m : StaticRoutes)
      → IsUnique some_hs
      → ((k : Text) (info : RouteInfo) → get k some_hs ≡ some info → get k hs ≡ some info)
      → IsSound root m
      → IsSound root (add_handlers path some_hs m)
  unfolding add_handlers
  add_handlers-IsSound [] m u within h = h
  add_handlers-IsSound ((method, info) ∷ more) m (new, u) within h =
      add_handlers-IsSound more (put (method, path) info m) u
        (λ k info' g. within k info' (get-later method k info info' more new g))
        (put-IsSound root m method path info h (
          right method info
            (handler_for_listed method hs info (within method info (get_first method info more)))))

  add_head-IsSound : (m : StaticRoutes) → IsSound root m → IsSound root (add_head path hs m)
  unfolding add_head
  add_head-IsSound m h = elim (Bool-cases (has head hs)) [
    | inl t ↦ rw t h
    | inr f ↦ rw f (elim (Option-cases (get get_method hs)) [
      | inl none_ ↦ rw none_ h
      | inr (info, g) ↦ rw g (
          put-IsSound root m head path info h
            (right head info (handler_for-head hs info (has-get head hs f) g)))
    ])
  ]

-- A node that the map takes in: its handlers answer for the path that spells it.
node-IsRight :
    (root : Node) (segs : List Text) (hs : Handlers) (fs : Flags) (ss : Statics) (ps : Params)
    (w : Wildcard)
    → descend segs root ≡ some (node hs fs ss ps w)
    → All (Lacks slash) segs
    → last_empty segs ≡ false
    → (not (is_empty hs) && not fs.trailing_slash && not fs.tolerant_slash) ≡ true
    → (method : Text) (info : RouteInfo) → handler_for method hs ≡ some info
    → IsRight root method (or_root (render segs)) info
unfolding match_tree slash_mismatch
node-IsRight root segs hs fs ss ps w d a e t method info g =
    let (split, slashless) = split_path-render segs a e in
    let full : is_empty hs ≡ false = ground arith in
    let m : slash_mismatch (node hs fs ss ps w) false ≡ false = ground arith in
    rw (split, slashless, match_node-descend segs root (node hs fs ss ps w) [] d full, m, g) refl

static_first : (s : Text) (n : Node) (rest : Statics) → get_static s (static s n rest) ≡ some n
unfolding get_static
static_first s n rest = rw (text_beq_refl s) refl

static_later :
    (s k : Text) (n c : Node) (rest : Statics)
    → get_static s rest ≡ none
    → get_static k rest ≡ some c
    → get_static k (static s n rest) ≡ some c
static_later s k n c rest new g = elim (Bool-cases (s == k)) [
  | inl t ↦
      let e : get_static s rest ≡ get_static k rest =
        ap (λ (x : Text). get_static x rest) ((text_beq_iff s k).0 t) in
      cc (e)
  | inr f ↦ unfold get_static in rw f g
]

not_true : (b : Bool) → (b ≡ true → ⊥) → b ≡ false
not_true true h = absurd (h refl)
not_true false h = refl

-- Whether the map takes in the handlers of a node.
abbrev pub taken : Handlers → Flags → Bool
taken hs fs = not (is_empty hs) && not fs.trailing_slash && not fs.tolerant_slash

module _ (root : Node) where
  add_node-IsSound :
      (segs : List Text) (hs : Handlers) (fs : Flags) (ss : Statics) (ps : Params) (w : Wildcard)
      (m : StaticRoutes)
      → descend segs root ≡ some (node hs fs ss ps w)
      → All (Lacks slash) segs
      → (last_empty segs ≡ true → taken hs fs ≡ false)
      → IsUnique hs
      → IsSound root m
      → IsSound root (add_node (render segs) hs fs m)
  unfolding add_node
  add_node-IsSound segs hs fs ss ps w m d a q u h = elim (Bool-cases (taken hs fs)) [
    | inl t ↦
        let e : last_empty segs ≡ false = not_true _ (λ l. cc (q l)) in
        let right = node-IsRight root segs hs fs ss ps w d a e t in
        let path = or_root (render segs) in
        rw t (
          add_head-IsSound root path hs right (add_handlers path hs m)
            (add_handlers-IsSound root path hs right hs m u (λ k info g. g) h))
    | inr f ↦ rw f h
  ]

  slashed :
      (segs : List Text) (s : Text) (hs : Handlers) (fs : Flags)
      → IsSlashed s hs fs
      → last_empty (segs ++ s ∷ []) ≡ true
      → taken hs fs ≡ false
  slashed segs s hs fs q l = q ((text_beq_iff s []).0 (sym (last_empty-snoc segs s) ∙ l))

  mutual
    unfolding build

    build-IsSound :
        {n : Node}
        → IsWellFormed n
        → (segs : List Text) (m : StaticRoutes) → descend segs root ≡ some n
        → All (Lacks slash) segs
        → (last_empty segs ≡ true → taken (handlers n) (flags n) ≡ false)
        → IsSound root m
        → IsSound root (build (render segs) n m)
    build-IsSound (wf_node {hs} {fs} {ss} {ps} {w} u ws) segs m d a q h =
        build_statics-IsSound ws segs (node hs fs ss ps w) (add_node (render segs) hs fs m) d
          (λ k c g. g) a (add_node-IsSound segs hs fs ss ps w m d a q u h)

    build_statics-IsSound :
        {ss : Statics}
        → AreWellFormed ss
        → (segs : List Text) (parent : Node) (m : StaticRoutes) → descend segs root ≡ some parent
        → ((k : Text) (c : Node)
            → get_static k ss ≡ some c
            → get_static k (statics parent) ≡ some c)
        → All (Lacks slash) segs
        → IsSound root m
        → IsSound root (build_statics (render segs) ss m)
    build_statics-IsSound wf_none segs parent m d within a h = h
    build_statics-IsSound (wf_more {s} {n} {rest} (lacks, q, new) wf ws) segs parent m d within a
          h =
        subst
          (λ (prefix : Text). IsSound root (build prefix n (build_statics (render segs) rest m)))
          (render-snoc segs s)
          (build-IsSound wf (segs ++ s ∷ []) (build_statics (render segs) rest m)
            (descend-snoc segs root parent n s d (within s n (static_first s n rest)))
            (All-append (Lacks slash) segs (s ∷ []) a (lacks, tt))
            (slashed segs s (handlers n) (flags n) q)
            (build_statics-IsSound ws segs parent m d
              (λ k c g. within k c (static_later s k n c rest new g)) a h))

-- The static map changes nothing: on a well-formed tree, `match` is the match on the tree, with the
-- regex routes behind it, for every method and path.
pub match-eq-match_tree :
    (root : Node) (match_regex : Text → Text → Matched) (method path : Text)
    → IsWellFormed root
    → match root match_regex method path
      ≡ or_regex (match_tree root method path) (match_regex method path)
unfolding match build_static_routes descend last_empty get render
match-eq-match_tree root match_regex method path wf =
    let sound = build-IsSound root wf [] [] refl tt (λ e. cc) (λ method' path' info g. cc) in
    elim (Option-cases (get (method, path) (build_static_routes root))) [
      | inl missing ↦ rw missing refl
      | inr (info, g) ↦ rw (g, sound method path info g) refl
    ]
