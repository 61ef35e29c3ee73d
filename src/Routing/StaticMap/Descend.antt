-- ===== src/Routing/StaticMap/Descend.antt =====
-- Well-formed trees, and the walk of a literal path of src/veloce/routing/router.py on them.
use mathlib.Core.Option.{some-injective}
use mathlib.Core.List.{append-nil, append_assoc}
use veloce.Prelude.{
  is_empty, false, not, ◌&&◌, ◌≡◌, refl, sym, ap, ◌∙◌, Option, none, some, List, [], ◌∷◌, ◌++◌,
  ◌==◌, arith, Bool-cases, Option-cases, inl, inr,
}
use veloce.Prelude.Dict.{get, has}
use veloce.Prelude.Dict.Unique.{IsUnique}
use veloce.Text.{Text, text_eq, text_beq, text_beq_iff, text_beq_refl, is_upper_text, upper}
use veloce.Text.Split.{Lacks}
use veloce.Routing.Path.{slash}
use veloce.Routing.Path.Laws.{render, last_empty}
use veloce.Routing.Node.{
  RouteInfo, Handlers, Flags, Node, node, Statics, no_statics, static, Params, Wildcard, get_static,
  handlers, statics, flags,
}
use veloce.Routing.Match.{
  PathParams, hit, no_branch, at_end, head, get_method, match_node, handler_for,
}
use veloce.Routing.StaticMap.{key_eq}

-- A node whose segment is empty holds handlers for the slashed form alone.
abbrev pub IsSlashed : Text → Handlers → Flags → Type 0
IsSlashed seg hs fs =
    seg ≡ [] → (not (is_empty hs) && not fs.trailing_slash && not fs.tolerant_slash) ≡ false

abbrev pub SegmentOk : Text → Node → Statics → Type 0
SegmentOk s n rest = Lacks slash s × IsSlashed s (handlers n) (flags n) × (get_static s rest ≡ none)

-- What `add_route` keeps of the literal part of a tree: no segment twice, none with a slash in it.
mutual
  pub data IsWellFormed : Node → Type 0 where
    wf_node :
        {hs : Handlers} {fs : Flags} {ss : Statics} {ps : Params} {w : Wildcard}
        → IsUnique hs
        → AreWellFormed ss
        → IsWellFormed (node hs fs ss ps w)

  pub data AreWellFormed : Statics → Type 0 where
    wf_none : AreWellFormed no_statics
    wf_more :
        {s : Text} {n : Node} {rest : Statics}
        → SegmentOk s n rest
        → IsWellFormed n
        → AreWellFormed rest
        → AreWellFormed (static s n rest)

abbrev pub bind_node : Option Node → (Node → Option Node) → Option Node
bind_node none f = none
bind_node (some c) f = f c

-- The node that literal segments lead to.
unfoldable pub descend : List Text → Node → Option Node
descend [] n = some n
descend (s ∷ segs) (node hs fs ss ps w) = bind_node (get_static s ss) (descend segs)

-- The static branch comes first, so a literal path walks to its own node whatever else branches.
pub match_node-descend :
    (segs : List Text) (root n : Node) (ps : PathParams)
    → descend segs root ≡ some n
    → is_empty (handlers n) ≡ false
    → match_node segs root ps ≡ (hit n, ps)
unfolding match_node descend
match_node-descend [] root n ps e h = rw (some-injective root n e) (unfold at_end in rw h refl)
match_node-descend (s ∷ segs) (node hs fs ss qs w) n ps e h =
    elim (Option-cases (get_static s ss)) [
      | inl m ↦ let e' = rw m at e in cc (e')
      | inr (c, m) ↦
          let e' : descend segs c ≡ some n = rw m at e in
          rw (m, match_node-descend segs c n ps e' h)
            (elim (Bool-cases (no_branch qs w)) [ inl t ↦ rw t refl | inr f ↦ rw f refl ])
    ]

-- One more segment.
pub descend-snoc :
    (segs : List Text) (root n c : Node) (s : Text)
    → descend segs root ≡ some n
    → get_static s (statics n) ≡ some c
    → descend (segs ++ s ∷ []) root ≡ some c
unfolding descend
descend-snoc [] (node hs fs ss ps w) n c s e g =
    let q : statics (node hs fs ss ps w) ≡ statics n = ap statics (some-injective _ n e) in
    rw (q, g) refl
descend-snoc (t ∷ segs) (node hs fs ss ps w) n c s e g = elim (Option-cases (get_static t ss)) [
  | inl m ↦ let e' = rw m at e in cc (e')
  | inr (d, m) ↦
      let e' : descend segs d ≡ some n = rw m at e in rw m (descend-snoc segs d n c s e' g)
]

pub render-snoc :
    (segs : List Text) (s : Text) → render (segs ++ s ∷ []) ≡ render segs ++ (slash ∷ s)
unfolding render
render-snoc [] s = ap (◌∷◌ slash) (append-nil s)
render-snoc (t ∷ segs) s =
    ap (λ (x : Text). slash ∷ (t ++ x)) (render-snoc segs s)
    ∙ ap (◌∷◌ slash) (sym (append_assoc t (render segs) (slash ∷ s)))

pub last_empty-snoc : (segs : List Text) (s : Text) → last_empty (segs ++ s ∷ []) ≡ (s == [])
unfolding last_empty
last_empty-snoc [] s = refl
last_empty-snoc (t ∷ []) s = refl
last_empty-snoc (t ∷ u ∷ segs) s = last_empty-snoc (u ∷ segs) s

-- The handler of a listed method is found as it is written; that of HEAD may be the one of GET.
pub handler_for_listed :
    (method : Text) (hs : Handlers) (info : RouteInfo)
    → get method hs ≡ some info
    → handler_for method hs ≡ some info
unfolding handler_for
handler_for_listed method hs info h = rw h refl

pub handler_for-head :
    (hs : Handlers) (info : RouteInfo)
    → get head hs ≡ none
    → get get_method hs ≡ some info
    → handler_for head hs ≡ some info
unfolding handler_for is_upper_text upper text_beq
handler_for-head hs info h g = rw (h, g) refl

pub has-get : (k : Text) (hs : Handlers) → has k hs ≡ false → get k hs ≡ none
unfolding has get
has-get k [] h = refl
has-get k ((j, v) ∷ hs) h = ground (arith, has-get k hs)

pub get_first : (k : Text) (info : RouteInfo) (hs : Handlers) → get k ((k, info) ∷ hs) ≡ some info
unfolding get
get_first k info hs = rw (text_beq_refl k) refl

pub get-later :
    (j k : Text) (info info' : RouteInfo) (hs : Handlers)
    → get j hs ≡ none
    → get k hs ≡ some info'
    → get k ((j, info) ∷ hs) ≡ some info'
get-later j k info info' hs new g = elim (Bool-cases (j == k)) [
  | inl t ↦
      let e : get j hs ≡ get k hs = ap (λ (x : Text). get x hs) ((text_beq_iff j k).0 t) in cc (e)
  | inr f ↦ unfold get in rw f g
]
