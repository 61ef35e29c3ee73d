-- ===== src/Routing/Match/Accepts.antt =====
-- What it is for a node of the tree to accept a path, as a relation: any choice among the branches
-- of each node; and `_match_node` of src/veloce/routing/router.py against it.
use mathlib.Core.Path.{subst, sym, ◌∙◌}
use mathlib.Core.Option.{some-injective}
use veloce.Prelude.{
  is_empty, ◌≡◌, refl, ap, true, false, Option, none, some, List, [], ◌∷◌, inl, inr, ◌⊎◌,
}
use veloce.Text.{Text, text_eq}
use veloce.Text.Split.{join}
use veloce.Routing.Path.{slash}
use veloce.Routing.Node.{
  Value, Param, Node, node, Params, no_params, param, Wildcard, no_wildcard, wildcard, get_static,
  handlers, statics, params, wildcard_child,
}
use veloce.Routing.Match.{
  PathParams, hit, miss, key_error, Walk, no_branch, is_single, at_end, try_wildcard, walk_static,
  match_node,
}
use veloce.Routing.Match.Branch.{
  OneParam, AnyParam, Sound, plain, to_end, this, later, or_else-Sound, Sound-if, try_params-Sound,
}

-- A parameter child of a node.
pub data Child (p : Param) (n : Node) : Params → Type 0 where
  here : {more : Params} → Child p n (param p n more)
  there : {q : Param} {m : Node} {more : Params} → Child p n more → Child p n (param q m more)

-- `Accepts leaf n segs`: from `n` the segments can lead to `leaf`.
pub data Accepts (leaf : Node) : Node → List Text → Type 0 where
  done : is_empty (handlers leaf) ≡ false → Accepts leaf leaf []
  by_static :
      {n c : Node} {seg : Text} {rest : List Text}
      → get_static seg (statics n) ≡ some c
      → Accepts leaf c rest
      → Accepts leaf n (seg ∷ rest)
  by_param :
      {n c : Node} {seg : Text} {rest : List Text} {p : Param} {v : Value}
      → Child p c (params n)
      → p.converter.greedy ≡ false
      → p.converter.match seg ≡ some v
      → Accepts leaf c rest
      → Accepts leaf n (seg ∷ rest)
  by_greedy :
      {n : Node} {seg : Text} {rest : List Text} {p : Param} {v : Value}
      → Child p leaf (params n)
      → p.converter.greedy ≡ true
      → p.converter.match (join slash (seg ∷ rest)) ≡ some v
      → is_empty (handlers leaf) ≡ false
      → Accepts leaf n (seg ∷ rest)
  by_wildcard :
      {n : Node} {seg : Text} {rest : List Text}
      → wildcard_child n ≡ wildcard leaf
      → Accepts leaf n (seg ∷ rest)

-- The relation, branch by branch, as the walk takes them.
abbrev ByStatic : Node → Node → List Text → Text → Type 0
ByStatic l n rest seg = (c : Node) × (get_static seg (statics n) ≡ some c) × Accepts l c rest

abbrev ByParams : Node → Params → List Text → Text → Type 0
ByParams l qs rest seg = AnyParam (λ l' c. Accepts l' c rest) seg rest l qs

Child-AnyParam :
    {A : Node → Node → Type 0} {seg : Text} {rest : List Text} {p : Param} {c l : Node}
    {qs : Params}
    → Child p c qs
    → OneParam A seg rest p c l
    → AnyParam A seg rest l qs
Child-AnyParam here a = this a
Child-AnyParam (there h) a = later (Child-AnyParam h a)

-- A branch through a child is a derivation at the node.
One-Accepts :
    {p : Param} {c l : Node} {rest : List Text} (n : Node) (seg : Text)
    → Child p c (params n)
    → OneParam (λ l' c'. Accepts l' c' rest) seg rest p c l
    → Accepts l n (seg ∷ rest)
One-Accepts n seg h (plain g m a) = by_param h g m a
One-Accepts {p} {l} n seg h (to_end g m f e) =
    by_greedy (subst (λ x. Child p x (params n)) e h) g m
      (subst (λ x. is_empty (handlers x) ≡ false) e f)

Any-Accepts :
    (n : Node) (seg : Text) {l : Node} {rest : List Text} {qs : Params}
    → ((p : Param) (c : Node) → Child p c qs → Child p c (params n))
    → ByParams l qs rest seg
    → Accepts l n (seg ∷ rest)
Any-Accepts n seg inside (this {p = p} {c = c} a) = One-Accepts n seg (inside p c here) a
Any-Accepts n seg inside (later a) = Any-Accepts n seg (λ p c h. inside p c (there h)) a

abbrev ByWildcard : Node → Wildcard → Type 0
ByWildcard l w = w ≡ wildcard l

Accepts-inv :
    {l n : Node} {seg : Text} {rest : List Text}
    → Accepts l n (seg ∷ rest)
    → ByStatic l n rest seg ⊎ (ByParams l (params n) rest seg ⊎ ByWildcard l (wildcard_child n))
Accepts-inv (by_static {c = c} e a) = inl (c, e, a)
Accepts-inv (by_param h g m a) = inr (inl (Child-AnyParam h (plain g m a)))
Accepts-inv (by_greedy h g m f) = inr (inl (Child-AnyParam h (to_end g m f refl)))
Accepts-inv (by_wildcard e) = inr (inr e)

try_wildcard-Sound :
    (w : Wildcard) (segs : List Text) (ps : PathParams)
    → Sound (λ l. ByWildcard l w) (try_wildcard w segs ps)
unfolding try_wildcard
try_wildcard-Sound no_wildcard segs ps = λ l e. cc
try_wildcard-Sound (wildcard n) segs ps = refl

Accepts-nil :
    {l n : Node} {segs : List Text}
    → Accepts l n segs
    → segs ≡ []
    → (n ≡ l) × (is_empty (handlers l) ≡ false)
Accepts-nil (done f) e = (refl, f)
Accepts-nil (by_static e' a) e = absurd (cc)
Accepts-nil (by_param h g m a) e = absurd (cc)
Accepts-nil (by_greedy h g m f) e = absurd (cc)
Accepts-nil (by_wildcard e') e = absurd (cc)

at_end-Sound : (n : Node) (ps : PathParams) → Sound (λ l. Accepts l n []) (at_end n ps)
unfolding at_end
at_end-Sound n ps =
    Sound-if (λ l. Accepts l n []) (is_empty (handlers n)) _ _
      (λ t l a. let (e, f) = Accepts-nil a refl in cc (ap handlers e)) (λ f. done f)

walk_static-Sound :
    (n : Node) (seg : Text) (rest : List Text) (walk : Node → PathParams → Walk)
    → ((n : Node) (ps : PathParams) → Sound (λ l. Accepts l n rest) (walk n ps))
    → (o : Option Node) (ps : PathParams) → get_static seg (statics n) ≡ o
    → Sound (λ l. ByStatic l n rest seg) (walk_static walk o ps)
walk_static-Sound n seg rest walk h none ps e = λ l (c, e', a). cc
walk_static-Sound n seg rest walk h (some c) ps e = go (walk c ps) (h c ps)
  where
    go : (w : Walk) → Sound (λ l. Accepts l c rest) w → Sound (λ l. ByStatic l n rest seg) w
    go (hit l, ps') a = (c, e, a)
    go (miss, ps') a =
        λ l (c', e', a'). a l (subst (λ x. Accepts l x rest) (some-injective c' c (sym e' ∙ e)) a')
    go (key_error, ps') a = tt

no_branch-cases :
    (qs : Params) (w : Wildcard) → no_branch qs w ≡ true → (qs ≡ no_params) × (w ≡ no_wildcard)
no_branch-cases no_params no_wildcard h = (refl, refl)
no_branch-cases no_params (wildcard n) h = cc
no_branch-cases (param p c qs) w h = cc

only_static :
    {S P W : Type 0} (qs : Params) (w : Wildcard)
    → no_branch qs w ≡ true
    → S ⊎ (P ⊎ W)
    → (P → qs ≡ no_params → ⊥)
    → (W → w ≡ no_wildcard → ⊥)
    → S
only_static qs w t (inl s) hp hw = s
only_static qs w t (inr (inl p)) hp hw = absurd (hp p (no_branch-cases qs w t).0)
only_static qs w t (inr (inr e)) hp hw = absurd (hw e (no_branch-cases qs w t).1)

no_params-AnyParam :
    {A : Node → Node → Type 0} {seg : Text} {rest : List Text} {l : Node} {qs : Params}
    → AnyParam A seg rest l qs
    → qs ≡ no_params
    → ⊥
no_params-AnyParam (this a) e = cc
no_params-AnyParam (later a) e = cc

Sound-map :
    (P R : Node → Type 0) (w : Walk)
    → ((l : Node) → P l → R l)
    → ((l : Node) → R l → P l)
    → Sound P w
    → Sound R w
Sound-map P R (hit l, ps) to from h = to l h
Sound-map P R (miss, ps) to from h = λ l r. h l (from l r)
Sound-map P R (key_error, ps) to from h = tt

-- The walk decides acceptance: a node that it returns is reached by some choice of branches, and
-- when it returns none, no choice of branches reaches a node. (It may also raise `KeyError`.)
pub match_node-Sound :
    (segs : List Text) (n : Node) (ps : PathParams)
    → Sound (λ l. Accepts l n segs) (match_node segs n ps)
unfolding match_node
match_node-Sound [] n ps = at_end-Sound n ps
match_node-Sound (seg ∷ rest) (node hs fs ss qs w) ps =
    let n = node hs fs ss qs w in
    let here = walk_static (match_node rest) (get_static seg ss) ps in
    let static_part =
      walk_static-Sound n seg rest (match_node rest) (match_node-Sound rest) (get_static seg ss) ps
        refl in
    Sound-if (λ l. Accepts l n (seg ∷ rest)) (no_branch qs w) _ _
      (λ t.
        Sound-map (λ l. ByStatic l n rest seg) (λ l. Accepts l n (seg ∷ rest)) here
          (λ l (c, e, a). by_static e a)
          (λ l a. only_static qs w t (Accepts-inv a) no_params-AnyParam (λ e e'. cc)) static_part)
      (λ f.
        or_else-Sound {P = λ l. ByStatic l n rest seg}
          {Q = λ l. ByParams l qs rest seg ⊎ ByWildcard l w} {R = λ l. Accepts l n (seg ∷ rest)}
          here _ static_part
          (λ ps'.
            try_params-Sound (λ l' c. Accepts l' c rest) seg rest (match_node rest)
              (match_node-Sound rest) (is_single qs) (λ l. ByWildcard l w) qs
              (try_wildcard w (seg ∷ rest)) ps' (try_wildcard-Sound w (seg ∷ rest)))
          (λ l (c, e, a). by_static e a)
          (λ l. elim [ inl a ↦ Any-Accepts n seg (λ p c h. h) a | inr e ↦ by_wildcard e ])
          (λ l a. Accepts-inv a))
