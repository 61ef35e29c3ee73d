-- ===== src/Routing/Insert/WellFormed.antt =====
-- Well-formed trees, and `_insert_path_into_tree` of src/veloce/routing/router.py on them.
use mathlib.Core.Path.{subst}
use mathlib.Core.Option.{some-injective}
use veloce.Prelude.{
  true, false, ◌≡◌, refl, sym, ◌∙◌, Option, none, some, List, [], ◌∷◌, ◌==◌, arith, All, Bool-cases,
  Option-cases, inl, inr,
}
use veloce.Text.{Text, text_eq, text_beq, text_beq_iff}
use veloce.Text.Split.{Lacks}
use veloce.Routing.Path.{slash}
use veloce.Routing.Path.Laws.{last_empty}
use veloce.Routing.Node.{
  Handlers, Flags, Node, node, Statics, Params, Wildcard, no_wildcard, wildcard, new_node,
  get_static, put_static, get-put_static, handlers, statics, flags,
}
use veloce.Routing.Insert.{
  Segment, literal, star, placeholder, Inserted, insert, insert_segment, or_new,
}
use veloce.Routing.StaticMap.Sound.{taken}
use veloce.Routing.StaticMap.Descend.{
  IsWellFormed, wf_node, AreWellFormed, wf_none, wf_more, IsSlashed,
}

get_static-IsWellFormed :
    {ss : Statics}
    → AreWellFormed ss
    → (s : Text) (c : Node) → get_static s ss ≡ some c
    → IsWellFormed c × Lacks slash s × IsSlashed s (handlers c) (flags c)
unfolding get_static
get_static-IsWellFormed wf_none s c g = cc
get_static-IsWellFormed (wf_more {s = t} {n} {rest} (lacks, q, new) wf ws) s c g =
    elim (Bool-cases (t == s)) [
      | inl e ↦
          let same : n ≡ c = some-injective n c (rw e at g) in
          let name : t ≡ s = (text_beq_iff t s).0 e in
          (
            subst IsWellFormed same wf,
            subst (Lacks slash) name lacks,
            subst (λ (x : Node). IsSlashed s (handlers x) (flags x)) same (λ h. q (name ∙ h)),
          )
      | inr f ↦ get_static-IsWellFormed ws s c (rw f at g)
    ]

pub new_node-IsWellFormed : IsWellFormed new_node
new_node-IsWellFormed = wf_node tt wf_none

-- Replacing or adding one child.
put_static-AreWellFormed :
    {ss : Statics}
    → AreWellFormed ss
    → (s : Text) (c : Node) → Lacks slash s
    → IsSlashed s (handlers c) (flags c)
    → IsWellFormed c
    → AreWellFormed (put_static s c ss)
unfolding put_static
put_static-AreWellFormed wf_none s c lacks q wf =
    unfold get_static in wf_more (lacks, q, refl) wf wf_none
put_static-AreWellFormed (wf_more {s = t} {n} {rest} (lacks', q', new) wf' ws) s c lacks q wf =
    elim (Bool-cases (t == s)) [
      | inl e ↦ rw e (wf_more (lacks', (λ h. q ((sym ((text_beq_iff t s).0 e)) ∙ h)), new) wf ws)
      | inr f ↦
          let apart : (s == t) ≡ false = ground (arith, text_beq_iff t s, text_beq_iff s t) in
          let still : get_static t (put_static s c rest) ≡ none =
            rw (get-put_static s t c rest, apart) new in
          rw f (wf_more (lacks', q', still) wf' (put_static-AreWellFormed ws s c lacks q wf))
    ]

-- An insertion below a node leaves its own handlers and flags alone.
insert_segment-keeps :
    (parse : Text → Option Segment) (leaf : Node → Inserted) (walk : Node → Inserted)
    (rest : List Text) (o : Option Segment) (n : Node)
    → let n' = (insert_segment parse leaf walk rest o n).0 in
      (handlers n' ≡ handlers n) × (flags n' ≡ flags n)
unfolding insert_segment
insert_segment-keeps parse leaf walk rest none n = (refl, refl)
insert_segment-keeps parse leaf walk rest (some (literal s)) (node hs fs ss ps w) = (refl, refl)
insert_segment-keeps parse leaf walk rest (some star) (node hs fs ss ps no_wildcard) = (refl, refl)
insert_segment-keeps parse leaf walk rest (some star) (node hs fs ss ps (wildcard n)) = (refl, refl)
insert_segment-keeps parse leaf walk rest (some (placeholder p)) (node hs fs ss ps w) = (refl, refl)

IsWellFormed-statics : {n : Node} → IsWellFormed n → AreWellFormed (statics n)
IsWellFormed-statics (wf_node u ws) = ws

-- New statics under a node, and anything at all under its parameters and its wildcard.
IsWellFormed-with :
    {n : Node}
    → IsWellFormed n
    → {ss : Statics} → AreWellFormed ss
    → (ps : Params) (w : Wildcard) → IsWellFormed (node (handlers n) (flags n) ss ps w)
IsWellFormed-with (wf_node u ws') ws ps w = wf_node u ws

kept :
    (n n' : Node) {seg : Text}
    → (handlers n' ≡ handlers n) × (flags n' ≡ flags n)
    → IsSlashed seg (handlers n) (flags n)
    → IsSlashed seg (handlers n') (flags n')
kept n n' (eh, ef) q h =
    subst (λ (hs : Handlers). taken hs (flags n') ≡ false) (sym eh)
      (subst (λ (fs : Flags). taken (handlers n) fs ≡ false) (sym ef) (q h))

module _ (parse : Text → Option Segment) (leaf : Node → Inserted)
    (literal_is : (seg s : Text) → parse seg ≡ some (literal s) → seg ≡ s)
    (leaf-IsWellFormed : (n : Node) → IsWellFormed n → IsWellFormed (leaf n).0) where
  -- What a walk of the remaining segments does to the child that it starts from.
  abbrev GoodWalk : (Node → Inserted) → Text → Type 0
  GoodWalk walk seg =
      (c : Node)
      → IsWellFormed c
      → IsSlashed seg (handlers c) (flags c)
      → IsWellFormed (walk c).0 × IsSlashed seg (handlers (walk c).0) (flags (walk c).0)

  or_new-good :
      {ss : Statics}
      → AreWellFormed ss
      → (s : Text)
      → let c = or_new (get_static s ss) in IsWellFormed c × IsSlashed s (handlers c) (flags c)
  or_new-good {ss} ws s = elim (Option-cases (get_static s ss)) [
    | inl e ↦ rw e (new_node-IsWellFormed, λ h. refl)
    | inr (c, e) ↦ let (wf, _, q) = get_static-IsWellFormed ws s c e in rw e (wf, q)
  ]

  insert_segment-IsWellFormed :
      (walk : Node → Inserted) (rest : List Text) (seg : Text) (o : Option Segment) (n : Node)
      → parse seg ≡ o
      → Lacks slash seg
      → GoodWalk walk seg
      → IsWellFormed n
      → IsWellFormed (insert_segment parse leaf walk rest o n).0
  unfolding insert_segment
  insert_segment-IsWellFormed walk rest seg none n e lacks good wf = wf
  insert_segment-IsWellFormed walk rest seg (some (literal s)) (node hs fs ss ps w) e lacks good
        wf =
      let same = literal_is seg s e in
      let (c, q) = or_new-good (IsWellFormed-statics wf) s in
      let (c', q') = subst (GoodWalk walk) same good (or_new (get_static s ss)) c q in
      IsWellFormed-with wf
        (put_static-AreWellFormed (IsWellFormed-statics wf) s _ (subst (Lacks slash) same lacks) q'
          c')
        ps w
  insert_segment-IsWellFormed walk rest seg (some star) (node hs fs ss ps no_wildcard) e lacks good
        wf =
      IsWellFormed-with wf (IsWellFormed-statics wf) ps _
  insert_segment-IsWellFormed walk rest seg (some star) (node hs fs ss ps (wildcard n)) e lacks good
        wf =
      IsWellFormed-with wf (IsWellFormed-statics wf) ps _
  insert_segment-IsWellFormed walk rest seg (some (placeholder p)) (node hs fs ss ps w) e lacks good
        wf =
      IsWellFormed-with wf (IsWellFormed-statics wf) _ w

  pub insert-IsWellFormed :
      (segs : List Text) (n : Node)
      → (last_empty segs ≡ true
          → (c : Node) → taken (handlers (leaf c).0) (flags (leaf c).0) ≡ false)
      → All (Lacks slash) segs
      → IsWellFormed n
      → IsWellFormed (insert parse leaf segs n).0
  unfolding insert text_beq
  insert-IsWellFormed [] n marked a wf = leaf-IsWellFormed n wf
  insert-IsWellFormed (s ∷ []) n marked (lacks, a) wf =
      insert_segment-IsWellFormed (insert parse leaf []) [] s (parse s) n refl lacks
        (λ c wf' q. (leaf-IsWellFormed c wf', λ h. marked (unfold last_empty in rw h refl) c)) wf
  insert-IsWellFormed (s ∷ t ∷ rest) n marked (lacks, a) wf =
      insert_segment-IsWellFormed (insert parse leaf (t ∷ rest)) (t ∷ rest) s (parse s) n refl lacks
        (λ c wf' q. (
          insert-IsWellFormed (t ∷ rest) c (unfold last_empty in marked) a wf',
          kept c (insert_segment parse leaf (insert parse leaf rest) rest (parse t) c).0
              (insert_segment-keeps parse leaf (insert parse leaf rest) rest (parse t) c) q,
        ))
        wf
