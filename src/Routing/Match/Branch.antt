-- ===== src/Routing/Match/Branch.antt =====
-- Walks of `_match_node` of src/veloce/routing/router.py through one parameter child, or one of them.
use veloce.Prelude.{
  is_empty, ◌≡◌, refl, Bool, true, false, Option, none, some, List, ◌∷◌, if◌then◌else◌, Bool-cases,
  inl, inr, ◌⊎◌,
}
use veloce.Prelude.Dict.{has, put}
use veloce.Text.{Text, text_eq}
use veloce.Text.Split.{join}
use veloce.Routing.Path.{slash}
use veloce.Routing.Node.{Value, Param, Node, Params, no_params, param, handlers}
use veloce.Routing.Match.{
  PathParams, hit, miss, key_error, Walk, rollback, or_else, try_greedy, try_plain, try_param,
  try_params,
}

-- A statement about how a walk ended.
abbrev pub Sound : (Node → Type 0) → Walk → Type 0
Sound P (hit l, ps) = P l
Sound P (miss, ps) = (l : Node) → P l → ⊥
Sound P (key_error, ps) = Unit

-- A branch through one parameter child, where `A l c` is what follows in its subtree.
pub data OneParam (A : Node → Node → Type 0) (seg : Text) (rest : List Text) (p : Param)
    (c l : Node) : Type 0 where
  plain :
      {v : Value}
      → p.converter.greedy ≡ false
      → p.converter.match seg ≡ some v
      → A l c
      → OneParam A seg rest p c l
  to_end :
      {v : Value}
      → p.converter.greedy ≡ true
      → p.converter.match (join slash (seg ∷ rest)) ≡ some v
      → is_empty (handlers c) ≡ false
      → c ≡ l
      → OneParam A seg rest p c l

pub data AnyParam (A : Node → Node → Type 0) (seg : Text) (rest : List Text) (l : Node)
    : Params → Type 0 where
  this :
      {p : Param} {c : Node} {more : Params}
      → OneParam A seg rest p c l
      → AnyParam A seg rest l (param p c more)
  later :
      {p : Param} {c : Node} {more : Params}
      → AnyParam A seg rest l more
      → AnyParam A seg rest l (param p c more)

pub or_else-Sound :
    {P Q R : Node → Type 0} (w : Walk) (k : PathParams → Walk)
    → Sound P w
    → ((ps : PathParams) → Sound Q (k ps))
    → ((l : Node) → P l → R l)
    → ((l : Node) → Q l → R l)
    → ((l : Node) → R l → P l ⊎ Q l)
    → Sound R (or_else w k)
or_else-Sound (hit l, ps) k hp hq pr qr split = pr l hp
or_else-Sound (key_error, ps) k hp hq pr qr split = tt
or_else-Sound {Q} {R} (miss, ps) k hp hq pr qr split = go (k ps) (hq ps)
  where
    go : (w : Walk) → Sound Q w → Sound R w
    go (hit l, ps') h = qr l h
    go (key_error, ps') h = tt
    go (miss, ps') h = λ l r. elim (split l r) [ inl p ↦ hp l p | inr q ↦ h l q ]

rollback-Sound :
    {P : Node → Type 0} (single : Bool) (pname : Text) (ps : PathParams)
    → ((l : Node) → P l → ⊥)
    → Sound P (rollback single pname ps)
unfolding rollback
rollback-Sound true pname ps h = h
rollback-Sound {P} false pname ps h = elim (Bool-cases (has pname ps)) [
  | inl t ↦ rw t h
  | inr f ↦ rw f tt
]

pub Sound-if :
    (P : Node → Type 0) (b : Bool) (x y : Walk)
    → (b ≡ true → Sound P x)
    → (b ≡ false → Sound P y)
    → Sound P (if b then x else y)
Sound-if P true x y hx hy = hx refl
Sound-if P false x y hx hy = hy refl

-- What a branch through a child says when its converter refuses, and which kind of branch it is.
module _ {A : Node → Node → Type 0} {seg : Text} {rest : List Text} {p : Param} {c l : Node} where
  one_of_greedy :
      OneParam A seg rest p c l
      → p.converter.greedy ≡ true
      → p.converter.match (join slash (seg ∷ rest)) ≡ none
      → ⊥
  one_of_greedy (plain g m a) h e = cc
  one_of_greedy (to_end g m f q) h e = cc

  empty_of_greedy :
      OneParam A seg rest p c l → p.converter.greedy ≡ true → is_empty (handlers c) ≡ true → ⊥
  empty_of_greedy (plain g m a) h e = cc
  empty_of_greedy (to_end g m f q) h e = cc

  one_of_plain :
      OneParam A seg rest p c l → p.converter.greedy ≡ false → p.converter.match seg ≡ none → ⊥
  one_of_plain (plain g m a) h e = cc
  one_of_plain (to_end g m f q) h e = cc

  follows : OneParam A seg rest p c l → p.converter.greedy ≡ false → A l c
  follows (plain g m a) h = a
  follows (to_end g m f q) h = absurd (cc)

module _ {A : Node → Node → Type 0} {seg : Text} {rest : List Text} {l : Node} {L : Type 0} where
  no_AnyParam : AnyParam A seg rest l no_params ⊎ L → ⊥ ⊎ L
  no_AnyParam (inl a) = elim a [ ]
  no_AnyParam (inr q) = inr q

  later_or :
      {p : Param} {c : Node} {more : Params}
      → AnyParam A seg rest l more ⊎ L
      → AnyParam A seg rest l (param p c more) ⊎ L
  later_or (inl a) = inl (later a)
  later_or (inr q) = inr q

  first_or :
      {p : Param} {c : Node} {more : Params}
      → AnyParam A seg rest l (param p c more) ⊎ L
      → OneParam A seg rest p c l ⊎ (AnyParam A seg rest l more ⊎ L)
  first_or (inl (this a)) = inl a
  first_or (inl (later a)) = inr (inl a)
  first_or (inr q) = inr (inr q)

module _ (A : Node → Node → Type 0) (seg : Text) (rest : List Text)
    (walk : Node → PathParams → Walk)
    (walk-Sound : (n : Node) (ps : PathParams) → Sound (λ l. A l n) (walk n ps))
    (single : Bool) where
  try_greedy-Sound :
      (p : Param) (c : Node) (m : Option Value) (ps : PathParams)
      → p.converter.greedy ≡ true
      → p.converter.match (join slash (seg ∷ rest)) ≡ m
      → Sound (OneParam A seg rest p c) (try_greedy p.name c m ps)
  unfolding try_greedy
  try_greedy-Sound p c none ps g e = λ l b. one_of_greedy b g e
  try_greedy-Sound p c (some v) ps g e =
      Sound-if (OneParam A seg rest p c) (is_empty (handlers c)) _ _
        (λ t l b. empty_of_greedy b g t) (λ f. to_end g e f refl)

  try_plain-Sound :
      (p : Param) (c : Node) (m : Option Value) (ps : PathParams)
      → p.converter.greedy ≡ false
      → p.converter.match seg ≡ m
      → Sound (OneParam A seg rest p c) (try_plain walk single p.name c m ps)
  unfolding try_plain
  try_plain-Sound p c none ps g e = λ l b. one_of_plain b g e
  try_plain-Sound p c (some v) ps g e =
      or_else-Sound {Q = λ l. ⊥} (walk c (put p.name v ps)) (rollback single p.name)
        (walk-Sound c (put p.name v ps)) (λ ps'. rollback-Sound single p.name ps' (λ l b. b))
        (λ l a. plain g e a) (λ l b. absurd b) (λ l b. inl (follows b g))

  try_param-Sound :
      (p : Param) (c : Node) (ps : PathParams)
      → Sound (OneParam A seg rest p c) (try_param walk single seg rest p c ps)
  unfolding try_param
  try_param-Sound p c ps =
      Sound-if (OneParam A seg rest p c) p.converter.greedy _ _
        (λ g. try_greedy-Sound p c (p.converter.match (join slash (seg ∷ rest))) ps g refl)
        (λ g. try_plain-Sound p c (p.converter.match seg) ps g refl)

  pub try_params-Sound :
      (L : Node → Type 0) (qs : Params) (last : PathParams → Walk) (ps : PathParams)
      → ((ps : PathParams) → Sound L (last ps))
      → Sound (λ l. AnyParam A seg rest l qs ⊎ L l) (try_params walk single seg rest qs last ps)
  unfolding try_params
  try_params-Sound L no_params last ps h =
      or_else-Sound {P = λ l. ⊥} {Q = L} (miss, ps) last (λ l b. b) h (λ l b. absurd b)
        (λ l q. inr q) (λ l r. no_AnyParam r)
  try_params-Sound L (param p c more) last ps h =
      or_else-Sound (try_param walk single seg rest p c ps)
        (try_params walk single seg rest more last) (try_param-Sound p c ps)
        (λ ps'. try_params-Sound L more last ps' h) (λ l a. inl (this a)) (λ l r. later_or r)
        (λ l r. first_or r)
